-- ===== src/Ipset/Prefix/Bounds.antt =====
-- The addresses of an IPv4 prefix.
use native.Mathlib.Nat.{mul-div_cancel, div-mul-le_self, le-div_iff_mul-le}
use native.Mathlib.Decide.{dec_le}
use dns_stack.Prelude.{
  ℕ, suc, ◌+◌, ◌-◌, ◌*◌, ◌/◌, ◌%◌, ◌^◌, ◌≤◌, ◌<◌, ◌≡◌, refl, ap, ◌↔◌, true, false, some, ltb, leb,
  ◌==◌, arith, u32_mod, le→leb, Bool-ext, ==_iff,
}
use dns_stack.Prelude.Powers.{pow_pos, aligned_room}
use dns_stack.Netip.{v4, prefix_from, masked, clear_low}
use dns_stack.Spans.{Range, IsValid, IsWord, within}
use dns_stack.Ipset.Prefix.{low_mask, prefix_range, prefix_bounds}
use dns_stack.Ipset.Prefix.Tiles.{block_end}

-- The addresses that have the first `bits` bits of `a`.
abbrev pub block : ℕ → ℕ → Range
block a bits =
    let lo = clear_low (32 - bits) a in
    record { lo = lo; hi = (lo + low_mask (32 - bits)) % u32_mod }

pub clear_low-clear_low : (k a : ℕ) → clear_low k (clear_low k a) ≡ clear_low k a
clear_low-clear_low k a = ap (λ (n : ℕ). n * 2 ^ k) (mul-div_cancel (a / 2 ^ k) (pow_pos k))

-- Two numbers have the same quotient by `size` exactly if both lie in one block of that size.
quotient_iff :
    (q size x : ℕ) → 0 < size → (x / size ≡ q) ↔ ((q * size ≤ x) × (x + 1 ≤ q * size + size))
quotient_iff q size x h = (
  λ e. (
    le_of_quotient (omega arith),
    elim (dec_le (q * size + size) x) [
      | yes p ↦ absurd (omega (arith, (le-div_iff_mul-le {x = suc q} {y = x} h).1 (next p)))
      | no p ↦ omega arith
    ],
  ),
  λ b.
      let lower : q ≤ x / size = (le-div_iff_mul-le h).1 b.0 in
      elim (dec_le (suc q) (x / size)) [
        | yes p ↦ absurd (omega (arith, (le-div_iff_mul-le {x = suc q} {y = x} h).0 p, b.1))
        | no p ↦ omega arith
      ],
)
  where
    le_of_quotient : q ≤ x / size → q * size ≤ x
    le_of_quotient = (le-div_iff_mul-le h).0

    next : q * size + size ≤ x → suc q * size ≤ x
    next p = omega arith

pub within_ends :
    (x q size : ℕ) (r : Range)
    → 0 < size
    → r.hi + 1 ≡ r.lo + size
    → r.lo ≡ q * size
    → within x r ≡ (x / size == q)
within_ends x q size r h e f =
    Bool-ext (within x r) (x / size == q)
      (λ t. (==_iff _ _).1 ((quotient_iff q size x h).1 (ground arith, ground arith)))
      (λ t. let b = (quotient_iff q size x h).0 ((==_iff _ _).0 t) in ground (arith, b.0, b.1))

ends_valid : {lo hi size : ℕ} → hi + 1 ≡ lo + size → 0 < size → lo ≤ hi
ends_valid e p = omega arith

ends_word :
    (size : ℕ) {lo hi a : ℕ}
    → a < u32_mod
    → lo ≤ a
    → hi + 1 ≡ lo + size
    → lo + size ≤ u32_mod
    → (lo ≤ 4294967295) × (hi ≤ 4294967295)
ends_word size w a e r = omega arith

module _ (a bits : ℕ) (h : bits ≤ 32) where
  fits : leb bits 32 ≡ true
  fits = le→leb _ _ h

  small : ltb 32 bits ≡ false
  small = ground arith

  prefix_range-block : prefix_range (prefix_from (v4 a) bits) ≡ some (block a bits, true)
  unfolding prefix_range prefix_from
  prefix_range-block = rw (fits, prefix_from) (rw small)

  pub prefix_bounds-masked :
      prefix_bounds (masked (prefix_from (v4 a) bits))
      ≡ some ((block a bits).lo, (block a bits).hi, true)
  unfolding prefix_bounds prefix_from
  prefix_bounds-masked = rw (fits, prefix_from) (rw (small, clear_low-clear_low (32 - bits) a))

  module _ (w : a < u32_mod) where
    pub block_ends :
        ((block a bits).lo ≤ a)
        × ((block a bits).hi + 1 ≡ (block a bits).lo + 2 ^ (32 - bits))
        × ((block a bits).lo + 2 ^ (32 - bits) ≤ u32_mod)
    block_ends =
        let aligned = clear_low-clear_low (32 - bits) a in
        let below = div-mul-le_self a (2 ^ (32 - bits)) in
        let inside : clear_low (32 - bits) a < u32_mod = omega (arith, below) in
        (
          below,
          block_end (32 - bits) (clear_low (32 - bits) a) (omega arith) inside aligned,
          aligned_room (32 - bits) (clear_low (32 - bits) a) (omega arith) inside aligned,
        )

    pub block-IsValid : IsValid (block a bits)
    block-IsValid = ends_valid (block_ends.1) (pow_pos (32 - bits))

    pub block-IsWord : IsWord (block a bits)
    block-IsWord = ends_word (2 ^ (32 - bits)) w block_ends.0 block_ends.1 block_ends.2

    pub within-block :
        (x : ℕ) → within x (block a bits) ≡ (x / 2 ^ (32 - bits) == a / 2 ^ (32 - bits))
    within-block x =
        within_ends x (a / 2 ^ (32 - bits)) (2 ^ (32 - bits)) (block a bits) (pow_pos (32 - bits))
          block_ends.1 refl

    -- `PrefixRange` of a/bits, for an IPv4 address and at most 32 bits, is the valid range of the
    -- addresses whose first `bits` bits are those of `a`.
    pub prefix_range-agrees :
        (r : Range) × (prefix_range (prefix_from (v4 a) bits) ≡ some (r, true))
        × IsValid r
        × IsWord r
        × ((x : ℕ) → within x r ≡ (x / 2 ^ (32 - bits) == a / 2 ^ (32 - bits)))
    prefix_range-agrees =
        (block a bits, prefix_range-block, block-IsValid, block-IsWord, within-block)
