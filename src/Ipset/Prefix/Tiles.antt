-- ===== src/Ipset/Prefix/Tiles.antt =====
-- The blocks that `rangeToPrefixes` cuts a range into.
use dns_stack.Prelude.{
  ℕ, zero, suc, ◌+◌, ◌-◌, ◌%◌, ◌^◌, ◌≤◌, ◌<◌, ◌≡◌, refl, true, false, some, List, [], ◌∷◌, inl, inr,
  ltb, leb, ◌==◌, arith, u32_mod, any, ◌&&◌, Bool-cases, ==_iff, le→leb, ◌||◌,
}
use dns_stack.Prelude.Powers.{aligned_room, pow_pos, pow_mono}
use dns_stack.Netip.{v4, Prefix, prefix_from, clear_low}
use dns_stack.Spans.{Range, IsValid, IsWord, covered, within}
use dns_stack.Ipset.Prefix.{low_mask, block_bits, blocks, prefix_range, range_to_prefixes}

-- A block of 2 ^ (32 - bits) addresses from `lo` on is a prefix, and ends by `hi`.
abbrev Fits : ℕ → ℕ → ℕ → Type 0
Fits lo hi bits = (clear_low (32 - bits) lo ≡ lo) × (lo + 2 ^ (32 - bits) ≤ hi + 1)

low_mask_lem : (k : ℕ) → k ≤ 32 → low_mask k + 1 ≡ 2 ^ k
low_mask_lem k h = mask (2 ^ k) (pow_pos k) (pow_mono k 32 h)
  where
    mask : (p : ℕ) → 0 < p → p ≤ u32_mod → (p % u32_mod + u32_mod - 1) % u32_mod + 1 ≡ p
    mask p a b = omega arith

-- A block at an aligned address ends below 2 ^ 32.
pub block_end :
    (k lo : ℕ)
    → k ≤ 32
    → lo < u32_mod
    → clear_low k lo ≡ lo
    → (lo + low_mask k) % u32_mod + 1 ≡ lo + 2 ^ k
block_end k lo h w a = end (2 ^ k) (low_mask k) (low_mask_lem k h) (aligned_room k lo h w a)
  where
    end : (p m : ℕ) → m + 1 ≡ p → lo + p ≤ u32_mod → (lo + m) % u32_mod + 1 ≡ lo + p
    end p m e f = omega arith

block_bits-Fits :
    (lo hi k : ℕ)
    → lo < u32_mod
    → k ≤ 32
    → Fits lo hi k
    → (block_bits lo hi k ≤ 32) × Fits lo hi (block_bits lo hi k)
unfolding block_bits
block_bits-Fits lo hi zero w h f = (h, f)
block_bits-Fits lo hi (suc k) w h f = elim (Bool-cases (clear_low (32 - k) lo == lo)) [
  | inr e ↦ rw e (h, f)
  | inl e ↦
      let aligned : clear_low (32 - k) lo ≡ lo = (==_iff _ _).0 e in
      rw e (elim (Bool-cases (ltb hi ((lo + low_mask (32 - k)) % u32_mod))) [
        | inl t ↦ rw t (h, f)
        | inr t ↦ rw t (
            block_bits-Fits lo hi k w (omega arith)
              (aligned, ground (arith, block_end (32 - k) lo (omega arith) w aligned)))
      ])
]

-- The ranges stand end to end from `lo` to `hi`.
abbrev pub Tiles : ℕ → ℕ → List Range → Type 0
Tiles lo hi [] = ⊥
Tiles lo hi (r ∷ []) = (r.lo ≡ lo) × (lo ≤ r.hi) × (r.hi ≡ hi)
Tiles lo hi (r ∷ s ∷ rs) = (r.lo ≡ lo) × (lo ≤ r.hi) × (r.hi < hi) × Tiles (r.hi + 1) hi (s ∷ rs)

-- The addresses of each prefix; the loop of ruleset.go's `collapse`.
unfoldable pub ranges_of_prefixes : List Prefix → List Range
unfolding prefix_range
ranges_of_prefixes [] = []
ranges_of_prefixes (p ∷ ps) = elim (prefix_range p) [
  | some (r, true) ↦ r ∷ ranges_of_prefixes ps
  | _ ↦ ranges_of_prefixes ps
]

prefix_range_block :
    (lo bits : ℕ)
    → bits ≤ 32
    → clear_low (32 - bits) lo ≡ lo
    → prefix_range (prefix_from (v4 lo) bits)
      ≡ some (record { lo = lo; hi = (lo + low_mask (32 - bits)) % u32_mod }, true)
unfolding prefix_range prefix_from
prefix_range_block lo bits h a =
    let fits : leb bits 32 ≡ true = le→leb _ _ h in
    let small : ltb 32 bits ≡ false = ground arith in rw (fits, prefix_from) (rw small (rw a))

pub ranges_of_prefixes-∷ :
    (p : Prefix) (ps : List Prefix) (r : Range)
    → prefix_range p ≡ some (r, true)
    → ranges_of_prefixes (p ∷ ps) ≡ r ∷ ranges_of_prefixes ps
unfolding ranges_of_prefixes
ranges_of_prefixes-∷ p ps r e = rw (e, ranges_of_prefixes)

Tiles-∷ :
    (lo hi : ℕ) (r : Range) (rs : List Range)
    → r.lo ≡ lo
    → lo ≤ r.hi
    → r.hi < hi
    → Tiles (r.hi + 1) hi rs
    → Tiles lo hi (r ∷ rs)
Tiles-∷ lo hi r [] a b c t = absurd t
Tiles-∷ lo hi r (s ∷ rs) a b c t = (a, b, c, t)

blocks_step :
    (lo hi last size : ℕ)
    → 0 < size
    → lo + size ≤ hi + 1
    → last + 1 ≡ lo + size
    → ((leb hi last || ltb last lo) ≡ true → (lo ≡ lo) × (lo ≤ last) × (last ≡ hi))
      × ((leb hi last || ltb last lo) ≡ false → (lo ≤ last) × (last < hi))
blocks_step lo hi last size p q e = (λ t. ground arith, λ t. ground arith)

add_one_le : (m n : ℕ) → m < n → m + 1 ≤ n
add_one_le m n h = omega arith

wraps_not : (last hi : ℕ) → last < hi → hi < u32_mod → (last + 1) % u32_mod ≡ last + 1
wraps_not last hi p w = omega arith

fuel_left :
    (lo last hi fuel : ℕ) → lo ≤ last → last < hi → hi - lo < suc fuel → hi - (last + 1) < fuel
fuel_left lo last hi fuel p q f = omega arith

blocks-Tiles :
    (fuel lo hi : ℕ)
    → lo ≤ hi
    → hi < u32_mod
    → hi - lo < fuel
    → Tiles lo hi (ranges_of_prefixes (blocks fuel lo hi))
unfolding blocks
blocks-Tiles zero lo hi h w f = absurd (omega arith)
blocks-Tiles (suc fuel) lo hi h w f =
    let bits = block_bits lo hi 32 in
    let last = (lo + low_mask (32 - bits)) % u32_mod in
    let start : Fits lo hi 32 = (omega arith, omega arith) in
    let fits = block_bits-Fits lo hi 32 (omega arith) (omega arith) start in
    let block = prefix_range_block lo bits fits.0 fits.1.0 in
    let here =
      blocks_step lo hi last (2 ^ (32 - bits)) (pow_pos (32 - bits)) fits.1.1
        (block_end (32 - bits) lo (omega arith) (omega arith) fits.1.0) in
    elim (Bool-cases (leb hi last || ltb last lo)) [
      | inl e ↦ rw e (rw (ranges_of_prefixes-∷ _ _ _ block) (unfold ranges_of_prefixes in here.0 e))
      | inr e ↦
          let more = here.1 e in
          let next : (last + 1) % u32_mod ≡ last + 1 = wraps_not last hi more.1 w in
          rw e (
            rw (ranges_of_prefixes-∷ _ _ _ block) (
              Tiles-∷ lo hi (record { lo = lo; hi = last }) _ refl more.0 more.1
                (rw next (
                  blocks-Tiles fuel (last + 1) hi (add_one_le last hi more.1) w
                    (fuel_left lo last hi fuel more.0 more.1 f)))))
    ]

-- Tiles cover what lies between their ends.
Tiles-covered :
    (lo hi x : ℕ) (rs : List Range) → Tiles lo hi rs → covered rs x ≡ (leb lo x && leb x hi)
unfolding any
Tiles-covered lo hi x [] t = absurd t
Tiles-covered lo hi x (r ∷ []) t = ground (arith, t.0, t.2)
Tiles-covered lo hi x (r ∷ s ∷ rs) t =
    ground (arith, t.0, t.1, t.2, Tiles-covered (r.hi + 1) hi x (s ∷ rs) t.3)

-- `rangeToPrefixes` on a valid uint32 range: the addresses of the prefixes stand end to end, the
-- first begins with the range and the last ends with it.
pub range_to_prefixes-Tiles :
    (r : Range) → IsValid r → IsWord r → Tiles r.lo r.hi (ranges_of_prefixes (range_to_prefixes r))
unfolding range_to_prefixes
range_to_prefixes-Tiles r v w =
    blocks-Tiles (r.hi - r.lo + 1) r.lo r.hi v (omega (arith, w.1)) (omega arith)

pub covered-range_to_prefixes :
    (r : Range) (x : ℕ)
    → IsValid r
    → IsWord r
    → covered (ranges_of_prefixes (range_to_prefixes r)) x ≡ within x r
covered-range_to_prefixes r x v w =
    Tiles-covered r.lo r.hi x (ranges_of_prefixes (range_to_prefixes r))
      (range_to_prefixes-Tiles r v w)
