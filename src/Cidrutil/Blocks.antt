-- ===== src/Cidrutil/Blocks.antt =====
-- internal/cidrutil/cidrutil.go: `rangePrefixes`, which cuts a span into prefixes.
use dns_stack.Prelude.{
  ℕ, zero, suc, ◌+◌, ◌-◌, ◌%◌, ◌^◌, ◌≤◌, ◌<◌, ◌≡◌, refl, Bool, true, false, List, [], ◌∷◌, ◌&&◌,
  not, inl, inr, arith, ltb, leb, ◌==◌, if◌then◌else◌, map, any, Bool-cases, ==_iff,
}
use dns_stack.Prelude.Powers.{pow_pos}
use dns_stack.Netip.{Addr, v4, v6, is6, bit_len, is_valid, Prefix, prefix_from, masked, clear_low}
use dns_stack.Spans.{covered}
use dns_stack.Cidrutil.Merge.{Span}
use dns_stack.Cidrutil.Membership.{to_big, span_of_prefix}

abbrev pub width : Bool → ℕ
width six = if six then 128 else 32

-- `FromBig`: the last 4 or 16 bytes of the number.
unfoldable pub from_big : ℕ → Bool → Addr
from_big v true = v6 (v % 2 ^ 128)
from_big v false = v4 (v % 2 ^ 32)

-- The loop over `size` for the block that starts at `cur`.
unfoldable pub size_from : ℕ → ℕ → ℕ → ℕ → ℕ
size_from bits cur hi zero = 0
size_from bits cur hi (suc s) =
    let smaller = size_from bits cur hi s in
    if not (cur % 2 ^ (bits - s) == 0)
    then suc s
    else if ltb hi (cur + (2 ^ (bits - s) - 1))
    then suc s
    else smaller

-- The outer loop, with fuel.
unfoldable pub span_blocks : ℕ → Bool → ℕ → ℕ → List Prefix
span_blocks zero six cur hi = []
span_blocks (suc fuel) six cur hi =
    let size = size_from (width six) cur hi (width six) in
    let next = cur + 2 ^ (width six - size) in
    let rest = span_blocks fuel six next hi in
    if leb cur hi
    then prefix_from (from_big cur six) size ∷ (if leb (2 ^ width six) next then [] else rest)
    else []

-- Every round takes at least one address of the span.
unfoldable pub range_prefixes : ℕ → ℕ → Bool → List Prefix
range_prefixes lo hi six = span_blocks (hi + 1 - lo) six lo hi

-- A block of 2 ^ (bits - size) addresses from `cur` on is a prefix, and ends by `hi`.
abbrev Fits : ℕ → ℕ → ℕ → ℕ → Type 0
Fits bits cur hi size = (cur % 2 ^ (bits - size) ≡ 0) × (cur + 2 ^ (bits - size) ≤ hi + 1)

size_from-Fits :
    (bits cur hi s : ℕ)
    → s ≤ bits
    → Fits bits cur hi s
    → (size_from bits cur hi s ≤ bits) × Fits bits cur hi (size_from bits cur hi s)
unfolding size_from
size_from-Fits bits cur hi zero h f = (h, f)
size_from-Fits bits cur hi (suc s) h f = elim (Bool-cases (cur % 2 ^ (bits - s) == 0)) [
  | inr e ↦ rw e (h, f)
  | inl e ↦ rw e (elim (Bool-cases (ltb hi (cur + (2 ^ (bits - s) - 1)))) [
    | inl t ↦ rw t (h, f)
    | inr t ↦ rw t (
        size_from-Fits bits cur hi s (omega arith)
          ((==_iff _ _).0 e, ground (arith, t, pow_pos (bits - s))))
  ])
]

aligned : (k a : ℕ) → a % 2 ^ k ≡ 0 → clear_low k a ≡ a
aligned k a e = omega (arith, e, pow_pos k)

block_span :
    (six : Bool) (cur size : ℕ)
    → size ≤ width six
    → cur < 2 ^ width six
    → cur % 2 ^ (width six - size) ≡ 0
    → span_of_prefix (prefix_from (from_big cur six) size)
      ≡ record { lo = cur; hi = cur + 2 ^ (width six - size) - 1 }
unfolding span_of_prefix prefix_from from_big masked is_valid bit_len is6 to_big
block_span true cur size h w a =
    let fits : leb size 128 ≡ true = ground arith in
    let small : cur % 2 ^ 128 ≡ cur = omega arith in
    let z : suc size - 1 ≡ size = omega arith in
    rw (small, fits) (rw (aligned (128 - size) cur a, z) refl)
block_span false cur size h w a =
    let fits : leb size 32 ≡ true = ground arith in
    let small : cur % 2 ^ 32 ≡ cur = omega arith in
    let z : suc size - 1 ≡ size = omega arith in
    rw (small, fits) (rw (aligned (32 - size) cur a, z) refl)

first_size : (six : Bool) (cur hi : ℕ) → cur ≤ hi → Fits (width six) cur hi (width six)
first_size true cur hi h = (omega arith, omega arith)
first_size false cur hi h = (omega arith, omega arith)

tile_step :
    (cur p hi x : ℕ) (rest : List Span)
    → 0 < p
    → cur + p ≤ hi + 1
    → covered rest x ≡ (leb (cur + p) x && leb x hi)
    → covered (record { lo = cur; hi = cur + p - 1 } ∷ rest) x ≡ (leb cur x && leb x hi)
unfolding any
tile_step cur p hi x rest a c e = ground (arith, e)

tile_last :
    (next hi top x : ℕ) → leb top next ≡ true → hi < top → covered [] x ≡ (leb next x && leb x hi)
unfolding any
tile_last next hi top x e w = ground (arith, e)

no_tile : (cur hi x : ℕ) → leb cur hi ≡ false → covered [] x ≡ (leb cur x && leb x hi)
unfolding any
no_tile cur hi x e = ground (arith, e)

covered-span_blocks :
    (fuel : ℕ) (six : Bool) (cur hi x : ℕ)
    → hi < 2 ^ width six
    → hi + 1 ≤ fuel + cur
    → covered (map span_of_prefix (span_blocks fuel six cur hi)) x ≡ (leb cur x && leb x hi)
unfolding span_blocks
covered-span_blocks zero six cur hi x w f = unfold any in ground arith
covered-span_blocks (suc fuel) six cur hi x w f = elim (Bool-cases (leb cur hi)) [
  | inr e ↦ rw e (no_tile cur hi x e)
  | inl e ↦
      let size = size_from (width six) cur hi (width six) in
      let p = 2 ^ (width six - size) in
      let ordered : cur ≤ hi = ground (arith, e) in
      let fits =
        size_from-Fits (width six) cur hi (width six) (omega arith)
          (first_size six cur hi ordered) in
      let block = block_span six cur size fits.0 (omega (arith, w, ordered)) fits.1.0 in
      rw e (
        rw block (elim (Bool-cases (leb (2 ^ width six) (cur + p))) [
          | inl t ↦ rw t (
              tile_step cur p hi x [] (pow_pos (width six - size)) fits.1.1
                (tile_last (cur + p) hi (2 ^ width six) x t w))
          | inr t ↦ rw t (
              tile_step cur p hi x _ (pow_pos (width six - size)) fits.1.1 (
                covered-span_blocks fuel six (cur + p) hi x w
                  (omega (arith, f, pow_pos (width six - size)))))
        ]))
]

-- `rangePrefixes` of a span of IPv4 or IPv6 addresses: the prefixes cover exactly the addresses of the
-- span, and the loop ends within the model's fuel.
pub covered-range_prefixes :
    (lo hi : ℕ) (six : Bool) (x : ℕ)
    → hi < 2 ^ width six
    → covered (map span_of_prefix (range_prefixes lo hi six)) x ≡ (leb lo x && leb x hi)
unfolding range_prefixes
covered-range_prefixes lo hi six x w = covered-span_blocks (hi + 1 - lo) six lo hi x w (omega arith)
