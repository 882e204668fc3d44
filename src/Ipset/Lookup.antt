-- ===== src/Ipset/Lookup.antt =====
-- The binary searches of `Set` over ranges in normal form, against a scan of all ranges.
use dns_stack.Prelude.{
  ℕ, zero, suc, ◌+◌, ◌≤◌, ◌<◌, ◌≡◌, refl, Bool, true, false, List, [], ◌∷◌, ◌&&◌, ◌||◌, map, inl,
  inr, arith, ltb, leb, length, All, any, Bool-cases, ltb→lt, leb→le, if◌then◌else◌,
}
use Prim.Native.Nat.{max}
use mathlib.Core.Bool.{false≢true}
use native.Mathlib.Decide.{dec_le}
use dns_stack.Prelude.Search.{first_index, Upward}
use dns_stack.Spans.{Range, NormalFrom, covered, covered_gap, covered_below}
use dns_stack.Ipset.Sets.{range_at, before, reaches}

-- The range holds all of lo..hi.
abbrev pub encloses : ℕ → ℕ → Range → Bool
encloses lo hi r = leb r.lo lo && leb hi r.hi

-- The range and lo..hi have an address in common.
abbrev pub meets : ℕ → ℕ → Range → Bool
meets lo hi r = leb lo r.hi && leb r.lo hi

abbrev pub los : List Range → List ℕ
los rs = map (λ (r : Range). r.lo) rs

starts_after :
    (v n : ℕ) (rs : List Range) → v < n → NormalFrom n rs → All (λ s. ltb v s ≡ true) (los rs)
starts_after v n [] h k = tt
starts_after v n (r ∷ rs) h k =
    (ground (arith, k.0), starts_after v (r.hi + 2) rs (omega (arith, k.0, k.1)) k.2)

pub starts-Upward : (v n : ℕ) (rs : List Range) → NormalFrom n rs → Upward (ltb v) (los rs)
starts-Upward v n [] k = tt
starts-Upward v n (r ∷ rs) k = (
  λ e. starts_after v (r.hi + 2) rs (omega (arith, k.1, ltb→lt _ _ e)) k.2,
  starts-Upward v (r.hi + 2) rs k.2,
)

starts_found :
    (v n i : ℕ) (rs : List Range) → NormalFrom n rs → first_index (ltb v) (los rs) ≡ suc i → n ≤ v
unfolding first_index
starts_found v n i [] k e = omega arith
starts_found v n i (r ∷ rs) k e = ground (arith, k.0)

encloses_after :
    (lo hi n : ℕ) (rs : List Range) → lo < n → NormalFrom n rs → any (encloses lo hi) rs ≡ false
unfolding any
encloses_after lo hi n [] h k = refl
encloses_after lo hi n (r ∷ rs) h k =
    ground (arith, k.0, encloses_after lo hi (r.hi + 2) rs (omega (arith, k.0, k.1)) k.2)

reaches-cases :
    (lo hi : ℕ) (r : Range) (rs : List Range)
    → lo ≤ hi
    → r.lo ≤ r.hi
    → NormalFrom (r.hi + 2) rs
    → (i : ℕ) → first_index (ltb lo) (los rs) ≡ i
    → reaches rs hi (before i) ≡ any (encloses lo hi) rs
    → reaches (r ∷ rs) hi (before (if ltb lo r.lo then 0 else suc i))
      ≡ (encloses lo hi r || any (encloses lo hi) rs)
unfolding reaches
reaches-cases lo hi r rs h v k zero e ih = ground (arith, encloses_after lo hi (r.hi + 2) rs, k)
reaches-cases lo hi r rs h v k (suc i) e ih = ground (arith, starts_found lo (r.hi + 2) i rs k e)

-- The range before the first start past `lo` is the only one that can hold lo..hi.
pub reaches-first_index :
    (lo hi n : ℕ) (rs : List Range)
    → lo ≤ hi
    → NormalFrom n rs
    → reaches rs hi (before (first_index (ltb lo) (los rs))) ≡ any (encloses lo hi) rs
unfolding reaches first_index any
reaches-first_index lo hi n [] h k = refl
reaches-first_index lo hi n (r ∷ rs) h k =
    reaches-cases lo hi r rs h k.1 k.2 (first_index (ltb lo) (los rs)) refl
      (reaches-first_index lo hi (r.hi + 2) rs h k.2)

ends_after :
    (lo n : ℕ) (rs : List Range) → lo ≤ n → NormalFrom n rs → All (λ r. leb lo r.hi ≡ true) rs
ends_after lo n [] h k = tt
ends_after lo n (r ∷ rs) h k =
    (ground (arith, k.0, k.1), ends_after lo (r.hi + 2) rs (omega (arith, k.0, k.1)) k.2)

pub ends-Upward : (lo n : ℕ) (rs : List Range) → NormalFrom n rs → Upward (λ r. leb lo r.hi) rs
ends-Upward lo n [] k = tt
ends-Upward lo n (r ∷ rs) k = (
  λ e. ends_after lo (r.hi + 2) rs (omega (arith, leb→le _ _ e)) k.2,
  ends-Upward lo (r.hi + 2) rs k.2,
)

meets_after :
    (lo hi n : ℕ) (rs : List Range) → hi < n → NormalFrom n rs → any (meets lo hi) rs ≡ false
unfolding any
meets_after lo hi n [] h k = refl
meets_after lo hi n (r ∷ rs) h k =
    ground (arith, k.0, meets_after lo hi (r.hi + 2) rs (omega (arith, k.0, k.1)) k.2)

-- The first range that ends at or after `lo` meets lo..hi if any range does.
pub meets-first_index :
    (lo hi n : ℕ) (rs : List Range)
    → NormalFrom n rs
    → (ltb (first_index (λ (r : Range). leb lo r.hi) rs) (length rs)
        && leb (range_at rs (first_index (λ (r : Range). leb lo r.hi) rs)).lo hi)
      ≡ any (meets lo hi) rs
unfolding first_index any
meets-first_index lo hi n [] k = refl
meets-first_index lo hi n (r ∷ rs) k = elim (Bool-cases (leb lo r.hi)) [
  | inl e ↦
      rw e (ground (arith, Bool-cases (leb r.lo hi), meets_after lo hi (r.hi + 2) rs, k.1, k.2))
  | inr e ↦ rw e (ground (arith, meets-first_index lo hi (r.hi + 2) rs k.2))
]

-- A range that holds lo..hi covers each address of it.
pub encloses→covered :
    (lo hi x : ℕ) (rs : List Range)
    → any (encloses lo hi) rs ≡ true
    → lo ≤ x
    → x ≤ hi
    → covered rs x ≡ true
unfolding any
encloses→covered lo hi x [] e p q = e
encloses→covered lo hi x (r ∷ rs) e p q = ground (arith, encloses→covered lo hi x rs)

-- In a normal form, addresses in a row that are all covered lie in one range.
pub covered→encloses :
    (lo hi n : ℕ) (rs : List Range)
    → lo ≤ hi
    → NormalFrom n rs
    → ((x : ℕ) → lo ≤ x → x ≤ hi → covered rs x ≡ true)
    → any (encloses lo hi) rs ≡ true
unfolding any
covered→encloses lo hi n [] h k all = all lo (omega arith) h
covered→encloses lo hi n (r ∷ rs) h k all = elim (dec_le lo r.hi) [
  | yes p ↦
      ground
        (arith, all lo, all (r.hi + 1), covered_gap n r rs k, covered_below (r.hi + 2) rs lo k.2)
  | no p ↦ ground (
    arith,
    covered→encloses lo hi (r.hi + 2) rs h k.2
        (λ x q s. past_head r rs x (omega arith) (all x q s)),
  )
]
  where
    past_head :
        (r : Range) (rs : List Range) (x : ℕ)
        → r.hi < x
        → covered (r ∷ rs) x ≡ true
        → covered rs x ≡ true
    past_head r rs x a b = ground arith

-- A range that meets lo..hi holds an address of it.
pub meets→covered :
    (lo hi n : ℕ) (rs : List Range)
    → lo ≤ hi
    → NormalFrom n rs
    → any (meets lo hi) rs ≡ true
    → (x : ℕ) × (lo ≤ x) × (x ≤ hi) × (covered rs x ≡ true)
unfolding any
meets→covered lo hi n [] h k e = absurd (unfold any in (false≢true e))
meets→covered lo hi n (r ∷ rs) h k e = elim (Bool-cases (meets lo hi r)) [
  | inl m ↦ (max lo r.lo, omega arith, ground (arith), ground (arith, k.1))
  | inr m ↦
      let (x, p, q, c) = meets→covered lo hi (r.hi + 2) rs h k.2 (ground arith) in
      (x, p, q, ground arith)
]

pub covered→meets :
    (lo hi x : ℕ) (rs : List Range)
    → lo ≤ x
    → x ≤ hi
    → covered rs x ≡ true
    → any (meets lo hi) rs ≡ true
unfolding any
covered→meets lo hi x [] p q e = e
covered→meets lo hi x (r ∷ rs) p q e = ground (arith, covered→meets lo hi x rs)
