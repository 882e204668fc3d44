-- ===== src/Ecszone/Parts.antt =====
-- internal/ecszone/ecszone.go: what `Subtract` asks of the parts of a span, and `anyOverlap`.
use dns_stack.Prelude.{
  ℕ, zero, suc, ◌+◌, ◌≤◌, ◌<◌, ◌≡◌, refl, Bool, true, false, List, [], ◌∷◌, ◌++◌, ◌||◌, inl, inr,
  arith, ltb, leb, ◌==◌, length, any, All, All-append, Bool-cases, max_u32,
}
use mathlib.Core.List.{reverse, reverse-cons}
use dns_stack.Prelude.Search.{first_index, search-first_index, first_index-le}
use dns_stack.Spans.{Range, NormalFrom, IsValid, IsWord, covered, within}
use dns_stack.Ipset.Sets.{range_at}
use dns_stack.Ipset.Subtract.Laws.{TopIsLast}
use dns_stack.Ipset.Lookup.{meets, ends-Upward, meets-first_index, covered→meets}
use dns_stack.Ecszone.Rows.{hits_down, intersections, any_overlap}
use dns_stack.Ecszone.Intersections.{starts-Upward}

All-reverse {κ} : (P : Range → Type κ) (rs : List Range) → All P rs → All P (reverse rs)
All-reverse P [] a = a
All-reverse P (r ∷ rs) a =
    rw (reverse-cons r rs) (All-append P (reverse rs) (r ∷ []) (All-reverse P rs a.1) (a.0, tt))

abbrev EndsEarly : Range → Type 0
EndsEarly r = r.hi < max_u32

TopIsLast-append : (rs : List Range) (r : Range) → All EndsEarly rs → TopIsLast (rs ++ r ∷ [])
TopIsLast-append [] r a = tt
TopIsLast-append (s ∷ []) r a = (a.0, tt)
TopIsLast-append (s ∷ t ∷ rs) r a = (a.0, TopIsLast-append (t ∷ rs) r a.1)

EndsEarly-TopIsLast : (rs : List Range) → All EndsEarly rs → TopIsLast rs
EndsEarly-TopIsLast [] a = tt
EndsEarly-TopIsLast (r ∷ []) a = tt
EndsEarly-TopIsLast (r ∷ s ∷ rs) a = (a.0, EndsEarly-TopIsLast (s ∷ rs) a.1)

pub NormalFrom-TopIsLast :
    (n : ℕ) (rs : List Range) → NormalFrom n rs → All IsWord rs → TopIsLast rs
NormalFrom-TopIsLast n [] m w = tt
NormalFrom-TopIsLast n (r ∷ []) m w = tt
NormalFrom-TopIsLast n (r ∷ s ∷ rs) m w =
    (omega (arith, m.2.0, w.1.0.0), NormalFrom-TopIsLast (r.hi + 2) (s ∷ rs) m.2 w.1)

pub NormalFrom-IsValid : (n : ℕ) (rs : List Range) → NormalFrom n rs → All IsValid rs
NormalFrom-IsValid n [] m = tt
NormalFrom-IsValid n (r ∷ rs) m = (m.1, NormalFrom-IsValid (r.hi + 2) rs m.2)

range_at-IsWord :
    (k : ℕ) (rs : List Range) → All IsWord rs → k < length rs → (range_at rs k).hi ≤ 4294967295
range_at-IsWord k [] w h = ground (arith, h)
range_at-IsWord zero (r ∷ rs) w h = omega (arith, w.0.1)
range_at-IsWord (suc k) (r ∷ rs) w h = range_at-IsWord k rs w.1 (omega (arith, h))

range_at_early :
    (n k : ℕ) (rs : List Range)
    → NormalFrom n rs
    → All IsWord rs
    → suc k < length rs
    → (range_at rs k).hi < max_u32
range_at_early n k [] m w h = ground (arith, h)
range_at_early n k (r ∷ []) m w h = omega (arith, h)
range_at_early n zero (r ∷ s ∷ rs) m w h = omega (arith, m.2.0, w.1.0.0)
range_at_early n (suc k) (r ∷ s ∷ rs) m w h =
    range_at_early (r.hi + 2) k (s ∷ rs) m.2 w.1 (omega (arith, h))

range_at_valid :
    (n k : ℕ) (rs : List Range) → NormalFrom n rs → (range_at rs k).lo ≤ (range_at rs k).hi
range_at_valid n k [] m = omega arith
range_at_valid n zero (r ∷ rs) m = m.1
range_at_valid n (suc k) (r ∷ rs) m = range_at_valid (r.hi + 2) k rs m.2

module _ (lo hi : ℕ) (ordered : lo ≤ hi) (rs : List Range) (m : NormalFrom 0 rs)
    (w : All IsWord rs) where
  -- What is valid and ends by a bound, for the ranges met, is so for the parts.
  hits_down-All :
      (P : Range → Type 0) (k : ℕ)
      → ((j : ℕ) (r : Range) → j < k → r.lo ≤ r.hi → r.hi ≤ (range_at rs j).hi → P r)
      → All P (hits_down lo hi rs k)
  unfolding hits_down
  hits_down-All P zero f = tt
  hits_down-All P (suc k) f =
      let rest = hits_down-All P k (λ j r h. f j r (omega (arith, h))) in
      elim (Bool-cases (leb lo (range_at rs k).hi)) [
        | inr e ↦ rw e tt
        | inl e ↦ rw e (elim (Bool-cases (leb (range_at rs k).lo hi)) [
          | inr g ↦ rw g rest
          | inl g ↦ rw g (
            f k _ (omega arith) (ground (arith, e, g, range_at_valid 0 k rs m)) (ground arith),
            rest,
          )
        ])
      ]

  hits_down-TopIsLast : (k : ℕ) → k ≤ length rs → TopIsLast (reverse (hits_down lo hi rs k))
  unfolding hits_down
  hits_down-TopIsLast zero h = tt
  hits_down-TopIsLast (suc k) h =
      let early : All EndsEarly (hits_down lo hi rs k) = hits_down-All EndsEarly k (λ j r i v b.
        let top = range_at_early 0 j rs m w (omega (arith, i, h)) in omega (arith, b, top)) in
      let rest = All-reverse EndsEarly (hits_down lo hi rs k) early in
      elim (Bool-cases (leb lo (range_at rs k).hi)) [
        | inr e ↦ rw e tt
        | inl e ↦ rw e (elim (Bool-cases (leb (range_at rs k).lo hi)) [
          | inr g ↦ rw g (EndsEarly-TopIsLast (reverse (hits_down lo hi rs k)) rest)
          | inl g ↦ rw g (
              rw (reverse-cons _ (hits_down lo hi rs k))
                (TopIsLast-append (reverse (hits_down lo hi rs k)) _ rest))
        ])
      ]

-- What holds of the hits for every number of ranges holds of `intersections`.
intersections-cases :
    (P : List Range → Type 0) (lo hi : ℕ) (rs : List Range)
    → NormalFrom 0 rs
    → P []
    → (lo ≤ hi → (k : ℕ) → k ≤ length rs → P (reverse (hits_down lo hi rs k)))
    → P (intersections lo hi rs)
unfolding intersections
intersections-cases P lo hi rs m e f = elim (Bool-cases (ltb hi lo || length rs == 0)) [
  | inl g ↦ rw g e
  | inr g ↦
      let starts : Range → Bool = λ s. ltb hi s.lo in
      rw (g, search-first_index starts (record { lo = 0; hi = 0 }) rs (starts-Upward hi 0 rs m))
        (f (ground (arith, g)) (first_index starts rs) (first_index-le starts rs))
]

module _ (lo hi : ℕ) (rs : List Range) (m : NormalFrom 0 rs) (w : All IsWord rs) where
  pub intersections-IsValid : All IsValid (intersections lo hi rs)
  intersections-IsValid =
      intersections-cases (All IsValid) lo hi rs m tt
        (λ o k h. All-reverse IsValid _ (hits_down-All lo hi o rs m w IsValid k (λ j r i v b. v)))

  pub intersections-TopIsLast : TopIsLast (intersections lo hi rs)
  intersections-TopIsLast = intersections-cases TopIsLast lo hi rs m tt (hits_down-TopIsLast_all)
    where
      hits_down-TopIsLast_all :
          lo ≤ hi → (k : ℕ) → k ≤ length rs → TopIsLast (reverse (hits_down lo hi rs k))
      hits_down-TopIsLast_all o k h = hits_down-TopIsLast lo hi o rs m w k h

  pub intersections-IsWord : All IsWord (intersections lo hi rs)
  intersections-IsWord = intersections-cases (All IsWord) lo hi rs m tt (λ o k h.
      All-reverse IsWord _ (
        hits_down-All lo hi o rs m w IsWord k (λ j r i v b.
          let top = range_at-IsWord j rs w (omega (arith, i, h)) in
          (omega (arith, v, b, top), omega (arith, b, top)))))

-- `anyOverlap` finds a part that meets one of the cuts.
pub any_overlap-meets :
    (parts cuts : List Range)
    → NormalFrom 0 cuts
    → any_overlap parts cuts ≡ any (λ (p : Range). any (meets p.lo p.hi) cuts) parts
unfolding any_overlap
any_overlap-meets [] cuts m = unfold any in refl
any_overlap-meets (p ∷ parts) cuts m =
    let ends : Range → Bool = λ r. leb p.lo r.hi in
    let found =
      search-first_index ends (record { lo = 0; hi = 0 }) cuts (ends-Upward p.lo 0 cuts m) in
    rw (found, meets-first_index p.lo p.hi 0 cuts m, any_overlap-meets parts cuts m)
      (unfold any in ground arith)

-- Where no part meets a cut, no address of a part is cut.
pub meets-covered :
    (parts cuts : List Range) (x : ℕ)
    → any (λ (p : Range). any (meets p.lo p.hi) cuts) parts ≡ false
    → covered parts x ≡ true
    → covered cuts x ≡ false
unfolding any
meets-covered [] cuts x e c = cc
meets-covered (p ∷ parts) cuts x e c = elim (Bool-cases (covered cuts x)) [
  | inr n ↦ n
  | inl y ↦ (elim (Bool-cases (within x p)) [
    | inl t ↦
        let met : any (meets p.lo p.hi) cuts ≡ true =
          covered→meets p.lo p.hi x cuts (ground (arith, t)) (ground (arith, t)) y in
        ground (arith, e, met)
    | inr f ↦ meets-covered parts cuts x (ground (arith, e)) (ground (arith, c, f))
  ])
]
