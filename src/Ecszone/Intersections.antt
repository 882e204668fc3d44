-- ===== src/Ecszone/Intersections.antt =====
-- internal/ecszone/ecszone.go: `intersections` and `anyOverlap` against a scan of all ranges.
use dns_stack.Prelude.{
  ℕ, zero, suc, ◌+◌, ◌≤◌, ◌<◌, ◌≡◌, refl, ap, Bool, true, false, List, [], ◌∷◌, ◌&&◌, ◌||◌, inl,
  inr, arith, ltb, leb, ◌==◌, length, take, any, any-append, Bool-cases, ltb→lt, leb→le,
}
use mathlib.Core.List.{reverse, reverse-cons}
use dns_stack.Prelude.Search.{first_index, Upward, search-first_index, first_index-le}
use dns_stack.Prelude.{All}
use dns_stack.Spans.{Range, NormalFrom, covered, covered_below, within}
use dns_stack.Ipset.Sets.{range_at}
use dns_stack.Ecszone.Rows.{max32, min32, hits_down, intersections}

any-reverse : (p : Range → Bool) (rs : List Range) → any p (reverse rs) ≡ any p rs
unfolding any
any-reverse p [] = refl
any-reverse p (r ∷ rs) =
    rw (reverse-cons r rs, any-append p (reverse rs) (r ∷ []), any-reverse p rs) (ground arith)

-- One more range at the end of a prefix of the ranges.
covered-take-suc :
    (k : ℕ) (rs : List Range) (x : ℕ)
    → k < length rs
    → covered (take (suc k) rs) x ≡ (covered (take k rs) x || within x (range_at rs k))
unfolding any
covered-take-suc k [] x h = ground (arith, h)
covered-take-suc zero (r ∷ rs) x h = ground arith
covered-take-suc (suc k) (r ∷ rs) x h =
    rw (covered-take-suc k rs x (omega (arith, h))) (ground arith)

range_at-above :
    (n k : ℕ) (rs : List Range) → NormalFrom n rs → k < length rs → n ≤ (range_at rs k).hi
range_at-above n k [] m h = ground (arith, h)
range_at-above n zero (r ∷ rs) m h = omega (arith, m.0, m.1)
range_at-above n (suc k) (r ∷ rs) m h =
    omega (arith, m.0, m.1, range_at-above (r.hi + 2) k rs m.2 (omega (arith, h)))

-- Every address up to the range number `k` lies below the end of that range.
take_ends :
    (n k : ℕ) (rs : List Range) (x : ℕ)
    → NormalFrom n rs
    → k < length rs
    → covered (take (suc k) rs) x ≡ true
    → x ≤ (range_at rs k).hi
unfolding any
take_ends n k [] x m h c = ground (arith, h)
take_ends n zero (r ∷ rs) x m h c = ground (arith, c)
take_ends n (suc k) (r ∷ rs) x m h c = elim (Bool-cases (within x r)) [
  | inl e ↦ ground (arith, e, range_at-above (r.hi + 2) k rs m.2 (omega (arith, h)))
  | inr e ↦ take_ends (r.hi + 2) k rs x m.2 (omega (arith, h)) (ground (arith, c, e))
]

-- The ranges that start after `hi` hold no address up to `hi`.
covered-started :
    (n hi : ℕ) (rs : List Range) (x : ℕ)
    → NormalFrom n rs
    → x ≤ hi
    → covered (take (first_index (λ (r : Range). ltb hi r.lo) rs) rs) x ≡ covered rs x
unfolding any first_index
covered-started n hi [] x m h = refl
covered-started n hi (r ∷ rs) x m h = elim (Bool-cases (ltb hi r.lo)) [
  | inl e ↦ rw e (ground (arith, covered_below (r.hi + 2) rs x m.2, m.1))
  | inr e ↦ rw e (ap (λ b. within x r || b) (covered-started (r.hi + 2) hi rs x m.2 h))
]

starts_later :
    (hi n : ℕ) (rs : List Range)
    → hi < n
    → NormalFrom n rs
    → All (λ (r : Range). ltb hi r.lo ≡ true) rs
starts_later hi n [] h m = tt
starts_later hi n (r ∷ rs) h m =
    (ground (arith, m.0), starts_later hi (r.hi + 2) rs (omega (arith, m.0, m.1)) m.2)

pub starts-Upward :
    (hi n : ℕ) (rs : List Range) → NormalFrom n rs → Upward (λ (r : Range). ltb hi r.lo) rs
starts-Upward hi n [] m = tt
starts-Upward hi n (r ∷ rs) m = (
  λ e. starts_later hi (r.hi + 2) rs (omega (arith, m.1, ltb→lt _ _ e)) m.2,
  starts-Upward hi (r.hi + 2) rs m.2,
)

-- The part of a range between two ends.
within-part :
    (lo hi x : ℕ) (r : Range)
    → within x (record { lo = max32 lo r.lo; hi = min32 hi r.hi })
      ≡ (within x (record { lo = lo; hi = hi }) && within x r)
within-part lo hi x r = ground arith

covered-hits_down :
    (lo hi n k : ℕ) (rs : List Range) (x : ℕ)
    → NormalFrom n rs
    → k ≤ length rs
    → covered (hits_down lo hi rs k) x
      ≡ (within x (record { lo = lo; hi = hi }) && covered (take k rs) x)
unfolding hits_down any
covered-hits_down lo hi n zero rs x m h = ground arith
covered-hits_down lo hi n (suc k) rs x m h =
    rw (covered-take-suc k rs x (omega (arith, h))) (elim (Bool-cases (leb lo (range_at rs k).hi)) [
      | inr e ↦ rw e (
          let past = take_ends n k rs x m (omega (arith, h)) in
          let all = covered-take-suc k rs x (omega (arith, h)) in ground (arith, past, all, e))
      | inl e ↦ rw e (elim (Bool-cases (leb (range_at rs k).lo hi)) [
        | inl f ↦ rw f (
            rw
              (
                within-part lo hi x (range_at rs k),
                covered-hits_down lo hi n k rs x m (omega (arith, h)),
              )
              (ground arith))
        | inr f ↦
            rw f (rw (covered-hits_down lo hi n k rs x m (omega (arith, h))) (ground (arith, f)))
      ])
    ])

-- `intersections` covers exactly the addresses from `lo` to `hi` that the ranges cover, for ranges in normal form: in
-- order, each valid, with a gap between neighbours.
pub covered-intersections :
    (lo hi : ℕ) (rs : List Range) (x : ℕ)
    → NormalFrom 0 rs
    → covered (intersections lo hi rs) x ≡ (within x (record { lo = lo; hi = hi }) && covered rs x)
unfolding intersections
covered-intersections lo hi [] x m = elim (Bool-cases (ltb hi lo)) [
  | inl e ↦ rw e (unfold any in ground arith)
  | inr e ↦ rw e (unfold any in ground arith)
]
covered-intersections lo hi (r ∷ rs) x m =
    let starts : Range → Bool = λ s. ltb hi s.lo in
    let found =
      search-first_index starts (record { lo = 0; hi = 0 }) (r ∷ rs)
        (starts-Upward hi 0 (r ∷ rs) m) in
    let inside = first_index-le starts (r ∷ rs) in
    let some_range : (suc (length rs) == 0) ≡ false = ground arith in
    elim (Bool-cases (ltb hi lo)) [
      | inl e ↦ rw e (unfold any in ground (arith, e))
      | inr e ↦
          rw
            (
              e,
              some_range,
              found,
              any-reverse (within x) (hits_down lo hi (r ∷ rs) (first_index starts (r ∷ rs))),
              covered-hits_down lo hi 0 (first_index starts (r ∷ rs)) (r ∷ rs) x m inside,
            )
            (started lo hi x (r ∷ rs) (covered-started 0 hi (r ∷ rs) x m))
    ]
  where
    started :
        (lo hi x : ℕ) (rs : List Range)
        → (x ≤ hi
            → covered (take (first_index (λ (s : Range). ltb hi s.lo) rs) rs) x ≡ covered rs x)
        → (within x (record { lo = lo; hi = hi })
            && covered (take (first_index (λ (s : Range). ltb hi s.lo) rs) rs) x)
          ≡ (within x (record { lo = lo; hi = hi }) && covered rs x)
    started lo hi x rs e = elim (Bool-cases (leb x hi)) [
      | inl t ↦ rw (e (leb→le _ _ t)) refl
      | inr f ↦ rw f (ground arith)
    ]
