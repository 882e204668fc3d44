-- ===== src/Ipset/Collapse.antt =====
-- internal/ipset/ipset.go: `Collapse`, which sorts ranges and merges those that overlap or touch.
use dns_stack.Prelude.{
  ℕ, ◌+◌, ◌%◌, ◌≤◌, ◌≡◌, refl, sym, ap, ◌∙◌, ◌↔◌, Bool, false, List, [], ◌∷◌, ◌&&◌, ◌||◌, not, inl,
  inr, arith, ltb, leb, ◌==◌, if◌then◌else◌, max_u32, u32_mod, All, any, Bool-cases, ltb→lt,
}
use dns_stack.Prelude.Sort.{
  sort_slice, any-sort_slice, All-sort_slice, sort_slice-IsSorted, IsSorted,
}
use mathlib.Core.List.{Permᴰ}
use dns_stack.Prelude.Permutations.{sort_slice-Permᴰ}
use dns_stack.Spans.{range_less-TiesAreEqual}
use dns_stack.Spans.{
  Range, range_less, range_less-IsStrict, covered, within, IsValid, IsWord, Ascending, NormalFrom,
  IsNormal, IsNormalOf, NormalFrom-unique, sorted-Ascending, Ascending-le,
}

-- `r.Lo <= last.Hi || (last.Hi != ^uint32(0) && r.Lo == last.Hi+1)`
joins : Range → Range → Bool
joins last r = leb r.lo last.hi || (not (last.hi == max_u32) && (r.lo == (last.hi + 1) % u32_mod))

-- `if r.Hi > last.Hi { last.Hi = r.Hi }`
extend : Range → Range → Range
extend last r = if ltb last.hi r.hi then record last { hi = r.hi } else last

-- The `for` loop: `last` is the last range of `out`, which later rounds may still extend.
collapse_loop : Range → List Range → List Range
unfolding joins extend
collapse_loop last [] = last ∷ []
collapse_loop last (r ∷ rs) =
    let joined = collapse_loop (extend last r) rs in
    let apart = last ∷ collapse_loop r rs in if joins last r then joined else apart

collapse_sorted : List Range → List Range
unfolding collapse_loop
collapse_sorted [] = []
collapse_sorted (r ∷ rs) = collapse_loop r rs

unfoldable pub collapse : List Range → List Range
unfolding collapse_sorted sort_slice range_less
collapse rs = collapse_sorted (sort_slice range_less rs)

covered-collapse_loop :
    (x : ℕ) (last : Range) (rs : List Range)
    → IsWord last
    → All IsWord rs
    → Ascending last.lo rs
    → covered (collapse_loop last rs) x ≡ covered (last ∷ rs) x
unfolding collapse_loop any
covered-collapse_loop x last [] w ws a = refl
covered-collapse_loop x last (r ∷ rs) w ws a = elim (Bool-cases (ltb last.hi r.hi)) [
  | inl e ↦ ground (
    arith,
    covered-collapse_loop x (record last { hi = r.hi }) rs (w.0, ws.0.1) ws.1
        (Ascending-le last.lo r.lo rs a.0 a.1),
    covered-collapse_loop x r rs ws.0 ws.1 a.1,
  )
  | inr e ↦ ground (
    arith,
    covered-collapse_loop x last rs w ws.1 (Ascending-le last.lo r.lo rs a.0 a.1),
    covered-collapse_loop x r rs ws.0 ws.1 a.1,
  )
]

apart_gap : (last r : Range) → IsWord last → IsWord r → joins last r ≡ false → last.hi + 2 ≤ r.lo
unfolding joins
apart_gap last r w v h = ground arith

collapse_loop-NormalFrom :
    (n : ℕ) (last : Range) (rs : List Range)
    → n ≤ last.lo
    → IsValid last
    → IsWord last
    → All IsValid rs
    → All IsWord rs
    → Ascending last.lo rs
    → NormalFrom n (collapse_loop last rs)
unfolding collapse_loop
collapse_loop-NormalFrom n last [] p v w vs ws a = (p, v, tt)
collapse_loop-NormalFrom n last (r ∷ rs) p v w vs ws a = elim (Bool-cases (joins last r)) [
  | inr e ↦ rw e (
    p,
    v,
    collapse_loop-NormalFrom (last.hi + 2) r rs (apart_gap last r w ws.0 e) vs.0 ws.0 vs.1 ws.1 a.1,
  )
  | inl e ↦ rw e (elim (Bool-cases (ltb last.hi r.hi)) [
    | inl q ↦ rw q (
        collapse_loop-NormalFrom n (record last { hi = r.hi }) rs p (omega (arith, ltb→lt _ _ q))
          (w.0, ws.0.1) vs.1 ws.1 (Ascending-le last.lo r.lo rs a.0 a.1))
    | inr q ↦
        rw q (
          collapse_loop-NormalFrom n last rs p v w vs.1 ws.1 (Ascending-le last.lo r.lo rs a.0 a.1))
  ])
]

covered-collapse_sorted :
    (x : ℕ) (rs : List Range)
    → All IsWord rs
    → IsSorted range_less rs
    → covered (collapse_sorted rs) x ≡ covered rs x
unfolding collapse_sorted
covered-collapse_sorted x [] w h = refl
covered-collapse_sorted x (r ∷ rs) w h =
    covered-collapse_loop x r rs w.0 w.1 (sorted-Ascending r rs h)

collapse_sorted-IsNormal :
    (rs : List Range)
    → All IsValid rs
    → All IsWord rs
    → IsSorted range_less rs
    → IsNormal (collapse_sorted rs)
unfolding collapse_sorted
collapse_sorted-IsNormal [] v w h = tt
collapse_sorted-IsNormal (r ∷ rs) v w h =
    collapse_loop-NormalFrom 0 r rs (omega arith) v.0 w.0 v.1 w.1 (sorted-Ascending r rs h)

-- `Collapse` keeps the set of addresses: an address lies in a range of the result exactly if it
-- lies in a range of the input. The input may be in any order, overlap, and hold empty ranges;
-- its ends are uint32 values.
pub covered-collapse :
    (rs : List Range) (x : ℕ) → All IsWord rs → covered (collapse rs) x ≡ covered rs x
unfolding collapse
covered-collapse rs x w =
    covered-collapse_sorted x (sort_slice range_less rs) (All-sort_slice range_less IsWord rs w)
      (sort_slice-IsSorted range_less range_less-IsStrict rs)
    ∙ any-sort_slice range_less (within x) rs

-- On valid uint32 ranges, `Collapse` returns ranges in order, each valid, with at least one
-- address missing between neighbours.
pub collapse-IsNormal : (rs : List Range) → All IsValid rs → All IsWord rs → IsNormal (collapse rs)
unfolding collapse
collapse-IsNormal rs v w =
    collapse_sorted-IsNormal (sort_slice range_less rs) (All-sort_slice range_less IsValid rs v)
      (All-sort_slice range_less IsWord rs w)
      (sort_slice-IsSorted range_less range_less-IsStrict rs)

-- `Collapse` is canonical: two lists of valid uint32 ranges collapse to the same list exactly if
-- they cover the same addresses.
pub collapse_canonical :
    (xs ys : List Range)
    → All IsValid xs
    → All IsWord xs
    → All IsValid ys
    → All IsWord ys
    → (collapse xs ≡ collapse ys) ↔ ((x : ℕ) → covered xs x ≡ covered ys x)
collapse_canonical xs ys va wa vb wb = (
  λ e x. sym (covered-collapse xs x wa) ∙ ap (λ rs. covered rs x) e ∙ covered-collapse ys x wb,
  λ same.
      NormalFrom-unique 0 (collapse xs) (collapse ys) (collapse-IsNormal xs va wa)
        (collapse-IsNormal ys vb wb)
        (λ x. covered-collapse xs x wa ∙ same x ∙ sym (covered-collapse ys x wb)),
)

collapse_loop-IsWord :
    (last : Range) (rs : List Range)
    → IsWord last
    → All IsWord rs
    → All IsWord (collapse_loop last rs)
unfolding collapse_loop
collapse_loop-IsWord last [] w ws = (w, tt)
collapse_loop-IsWord last (r ∷ rs) w ws = elim (Bool-cases (joins last r)) [
  | inr e ↦ rw e (w, collapse_loop-IsWord r rs ws.0 ws.1)
  | inl e ↦ rw e (elim (Bool-cases (ltb last.hi r.hi)) [
    | inl q ↦ rw q (collapse_loop-IsWord (record last { hi = r.hi }) rs (w.0, ws.0.1) ws.1)
    | inr q ↦ rw q (collapse_loop-IsWord last rs w ws.1)
  ])
]

collapse_sorted-IsWord : (rs : List Range) → All IsWord rs → All IsWord (collapse_sorted rs)
unfolding collapse_sorted
collapse_sorted-IsWord [] w = tt
collapse_sorted-IsWord (r ∷ rs) w = collapse_loop-IsWord r rs w.0 w.1

pub collapse-IsWord : (rs : List Range) → All IsWord rs → All IsWord (collapse rs)
unfolding collapse
collapse-IsWord rs w =
    collapse_sorted-IsWord (sort_slice range_less rs) (All-sort_slice range_less IsWord rs w)

-- `Collapse` does not see the order of its input.
pub collapse-Permᴰ : {xs ys : List Range} → Permᴰ xs ys → collapse xs ≡ collapse ys
unfolding collapse
collapse-Permᴰ d =
    ap collapse_sorted (sort_slice-Permᴰ range_less range_less-IsStrict range_less-TiesAreEqual d)

-- `Collapse` of valid uint32 ranges is their normal form: in order, valid, with a gap between neighbours, and with
-- exactly the addresses of the ranges, whatever their order and overlap.
pub collapse-IsNormalOf :
    (rs : List Range) → All IsValid rs → All IsWord rs → IsNormalOf rs (collapse rs)
collapse-IsNormalOf rs v w = (collapse-IsNormal rs v w, λ x. covered-collapse rs x w)
