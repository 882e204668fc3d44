-- ===== src/Cidrutil/Merge.antt =====
-- internal/cidrutil/cidrutil.go: `mergeSpans`. Its spans are `Range`s: the ends are big integers,
-- so that `last.hi + 1` needs no guard.
use dns_stack.Prelude.{
  ℕ, ◌+◌, ◌≤◌, ◌<◌, ◌≡◌, refl, ◌∙◌, List, [], ◌∷◌, inl, inr, arith, ltb, leb, if◌then◌else◌, All,
  any, Bool-cases, ltb→lt,
}
use dns_stack.Prelude.Sort.{
  sort_slice, any-sort_slice, All-sort_slice, sort_slice-IsSorted, IsSorted,
}
use dns_stack.Spans.{
  Range, range_less, range_less-IsStrict, covered, within, IsValid, Ascending, NormalFrom, IsNormal,
  IsNormalOf, sorted-Ascending, Ascending-le,
}

-- `span{lo, hi *big.Int}`
abbrev pub Span : Type 0
Span = Range

-- The loop: `last` is the last span of `out`, which later rounds may still extend.
unfoldable pub merge_loop : Span → List Span → List Span
merge_loop last [] = last ∷ []
merge_loop last (s ∷ ss) =
    let grown = merge_loop (if ltb last.hi s.hi then record last { hi = s.hi } else last) ss in
    let apart = last ∷ merge_loop s ss in if leb s.lo (last.hi + 1) then grown else apart

merge_sorted : List Span → List Span
merge_sorted [] = []
merge_sorted (s ∷ ss) = merge_loop s ss

unfoldable pub merge_spans : List Span → List Span
unfolding merge_sorted
merge_spans spans = merge_sorted (sort_slice range_less spans)

covered-merge_loop :
    (x : ℕ) (last : Span) (ss : List Span)
    → Ascending last.lo ss
    → covered (merge_loop last ss) x ≡ covered (last ∷ ss) x
unfolding merge_loop any
covered-merge_loop x last [] a = refl
covered-merge_loop x last (s ∷ ss) a = elim (Bool-cases (ltb last.hi s.hi)) [
  | inl e ↦ ground (
    arith,
    covered-merge_loop x (record last { hi = s.hi }) ss (Ascending-le last.lo s.lo ss a.0 a.1),
    covered-merge_loop x s ss a.1,
  )
  | inr e ↦ ground (
    arith,
    covered-merge_loop x last ss (Ascending-le last.lo s.lo ss a.0 a.1),
    covered-merge_loop x s ss a.1,
  )
]

merge_loop-NormalFrom :
    (n : ℕ) (last : Span) (ss : List Span)
    → n ≤ last.lo
    → IsValid last
    → All IsValid ss
    → Ascending last.lo ss
    → NormalFrom n (merge_loop last ss)
unfolding merge_loop
merge_loop-NormalFrom n last [] p v vs a = (p, v, tt)
merge_loop-NormalFrom n last (s ∷ ss) p v vs a = elim (Bool-cases (leb s.lo (last.hi + 1))) [
  | inr e ↦ rw e (p, v, merge_loop-NormalFrom (last.hi + 2) s ss (ground arith) vs.0 vs.1 a.1)
  | inl e ↦ rw e (elim (Bool-cases (ltb last.hi s.hi)) [
    | inl q ↦ rw q (
        merge_loop-NormalFrom n (record last { hi = s.hi }) ss p (omega (arith, ltb→lt _ _ q)) vs.1
          (Ascending-le last.lo s.lo ss a.0 a.1))
    | inr q ↦ rw q (merge_loop-NormalFrom n last ss p v vs.1 (Ascending-le last.lo s.lo ss a.0 a.1))
  ])
]

covered-merge_sorted :
    (x : ℕ) (ss : List Span) → IsSorted range_less ss → covered (merge_sorted ss) x ≡ covered ss x
unfolding merge_sorted
covered-merge_sorted x [] h = refl
covered-merge_sorted x (s ∷ ss) h = covered-merge_loop x s ss (sorted-Ascending s ss h)

merge_sorted-IsNormal :
    (ss : List Span) → All IsValid ss → IsSorted range_less ss → IsNormal (merge_sorted ss)
unfolding merge_sorted
merge_sorted-IsNormal [] v h = tt
merge_sorted-IsNormal (s ∷ ss) v h =
    merge_loop-NormalFrom 0 s ss (omega arith) v.0 v.1 (sorted-Ascending s ss h)

-- `mergeSpans` keeps the set of addresses, whatever the order and overlap of the spans.
pub covered-merge_spans : (ss : List Span) (x : ℕ) → covered (merge_spans ss) x ≡ covered ss x
unfolding merge_spans
covered-merge_spans ss x =
    covered-merge_sorted x (sort_slice range_less ss)
      (sort_slice-IsSorted range_less range_less-IsStrict ss)
    ∙ any-sort_slice range_less (within x) ss

-- `mergeSpans` of valid spans is in normal form: in order, valid, with a gap between neighbours.
pub merge_spans-IsNormal : (ss : List Span) → All IsValid ss → IsNormal (merge_spans ss)
unfolding merge_spans
merge_spans-IsNormal ss v =
    merge_sorted-IsNormal (sort_slice range_less ss) (All-sort_slice range_less IsValid ss v)
      (sort_slice-IsSorted range_less range_less-IsStrict ss)

merge_loop-below :
    (n : ℕ) (last : Span) (ss : List Span)
    → last.hi < n
    → All (λ (s : Span). s.hi < n) ss
    → All (λ (s : Span). s.hi < n) (merge_loop last ss)
unfolding merge_loop
merge_loop-below n last [] h k = (h, tt)
merge_loop-below n last (s ∷ ss) h k = elim (Bool-cases (leb s.lo (last.hi + 1))) [
  | inr e ↦ rw e (h, merge_loop-below n s ss k.0 k.1)
  | inl e ↦ rw e (elim (Bool-cases (ltb last.hi s.hi)) [
    | inl q ↦ rw q (merge_loop-below n (record last { hi = s.hi }) ss k.0 k.1)
    | inr q ↦ rw q (merge_loop-below n last ss h k.1)
  ])
]

merge_sorted-below :
    (n : ℕ) (ss : List Span)
    → All (λ (s : Span). s.hi < n) ss
    → All (λ (s : Span). s.hi < n) (merge_sorted ss)
unfolding merge_sorted
merge_sorted-below n [] h = tt
merge_sorted-below n (s ∷ ss) h = merge_loop-below n s ss h.0 h.1

pub merge_spans-below :
    (n : ℕ) (ss : List Span)
    → All (λ (s : Span). s.hi < n) ss
    → All (λ (s : Span). s.hi < n) (merge_spans ss)
unfolding merge_spans
merge_spans-below n ss h =
    merge_sorted-below n (sort_slice range_less ss)
      (All-sort_slice range_less (λ (s : Span). s.hi < n) ss h)

-- `mergeSpans` of valid spans is their normal form: in order, valid, with a gap between neighbours, and with exactly
-- the addresses of the spans, whatever their order and overlap.
pub merge_spans-IsNormalOf : (ss : List Span) → All IsValid ss → IsNormalOf ss (merge_spans ss)
merge_spans-IsNormalOf ss v = (merge_spans-IsNormal ss v, covered-merge_spans ss)
