-- ===== src/Cidrutil/Combine.antt =====
-- internal/cidrutil/cidrutil.go: `intersectSpans` and `subtractSpans`.
use dns_stack.Prelude.{
  ℕ, ◌+◌, ◌-◌, ◌≤◌, ◌<◌, ◌≡◌, refl, ◌∙◌, true, false, List, [], ◌∷◌, ◌++◌, ◌&&◌, ◌||◌, inl, inr,
  arith, ltb, leb, if◌then◌else◌, All, any, any-append, Bool-cases, ltb→lt,
}
use mathlib.Core.Path.{ap₂}
use dns_stack.Spans.{covered, within, IsValid, NormalFrom, covered_below}
use dns_stack.Cidrutil.Merge.{Span, merge_spans, covered-merge_spans, merge_spans-IsNormal}

-- The common part of two spans, if there is one.
unfoldable pub common : Span → Span → List Span
common a b =
    let lo = if ltb a.lo b.lo then b.lo else a.lo in
    let hi = if ltb b.hi a.hi then b.hi else a.hi in
    if leb lo hi then record { lo = lo; hi = hi } ∷ [] else []

-- The loop over `i` and `j`, on what is left of both lists.
unfoldable pub intersect_loop : List Span → List Span → List Span
unfolding common
intersect_loop [] bs = []
intersect_loop (a ∷ as') [] = []
intersect_loop (a ∷ as') (b ∷ bs) = common a b ++ (elim (ltb a.hi b.hi) [
  | true ↦ intersect_loop as' (b ∷ bs)
  | false ↦ intersect_loop (a ∷ as') bs
])

unfoldable pub intersect_spans : List Span → List Span → List Span
intersect_spans as' bs = intersect_loop (merge_spans as') (merge_spans bs)

covered-common : (x : ℕ) (a b : Span) → covered (common a b) x ≡ (within x a && within x b)
unfolding common any
covered-common x a b = ground arith

module _ (x : ℕ) (a b : Span) (as' bs : List Span) (n m : ℕ) (k : NormalFrom n (a ∷ as'))
    (l : NormalFrom m (b ∷ bs)) where
  -- The span that ends first meets no later span of the other list.
  drop_first :
      a.hi < b.hi
      → ((within x a && within x b) || (covered as' x && covered (b ∷ bs) x))
        ≡ (covered (a ∷ as') x && covered (b ∷ bs) x)
  unfolding any
  drop_first h = ground (arith, covered_below (b.hi + 2) bs x l.2)

  drop_second :
      b.hi ≤ a.hi
      → ((within x a && within x b) || (covered (a ∷ as') x && covered bs x))
        ≡ (covered (a ∷ as') x && covered (b ∷ bs) x)
  unfolding any
  drop_second h = ground (arith, covered_below (a.hi + 2) as' x k.2)

covered-intersect_loop :
    (x n m : ℕ) (as' bs : List Span)
    → NormalFrom n as'
    → NormalFrom m bs
    → covered (intersect_loop as' bs) x ≡ (covered as' x && covered bs x)
unfolding intersect_loop
covered-intersect_loop x n m [] bs k l = unfold any in refl
covered-intersect_loop x n m (a ∷ as') [] k l = unfold any in ground arith
covered-intersect_loop x n m (a ∷ as') (b ∷ bs) k l = elim (Bool-cases (ltb a.hi b.hi)) [
  | inl e ↦ rw e (
      any-append (within x) (common a b) (intersect_loop as' (b ∷ bs))
      ∙ ap₂ (λ p q. p || q) (covered-common x a b)
          (covered-intersect_loop x (a.hi + 2) m as' (b ∷ bs) k.2 l)
      ∙ drop_first x a b as' bs n m k l (ltb→lt _ _ e))
  | inr e ↦ rw e (
      any-append (within x) (common a b) (intersect_loop (a ∷ as') bs)
      ∙ ap₂ (λ p q. p || q) (covered-common x a b)
          (covered-intersect_loop x n (b.hi + 2) (a ∷ as') bs k l.2)
      ∙ drop_second x a b as' bs n m k l (ground arith))
]

-- `intersectSpans` of valid spans covers exactly the addresses that both lists cover.
pub covered-intersect_spans :
    (xs ys : List Span) (x : ℕ)
    → All IsValid xs
    → All IsValid ys
    → covered (intersect_spans xs ys) x ≡ (covered xs x && covered ys x)
unfolding intersect_spans
covered-intersect_spans xs ys x v w =
    covered-intersect_loop x 0 0 (merge_spans xs) (merge_spans ys) (merge_spans-IsNormal xs v)
      (merge_spans-IsNormal ys w)
    ∙ ap₂ (λ p q. p && q) (covered-merge_spans xs x) (covered-merge_spans ys x)

-- `if lo.Cmp(cur.hi) <= 0 { out = append(out, span{lo, cur.hi}) }`
unfoldable pub remainder : ℕ → ℕ → List Span
remainder lo hi = if leb lo hi then record { lo = lo; hi = hi } ∷ [] else []

-- `for j < len(b) && b[j].hi.Cmp(lo) < 0 { j++ }`
unfoldable pub skip_below : ℕ → List Span → List Span
skip_below lo [] = []
skip_below lo (c ∷ cs) = let rest = skip_below lo cs in if ltb c.hi lo then rest else c ∷ cs

-- The loop over `k` for a span up to `hi`, and the append after it.
unfoldable pub cut_from : ℕ → ℕ → List Span → List Span
unfolding remainder
cut_from lo hi [] = remainder lo hi
cut_from lo hi (c ∷ cs) =
    let next = if ltb lo (c.hi + 1) then c.hi + 1 else lo in
    let rest = cut_from next hi cs in
    if leb c.lo hi
    then (if ltb lo c.lo then record { lo = lo; hi = c.lo - 1 } ∷ [] else [])
      ++ (if ltb hi next then remainder next hi else rest)
    else remainder lo hi

-- The loop over `a`, with the cuts from `j` on.
unfoldable pub subtract_loop : List Span → List Span → List Span
unfolding skip_below cut_from
subtract_loop [] cuts = []
subtract_loop (s ∷ ss) cuts =
    let left = skip_below s.lo cuts in cut_from s.lo s.hi left ++ subtract_loop ss left

unfoldable pub subtract_spans : List Span → List Span → List Span
subtract_spans xs ys = subtract_loop (merge_spans xs) (merge_spans ys)
