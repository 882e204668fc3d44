-- ===== src/Cidrutil/Subtract.antt =====
-- `subtractSpans` against the difference of the sets of addresses.
use dns_stack.Prelude.{
  ℕ, ◌+◌, ◌-◌, ◌≤◌, ◌<◌, ◌≡◌, refl, ◌∙◌, Bool, true, false, List, [], ◌∷◌, ◌&&◌, ◌||◌, not, inl,
  inr, arith, ltb, leb, if◌then◌else◌, All, any, any-append, Bool-cases,
}
use mathlib.Core.Path.{ap₂}
use dns_stack.Spans.{covered, within, IsValid, NormalFrom, NormalFrom-le, covered_below}
use dns_stack.Cidrutil.Merge.{Span, merge_spans, covered-merge_spans, merge_spans-IsNormal}
use dns_stack.Cidrutil.Combine.{remainder, skip_below, cut_from, subtract_loop, subtract_spans}

covered-remainder : (lo hi x : ℕ) → covered (remainder lo hi) x ≡ (leb lo x && leb x hi)
unfolding remainder any
covered-remainder lo hi x = ground arith

module _ (lo hi x : ℕ) (c : Span) (cs : List Span) (valid : c.lo ≤ c.hi)
    (k : NormalFrom (c.hi + 2) cs) where
  clear_of_cuts :
      leb c.lo hi ≡ false
      → (leb lo x && leb x hi) ≡ (leb lo x && (leb x hi && not (covered (c ∷ cs) x)))
  unfolding any
  clear_of_cuts e = ground (arith, covered_below (c.hi + 2) cs x k)

  left_of : List Span
  left_of = if ltb lo c.lo then record { lo = lo; hi = c.lo - 1 } ∷ [] else []

  after : ℕ
  after = if ltb lo (c.hi + 1) then c.hi + 1 else lo

  covered-left_of : covered left_of x ≡ (leb lo x && ltb x c.lo)
  unfolding left_of any
  covered-left_of = ground arith

  cut_last :
      leb c.lo hi ≡ true
      → ltb hi after ≡ true
      → ((leb lo x && ltb x c.lo) || (leb after x && leb x hi))
        ≡ (leb lo x && (leb x hi && not (covered (c ∷ cs) x)))
  unfolding after any
  cut_last e f = ground (arith, covered_below (c.hi + 2) cs x k)

  cut_more :
      leb c.lo hi ≡ true
      → ((leb lo x && ltb x c.lo) || (leb after x && (leb x hi && not (covered cs x))))
        ≡ (leb lo x && (leb x hi && not (covered (c ∷ cs) x)))
  unfolding after any
  cut_more e = ground (arith, covered_below (c.hi + 2) cs x k)

covered-cut_from :
    (lo hi n x : ℕ) (cuts : List Span)
    → NormalFrom n cuts
    → covered (cut_from lo hi cuts) x ≡ (leb lo x && (leb x hi && not (covered cuts x)))
unfolding cut_from left_of after
covered-cut_from lo hi n x [] k = covered-remainder lo hi x ∙ unfold any in ground arith
covered-cut_from lo hi n x (c ∷ cs) k = elim (Bool-cases (leb c.lo hi)) [
  | inr e ↦ rw e (covered-remainder lo hi x ∙ clear_of_cuts lo hi x c cs k.1 k.2 e)
  | inl e ↦ rw e (elim (Bool-cases (ltb hi (after lo hi x c cs k.1 k.2))) [
    | inl f ↦ rw f (
        any-append (within x) (left_of lo hi x c cs k.1 k.2)
          (remainder (after lo hi x c cs k.1 k.2) hi)
        ∙ ap₂ (λ p q. p || q) (covered-left_of lo hi x c cs k.1 k.2)
            (covered-remainder (after lo hi x c cs k.1 k.2) hi x)
        ∙ cut_last lo hi x c cs k.1 k.2 e f)
    | inr f ↦ rw f (
        any-append (within x) (left_of lo hi x c cs k.1 k.2)
          (cut_from (after lo hi x c cs k.1 k.2) hi cs)
        ∙ ap₂ (λ p q. p || q) (covered-left_of lo hi x c cs k.1 k.2)
            (covered-cut_from (after lo hi x c cs k.1 k.2) hi (c.hi + 2) x cs k.2)
        ∙ cut_more lo hi x c cs k.1 k.2 e)
  ])
]

covered-skip_below :
    (lo x : ℕ) (cuts : List Span) → lo ≤ x → covered (skip_below lo cuts) x ≡ covered cuts x
unfolding skip_below any
covered-skip_below lo x [] h = refl
covered-skip_below lo x (c ∷ cs) h = ground (arith, covered-skip_below lo x cs)

skip_below-NormalFrom :
    (lo n : ℕ) (cuts : List Span) → NormalFrom n cuts → NormalFrom n (skip_below lo cuts)
unfolding skip_below
skip_below-NormalFrom lo n [] k = tt
skip_below-NormalFrom lo n (c ∷ cs) k = elim (Bool-cases (ltb c.hi lo)) [
  | inl e ↦ rw e (
      NormalFrom-le n (c.hi + 2) (skip_below lo cs) (omega (arith, k.0, k.1))
        (skip_below-NormalFrom lo (c.hi + 2) cs k.2))
  | inr e ↦ rw e k
]

covered-subtract_loop :
    (n m x : ℕ) (ss cuts : List Span)
    → NormalFrom n ss
    → NormalFrom m cuts
    → covered (subtract_loop ss cuts) x ≡ (covered ss x && not (covered cuts x))
unfolding subtract_loop
covered-subtract_loop n m x [] cuts k l = unfold any in refl
covered-subtract_loop n m x (s ∷ ss) cuts k l =
    let left = skip_below s.lo cuts in
    let normal = skip_below-NormalFrom s.lo m cuts l in
    any-append (within x) (cut_from s.lo s.hi left) (subtract_loop ss left)
    ∙ ap₂ (λ p q. p || q) (covered-cut_from s.lo s.hi m x left normal)
        (covered-subtract_loop (s.hi + 2) m x ss left k.2 normal)
    ∙ joined (covered left x) (covered-skip_below s.lo x cuts) (covered_below (s.hi + 2) ss x k.2)
  where
    joined :
        (b : Bool)
        → (s.lo ≤ x → b ≡ covered cuts x)
        → (x < s.hi + 2 → covered ss x ≡ false)
        → ((leb s.lo x && (leb x s.hi && not b)) || (covered ss x && not b))
          ≡ (covered (s ∷ ss) x && not (covered cuts x))
    joined b same early = unfold any in ground (arith, k.1)

-- `subtractSpans` of valid spans covers exactly the addresses that the first list covers and the
-- second does not.
pub covered-subtract_spans :
    (xs ys : List Span) (x : ℕ)
    → All IsValid xs
    → All IsValid ys
    → covered (subtract_spans xs ys) x ≡ (covered xs x && not (covered ys x))
unfolding subtract_spans
covered-subtract_spans xs ys x v w =
    covered-subtract_loop 0 0 x (merge_spans xs) (merge_spans ys) (merge_spans-IsNormal xs v)
      (merge_spans-IsNormal ys w)
    ∙ ap₂ (λ p q. p && not q) (covered-merge_spans xs x) (covered-merge_spans ys x)
