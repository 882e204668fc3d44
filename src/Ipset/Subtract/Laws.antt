-- ===== src/Ipset/Subtract/Laws.antt =====
-- What `Subtract` returns.
use dns_stack.Prelude.{
  ℕ, ◌+◌, ◌<◌, ◌≡◌, refl, ◌∙◌, true, false, List, [], ◌∷◌, ◌&&◌, ◌||◌, not, inl, inr, arith, leb,
  ◌==◌, max_u32, length, All, any, any_empty, any-append, Bool-cases,
}
use dns_stack.Spans.{
  Range, IsValid, IsWord, IsNormal, NormalFrom, NormalFrom-append, covered, within, covered_below,
}
use dns_stack.Ipset.Collapse.{covered-collapse, collapse-IsNormal, collapse-IsWord}
use dns_stack.Ipset.Subtract.{
  normalized_after, is_normalized, as_normalized, cut_span, subtract_loop, subtract,
}
use dns_stack.Ipset.Subtract.Sweep.{covered-cut_span}
use dns_stack.Ipset.Subtract.Rest.{covered-rest, rest-NormalFrom, cut_span-NormalFrom}

-- The addresses that the spans cover and the cuts do not.
covered-subtract_loop :
    (n m x : ℕ) (spans cuts : List Range)
    → NormalFrom n spans
    → All IsWord spans
    → NormalFrom m cuts
    → covered (subtract_loop spans cuts) x ≡ (covered spans x && not (covered cuts x))
unfolding subtract_loop
covered-subtract_loop n m x [] cuts k w l = unfold any in refl
covered-subtract_loop n m x (s ∷ ss) cuts k w l =
    any-append (within x) (cut_span s.lo s.hi cuts).0 (subtract_loop ss (cut_span s.lo s.hi cuts).1)
    ∙ combine (covered-cut_span s.lo s.hi m x cuts k.1 w.0.1 l)
        (covered-subtract_loop (s.hi + 2) m x ss (cut_span s.lo s.hi cuts).1 k.2 w.1
          (rest-NormalFrom s.lo s.hi cuts k.1 w.0.1 m l))
        (covered-rest s.lo s.hi cuts k.1 w.0.1 x) (covered_below (s.hi + 2) ss x k.2)
  where
    combine :
        covered (cut_span s.lo s.hi cuts).0 x ≡ (leb s.lo x && (leb x s.hi && not (covered cuts x)))
        → covered (subtract_loop ss (cut_span s.lo s.hi cuts).1) x
          ≡ (covered ss x && not (covered (cut_span s.lo s.hi cuts).1 x))
        → (s.hi < x → covered (cut_span s.lo s.hi cuts).1 x ≡ covered cuts x)
        → (x < s.hi + 2 → covered ss x ≡ false)
        → (covered (cut_span s.lo s.hi cuts).0 x
            || covered (subtract_loop ss (cut_span s.lo s.hi cuts).1) x)
          ≡ (covered (s ∷ ss) x && not (covered cuts x))
    combine a b c d = unfold any in ground arith

subtract_loop-NormalFrom :
    (n m : ℕ) (spans cuts : List Range)
    → NormalFrom n spans
    → All IsWord spans
    → NormalFrom m cuts
    → NormalFrom n (subtract_loop spans cuts)
unfolding subtract_loop
subtract_loop-NormalFrom n m [] cuts k w l = tt
subtract_loop-NormalFrom n m (s ∷ ss) cuts k w l =
    let here = cut_span-NormalFrom s.lo s.hi cuts k.1 w.0.1 n m l k.0 in
    NormalFrom-append n s.hi (cut_span s.lo s.hi cuts).0
      (subtract_loop ss (cut_span s.lo s.hi cuts).1) (omega (arith, k.0, k.1)) here.0 here.1
      (subtract_loop-NormalFrom (s.hi + 2) m ss (cut_span s.lo s.hi cuts).1 k.2 w.1
        (rest-NormalFrom s.lo s.hi cuts k.1 w.0.1 m l))

-- A range that ends at the last address, if any, stands last. Collapsed lists are so, and lists
-- without that address.
abbrev pub TopIsLast : List Range → Type 0
TopIsLast [] = Unit
TopIsLast (r ∷ []) = Unit
TopIsLast (r ∷ s ∷ rs) = (r.hi < max_u32) × TopIsLast (s ∷ rs)

normalized_after-NormalFrom :
    (r : Range) (rs : List Range)
    → normalized_after r.hi rs ≡ true
    → TopIsLast (r ∷ rs)
    → NormalFrom (r.hi + 2) rs
unfolding normalized_after
normalized_after-NormalFrom r [] e t = tt
normalized_after-NormalFrom r (s ∷ rs) e t =
    (ground (arith, t.0), ground arith, normalized_after-NormalFrom s rs (ground arith) t.1)

is_normalized-IsNormal : (rs : List Range) → is_normalized rs ≡ true → TopIsLast rs → IsNormal rs
unfolding is_normalized
is_normalized-IsNormal [] e t = tt
is_normalized-IsNormal (r ∷ rs) e t =
    (omega arith, ground arith, normalized_after-NormalFrom r rs (ground arith) t)

module _ (rs : List Range) (valid : All IsValid rs) (word : All IsWord rs) where
  as_normalized-IsNormal : TopIsLast rs → IsNormal (as_normalized rs)
  unfolding as_normalized
  as_normalized-IsNormal t = elim (Bool-cases (is_normalized rs)) [
    | inl e ↦ rw e (is_normalized-IsNormal rs e t)
    | inr e ↦ rw e (collapse-IsNormal rs valid word)
  ]

  as_normalized-IsWord : All IsWord (as_normalized rs)
  unfolding as_normalized
  as_normalized-IsWord = elim (Bool-cases (is_normalized rs)) [
    | inl e ↦ rw e word
    | inr e ↦ rw e (collapse-IsWord rs word)
  ]

  covered-as_normalized : (x : ℕ) → covered (as_normalized rs) x ≡ covered rs x
  unfolding as_normalized
  covered-as_normalized x = elim (Bool-cases (is_normalized rs)) [
    | inl e ↦ rw e
    | inr e ↦ rw e (covered-collapse rs x word)
  ]

module _ (base remove : List Range) (base_valid : All IsValid base) (base_word : All IsWord base)
    (base_top : TopIsLast base) (remove_valid : All IsValid remove)
    (remove_word : All IsWord remove) (remove_top : TopIsLast remove) where
  -- `Subtract` of valid uint32 ranges, in any order, covers exactly the addresses that `base`
  -- covers and `remove` does not. In each list a range that ends at 255.255.255.255 must stand
  -- last.
  pub covered-subtract :
      (x : ℕ) → covered (subtract base remove) x ≡ (covered base x && not (covered remove x))
  unfolding subtract
  covered-subtract x = ground (
    arith,
    any_empty (within x) base,
    any_empty (within x) remove,
    covered-collapse base x base_word,
    any_empty (within x) [] refl,
    covered-subtract_loop 0 0 x (as_normalized base) (as_normalized remove)
        (as_normalized-IsNormal base base_valid base_word base_top)
        (as_normalized-IsWord base base_valid base_word)
        (as_normalized-IsNormal remove remove_valid remove_word remove_top),
    covered-as_normalized base base_valid base_word x,
    covered-as_normalized remove remove_valid remove_word x,
  )

  -- `Subtract` of valid uint32 ranges, with a range that ends at 255.255.255.255 only as the last of
  -- its list, is in normal form: in order, valid, with a gap between neighbours.
  pub subtract-IsNormal : IsNormal (subtract base remove)
  unfolding subtract
  subtract-IsNormal = elim (Bool-cases (length base == 0)) [
    | inl e ↦ rw e tt
    | inr e ↦ rw e (elim (Bool-cases (length remove == 0)) [
      | inl f ↦ rw f (collapse-IsNormal base base_valid base_word)
      | inr f ↦ rw f (
          subtract_loop-NormalFrom 0 0 (as_normalized base) (as_normalized remove)
            (as_normalized-IsNormal base base_valid base_word base_top)
            (as_normalized-IsWord base base_valid base_word)
            (as_normalized-IsNormal remove remove_valid remove_word remove_top))
    ])
  ]
