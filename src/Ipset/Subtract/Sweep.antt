-- ===== src/Ipset/Subtract/Sweep.antt =====
-- The sweep of `Subtract` over spans and cuts in normal form.
use dns_stack.Prelude.{
  ℕ, ◌+◌, ◌%◌, ◌≤◌, ◌<◌, ◌≡◌, ap, ◌∙◌, true, false, List, [], ◌∷◌, ◌&&◌, ◌||◌, not, inl, inr, arith,
  ltb, leb, u32_mod, max_u32, any, any-append, Bool-cases, leb→le,
}
use dns_stack.Spans.{Range, NormalFrom, covered, within, covered_below}
use dns_stack.Ipset.Subtract.{left_part, cut_span}

covered-left_part :
    (cur x : ℕ) (c : Range) → covered (left_part cur c) x ≡ (leb cur x && ltb x c.lo)
unfolding left_part any
covered-left_part cur x c = ground arith

module _ (cur hi x : ℕ) (c : Range) (cs : List Range) (k : NormalFrom (c.hi + 2) cs)
    (valid : c.lo ≤ c.hi) (h : cur ≤ hi) where
  -- One lemma for each way through the body.
  case_skip :
      ltb c.hi cur ≡ true
      → (leb cur x && (leb x hi && not (covered cs x)))
        ≡ (leb cur x && (leb x hi && not (covered (c ∷ cs) x)))
  unfolding any
  case_skip e = ground arith

  case_clear :
      ltb hi c.lo ≡ true
      → covered (record { lo = cur; hi = hi } ∷ []) x
        ≡ (leb cur x && (leb x hi && not (covered (c ∷ cs) x)))
  unfolding any
  case_clear e = ground (arith, covered_below (c.hi + 2) cs x k)

  case_last :
      ltb c.hi cur ≡ false
      → ltb hi c.lo ≡ false
      → hi ≤ c.hi
      → covered (left_part cur c) x ≡ (leb cur x && (leb x hi && not (covered (c ∷ cs) x)))
  unfolding any
  case_last e f g = ground (arith, covered-left_part cur x c, covered_below (c.hi + 2) cs x k)

  case_more :
      ltb c.hi cur ≡ false
      → ltb hi c.lo ≡ false
      → c.hi < hi
      → (covered (left_part cur c) x || (leb (c.hi + 1) x && (leb x hi && not (covered cs x))))
        ≡ (leb cur x && (leb x hi && not (covered (c ∷ cs) x)))
  unfolding any
  case_more e f g = ground (arith, covered-left_part cur x c, covered_below (c.hi + 2) cs x k)

-- What `cut_span` appends covers the addresses from `cur` to `hi` that no cut covers.
pub covered-cut_span :
    (cur hi n x : ℕ) (cuts : List Range)
    → cur ≤ hi
    → hi ≤ max_u32
    → NormalFrom n cuts
    → covered (cut_span cur hi cuts).0 x ≡ (leb cur x && (leb x hi && not (covered cuts x)))
unfolding cut_span
covered-cut_span cur hi n x [] h w k = unfold any in ground arith
covered-cut_span cur hi n x (c ∷ cs) h w k = elim (Bool-cases (ltb c.hi cur)) [
  | inl e ↦
      rw e (covered-cut_span cur hi (c.hi + 2) x cs h w k.2 ∙ case_skip cur hi x c cs k.2 k.1 h e)
  | inr e ↦ rw e (elim (Bool-cases (ltb hi c.lo)) [
    | inl f ↦ rw f (case_clear cur hi x c cs k.2 k.1 h f)
    | inr f ↦ rw f (elim (Bool-cases (leb hi c.hi)) [
      | inl g ↦ rw g (case_last cur hi x c cs k.2 k.1 h e f (leb→le _ _ g))
      | inr g ↦
          let next : (c.hi + 1) % u32_mod ≡ c.hi + 1 = ground arith in
          let within_span : ltb hi (c.hi + 1) ≡ false = ground arith in
          rw (g, next, within_span)
            (any-append (within x) (left_part cur c) (cut_span (c.hi + 1) hi cs).0
              ∙ ap (λ b. covered (left_part cur c) x || b)
                  (covered-cut_span (c.hi + 1) hi (c.hi + 2) x cs (ground arith) w k.2)
              ∙ case_more cur hi x c cs k.2 k.1 h e f (ground arith))
    ])
  ])
]
