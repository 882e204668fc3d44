-- ===== src/Spans/Normal.antt =====
-- Lists of ranges in normal form: valid, ascending, and with a gap between neighbours.
use dns_stack.Prelude.{
  ℕ, ◌+◌, ◌≤◌, ◌<◌, ◌≡◌, refl, sym, ap, ◌∙◌, true, false, List, [], ◌∷◌, ◌++◌, arith, All, any,
}
use native.Mathlib.Decide.{dec_le}
use dns_stack.Spans.Defs.{Range, covered}

-- Ascending by low end, from `from` on.
abbrev pub Ascending : ℕ → List Range → Type 0
Ascending from [] = Unit
Ascending from (r ∷ rs) = (from ≤ r.lo) × Ascending r.lo rs

-- Normal form, with every address at least `from`.
abbrev pub NormalFrom : ℕ → List Range → Type 0
NormalFrom from [] = Unit
NormalFrom from (r ∷ rs) = (from ≤ r.lo) × (r.lo ≤ r.hi) × NormalFrom (r.hi + 2) rs

abbrev pub IsNormal : List Range → Type 0
IsNormal rs = NormalFrom 0 rs

-- The second list is in normal form and covers the same addresses as the first.
abbrev pub IsNormalOf : List Range → List Range → Type 0
IsNormalOf rs out = IsNormal out × ((x : ℕ) → covered out x ≡ covered rs x)

pub NormalFrom-le : (m n : ℕ) (rs : List Range) → m ≤ n → NormalFrom n rs → NormalFrom m rs
NormalFrom-le m n [] h k = tt
NormalFrom-le m n (r ∷ rs) h k = (omega arith, k.1, k.2)

-- An address below the normal form's bound is not covered.
pub covered_below :
    (n : ℕ) (rs : List Range) (x : ℕ) → NormalFrom n rs → x < n → covered rs x ≡ false
unfolding any
covered_below n [] x k h = refl
covered_below n (r ∷ rs) x k h = ground (arith, covered_below (r.hi + 2) rs x k.2 (omega arith))

module _ (n : ℕ) (r : Range) (rs : List Range) (k : NormalFrom n (r ∷ rs)) where
  covered_head : covered (r ∷ rs) r.lo ≡ true
  unfolding any
  covered_head = ground (arith, k.1)

  -- The address after the head's end is not covered.
  pub covered_gap : covered (r ∷ rs) (r.hi + 1) ≡ false
  unfolding any
  covered_gap = ground (arith, covered_below (r.hi + 2) rs (r.hi + 1) k.2)

  -- No address up to the gap is covered by the tail.
  covered_tail_below : (x : ℕ) → x ≤ r.hi + 1 → covered rs x ≡ false
  covered_tail_below x h = covered_below (r.hi + 2) rs x k.2 (omega arith)

  -- Above the gap head and tail together cover what the tail does.
  covered_tail_above : (x : ℕ) → r.hi + 1 < x → covered (r ∷ rs) x ≡ covered rs x
  unfolding any
  covered_tail_above x h = ground arith

  covered_inside : (x : ℕ) → r.lo ≤ x → covered (r ∷ rs) x ≡ false → r.hi < x
  unfolding any
  covered_inside x h e = ground arith

  covered_lo_le : (x : ℕ) → covered (r ∷ rs) x ≡ true → r.lo ≤ x
  unfolding any
  covered_lo_le x e = ground (arith, covered_below (r.hi + 2) rs x k.2)

module _ (n : ℕ) (r s : Range) (rs ss : List Range) (k : NormalFrom n (r ∷ rs))
    (l : NormalFrom n (s ∷ ss)) (same : (x : ℕ) → covered (r ∷ rs) x ≡ covered (s ∷ ss) x) where
  heads_lo : s.lo ≤ r.lo
  heads_lo = covered_lo_le n s ss l r.lo (sym (same r.lo) ∙ covered_head n r rs k)

  heads_hi : r.lo ≤ s.lo → r.hi ≤ s.hi
  heads_hi h =
      let past : r.hi < s.hi + 1 =
        covered_inside n r rs k (s.hi + 1) (omega (arith, l.1))
          (same (s.hi + 1) ∙ covered_gap n s ss l) in
      omega arith

  tails : r ≡ s → (x : ℕ) → covered rs x ≡ covered ss x
  tails e x = elim (dec_le x (r.hi + 1)) [
    | yes h ↦
        covered_tail_below n r rs k x h
        ∙ sym (covered_tail_below n s ss l x (omega (arith, ap (λ (q : Range). q.hi) e)))
    | no h ↦
        sym (covered_tail_above n r rs k x (omega arith))
        ∙ same x
        ∙ covered_tail_above n s ss l x (omega (arith, ap (λ (q : Range). q.hi) e))
  ]

-- A normal form is determined by the set that it covers.
pub NormalFrom-unique :
    (n : ℕ) (a b : List Range)
    → NormalFrom n a
    → NormalFrom n b
    → ((x : ℕ) → covered a x ≡ covered b x)
    → a ≡ b
NormalFrom-unique n [] [] k l same = refl
NormalFrom-unique n [] (s ∷ ss) k l same = unfold any in cc (same s.lo ∙ covered_head n s ss l)
NormalFrom-unique n (r ∷ rs) [] k l same =
    unfold any in cc (sym (same r.lo) ∙ covered_head n r rs k)
NormalFrom-unique n (r ∷ rs) (s ∷ ss) k l same =
    let sames : (x : ℕ) → covered (s ∷ ss) x ≡ covered (r ∷ rs) x = λ x. sym (same x) in
    let head : r ≡ s = ground (
      arith,
      heads_lo n r s rs ss k l same,
      heads_lo n s r ss rs l k sames,
      heads_hi n r s rs ss k l same,
      heads_hi n s r ss rs l k sames,
    ) in
    let rest : rs ≡ ss =
      NormalFrom-unique (r.hi + 2) rs ss k.2 (rw head l.2) (tails n r s rs ss k l same head) in
    cc

pub NormalFrom-append :
    (m e : ℕ) (xs ys : List Range)
    → m ≤ e + 2
    → NormalFrom m xs
    → All (λ r. r.hi ≤ e) xs
    → NormalFrom (e + 2) ys
    → NormalFrom m (xs ++ ys)
NormalFrom-append m e [] ys h k a l = NormalFrom-le m (e + 2) ys h l
NormalFrom-append m e (r ∷ rs) ys h k a l =
    (k.0, k.1, NormalFrom-append (r.hi + 2) e rs ys (omega (arith, a.0)) k.2 a.1 l)
