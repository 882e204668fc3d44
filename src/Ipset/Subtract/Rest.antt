-- ===== src/Ipset/Subtract/Rest.antt =====
-- What one span of the sweep leaves: the cuts for later spans, and the shape of what it appends.
use dns_stack.Prelude.{
  ℕ, ◌+◌, ◌-◌, ◌%◌, ◌≤◌, ◌<◌, ◌≡◌, refl, false, List, [], ◌∷◌, ◌++◌, inl, inr, arith, ltb, leb,
  u32_mod, max_u32, All, any, Bool-cases, ltb→lt,
}
use dns_stack.Spans.{Range, NormalFrom, NormalFrom-le, covered}
use dns_stack.Ipset.Subtract.{left_part, cut_span}

-- The ways through the rounds for one span that ends at `hi`: from `cur` on, with these cuts, it
-- appends the third and leaves the fourth.
data Cut (hi : ℕ) : ℕ → List Range → List Range → List Range → Type 0 where
  no_cuts : {cur : ℕ} → cur ≤ hi → Cut hi cur [] (record { lo = cur; hi = hi } ∷ []) []
  skipped :
      {cur : ℕ} {c : Range} {cs out rest : List Range}
      → c.hi < cur
      → cur ≤ hi
      → Cut hi cur cs out rest
      → Cut hi cur (c ∷ cs) out rest
  clear :
      {cur : ℕ} {c : Range} {cs : List Range}
      → cur ≤ hi
      → hi < c.lo
      → Cut hi cur (c ∷ cs) (record { lo = cur; hi = hi } ∷ []) (c ∷ cs)
  last :
      {cur : ℕ} {c : Range} {cs : List Range}
      → c.lo ≤ hi
      → Cut hi cur (c ∷ cs) (left_part cur c) (c ∷ cs)
  more :
      {cur : ℕ} {c : Range} {cs out rest : List Range}
      → cur ≤ c.hi
      → c.hi < hi
      → Cut hi (c.hi + 1) cs out rest
      → Cut hi cur (c ∷ cs) (left_part cur c ++ out) rest

cut_span-Cut :
    (cur hi : ℕ) (cuts : List Range)
    → cur ≤ hi
    → hi ≤ max_u32
    → Cut hi cur cuts (cut_span cur hi cuts).0 (cut_span cur hi cuts).1
unfolding cut_span
cut_span-Cut cur hi [] h w = Cut.no_cuts h
cut_span-Cut cur hi (c ∷ cs) h w = elim (Bool-cases (ltb c.hi cur)) [
  | inl e ↦ rw e (Cut.skipped (ltb→lt _ _ e) h (cut_span-Cut cur hi cs h w))
  | inr e ↦ rw e (elim (Bool-cases (ltb hi c.lo)) [
    | inl f ↦ rw f (Cut.clear h (ltb→lt _ _ f))
    | inr f ↦ rw f (elim (Bool-cases (leb hi c.hi)) [
      | inl g ↦ rw g (Cut.last (ground arith))
      | inr g ↦
          let next : (c.hi + 1) % u32_mod ≡ c.hi + 1 = ground arith in
          let inside : ltb hi (c.hi + 1) ≡ false = ground arith in
          rw (g, next, inside)
            (Cut.more (ground arith) (ground arith)
              (cut_span-Cut (c.hi + 1) hi cs (ground arith) w))
    ])
  ])
]

Cut-covered :
    {hi cur : ℕ} {cuts out rest : List Range} (x : ℕ)
    → Cut hi cur cuts out rest
    → hi < x
    → covered rest x ≡ covered cuts x
unfolding any
Cut-covered x (Cut.no_cuts a) p = refl
Cut-covered x (Cut.skipped a b t) p = ground (arith, Cut-covered x t)
Cut-covered x (Cut.clear a b) p = refl
Cut-covered x (Cut.last a) p = refl
Cut-covered x (Cut.more a b t) p = ground (arith, Cut-covered x t)

Cut-rest :
    {hi cur : ℕ} {cuts out rest : List Range} (n : ℕ)
    → Cut hi cur cuts out rest
    → NormalFrom n cuts
    → NormalFrom n rest
Cut-rest n (Cut.no_cuts a) k = tt
Cut-rest n (Cut.skipped {c = c} {rest = rest} a b t) k =
    NormalFrom-le n (c.hi + 2) rest (omega (arith, k.0, k.1)) (Cut-rest (c.hi + 2) t k.2)
Cut-rest n (Cut.clear a b) k = k
Cut-rest n (Cut.last a) k = k
Cut-rest n (Cut.more {c = c} {rest = rest} a b t) k =
    NormalFrom-le n (c.hi + 2) rest (omega (arith, k.0, k.1)) (Cut-rest (c.hi + 2) t k.2)

left_part-NormalFrom :
    (m cur e : ℕ) (c : Range)
    → m ≤ cur
    → c.lo ≤ e + 1
    → NormalFrom m (left_part cur c) × All (λ r. r.hi ≤ e) (left_part cur c)
unfolding left_part
left_part-NormalFrom m cur e c p q = elim (Bool-cases (ltb cur c.lo)) [
  | inl t ↦ let h : cur < c.lo = ltb→lt _ _ t in rw t (omega arith)
  | inr t ↦ rw t (tt, tt)
]

-- The part left of a cut, then what follows the cut.
left_part-append :
    (m cur hi : ℕ) (c : Range) (out : List Range)
    → m ≤ cur
    → cur ≤ c.hi
    → c.lo ≤ c.hi
    → c.hi < hi
    → NormalFrom (c.hi + 1) out
    → All (λ r. r.hi ≤ hi) out
    → NormalFrom m (left_part cur c ++ out) × All (λ r. r.hi ≤ hi) (left_part cur c ++ out)
unfolding left_part
left_part-append m cur hi c out p q v h k a = elim (Bool-cases (ltb cur c.lo)) [
  | inl t ↦
      let g : cur < c.lo = ltb→lt _ _ t in
      rw t (
        (p, omega arith, NormalFrom-le (c.lo - 1 + 2) (c.hi + 1) out (omega arith) k),
        (omega arith, a),
      )
  | inr t ↦ rw t (NormalFrom-le m (c.hi + 1) out (omega arith) k, a)
]

Cut-out :
    {hi cur : ℕ} {cuts out rest : List Range} (m n : ℕ)
    → Cut hi cur cuts out rest
    → NormalFrom n cuts
    → m ≤ cur
    → NormalFrom m out × All (λ r. r.hi ≤ hi) out
Cut-out m n (Cut.no_cuts a) k p = omega arith
Cut-out m n (Cut.skipped {c = c} a b t) k p = Cut-out m (c.hi + 2) t k.2 p
Cut-out m n (Cut.clear a b) k p = omega arith
Cut-out {hi} {cur} m n (Cut.last {c = c} a) k p = left_part-NormalFrom m cur hi c p (omega arith)
Cut-out {hi} {cur} m n (Cut.more {c = c} {out = out} a b t) k p =
    let later = Cut-out (c.hi + 1) (c.hi + 2) t k.2 (omega arith) in
    left_part-append m cur hi c out p a k.1 b later.0 later.1

module _ (cur hi : ℕ) (cuts : List Range) (h : cur ≤ hi) (w : hi ≤ max_u32) where
  -- A cut that the sweep has dropped ends before `hi`: later addresses are cut by the rest alone.
  pub covered-rest : (x : ℕ) → hi < x → covered (cut_span cur hi cuts).1 x ≡ covered cuts x
  covered-rest x = Cut-covered x (cut_span-Cut cur hi cuts h w)

  pub rest-NormalFrom : (n : ℕ) → NormalFrom n cuts → NormalFrom n (cut_span cur hi cuts).1
  rest-NormalFrom n = Cut-rest n (cut_span-Cut cur hi cuts h w)

  -- What a span yields stays inside it, in normal form.
  pub cut_span-NormalFrom :
      (m n : ℕ)
      → NormalFrom n cuts
      → m ≤ cur
      → NormalFrom m (cut_span cur hi cuts).0 × All (λ r. r.hi ≤ hi) (cut_span cur hi cuts).0
  cut_span-NormalFrom m n = Cut-out m n (cut_span-Cut cur hi cuts h w)
