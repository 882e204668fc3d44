-- ===== src/Text/Split.antt =====
-- Splitting at dots and joining by dots.
use dns_stack.Prelude.{
  ℕ, ◌+◌, ◌≡◌, ◌≢◌, refl, sym, ap, ◌∙◌, List, [], ◌∷◌, inl, inr, ◌==◌, ==_iff, arith, length,
  length-append, Bool-cases, if◌then◌else◌,
}
use dns_stack.Text.{Bytes, first_with, split_dots, join_dots}

join_dots-first_with :
    (c : ℕ) (ls : List Bytes) → ls ≢ [] → join_dots (first_with c ls) ≡ c ∷ join_dots ls
unfolding first_with join_dots
join_dots-first_with c [] h = absurd (h refl)
join_dots-first_with c (l ∷ []) h = refl
join_dots-first_with c (l ∷ m ∷ ls) h = refl

join_dots-[] : (ls : List Bytes) → ls ≢ [] → join_dots ([] ∷ ls) ≡ b'.' ∷ join_dots ls
unfolding join_dots
join_dots-[] [] h = absurd (h refl)
join_dots-[] (m ∷ ls) h = refl

first_with-ne-nil : (c : ℕ) (ls : List Bytes) → first_with c ls ≢ []
unfolding first_with
first_with-ne-nil c [] e = cc
first_with-ne-nil c (l ∷ ls) e = cc

split_dots-∷ :
    (c : ℕ) (s : Bytes)
    → split_dots (c ∷ s) ≡ (if c == b'.' then [] ∷ split_dots s else first_with c (split_dots s))
unfolding split_dots
split_dots-∷ c s = refl

pub split_dots-ne-nil : (s : Bytes) → split_dots s ≢ []
split_dots-ne-nil [] e = unfold split_dots in cc e
split_dots-ne-nil (c ∷ s) e = elim (Bool-cases (c == b'.')) [
  | inl t ↦ cc (rw (split_dots-∷, t) at e)
  | inr t ↦ first_with-ne-nil c (split_dots s) (rw (split_dots-∷, t) at e)
]

-- Joining the labels of a name gives the name.
pub join_dots-split_dots : (s : Bytes) → join_dots (split_dots s) ≡ s
join_dots-split_dots [] = unfold split_dots join_dots in refl
join_dots-split_dots (c ∷ s) = elim (Bool-cases (c == b'.')) [
  | inl t ↦
      rw (split_dots-∷, t)
        (join_dots-[] (split_dots s) (split_dots-ne-nil s)
          ∙ ap (λ r. b'.' ∷ r) (join_dots-split_dots s)
          ∙ ap (λ (k : ℕ). k ∷ s) (sym ((==_iff c b'.').0 t)))
  | inr t ↦
      rw (split_dots-∷, t)
        (join_dots-first_with c (split_dots s) (split_dots-ne-nil s)
          ∙ ap (λ r. c ∷ r) (join_dots-split_dots s))
]

-- A name is as long as its labels with one byte more for each, less one.
unfoldable pub wire_size : List Bytes → ℕ
wire_size [] = 0
wire_size (l ∷ ls) = length l + 1 + wire_size ls

pub length-join_dots : (ls : List Bytes) → ls ≢ [] → length (join_dots ls) + 1 ≡ wire_size ls
unfolding join_dots wire_size
length-join_dots [] h = absurd (h refl)
length-join_dots (l ∷ []) h = omega arith
length-join_dots (l ∷ m ∷ ls) h =
    omega (arith, length-append l (b'.' ∷ join_dots (m ∷ ls)), length-join_dots (m ∷ ls) (λ e. cc))

pub wire_size-split_dots : (s : Bytes) → wire_size (split_dots s) ≡ length s + 1
wire_size-split_dots s =
    sym (length-join_dots (split_dots s) (split_dots-ne-nil s))
    ∙ ap (λ t. length t + 1) (join_dots-split_dots s)
