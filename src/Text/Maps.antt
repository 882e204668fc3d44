-- ===== src/Text/Maps.antt =====
-- Go's maps with strings as keys, as lists of entries, each key once.
use dns_stack.Prelude.{
  ◌≡◌, refl, ◌∙◌, inl, inr, false, arith, Bool-cases, Option, none, some, List, [], ◌∷◌,
  if◌then◌else◌,
}
use dns_stack.Text.{Bytes}
use dns_stack.Text.Match.{same, same_iff, same_comm}

module _ {ℓ} {A : Type ℓ} where
  -- `v, ok := m[k]`
  unfoldable pub get : Bytes → List (Bytes × A) → Option A
  get k [] = none
  get k ((j, a) ∷ m) = let rest = get k m in if same k j then some a else rest

  -- `m[k] = a`
  unfoldable pub put : Bytes → A → List (Bytes × A) → List (Bytes × A)
  put k a [] = (k, a) ∷ []
  put k a ((j, b) ∷ m) = let rest = put k a m in if same k j then (j, a) ∷ m else (j, b) ∷ rest

  -- `m[k]` where a missing key stands for a value.
  unfoldable pub get_else : Bytes → A → List (Bytes × A) → A
  unfolding get
  get_else k a m = elim (get k m) [ none ↦ a | some b ↦ b ]

  -- `delete(m, k)`
  unfoldable pub delete : Bytes → List (Bytes × A) → List (Bytes × A)
  delete k [] = []
  delete k ((j, a) ∷ m) = let rest = delete k m in if same k j then rest else (j, a) ∷ rest

  pub get-put :
      (k j : Bytes) (a : A) (m : List (Bytes × A))
      → get k (put j a m) ≡ (if same k j then some a else get k m)
  unfolding get put
  get-put k j a [] = refl
  get-put k j a ((i, b) ∷ m) = elim (Bool-cases (same j i)) [
    | inl e ↦ let same_key : j ≡ i = (same_iff j i).0 e in rw e (rw (← same_key) (ground arith))
    | inr e ↦ rw e (elim (Bool-cases (same k i)) [
      | inr f ↦ rw f (get-put k j a m)
      | inl f ↦
          let here : k ≡ i = (same_iff k i).0 f in
          let apart : same k j ≡ false = rw here (same_comm i j ∙ e) in rw (f, apart) refl
    ])
  ]

  pub get-delete :
      (k j : Bytes) (m : List (Bytes × A))
      → get k (delete j m) ≡ (if same k j then none else get k m)
  unfolding get delete
  get-delete k j [] = ground arith
  get-delete k j ((i, b) ∷ m) = elim (Bool-cases (same j i)) [
    | inl e ↦
        let same_key : j ≡ i = (same_iff j i).0 e in
        rw e (get-delete k j m ∙ rw (← same_key) (ground arith))
    | inr e ↦ rw e (elim (Bool-cases (same k i)) [
      | inr f ↦ rw f (get-delete k j m)
      | inl f ↦
          let here : k ≡ i = (same_iff k i).0 f in
          let apart : same k j ≡ false = rw here (same_comm i j ∙ e) in rw (f, apart) refl
    ])
  ]

-- No key stands twice, as in a map.
abbrev pub IsMap {ℓ} : {A : Type ℓ} → List (Bytes × A) → Type ℓ
IsMap [] = Unit
IsMap ((k, a) ∷ m) = (get k m ≡ none) × IsMap m

module _ {ℓ} {A : Type ℓ} where
  pub put-IsMap : (k : Bytes) (a : A) (m : List (Bytes × A)) → IsMap m → IsMap (put k a m)
  unfolding put get
  put-IsMap k a [] h = (refl, tt)
  put-IsMap k a ((j, b) ∷ m) h = elim (Bool-cases (same k j)) [
    | inl e ↦ rw e h
    | inr e ↦ rw e ((get-put j k a m ∙ rw (same_comm j k ∙ e) (h.0), put-IsMap k a m h.1))
  ]

  -- The value of an entry, or a default.
  unfoldable pub value_or : A → Option A → A
  value_or a none = a
  value_or a (some b) = b

  pub get_else-get :
      (k : Bytes) (a : A) (m : List (Bytes × A)) → get_else k a m ≡ value_or a (get k m)
  unfolding get_else value_or
  get_else-get k a m = elim (get k m) [ none ↦ refl | some b ↦ refl ]
