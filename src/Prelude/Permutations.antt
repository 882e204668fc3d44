-- ===== src/Prelude/Permutations.antt =====
-- Permutations of lists, and functions that do not see the order.
use dns_stack.Prelude.Tests.{Bool-cases, if◌then◌else◌}
use dns_stack.Prelude.Sort.{insert_sorted, sort_slice, IsStrict}
use dns_stack.Prelude.Lists.{length}
use Prim.Native.Nat.{suc}
use mathlib.Core.Path.{◌≡◌, refl, ap, ◌∙◌}
use mathlib.Core.Logic.{inl, inr}
use mathlib.Core.Bool.{Bool, true, false}
use mathlib.Core.List.{List, [], ◌∷◌, ◌++◌, Permᴰ}
use mathlib.Core.List.Permᴰ

module _ {ℓ} {A : Type ℓ} where
  append_swap : (xs ys r : List A) → Permᴰ (xs ++ (ys ++ r)) (ys ++ (xs ++ r))
  append_swap [] ys r = Permᴰ.refl (ys ++ r)
  append_swap (x ∷ xs) ys r =
      Permᴰ.trans (Permᴰ.cons refl (append_swap xs ys r)) (Permᴰ.symm (Permᴰ.middle x ys (xs ++ r)))

module _ {ℓ κ} {A : Type ℓ} {B : Type κ} (g : A → List B) where
  -- The lists of all items, one after the other.
  unfoldable pub flat : List A → List B
  flat [] = []
  flat (x ∷ xs) = g x ++ flat xs

  pub flat-Permᴰ : {xs ys : List A} → Permᴰ xs ys → Permᴰ (flat xs) (flat ys)
  unfolding flat
  flat-Permᴰ Permᴰ.nil = Permᴰ.nil
  flat-Permᴰ (Permᴰ.cons {a = a} {b = b} {l₁ = l} {l₂ = k} e d) =
      rw e (Permᴰ.append_left (g b) (flat-Permᴰ d))
  flat-Permᴰ (Permᴰ.swap {a = a} {b = b} {a' = c} {b' = d} {l = l} e f) =
      rw (e, f) (append_swap (g d) (g c) (flat l))
  flat-Permᴰ (Permᴰ.trans d e) = Permᴰ.trans (flat-Permᴰ d) (flat-Permᴰ e)

-- Items of which neither is less are equal.
abbrev pub TiesAreEqual {ℓ} : {A : Type ℓ} → (A → A → Bool) → Type ℓ
TiesAreEqual {A = A} less = (x y : A) → less x y ≡ false → less y x ≡ false → x ≡ y

module _ {ℓ} {A : Type ℓ} (less : A → A → Bool) (strict : IsStrict less)
    (ties : TiesAreEqual less) where
  swap_front :
      (x y : A) (r : List A)
      → (if less y x then y ∷ x ∷ r else x ∷ y ∷ r) ≡ (if less x y then x ∷ y ∷ r else y ∷ x ∷ r)
  swap_front x y r = elim (Bool-cases (less y x)) [
    | inl e ↦ rw (e, strict.asymmetric y x e) refl
    | inr e ↦ (elim (Bool-cases (less x y)) [
      | inl f ↦ rw (e, f) refl
      | inr f ↦ rw (e, f) (let same_items : x ≡ y = ties x y f e in cc)
    ])
  ]

  -- An item that is not less than one before `z` comes before an item past `z`.
  less_past : (x y z : A) → less z x ≡ true → less z y ≡ false → less y x ≡ true
  less_past x y z a b = elim (Bool-cases (less y x)) [
    | inl c ↦ c
    | inr c ↦ let d : less z x ≡ false = strict.not_less_trans x y z c b in cc
  ]

  insert_comm :
      (x y : A) (zs : List A)
      → insert_sorted less x (insert_sorted less y zs)
        ≡ insert_sorted less y (insert_sorted less x zs)
  unfolding insert_sorted
  insert_comm x y [] = swap_front x y []
  insert_comm x y (z ∷ zs) = elim (Bool-cases (less z x)) [
    | inl a ↦ (elim (Bool-cases (less z y)) [
      | inl b ↦ rw (a, b) (rw a (ap (λ (ws : List A). z ∷ ws) (insert_comm x y zs)))
      | inr b ↦ rw (a, b, less_past x y z a b) (rw a refl)
    ])
    | inr a ↦ (elim (Bool-cases (less z y)) [
      | inl b ↦ rw (a, b, less_past y x z b a) (rw a refl)
      | inr b ↦ rw (a, b) (rw a (swap_front x y (z ∷ zs)))
    ])
  ]

  -- Sorting does not see the order of its input.
  pub sort_slice-Permᴰ : {xs ys : List A} → Permᴰ xs ys → sort_slice less xs ≡ sort_slice less ys
  unfolding sort_slice
  sort_slice-Permᴰ Permᴰ.nil = refl
  sort_slice-Permᴰ (Permᴰ.cons {b = b} e d) =
      rw e (ap (λ (ws : List A). insert_sorted less b ws) (sort_slice-Permᴰ d))
  sort_slice-Permᴰ (Permᴰ.swap {a' = c} {b' = d} {l = l} e f) =
      rw (e, f) (insert_comm d c (sort_slice less l))
  sort_slice-Permᴰ (Permᴰ.trans d e) = sort_slice-Permᴰ d ∙ sort_slice-Permᴰ e

module _ {ℓ} {A : Type ℓ} (less : A → A → Bool) where
  insert_sorted-perm : (x : A) (ys : List A) → Permᴰ (insert_sorted less x ys) (x ∷ ys)
  unfolding insert_sorted
  insert_sorted-perm x [] = Permᴰ.refl (x ∷ [])
  insert_sorted-perm x (y ∷ ys) = elim (Bool-cases (less y x)) [
    | inl e ↦ rw e (Permᴰ.trans (Permᴰ.cons refl (insert_sorted-perm x ys)) (Permᴰ.swap refl refl))
    | inr e ↦ rw e (Permᴰ.refl (x ∷ y ∷ ys))
  ]

  -- Sorting keeps the items.
  pub sort_slice-perm : (xs : List A) → Permᴰ (sort_slice less xs) xs
  unfolding sort_slice
  sort_slice-perm [] = Permᴰ.refl []
  sort_slice-perm (x ∷ xs) =
      Permᴰ.trans (insert_sorted-perm x (sort_slice less xs)) (Permᴰ.cons refl (sort_slice-perm xs))

pub length-Permᴰ {ℓ} : {A : Type ℓ} {xs ys : List A} → Permᴰ xs ys → length xs ≡ length ys
length-Permᴰ Permᴰ.nil = refl
length-Permᴰ (Permᴰ.cons e d) = ap suc (length-Permᴰ d)
length-Permᴰ (Permᴰ.swap e f) = refl
length-Permᴰ (Permᴰ.trans d e) = length-Permᴰ d ∙ length-Permᴰ e
