-- ===== src/Prelude/Sort.antt =====
-- Go's `sort.Slice` over a strict order that tells all different items apart, where the result
-- does not depend on the algorithm: an insertion sort.
use dns_stack.Prelude.Tests.{if◌then◌else◌, Bool-cases}
use dns_stack.Prelude.Lists.{All, All-mono, any}
use mathlib.Core.Bool.{Bool, true, false, ◌||◌}
use mathlib.Core.Logic.{inl, inr}
use mathlib.Core.Path.{◌≡◌}
use mathlib.Core.List.{List, [], ◌∷◌}
use native.Mathlib.Omega.{arith}

module _ {ℓ} {A : Type ℓ} (less : A → A → Bool) where
  unfoldable pub insert_sorted : A → List A → List A
  insert_sorted x [] = x ∷ []
  insert_sorted x (y ∷ ys) = if less y x then y ∷ insert_sorted x ys else x ∷ y ∷ ys

  unfoldable pub sort_slice : List A → List A
  unfolding insert_sorted
  sort_slice [] = []
  sort_slice (x ∷ xs) = insert_sorted x (sort_slice xs)

  any-insert_sorted :
      (p : A → Bool) (x : A) (ys : List A) → any p (insert_sorted x ys) ≡ (p x || any p ys)
  unfolding insert_sorted any
  any-insert_sorted p x [] = ground arith
  any-insert_sorted p x (y ∷ ys) = ground (arith, any-insert_sorted p x ys)

  -- A test passes on some item of the sorted list exactly if it does on some item of the list.
  pub any-sort_slice : (p : A → Bool) (xs : List A) → any p (sort_slice xs) ≡ any p xs
  unfolding sort_slice any
  any-sort_slice p [] = ground arith
  any-sort_slice p (x ∷ xs) =
      ground (arith, any-insert_sorted p x (sort_slice xs), any-sort_slice p xs)

  All-insert_sorted {κ} :
      (P : A → Type κ) (x : A) (ys : List A) → P x → All P ys → All P (insert_sorted x ys)
  unfolding insert_sorted
  All-insert_sorted P x [] h a = (h, a)
  All-insert_sorted P x (y ∷ ys) h a = elim (Bool-cases (less y x)) [
    | inl e ↦ rw e (a.0, All-insert_sorted P x ys h a.1)
    | inr e ↦ rw e (h, a)
  ]

  pub All-sort_slice {κ} : (P : A → Type κ) (xs : List A) → All P xs → All P (sort_slice xs)
  unfolding sort_slice
  All-sort_slice P [] a = a
  All-sort_slice P (x ∷ xs) a = All-insert_sorted P x (sort_slice xs) a.0 (All-sort_slice P xs a.1)

  -- No item is less than one that stands before it.
  abbrev pub IsSorted : List A → Type 0
  IsSorted [] = Unit
  IsSorted (x ∷ xs) = All (λ y. less y x ≡ false) xs × IsSorted xs

-- What `sort.Slice` asks of its order.
pub record IsStrict {ℓ} {A : Type ℓ} (less : A → A → Bool) : Type ℓ where
  pub asymmetric : (x y : A) → less x y ≡ true → less y x ≡ false
  pub not_less_trans : (x y z : A) → less y x ≡ false → less z y ≡ false → less z x ≡ false

module _ {ℓ} {A : Type ℓ} (less : A → A → Bool) (strict : IsStrict less) where
  insert_sorted-IsSorted :
      (x : A) (ys : List A) → IsSorted less ys → IsSorted less (insert_sorted less x ys)
  unfolding insert_sorted
  insert_sorted-IsSorted x [] h = (tt, tt)
  insert_sorted-IsSorted x (y ∷ ys) h = elim (Bool-cases (less y x)) [
    | inl e ↦ rw e (
      All-insert_sorted less (λ z. less z y ≡ false) x ys (strict.asymmetric y x e) h.0,
      insert_sorted-IsSorted x ys h.1,
    )
    | inr e ↦ rw e (
      (
        e,
        All-mono (λ z. less z y ≡ false) (λ z. less z x ≡ false) ys
            (λ z. strict.not_less_trans x y z e) h.0,
      ),
      h,
    )
  ]

  pub sort_slice-IsSorted : (xs : List A) → IsSorted less (sort_slice less xs)
  unfolding sort_slice
  sort_slice-IsSorted [] = tt
  sort_slice-IsSorted (x ∷ xs) =
      insert_sorted-IsSorted x (sort_slice less xs) (sort_slice-IsSorted xs)

  insert_sorted_least :
      (x : A) (ys : List A) → All (λ y. less y x ≡ false) ys → insert_sorted less x ys ≡ x ∷ ys
  unfolding insert_sorted
  insert_sorted_least x [] a = cc
  insert_sorted_least x (y ∷ ys) a = rw a.0

  -- Sorting leaves a sorted list alone.
  pub sort_slice_sorted : (xs : List A) → IsSorted less xs → sort_slice less xs ≡ xs
  unfolding sort_slice
  sort_slice_sorted [] h = cc
  sort_slice_sorted (x ∷ xs) h = rw (sort_slice_sorted xs h.1) (insert_sorted_least x xs h.0)
