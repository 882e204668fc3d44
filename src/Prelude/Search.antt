-- ===== src/Prelude/Search.antt =====
-- Go's `sort.Search`: the binary search of the standard library, and what it returns.
use dns_stack.Prelude.Tests.{ltb, if◌then◌else◌, Bool-cases}
use dns_stack.Prelude.Lists.{length, get_or, All}
use Prim.Native.Nat.{ℕ, zero, suc, ◌+◌, ◌-◌, ◌/◌, ◌≤◌, ◌<◌}
use mathlib.Core.Path.{◌≡◌}
use mathlib.Core.Logic.{inl, inr}
use mathlib.Core.Bool.{Bool, true, false}
use mathlib.Core.List.{List, [], ◌∷◌}
use native.Mathlib.Omega.{arith}

-- `for i < j { h := (i+j)/2; if !f(h) { i = h+1 } else { j = h } }`
search_loop : ℕ → (ℕ → Bool) → ℕ → ℕ → ℕ
search_loop zero f i j = i
search_loop (suc fuel) f i j =
    let h = (i + j) / 2 in
    let left = search_loop fuel f i h in
    let right = search_loop fuel f (h + 1) j in if ltb i j then if f h then left else right else i

-- The window shrinks in each round, so that `n` rounds are enough.
unfoldable pub search : ℕ → (ℕ → Bool) → ℕ
unfolding search_loop
search n f = search_loop n f 0 n

-- `m` is the first index below `n` at which `f` holds, and `f` holds from there on.
pub record SplitsAt (f : ℕ → Bool) (n m : ℕ) : Type 0 where
  pub inside : m ≤ n
  pub below : (h : ℕ) → h < m → f h ≡ false
  pub above : (h : ℕ) → m ≤ h → h < n → f h ≡ true

search_loop-eq :
    (fuel : ℕ) (f : ℕ → Bool) (i j n m : ℕ)
    → SplitsAt f n m
    → i ≤ m
    → m ≤ j
    → j ≤ n
    → j - i ≤ fuel
    → search_loop fuel f i j ≡ m
unfolding search_loop
search_loop-eq zero f i j n m s p q r e = omega arith
search_loop-eq (suc fuel) f i j n m s p q r e = ground (
  arith,
  s.below ((i + j) / 2),
  s.above ((i + j) / 2),
  search_loop-eq fuel f i ((i + j) / 2) n m s,
  search_loop-eq fuel f ((i + j) / 2 + 1) j n m s,
)

-- On a monotone test the search returns the first index that passes it.
pub search-SplitsAt : (f : ℕ → Bool) (n m : ℕ) → SplitsAt f n m → search n f ≡ m
unfolding search
search-SplitsAt f n m s =
    search_loop-eq n f 0 n n m s (omega arith) s.inside (omega arith) (omega arith)

module _ {ℓ} {A : Type ℓ} (p : A → Bool) where
  -- The length of the longest prefix of items that fail the test.
  unfoldable pub first_index : List A → ℕ
  first_index [] = 0
  first_index (x ∷ xs) = if p x then 0 else suc (first_index xs)

  -- From an item that passes on, all pass.
  abbrev pub Upward : List A → Type 0
  Upward [] = Unit
  Upward (x ∷ xs) = (p x ≡ true → All (λ y. p y ≡ true) xs) × Upward xs

  get_or-All :
      (d : A) (xs : List A) (h : ℕ)
      → All (λ y. p y ≡ true) xs
      → h < length xs
      → p (get_or xs h d) ≡ true
  get_or-All d [] h a b = absurd (omega arith)
  get_or-All d (x ∷ xs) zero a b = a.0
  get_or-All d (x ∷ xs) (suc h) a b = get_or-All d xs h a.1 (omega arith)

  pub first_index-le : (xs : List A) → first_index xs ≤ length xs
  unfolding first_index
  first_index-le [] = omega arith
  first_index-le (x ∷ xs) = ground (arith, first_index-le xs)

  first_index-below : (d : A) (xs : List A) (h : ℕ) → h < first_index xs → p (get_or xs h d) ≡ false
  unfolding first_index
  first_index-below d [] h b = absurd (omega arith)
  first_index-below d (x ∷ xs) zero b = ground arith
  first_index-below d (x ∷ xs) (suc h) b = ground (arith, first_index-below d xs h)

  first_index-above :
      (d : A) (xs : List A) (h : ℕ)
      → Upward xs
      → first_index xs ≤ h
      → h < length xs
      → p (get_or xs h d) ≡ true
  unfolding first_index
  first_index-above d [] h u a b = absurd (omega arith)
  first_index-above d (x ∷ xs) zero u a b = ground arith
  first_index-above d (x ∷ xs) (suc h) u a b = elim (Bool-cases (p x)) [
    | inl e ↦ get_or-All d xs h (u.0 e) (omega arith)
    | inr e ↦ first_index-above d xs h u.1 (ground arith) (omega arith)
  ]

  -- The binary search over a list whose passing items stand at its end.
  pub search-first_index :
      (d : A) (xs : List A)
      → Upward xs
      → search (length xs) (λ k. p (get_or xs k d)) ≡ first_index xs
  search-first_index d xs u =
      search-SplitsAt (λ k. p (get_or xs k d)) (length xs) (first_index xs)
        (record {
          inside = first_index-le xs;
          below = first_index-below d xs;
          above = λ h. first_index-above d xs h u;
        })
