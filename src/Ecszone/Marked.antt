-- ===== src/Ecszone/Marked.antt =====
-- internal/ecszone/ecszone.go: `FirstOverlap` and `Marked` on rows, and on what `MergeRows` returns.
use dns_stack.Prelude.{
  ℕ, zero, suc, ◌+◌, ◌-◌, ◌≤◌, ◌<◌, ◌≡◌, refl, ◌∙◌, Bool, true, false, none, List, [], ◌∷◌, ◌&&◌,
  ◌||◌, inl, inr, arith, ltb, leb, any, All, Bool-cases, ltb→lt,
}
use dns_stack.Prelude.Search.{first_index, Upward, search-first_index}
use dns_stack.Ecszone.Rows.{Row, row_at, marked, first_overlap, first_overlap_from, merge_rows}
use dns_stack.Ecszone.Merge.{
  in_row, in_rows, ApartFrom, EndsBelow, merge_rows-ApartFrom, in_rows-merge_rows,
}

first_overlap_from-none :
    (i n : ℕ) (rows : List Row) → ApartFrom n rows → first_overlap_from i rows ≡ none
unfolding first_overlap_from
first_overlap_from-none i n [] a = refl
first_overlap_from-none i n (r ∷ []) a = refl
first_overlap_from-none i n (r ∷ s ∷ rows) a =
    let apart : leb s.lo r.hi ≡ false = ground (arith, a.2.0) in
    rw apart (first_overlap_from-none (suc i) (r.hi + 1) (s ∷ rows) a.2)

rows_later :
    (v n : ℕ) (rows : List Row)
    → v < n
    → ApartFrom n rows
    → All (λ (r : Row). ltb v r.lo ≡ true) rows
rows_later v n [] h a = tt
rows_later v n (r ∷ rows) h a =
    (ground (arith, a.0), rows_later v (r.hi + 1) rows (omega (arith, a.0, a.1)) a.2)

rows-Upward : (v n : ℕ) (rows : List Row) → ApartFrom n rows → Upward (λ (r : Row). ltb v r.lo) rows
rows-Upward v n [] a = tt
rows-Upward v n (r ∷ rows) a = (
  λ e. rows_later v (r.hi + 1) rows (omega (arith, a.1, ltb→lt _ _ e)) a.2,
  rows-Upward v (r.hi + 1) rows a.2,
)

in_rows_below :
    (n : ℕ) (rows : List Row) (x : ℕ) → ApartFrom n rows → x < n → in_rows rows x ≡ false
unfolding any
in_rows_below n [] x a h = refl
in_rows_below n (r ∷ rows) x a h =
    ground (arith, in_rows_below (r.hi + 1) rows x a.2 (omega (arith, a.0, a.1)), a.0)

-- The test of `Marked` on the row before the first that starts past the value.
reached : List Row → ℕ → ℕ → Bool
reached rows x zero = false
reached rows x (suc i) = leb x (row_at rows i).hi

reached_lem :
    (rows : List Row) (x after : ℕ)
    → (ltb 0 after && leb x (row_at rows (after - 1)).hi) ≡ reached rows x after
unfolding reached
reached_lem rows x zero = ground arith
reached_lem rows x (suc i) = let before : suc i - 1 ≡ i = omega arith in rw before (ground arith)

started :
    (x n i : ℕ) (rows : List Row)
    → ApartFrom n rows
    → first_index (λ (r : Row). ltb x r.lo) rows ≡ suc i
    → n ≤ x
unfolding first_index
started x n i [] a e = omega (arith, e)
started x n i (r ∷ rows) a e = ground (arith, a.0)

reached-cons :
    (x : ℕ) (r : Row) (rows : List Row)
    → ApartFrom (r.hi + 1) rows
    → r.lo ≤ x
    → (k : ℕ) → first_index (λ (s : Row). ltb x s.lo) rows ≡ k
    → reached rows x k ≡ in_rows rows x
    → reached (r ∷ rows) x (suc k) ≡ (in_row x r || in_rows rows x)
unfolding reached
reached-cons x r rows a h zero e ih = ground (arith, ih)
reached-cons x r rows a h (suc i) e ih = ground (arith, ih, started x (r.hi + 1) i rows a e)

reached-first_index :
    (n : ℕ) (rows : List Row) (x : ℕ)
    → ApartFrom n rows
    → reached rows x (first_index (λ (r : Row). ltb x r.lo) rows) ≡ in_rows rows x
unfolding first_index any
reached-first_index n [] x a = unfold reached in refl
reached-first_index n (r ∷ rows) x a = elim (Bool-cases (ltb x r.lo)) [
  | inl e ↦ rw e (unfold reached in ground (arith, in_rows_below (r.hi + 1) rows x a.2, a.1))
  | inr e ↦ rw e (
      reached-cons x r rows a.2 (ground (arith, e)) (first_index (λ (s : Row). ltb x s.lo) rows)
        refl (reached-first_index (r.hi + 1) rows x a.2))
]

marked-in_rows :
    (n : ℕ) (rows : List Row) (x : ℕ) → ApartFrom n rows → marked rows x ≡ in_rows rows x
unfolding marked
marked-in_rows n rows x a =
    let found =
      search-first_index (λ (r : Row). ltb x r.lo) (record { lo = 0; hi = 0; zone = [] }) rows
        (rows-Upward x n rows a) in
    rw found (
      reached_lem rows x (first_index (λ (r : Row). ltb x r.lo) rows)
      ∙ reached-first_index n rows x a)

module _ (rows : List Row) (v : All EndsBelow rows) where
  -- `FirstOverlap` finds no two neighbours that overlap in what `MergeRows` returns, where every row of the input ends
  -- below 255.255.255.255.
  pub first_overlap-merge_rows : first_overlap (merge_rows rows).0 ≡ none
  unfolding first_overlap
  first_overlap-merge_rows =
      first_overlap_from-none 0 0 (merge_rows rows).0 (merge_rows-ApartFrom rows v)

  -- `Marked` on what `MergeRows` returns answers whether a row of the input holds the address, where every row of the
  -- input ends below 255.255.255.255.
  pub marked-merge_rows : (x : ℕ) → marked (merge_rows rows).0 x ≡ in_rows rows x
  marked-merge_rows x =
      marked-in_rows 0 (merge_rows rows).0 x (merge_rows-ApartFrom rows v)
      ∙ in_rows-merge_rows rows v x
