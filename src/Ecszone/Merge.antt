-- ===== src/Ecszone/Merge.antt =====
-- internal/ecszone/ecszone.go: the rows that `MergeRows` returns are apart, and cover what its input covers.
use dns_stack.Prelude.{
  ℕ, ◌+◌, ◌≤◌, ◌<◌, ◌≡◌, refl, sym, ◌∙◌, Bool, true, false, List, [], ◌∷◌, ◌++◌, ◌&&◌, ◌||◌, inl,
  inr, arith, ltb, leb, any, All, Bool-cases, max_u32,
}
use native.Mathlib.Nat.{mod-eq_of_lt}
use dns_stack.Prelude.Sort.{sort_slice, insert_sorted, any-sort_slice, All-sort_slice}
use dns_stack.Text.Match.{same}
use dns_stack.Ecszone.Rows.{
  Row, row_less, Merged, after_hi, merge_into, merge_turn, merge_from, merge_sorted, merge_rows,
}

abbrev pub in_row : ℕ → Row → Bool
in_row x r = leb r.lo x && leb x r.hi

-- Some row holds the address.
abbrev pub in_rows : List Row → ℕ → Bool
in_rows rows x = any (in_row x) rows

-- The rows are valid, in order and apart, from `n` on.
abbrev pub ApartFrom : ℕ → List Row → Type 0
ApartFrom n [] = Unit
ApartFrom n (r ∷ rs) = (n ≤ r.lo) × (r.lo ≤ r.hi) × ApartFrom (r.hi + 1) rs

pub ApartFrom-le : (m n : ℕ) (rs : List Row) → m ≤ n → ApartFrom n rs → ApartFrom m rs
ApartFrom-le m n [] h a = tt
ApartFrom-le m n (r ∷ rs) h a = (omega (arith, h, a.0), a.1, a.2)

-- The row ends below the last address of uint32.
abbrev pub EndsBelow : Row → Type 0
EndsBelow r = r.hi < max_u32

-- Rows in ascending order from `n` on.
abbrev pub RowsFrom : ℕ → List Row → Type 0
RowsFrom n [] = Unit
RowsFrom n (r ∷ rs) = (n ≤ r.lo) × RowsFrom r.lo rs

RowsFrom-le : (m n : ℕ) (rs : List Row) → m ≤ n → RowsFrom n rs → RowsFrom m rs
RowsFrom-le m n [] h a = tt
RowsFrom-le m n (r ∷ rs) h a = (omega (arith, h, a.0), a.1)

row_less_lo : (a b : Row) → row_less a b ≡ true → a.lo ≤ b.lo
unfolding row_less
row_less_lo a b h = ground arith

not_row_less_lo : (a b : Row) → row_less a b ≡ false → b.lo ≤ a.lo
unfolding row_less
not_row_less_lo a b h = ground arith

insert_sorted-RowsFrom :
    (n : ℕ) (r : Row) (rs : List Row)
    → n ≤ r.lo
    → RowsFrom n rs
    → RowsFrom n (insert_sorted row_less r rs)
unfolding insert_sorted
insert_sorted-RowsFrom n r [] h a = (h, tt)
insert_sorted-RowsFrom n r (s ∷ rs) h a = elim (Bool-cases (row_less s r)) [
  | inl e ↦ rw e (a.0, insert_sorted-RowsFrom s.lo r rs (row_less_lo s r e) a.1)
  | inr e ↦ rw e (h, (not_row_less_lo s r e, a.1))
]

sort_slice-RowsFrom : (rs : List Row) → RowsFrom 0 (sort_slice row_less rs)
unfolding sort_slice
sort_slice-RowsFrom [] = tt
sort_slice-RowsFrom (r ∷ rs) =
    insert_sorted-RowsFrom 0 r (sort_slice row_less rs) (omega arith) (sort_slice-RowsFrom rs)

after_hi_lem : (r : Row) → EndsBelow r → after_hi r ≡ r.hi + 1
after_hi_lem r h = mod-eq_of_lt (omega (arith, h))

-- What one turn does to the addresses from `s` on: either the last row stays and grows, or it is put behind.
data Turns (s : ℕ) (last row : Row) : Merged → Type 0 where
  grows :
      (next : Row) (c : ℕ)
      → next.lo ≡ last.lo
      → last.hi ≤ next.hi
      → EndsBelow next
      → ((x : ℕ) → (leb s x && leb x next.hi) ≡ ((leb s x && leb x last.hi) || in_row x row))
      → Turns s last row (record { behind = []; last = next; clips = c })
  leaves :
      (next : Row) (c t : ℕ)
      → last.hi < next.lo
      → next.lo ≤ next.hi
      → EndsBelow next
      → s ≤ t
      → t ≤ next.lo
      → t ≤ row.lo
      → ((x : ℕ)
          → ((leb t x && leb x next.hi) || (leb s x && leb x last.hi))
            ≡ ((leb s x && leb x last.hi) || in_row x row))
      → ((x : ℕ) → t ≤ x → x < next.lo → x ≤ last.hi)
      → Turns s last row (record { behind = last ∷ []; last = next; clips = c })

merge_into-Turns :
    (s : ℕ) (last row : Row)
    → s ≤ last.lo
    → last.lo ≤ last.hi
    → EndsBelow last
    → s ≤ row.lo
    → row.lo ≤ row.hi
    → EndsBelow row
    → Turns s last row (merge_into last row)
unfolding merge_into
merge_into-Turns s last row a b w p q v =
    rw (after_hi_lem last w)
      (elim (Bool-cases (same row.zone last.zone && leb row.lo (last.hi + 1))) [
        | inl e ↦ rw e (elim (Bool-cases (ltb last.hi row.hi)) [
          | inl f ↦ rw f (
              grows (record last { hi = row.hi }) 0 refl (ground (arith, f)) v
                (λ x. ground (arith, e, f)))
          | inr f ↦ rw f (grows last 0 refl (omega arith) w (λ x. ground (arith, e, f)))
        ])
        | inr e ↦ rw e (elim (Bool-cases (leb row.lo last.hi)) [
          | inl f ↦ rw f (elim (Bool-cases (ltb row.hi (last.hi + 1))) [
            | inl g ↦ rw g (grows last 1 refl (omega arith) w (λ x. ground (arith, f, g)))
            | inr g ↦ rw g (
                leaves (record row { lo = last.hi + 1 }) 1 s (omega arith) (ground (arith, g)) v
                  (omega arith) (omega (arith, a, b)) p (λ x. ground (arith, f, g))
                  (λ x t u. omega (arith, u)))
          ])
          | inr f ↦ rw f (
              leaves row 0 row.lo (ground (arith, f)) q v p (omega arith) (omega arith)
                (λ x. ground arith) (λ x t u. omega (arith, t, u)))
        ])
      ])

merge_turn-Turns :
    (s : ℕ) (last row : Row)
    → s ≤ last.lo
    → last.lo ≤ last.hi
    → EndsBelow last
    → s ≤ row.lo
    → EndsBelow row
    → Turns s last row (merge_turn last row)
unfolding merge_turn
merge_turn-Turns s last row a b w p v = elim (Bool-cases (ltb row.hi row.lo)) [
  | inl e ↦ rw e (grows last 0 refl (omega arith) w (λ x. ground (arith, e)))
  | inr e ↦ rw e (merge_into-Turns s last row a b w p (ground (arith, e)) v)
]

-- The rows that the loop returns hold what the last row and the rows to come hold, but for addresses between `s` and
-- the last row, which are held by rows put behind.
abbrev Keeps : ℕ → Row → List Row → List Row → Type 0
Keeps s last rows out =
    (x : ℕ)
    → (in_rows out x || (leb s x && ltb x last.lo)) ≡ ((leb s x && leb x last.hi) || in_rows rows x)

-- What the loop does from a last row on.
abbrev pub Merges : ℕ → Row → List Row → List Row → Type 0
Merges s last rows out = ApartFrom last.lo out × Keeps s last rows out

add_turn :
    (s : ℕ) (last row : Row) (rows : List Row) (m : Merged)
    → s ≤ last.lo
    → last.lo ≤ last.hi
    → RowsFrom s (row ∷ rows)
    → Turns s last row m
    → ((t : ℕ)
        → t ≤ m.last.lo
        → m.last.lo ≤ m.last.hi
        → EndsBelow m.last
        → RowsFrom t rows
        → Merges t m.last rows (merge_from m.last rows).0)
    → Merges s last (row ∷ rows) (m.behind ++ (merge_from m.last rows).0)
unfolding any
add_turn s last row rows _ a b o (grows next c e h u f) ih =
    let (apart, keeps) =
      ih s (omega (arith, a, e)) (omega (arith, b, e, h)) u (RowsFrom-le s row.lo rows o.0 o.1) in
    (rw (sym e) apart, λ x. ground (arith, keeps x, f x, e))
add_turn s last row rows _ a b o (leaves next c t e q u h i j f k) ih =
    let (apart, keeps) = ih t i q u (RowsFrom-le t row.lo rows j o.1) in
    (
      (omega arith, b, ApartFrom-le (last.hi + 1) next.lo _ (omega (arith, e)) apart),
      λ x. ground (arith, keeps x, f x, k x),
    )

merge_from-Merges :
    (s : ℕ) (last : Row) (rows : List Row)
    → s ≤ last.lo
    → last.lo ≤ last.hi
    → EndsBelow last
    → RowsFrom s rows
    → All EndsBelow rows
    → Merges s last rows (merge_from last rows).0
unfolding merge_from
merge_from-Merges s last [] a b w o v = ((omega arith, b, tt), λ x. unfold any in ground arith)
merge_from-Merges s last (row ∷ rows) a b w o v =
    add_turn s last row rows (merge_turn last row) a b o (merge_turn-Turns s last row a b w o.0 v.0)
      (λ t p q u r. merge_from-Merges t (merge_turn last row).last rows p q u r v.1)

merge_sorted-lem :
    (n : ℕ) (rows : List Row)
    → RowsFrom n rows
    → All EndsBelow rows
    → ApartFrom n (merge_sorted rows).0
      × ((x : ℕ) → in_rows (merge_sorted rows).0 x ≡ in_rows rows x)
unfolding merge_sorted any
merge_sorted-lem n [] o v = (tt, λ x. refl)
merge_sorted-lem n (row ∷ rows) o v = elim (Bool-cases (ltb row.hi row.lo)) [
  | inl e ↦ rw e (
      let (apart, same_rows) = merge_sorted-lem n rows (RowsFrom-le n row.lo rows o.0 o.1) v.1 in
      (apart, λ x. ground (arith, same_rows x, e)))
  | inr e ↦ rw e (
      let (apart, keeps) =
        merge_from-Merges row.lo row rows (omega arith) (ground (arith, e)) v.0 o.1 v.1 in
      (ApartFrom-le n row.lo _ o.0 apart, λ x. ground (arith, keeps x)))
]

module _ (rows : List Row) (v : All EndsBelow rows) where
  merged :
      ApartFrom 0 (merge_rows rows).0
      × ((x : ℕ) → in_rows (merge_rows rows).0 x ≡ in_rows (sort_slice row_less rows) x)
  unfolding merge_rows
  merged =
      merge_sorted-lem 0 (sort_slice row_less rows) (sort_slice-RowsFrom rows)
        (All-sort_slice row_less EndsBelow rows v)

  pub merge_rows-ApartFrom : ApartFrom 0 (merge_rows rows).0
  merge_rows-ApartFrom = merged.0

  -- `MergeRows` keeps the addresses: one lies in a row of the result exactly if it lies in a row of the input, in
  -- whatever order the rows are and however they overlap, where every row ends below 255.255.255.255.
  pub in_rows-merge_rows : (x : ℕ) → in_rows (merge_rows rows).0 x ≡ in_rows rows x
  in_rows-merge_rows x = merged.1 x ∙ any-sort_slice row_less (in_row x) rows
