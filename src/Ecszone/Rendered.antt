-- ===== src/Ecszone/Rendered.antt =====
-- internal/ecszone/ecszone.go: `LoadRows` reads back the table that `Render` writes.
use dns_stack.Prelude.{
  ℕ, ◌+◌, ◌≤◌, ◌<◌, ◌≡◌, refl, ap, ◌∙◌, false, Option, some, List, [], ◌∷◌, ◌++◌, ltb, ◌==◌, arith,
  u32_mod, All, All-append, any, length,
}
use dns_stack.Prelude.Sort.{sort_slice, IsSorted, IsStrict, sort_slice_sorted}
use dns_stack.Text.{Bytes, is_space, trim_space}
use dns_stack.Text.Match.{codes, has_prefix, cut_prefix, split_on}
use dns_stack.Text.Solid.{
  IsSolid, trim_space-IsSolid, IsSolid-IsOneLine, split_on-part, split_on-whole, All-not-any,
}
use dns_stack.Netip.{Addr, v4}
use dns_stack.Ecszone.Rows.{Row}
use dns_stack.Ecszone.Merge.{ApartFrom}
use dns_stack.Ecszone.Build.{is_skipped, parse_addr4, parse_row, push_row, row_lines, load_rows}
use dns_stack.Ecszone.Publish.{row_line, rendered_rows, render}

abbrev pub HasNoComma : Bytes → Type 0
HasNoComma s = All (λ c. (c == b',') ≡ false) s

-- What the standard library documents of the text of an IPv4 address: it is not empty, has digits and dots only, and is
-- parsed to the address.
pub record IsPrinter (parse_addr : Bytes → Option Addr) (print_addr : ℕ → Bytes) : Type 0 where
  pub reads : (a : ℕ) → a < u32_mod → parse_addr (print_addr a) ≡ some (v4 a)
  pub solid : (a : ℕ) → a < u32_mod → IsSolid (print_addr a)
  pub no_comma : (a : ℕ) → a < u32_mod → HasNoComma (print_addr a)
  pub not_empty : (a : ℕ) → a < u32_mod → length (print_addr a) == 0 ≡ false
  pub no_comment : (a : ℕ) → a < u32_mod → has_prefix (print_addr a) (codes "#") ≡ false

-- A row that can be written in one line.
pub record IsWritable (row : Row) : Type 0 where
  pub valid : row.lo ≤ row.hi
  pub word : row.hi < u32_mod
  pub solid_zone : IsSolid row.zone
  pub plain_zone : HasNoComma row.zone

by_lo-IsStrict : IsStrict (λ (a b : Row). ltb a.lo b.lo)
by_lo-IsStrict = record {
  asymmetric = λ x y e. ground (arith, e);
  not_less_trans = λ x y z e f. ground (arith, e, f);
}

ApartFrom-after :
    (m n : ℕ) (rows : List Row)
    → m ≤ n
    → ApartFrom n rows
    → All (λ (r : Row). ltb r.lo m ≡ false) rows
ApartFrom-after m n [] h a = tt
ApartFrom-after m n (r ∷ rows) h a =
    (ground (arith, h, a.0), ApartFrom-after m (r.hi + 1) rows (omega (arith, h, a.0, a.1)) a.2)

ApartFrom-IsSorted :
    (n : ℕ) (rows : List Row) → ApartFrom n rows → IsSorted (λ (a b : Row). ltb a.lo b.lo) rows
ApartFrom-IsSorted n [] a = tt
ApartFrom-IsSorted n (r ∷ rows) a = (
  ApartFrom-after r.lo (r.hi + 1) rows (omega (arith, a.1)) a.2,
  ApartFrom-IsSorted (r.hi + 1) rows a.2,
)

not_skipped :
    (s t : Bytes)
    → length s == 0 ≡ false
    → has_prefix s (codes "#") ≡ false
    → is_skipped (s ++ t) ≡ false
unfolding is_skipped has_prefix cut_prefix
not_skipped [] t h e = cc
not_skipped (c ∷ s) t h e = ground (arith, e)

module _ (parse_addr : Bytes → Option Addr) (print_addr : ℕ → Bytes)
    (p : IsPrinter parse_addr print_addr) where
  row_line-IsSolid : (row : Row) → IsWritable row → IsSolid (row_line print_addr row)
  unfolding row_line is_space
  row_line-IsSolid row w =
      All-append _ (print_addr row.lo) _ (p.solid row.lo (omega (arith, w.valid, w.word)))
        (refl, All-append _ (print_addr row.hi) _ (p.solid row.hi w.word) (refl, w.solid_zone))

  split_on-row_line :
      (row : Row)
      → IsWritable row
      → split_on b',' (row_line print_addr row)
        ≡ print_addr row.lo ∷ print_addr row.hi ∷ row.zone ∷ []
  unfolding row_line
  split_on-row_line row w =
      split_on-part b',' (print_addr row.lo) _ (p.no_comma row.lo (omega (arith, w.valid, w.word)))
      ∙ ap (λ r. print_addr row.lo ∷ r)
          (split_on-part b',' (print_addr row.hi) row.zone (p.no_comma row.hi w.word)
            ∙ ap (λ r. print_addr row.hi ∷ r) (split_on-whole b',' row.zone w.plain_zone))

  parse_addr4-print : (a : ℕ) → a < u32_mod → parse_addr4 parse_addr (print_addr a) ≡ some a
  unfolding parse_addr4
  parse_addr4-print a h =
      rw (trim_space-IsSolid (print_addr a) (p.solid a h), p.reads a h, parse_addr4) refl

  parse_row-row_line :
      (row : Row)
      → IsWritable row
      → parse_row parse_addr (print_addr row.lo ∷ print_addr row.hi ∷ row.zone ∷ []) ≡ some row
  unfolding parse_row
  parse_row-row_line row w =
      let in_order : ltb row.hi row.lo ≡ false = ground (arith, w.valid) in
      rw
        (
          parse_addr4-print row.lo (omega (arith, w.valid, w.word)),
          parse_addr4-print row.hi w.word,
          in_order,
          trim_space-IsSolid row.zone w.solid_zone,
          parse_row,
        )
        refl

  row_lines-row_line :
      (row : Row) (lines : List Bytes)
      → IsWritable row
      → row_lines parse_addr (row_line print_addr row ∷ lines) ≡ row ∷ row_lines parse_addr lines
  unfolding row_lines push_row
  row_lines-row_line row lines w =
      let word : row.lo < u32_mod = omega (arith, w.valid, w.word) in
      let whole = trim_space-IsSolid (row_line print_addr row) (row_line-IsSolid row w) in
      let kept : is_skipped (row_line print_addr row) ≡ false =
        unfold row_line in
        not_skipped (print_addr row.lo) _ (p.not_empty row.lo word) (p.no_comment row.lo word) in
      rw (whole, kept, split_on-row_line row w, parse_row-row_line row w, row_lines) refl

  row_lines-rendered_rows :
      (rows : List Row)
      → All IsWritable rows
      → row_lines parse_addr (split_on 10 (rendered_rows print_addr rows)) ≡ rows
  unfolding rendered_rows
  row_lines-rendered_rows [] w = unfold row_lines split_on is_skipped trim_space in refl
  row_lines-rendered_rows (row ∷ rows) w =
      ap (row_lines parse_addr) (
        split_on-part 10 (row_line print_addr row) (rendered_rows print_addr rows)
          (IsSolid-IsOneLine (row_line print_addr row) (row_line-IsSolid row w.0)))
      ∙ row_lines-row_line row (split_on 10 (rendered_rows print_addr rows)) w.0
      ∙ ap (λ rest. row ∷ rest) (row_lines-rendered_rows rows w.1)

  -- The two lines at the head are comments.
  row_lines-head :
      (lines : List Bytes)
      → row_lines parse_addr
          (codes "# generated by dns-stack ecs-zone" ∷ codes "# format: start,end,zone" ∷ lines)
        ≡ row_lines parse_addr lines
  unfolding row_lines is_skipped trim_space has_prefix
  row_lines-head lines = refl

  -- `LoadRows` reads the rows that `Render` writes, where the rows are valid, in order and apart, and their zones have no
  -- white space and no comma.
  pub load_rows-render :
      (rows : List Row)
      → ApartFrom 0 rows
      → All IsWritable rows
      → load_rows parse_addr (some (render print_addr rows)) ≡ some rows
  unfolding load_rows render any
  load_rows-render rows a w =
      let head = codes "# generated by dns-stack ecs-zone" in
      let format = codes "# format: start,end,zone" in
      let body = rendered_rows print_addr rows in
      let parts : split_on 10 (head ++ (10 ∷ (format ++ (10 ∷ body))))
          ≡ head ∷ format ∷ split_on 10 body =
        split_on-part 10 head (format ++ (10 ∷ body)) (All-not-any (λ c. c == 10) head refl)
        ∙ ap (λ rest. head ∷ rest)
            (split_on-part 10 format body (All-not-any (λ c. c == 10) format refl)) in
      ap (λ lines. some (sort_slice (λ (a b : Row). ltb a.lo b.lo) (row_lines parse_addr lines)))
        parts
      ∙ ap (λ read. some (sort_slice (λ (a b : Row). ltb a.lo b.lo) read))
          (row_lines-head (split_on 10 body) ∙ row_lines-rendered_rows rows w)
      ∙ ap some (
          sort_slice_sorted (λ (a b : Row). ltb a.lo b.lo) by_lo-IsStrict rows
            (ApartFrom-IsSorted 0 rows a))
