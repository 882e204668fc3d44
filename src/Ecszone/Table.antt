-- ===== src/Ecszone/Table.antt =====
-- `stepECSZone` of internal/pipeline/steps.go: what the table that it publishes says, once it is read again.
use mathlib.Core.Option.{some-injective}
use dns_stack.Prelude.{
  ℕ, ◌*◌, ◌/◌, ◌<◌, ◌≡◌, refl, sym, ap, ◌∙◌, Bool, true, false, Option, none, some, List, [], ◌∷◌,
  ◌&&◌, not, inl, inr, ltb, leb, ◌==◌, if◌then◌else◌, arith, max_u32, All, All-append, All-mono,
  any, length, Bool-cases,
}
use dns_stack.Text.{Bytes}
use dns_stack.Text.Match.{codes, same, split_on}
use dns_stack.Text.Maps.{get_else}
use dns_stack.Netip.{Addr, Prefix, is4, masked}
use dns_stack.Spans.{Range, NormalFrom, IsValid, IsWord, covered}
use dns_stack.Ipset.Collapse.{collapse, collapse-IsNormal, collapse-IsWord, covered-collapse}
use dns_stack.Ipset.Sets.{new, ranges_of}
use dns_stack.Ipset.Prefix.{prefix_range}
use dns_stack.Ipset.Subtract.{subtract}
use dns_stack.Ipset.Subtract.Laws.{subtract-IsNormal}
use dns_stack.Ipset.Global.Laws.{reserved}
use dns_stack.Ecszone.Names.{Record, zone_of}
use dns_stack.Ecszone.Rows.{Row, intersections, any_overlap, merge_rows, marked, first_overlap}
use dns_stack.Ecszone.Intersections.{covered-intersections}
use dns_stack.Ecszone.Parts.{
  NormalFrom-TopIsLast, NormalFrom-IsValid, intersections-IsValid, intersections-IsWord,
  intersections-TopIsLast,
}
use dns_stack.Ecszone.Merge.{in_rows, EndsBelow, merge_rows-ApartFrom}
use dns_stack.Ecszone.Marked.{first_overlap-merge_rows, marked-merge_rows}
use dns_stack.Ecszone.Assigned.{is_zoned, covered-cut_disputed, in_rows-build}
use dns_stack.Ecszone.Build.{
  BuildStats, BuildState, no_stats, cut_disputed, rows_of, add_span, at_span, visit, visit_all,
  build, direct_lines, load_direct_intervals, load_rows,
}
use dns_stack.Ecszone.Rendered.{IsPrinter, load_rows-render}
use dns_stack.Ecszone.Direct.{IsEarly, early, is_listed, ParsesWords, direct_lines_lem}
use dns_stack.Ecszone.Writable.{
  is_plain, is_plain-zone_of, IsGood, merge_rows-IsGood, Good-IsWritable,
}
use dns_stack.Metrics.{ReloadAnswers, IsReplaced, replace_and_reload, replace_and_reload-IsReplaced}
use dns_stack.Ecszone.Publish.{
  ZoneStep, previewed, refused, publishes, empty_table, shrinks, old_rows, step_ecs_zone,
  publish_rows, publish, written, check_publishable, render,
}

covered-IsEarly : (rs : List Range) (x : ℕ) → All IsEarly rs → covered rs x ≡ true → x < max_u32
unfolding any
covered-IsEarly [] x h e = cc
covered-IsEarly (r ∷ rs) x h e = elim (Bool-cases (covered rs x)) [
  | inl f ↦ covered-IsEarly rs x h.1 f
  | inr f ↦ ground (arith, e, f, h.0)
]

rows_of-IsGood :
    (zone : Bytes) (rs : List Range)
    → is_plain zone ≡ true
    → All IsEarly rs
    → All IsGood (rows_of zone rs)
unfolding rows_of
rows_of-IsGood zone [] p h = tt
rows_of-IsGood zone (r ∷ rs) p h = ((p, h.0.1), rows_of-IsGood zone rs p h.1)

module _ (direct cuts : List Range) (m : NormalFrom 0 direct) (w : All IsWord direct)
    (n : NormalFrom 0 cuts) (v : All IsWord cuts) (low : All IsEarly direct) where
  cut_disputed-IsValid :
      (lo hi : ℕ) (st : BuildStats)
      → All IsValid (cut_disputed cuts (intersections lo hi direct) st).0
  unfolding cut_disputed
  cut_disputed-IsValid lo hi st =
      let parts = intersections lo hi direct in
      elim (Bool-cases (ltb 0 (length cuts) && any_overlap parts cuts)) [
        | inr e ↦ rw e (intersections-IsValid lo hi direct m w)
        | inl e ↦ rw e (
            NormalFrom-IsValid 0 (subtract parts cuts) (
              subtract-IsNormal parts cuts (intersections-IsValid lo hi direct m w)
                (intersections-IsWord lo hi direct m w) (intersections-TopIsLast lo hi direct m w)
                (NormalFrom-IsValid 0 cuts n) v (NormalFrom-TopIsLast 0 cuts n v)))
      ]

  cut_disputed-IsEarly :
      (lo hi : ℕ) (st : BuildStats)
      → All IsEarly (cut_disputed cuts (intersections lo hi direct) st).0
  cut_disputed-IsEarly lo hi st =
      early (cut_disputed cuts (intersections lo hi direct) st).0 (cut_disputed-IsValid lo hi st)
        (λ x c. covered-IsEarly direct x low (
          ground (
            arith,
            c,
            covered-cut_disputed direct cuts m w n v lo hi x st,
            covered-intersections lo hi direct x m,
          )))

  at_span-IsGood :
      (zone : Bytes) (s : BuildState) (o : Option (Range × Bool))
      → is_plain zone ≡ true
      → All IsGood s.rows
      → All IsGood (at_span direct cuts zone s o).rows
  unfolding at_span add_span
  at_span-IsGood zone s none p h = h
  at_span-IsGood zone s (some (r, false)) p h = h
  at_span-IsGood zone s (some (r, true)) p h = elim (Bool-cases (length zone == 0)) [
    | inl e ↦ rw e h
    | inr e ↦ rw e (
        All-append IsGood s.rows _ h
          (rows_of-IsGood zone _ p (cut_disputed-IsEarly r.lo r.hi s.stats)))
  ]

  visit-IsGood :
      (prefix : Prefix) (fields : Record) (s : BuildState)
      → All IsGood s.rows
      → All IsGood (visit direct cuts prefix fields s).rows
  unfolding visit
  visit-IsGood prefix fields s h =
      elim (Bool-cases (same (get_else (codes "country_code") [] fields) (codes "CN"))) [
        | inr e ↦ rw e h
        | inl e ↦ rw e (elim (Bool-cases (is4 prefix.addr)) [
          | inr f ↦ rw f h
          | inl f ↦ rw f (
              at_span-IsGood (zone_of fields) s (prefix_range (masked prefix))
                (is_plain-zone_of fields) h)
        ])
      ]

  visit_all-IsGood :
      (s : BuildState) (entries : List (Prefix × Record))
      → All IsGood s.rows
      → All IsGood (visit_all direct cuts s entries).rows
  unfolding visit_all
  visit_all-IsGood s [] h = h
  visit_all-IsGood s ((prefix, fields) ∷ entries) h =
      visit_all-IsGood (visit direct cuts prefix fields s) entries (visit-IsGood prefix fields s h)

module _ (print_addr : ℕ → Bytes) where
  -- What is done with a table without overlaps.
  unfoldable pub outcome : Bool → Option Bytes → ReloadAnswers → List Row → ZoneStep
  outcome preview table answers rows =
      if length rows == 0
      then refused empty_table
      else if leb 100 (old_rows table) && ltb (length rows) (old_rows table * 6 / 10)
      then refused (shrinks (old_rows table) (length rows))
      else if preview
      then previewed
      else publishes (replace_and_reload table (render print_addr rows) answers)

  check_apart :
      (old : ℕ) (rows : List Row)
      → first_overlap rows ≡ none
      → check_publishable old rows ≡ (
          if length rows == 0
          then some empty_table
          else if leb 100 old && ltb (length rows) (old * 6 / 10)
          then some (shrinks old (length rows))
          else none)
  unfolding check_publishable
  check_apart old rows e = rw e refl

  publish_rows-outcome :
      (preview : Bool) (table : Option Bytes) (answers : ReloadAnswers) (s : BuildState)
      → first_overlap (merge_rows s.rows).0 ≡ none
      → publish_rows print_addr preview table answers (some s)
        ≡ outcome preview table answers (merge_rows s.rows).0
  unfolding publish_rows publish outcome written
  publish_rows-outcome preview table answers s e =
      let rows = (merge_rows s.rows).0 in
      let old = old_rows table in
      rw (check_apart old rows e, publish_rows)
        (elim (Bool-cases (length rows == 0)) [
          | inl f ↦ rw f refl
          | inr f ↦ rw f (elim (Bool-cases (leb 100 old && ltb (length rows) (old * 6 / 10))) [
            | inl g ↦ rw g refl
            | inr g ↦
                let passes : check_publishable old rows ≡ none =
                  check_apart old rows e ∙ rw (f, g) refl in
                rw g (
                  ap
                    (λ check.
                      if preview then previewed else written print_addr check table rows answers)
                    passes)
          ])
        ])

-- The address belongs into the table: the database gives it a zone, the file lists it as direct, and it is neither
-- reserved nor disputed.
abbrev pub belongs :
    (Bytes → Option Prefix) → Bytes → List Range → List (Prefix × Record) → ℕ → Bool
belongs parse_prefix direct_file disputed entries x =
    any (is_zoned x) entries
    && (any (is_listed parse_prefix x) (split_on 10 direct_file) && not (reserved x))
    && not (covered disputed x)

module _ (parse_addr : Bytes → Option Addr) (parse_prefix : Bytes → Option Prefix)
    (print_addr : ℕ → Bytes) (printer : IsPrinter parse_addr print_addr)
    (words : ParsesWords parse_prefix) where
  -- `stepECSZone` on files that can be read makes a table that it refuses if it has no row or far fewer than the one
  -- before, and only then; that it finds overlaps never happens. Otherwise it publishes the table, or only says so in a
  -- preview. What it publishes is in the file if mosproxy has loaded it or cannot be reached; if not, the step fails and
  -- the file is as before unless it cannot be taken back. `LoadRows` reads the rows of the table back from the text that is written, and
  -- `Marked` on them answers exactly for the addresses that the database gives a zone, that the file of direct prefixes
  -- lists, and that are neither reserved nor disputed. The disputed ranges are valid ranges of uint32 values; addresses
  -- are printed and parsed as the standard library documents.
  pub step_ecs_zone-Marked :
      (direct_file : Bytes) (disputed : List Range) (entries : List (Prefix × Record))
      (preview : Bool) (table : Option Bytes) (answers : ReloadAnswers)
      → All IsValid disputed
      → All IsWord disputed
      → (rows : List Row) × (step_ecs_zone print_addr parse_prefix preview
            (some direct_file)
            (some (new disputed))
            (some entries)
            table
            answers
          ≡ outcome print_addr preview table answers rows)
        × IsReplaced table
            (render print_addr rows)
            answers
            (replace_and_reload table (render print_addr rows) answers)
        × (load_rows parse_addr (some (render print_addr rows)) ≡ some rows)
        × ((x : ℕ) → marked rows x ≡ belongs parse_prefix direct_file disputed entries x)
  unfolding step_ecs_zone load_direct_intervals build ranges_of new
  step_ecs_zone-Marked direct_file disputed entries preview table answers v u =
      let lines = split_on 10 direct_file in
      let listed = direct_lines parse_prefix lines in
      let (first, holds) = direct_lines_lem parse_prefix words lines in
      let is_valid : All IsValid listed = All-mono IsEarly IsValid listed (λ r q. q.0) first in
      let is_word : All IsWord listed =
        All-mono IsEarly IsWord listed (λ r q. omega (arith, q)) first in
      let direct = collapse listed in
      let normal = collapse-IsNormal listed is_valid is_word in
      let word = collapse-IsWord listed is_word in
      let low : All IsEarly direct =
        early direct (NormalFrom-IsValid 0 direct normal)
          (λ x c. covered-IsEarly listed x first (sym (covered-collapse listed x is_word) ∙ c)) in
      let cuts = collapse disputed in
      let start : BuildState = record { rows = []; stats = no_stats } in
      let state = visit_all direct cuts start entries in
      let good : All IsGood state.rows =
        visit_all-IsGood direct cuts normal word (collapse-IsNormal disputed v u)
          (collapse-IsWord disputed u) low start entries tt in
      let below : All EndsBelow state.rows =
        All-mono IsGood EndsBelow state.rows (λ r q. q.1) good in
      let merged = (merge_rows state.rows).0 in
      let apart = merge_rows-ApartFrom state.rows below in
      let (s, built, rows) = in_rows-build direct disputed normal word v u entries in
      let same_state : state ≡ s = some-injective state s built in
      (
        merged,
        publish_rows-outcome print_addr preview table answers state
            (first_overlap-merge_rows state.rows below),
        replace_and_reload-IsReplaced table (render print_addr merged) answers,
        load_rows-render parse_addr print_addr printer merged apart
            (Good-IsWritable 0 merged apart (merge_rows-IsGood state.rows good)),
        λ x.
            marked-merge_rows state.rows below x
            ∙ ap (λ (t : BuildState). in_rows t.rows x) same_state
            ∙ rows x
            ∙ ap (λ b. any (is_zoned x) entries && b && not (covered disputed x))
                (covered-collapse listed x is_word ∙ holds x),
      )
