-- ===== src/Ecszone/Build.antt =====
-- internal/ecszone/ecszone.go: `Build`, and the files of rows and of direct prefixes. What the database's reader gives
-- is an argument, as are the parsers of net/netip; a file is what reading it gives, none for an error.
use dns_stack.Prelude.{
  ℕ, suc, ◌+◌, ◌-◌, ◌%◌, Bool, true, Option, none, some, List, [], ◌∷◌, ◌++◌, ◌&&◌, ◌||◌, not, ltb,
  ◌==◌, if◌then◌else◌, length,
}
use dns_stack.Prelude.Sort.{sort_slice}
use dns_stack.Text.{Bytes, trim_space}
use dns_stack.Text.Match.{codes, same, has_prefix, split_on}
use dns_stack.Text.Maps.{get_else}
use dns_stack.Netip.{Addr, v4, Prefix, is4, masked}
use dns_stack.Spans.{Range}
use dns_stack.Ipset.Collapse.{collapse}
use dns_stack.Ipset.Sets.{Set, ranges_of, count_loop, u64_mod}
use dns_stack.Ipset.Subtract.{subtract}
use dns_stack.Ipset.Prefix.{prefix_range}
use dns_stack.Ipset.Global.{global_parts}
use dns_stack.Ecszone.Names.{Record, zone_of}
use dns_stack.Ecszone.Rows.{Row, intersections, any_overlap}

pub record BuildStats : Type 0 where
  pub raw : ℕ
  pub skipped_no_zone : ℕ
  pub disputed_spans : ℕ
  pub disputed_cut_sum : ℕ
  pub unidentified : List Range
  pub unidentified_cn : ℕ

pub record BuildState : Type 0 where
  pub rows : List Row
  pub stats : BuildStats

abbrev pub no_stats : BuildStats
no_stats = record {
  raw = 0;
  skipped_no_zone = 0;
  disputed_spans = 0;
  disputed_cut_sum = 0;
  unidentified = [];
  unidentified_cn = 0;
}

-- The branch for a span without a zone.
unfoldable pub add_unidentified : List Range → BuildStats → BuildStats
unfolding count_loop
add_unidentified parts st = record st {
  skipped_no_zone = st.skipped_no_zone + 1;
  unidentified = st.unidentified ++ parts;
  unidentified_cn = count_loop st.unidentified_cn parts;
}

-- The parts of a span and the counters, less what is disputed.
unfoldable pub cut_disputed : List Range → List Range → BuildStats → List Range × BuildStats
cut_disputed cuts parts st =
    let rest = subtract parts cuts in
    let lost = (count_loop 0 parts + u64_mod - count_loop 0 rest) % u64_mod in
    let counted = record st {
      disputed_spans = st.disputed_spans + 1;
      disputed_cut_sum = (st.disputed_cut_sum + lost) % u64_mod;
    } in
    if ltb 0 (length cuts) && any_overlap parts cuts
    then (rest, if ltb (count_loop 0 rest) (count_loop 0 parts) then counted else st)
    else (parts, st)

unfoldable pub rows_of : Bytes → List Range → List Row
rows_of zone [] = []
rows_of zone (r ∷ rs) = record { lo = r.lo; hi = r.hi; zone = zone } ∷ rows_of zone rs

-- The function that `Build` gives to `WalkV4`, from the span of a prefix on.
unfoldable pub add_span : List Range → List Range → Range → Bytes → BuildState → BuildState
add_span direct cuts span zone s =
    let parts = intersections span.lo span.hi direct in
    let cut = cut_disputed cuts parts s.stats in
    if length zone == 0 then record s { stats = add_unidentified parts s.stats } else record {
      rows = s.rows ++ rows_of zone cut.0;
      stats = record cut.1 { raw = cut.1.raw + length cut.0 };
    }

unfoldable pub at_span :
    List Range → List Range → Bytes → BuildState → Option (Range × Bool) → BuildState
at_span direct cuts zone s (some (span, true)) = add_span direct cuts span zone s
at_span direct cuts zone s _ = s

unfoldable pub visit : List Range → List Range → Prefix → Record → BuildState → BuildState
visit direct cuts prefix fields s =
    if not (same (get_else (codes "country_code") [] fields) (codes "CN"))
    then s
    else if not (is4 prefix.addr)
    then s
    else at_span direct cuts (zone_of fields) s (prefix_range (masked prefix))

unfoldable pub visit_all :
    List Range → List Range → BuildState → List (Prefix × Record) → BuildState
visit_all direct cuts s [] = s
visit_all direct cuts s ((prefix, fields) ∷ entries) =
    visit_all direct cuts (visit direct cuts prefix fields s) entries

-- `entries` is what the reader walks over, or none if it fails.
unfoldable pub build : List Range → Option Set → Option (List (Prefix × Record)) → Option BuildState
unfolding visit_all
build direct disputed none = none
build direct disputed (some entries) =
    some (visit_all direct (ranges_of disputed) (record { rows = []; stats = no_stats }) entries)

-- A line that holds data, as `LoadDirectIntervals` and `LoadRows` tell it from a comment.
unfoldable pub is_skipped : Bytes → Bool
is_skipped line = length line == 0 || has_prefix line (codes "#")

unfoldable pub count_data_lines : List Bytes → ℕ
count_data_lines [] = 0
count_data_lines (line ∷ lines) =
    let rest = count_data_lines lines in
    if not (length (trim_space line) == 0) && not (has_prefix line (codes "#"))
    then suc rest
    else rest

module _ (parse_prefix : Bytes → Option Prefix) where
  -- What one line adds.
  unfoldable pub line_parts : Bytes → List Range
  unfolding global_parts prefix_range
  line_parts line = elim (parse_prefix line) [
    | none ↦ []
    | some prefix ↦
        if not (is4 prefix.addr)
        then []
        else (elim (prefix_range (masked prefix)) [ some (r, true) ↦ global_parts r | _ ↦ [] ])
  ]

  unfoldable pub direct_lines : List Bytes → List Range
  unfolding is_skipped line_parts
  direct_lines [] = []
  direct_lines (raw ∷ lines) =
      let line = trim_space raw in
      let rest = direct_lines lines in if is_skipped line then rest else line_parts line ++ rest

  unfoldable pub load_direct_intervals : Option Bytes → Option (List Range)
  unfolding direct_lines collapse
  load_direct_intervals none = none
  load_direct_intervals (some content) = some (collapse (direct_lines (split_on 10 content)))

module _ (parse_addr : Bytes → Option Addr) where
  -- `parseAddr`
  unfoldable pub parse_addr4 : Bytes → Option ℕ
  parse_addr4 text = elim (parse_addr (trim_space text)) [ some (v4 a) ↦ some a | _ ↦ none ]

  -- The row of the fields of a line.
  unfoldable pub parse_row : List Bytes → Option Row
  unfolding parse_addr4
  parse_row (a ∷ b ∷ c ∷ []) = elim (parse_addr4 a) [
    | none ↦ none
    | some lo ↦ (elim (parse_addr4 b) [
      | none ↦ none
      | some hi ↦
          if ltb hi lo then none else some (record { lo = lo; hi = hi; zone = trim_space c })
    ])
  ]
  parse_row _ = none

  unfoldable pub push_row : Option Row → List Row → List Row
  push_row none rows = rows
  push_row (some row) rows = row ∷ rows

  unfoldable pub row_lines : List Bytes → List Row
  unfolding is_skipped parse_row push_row
  row_lines [] = []
  row_lines (raw ∷ lines) =
      let line = trim_space raw in
      let rest = row_lines lines in
      if is_skipped line then rest else push_row (parse_row (split_on b',' line)) rest

  unfoldable pub load_rows : Option Bytes → Option (List Row)
  unfolding row_lines sort_slice
  load_rows none = none
  load_rows (some content) =
      some (sort_slice (λ (a b : Row). ltb a.lo b.lo) (row_lines (split_on 10 content)))
