-- ===== src/Ecszone/Publish.antt =====
-- internal/ecszone/ecszone.go (`Render`, `RenderUnidentified`), publish.go, and `stepECSZone` of internal/pipeline/steps.go:
-- the table of the zones as it is written. The printers of addresses, prefixes and numbers are arguments, as is what
-- reading a file gives. The messages for the log are left out.
use dns_stack.Prelude.{
  ℕ, ◌+◌, ◌*◌, ◌/◌, Bool, Option, none, some, List, [], ◌∷◌, ◌++◌, ◌&&◌, ltb, leb, ◌==◌,
  if◌then◌else◌, length,
}
use dns_stack.Text.{Bytes}
use dns_stack.Text.Match.{codes, split_on}
use dns_stack.Netip.{Prefix}
use dns_stack.Spans.{Range}
use dns_stack.Ipset.Sets.{Set, new}
use dns_stack.Ipset.Collapse.{collapse}
use dns_stack.Ipset.Prefix.{prefixes}
use dns_stack.Metrics.{ReloadAnswers, Replaced, replace_and_reload}
use dns_stack.Ecszone.Names.{Record}
use dns_stack.Ecszone.Rows.{Row, row_at, merge_rows, first_overlap}
use dns_stack.Ecszone.Build.{BuildState, build, count_data_lines, load_direct_intervals}

pub data PublishError : Type 0 where
  empty_table : PublishError
  overlapping : Row → Row → PublishError
  -- The table shrinks from so many rows to so many.
  shrinks : ℕ → ℕ → PublishError

-- `CountDataLines` of a file.
unfoldable pub old_rows : Option Bytes → ℕ
old_rows none = 0
old_rows (some content) = count_data_lines (split_on 10 content)

-- `CheckPublishable`, with the rows of the table that there is.
unfoldable pub check_publishable : ℕ → List Row → Option PublishError
check_publishable old merged =
    if length merged == 0 then some empty_table else (elim (first_overlap merged) [
      | some index ↦ some (overlapping (row_at merged index) (row_at merged (index + 1)))
      | none ↦
          if leb 100 old && ltb (length merged) (old * 6 / 10)
          then some (shrinks old (length merged))
          else none
    ])

-- How the step ends.
pub data ZoneStep : Type 0 where
  direct_unread database_unread previewed : ZoneStep
  refused : PublishError → ZoneStep
  publishes : Replaced → ZoneStep

module _ (print_addr : ℕ → Bytes) where
  unfoldable pub row_line : Row → Bytes
  row_line row = print_addr row.lo ++ (b',' ∷ (print_addr row.hi ++ (b',' ∷ row.zone)))

  unfoldable pub rendered_rows : List Row → Bytes
  rendered_rows [] = []
  rendered_rows (row ∷ rows) = row_line row ++ (10 ∷ rendered_rows rows)

  unfoldable pub render : List Row → Bytes
  render rows =
      codes "# generated by dns-stack ecs-zone"
      ++ (10 ∷ (codes "# format: start,end,zone" ++ (10 ∷ rendered_rows rows)))

  unfoldable pub written : Option PublishError → Option Bytes → List Row → ReloadAnswers → ZoneStep
  written (some e) table merged answers = refused e
  written none table merged answers = publishes (replace_and_reload table (render merged) answers)

  -- `Publish` over the table that there is,
  -- what writing and reloading answer.
  unfoldable pub publish : Option Bytes → List Row → ReloadAnswers → ZoneStep
  publish table merged answers =
      written (check_publishable (old_rows table) merged) table merged answers

  unfoldable pub publish_rows : Bool → Option Bytes → ReloadAnswers → Option BuildState → ZoneStep
  publish_rows preview table answers none = database_unread
  publish_rows preview table answers (some s) =
      let merged = (merge_rows s.rows).0 in
      elim (check_publishable (old_rows table) merged) [
        | some e ↦ refused e
        | none ↦ if preview then previewed else publish table merged answers
      ]

  -- `stepECSZone`: the file of direct prefixes, the disputed set, the entries of the database, the table that there is,
  -- what writing and reloading answer.
  unfoldable pub step_ecs_zone :
      (Bytes → Option Prefix)
      → Bool
      → Option Bytes
      → Option Set
      → Option (List (Prefix × Record))
      → Option Bytes
      → ReloadAnswers
      → ZoneStep
  step_ecs_zone parse_prefix preview direct_file disputed entries table answers =
      elim (load_direct_intervals parse_prefix direct_file) [
        | none ↦ direct_unread
        | some direct ↦ publish_rows preview table answers (build direct disputed entries)
      ]

module _ (print_prefix : Prefix → Bytes) (print_number : ℕ → Bytes) where
  unfoldable pub prefix_lines : List Prefix → Bytes
  prefix_lines [] = []
  prefix_lines (p ∷ ps) = print_prefix p ++ (10 ∷ prefix_lines ps)

  unfoldable pub render_unidentified : List Range → ℕ → Bytes
  render_unidentified ranges total =
      let collapsed = collapse ranges in
      codes "# generated by dns-stack routing-data (ecs-zone)"
      ++ (10
          ∷ (codes "# 这些大陆网段在归属库里查不到省份或运营商，拿不到 ECS 缓存分片"
              ++ (10
                  ∷ (codes "# addresses "
                      ++ (print_number total
                          ++ (10
                              ∷ (codes "# prefixes "
                                  ++ (print_number (length collapsed)
                                      ++ (10
                                          ∷ prefix_lines (prefixes (some (new collapsed))))))))))))
