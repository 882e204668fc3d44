-- ===== src/Witnesses/Ecszone.antt =====
-- Rows out of order that overlap and touch, and ranges in normal form.
use dns_stack.Prelude.Sort.{sort_slice}
use dns_stack.Prelude.{map, ◌⊎◌, ◌<◌, ◌≤◌, length}
use dns_stack.Text.{Bytes}
use dns_stack.Ecszone.Fanout.{
  by_zone_name, is_busier, is_busy, ZoneTraffic, busy_zones, pick_fanout,
}
use dns_stack.Ecszone.Fanout.Picked.{IsPick, AreUsed, picked_count, pick_fanout-IsPick}
use dns_stack.Prelude.{ℕ, ◌≡◌, refl, none, some, List, [], ◌∷◌, ◌&&◌, arith, All}
use dns_stack.Prelude.{not, any}
use dns_stack.Text.Match.{bytes_less, codes, same, has_prefix, contains}
use dns_stack.Text.Maps.{get_else}
use dns_stack.Netip.{v4, Prefix, prefix_from}
use dns_stack.Ipset.Sets.{new}
use dns_stack.Ecszone.Names.{Record, zone_of}
use dns_stack.Ecszone.Build.{BuildState, build}
use dns_stack.Ecszone.Assigned.{is_zoned, in_rows-build}
use dns_stack.Spans.{Range, NormalFrom, IsValid, IsWord, covered, within}
use dns_stack.Ecszone.Rows.{Row, intersections, merge_rows, marked, first_overlap}
use dns_stack.Ecszone.Intersections.{covered-intersections}
use dns_stack.Ecszone.Merge.{in_rows, EndsBelow}
use dns_stack.Ecszone.Marked.{first_overlap-merge_rows, marked-merge_rows}

abbrev row : ℕ → ℕ → ℕ → Row
row lo hi zone = record { lo = lo; hi = hi; zone = zone ∷ [] }

abbrev rows : List Row
rows = row 15 30 1 ∷ row 5 10 2 ∷ row 8 20 1 ∷ row 40 35 1 ∷ row 31 33 1 ∷ []

rows-EndsBelow : All EndsBelow rows
rows-EndsBelow = omega arith

abbrev intervals : List Range
intervals =
    record { lo = 3; hi = 6 } ∷ record { lo = 9; hi = 12 } ∷ record { lo = 20; hi = 25 } ∷ []

intervals-NormalFrom : NormalFrom 0 intervals
intervals-NormalFrom = omega arith

covered-intersections_example :
    covered (intersections 5 21 intervals) 10
    ≡ (within 10 (record { lo = 5; hi = 21 }) && covered intervals 10)
covered-intersections_example = covered-intersections 5 21 intervals 10 intervals-NormalFrom

first_overlap-merge_rows_example : first_overlap (merge_rows rows).0 ≡ none
first_overlap-merge_rows_example = first_overlap-merge_rows rows rows-EndsBelow

marked-merge_rows_example : marked (merge_rows rows).0 12 ≡ in_rows rows 12
marked-merge_rows_example = marked-merge_rows rows rows-EndsBelow 12

merged_run : merge_rows rows ≡ (row 5 10 2 ∷ row 11 33 1 ∷ [], 1)
unfolding merge_rows
merged_run = refl

intersections_run :
    intersections 5 21 intervals
    ≡ record { lo = 5; hi = 6 } ∷ record { lo = 9; hi = 12 } ∷ record { lo = 20; hi = 21 } ∷ []
unfolding intersections
intersections_run = refl

-- The last address of uint32: the row behind wraps round to the first.
wrapped_run : first_overlap (merge_rows (row 10 4294967295 1 ∷ row 20 30 1 ∷ [])).0 ≡ some 0
unfolding merge_rows first_overlap
wrapped_run = refl

abbrev fields : Record
fields =
    (codes "country_code", codes "CN")
    ∷ (codes "region_name", codes "广东省")
    ∷ (codes "isp_domain", codes "电信")
    ∷ []

zone_of_run : zone_of fields ≡ codes "广东电信"
unfolding zone_of get_else same has_prefix contains
zone_of_run = refl

abbrev database : List (Prefix × Record)
database = (prefix_from (v4 16) 28, fields) ∷ (prefix_from (v4 64) 30, []) ∷ []

intervals-IsWord : All IsWord intervals
intervals-IsWord = omega arith

abbrev disputed : List Range
disputed = record { lo = 22; hi = 23 } ∷ record { lo = 20; hi = 20 } ∷ []

disputed-IsValid : All IsValid disputed
disputed-IsValid = omega arith

disputed-IsWord : All IsWord disputed
disputed-IsWord = omega arith

in_rows-build_example :
    (s : BuildState) × (build intervals (some (new disputed)) (some database) ≡ some s)
    × ((x : ℕ)
        → in_rows s.rows x
          ≡ (any (is_zoned x) database && covered intervals x && not (covered disputed x)))
in_rows-build_example =
    in_rows-build intervals disputed intervals-NormalFrom intervals-IsWord disputed-IsValid
      disputed-IsWord database

abbrev traffic : ℕ → ℕ → ZoneTraffic
traffic zone queries = record {
  zone = zone ∷ [];
  subnet = codes "1.2.3.0/24";
  queries = queries;
  subnet_hits = queries;
}

abbrev by_zone : List (Bytes × ZoneTraffic)
by_zone =
    (3 ∷ [], traffic 3 50)
    ∷ (1 ∷ [], traffic 1 90)
    ∷ (2 ∷ [], traffic 2 70)
    ∷ (4 ∷ [], traffic 4 5)
    ∷ []

pick_fanout-IsPick_example :
    (used : List ZoneTraffic) × AreUsed 10 (map (λ e. e.1) by_zone) used
    × (((picked_count 2 (length used) < 2) × (pick_fanout by_zone 10 2 ≡ []))
        ⊎ ((2 ≤ picked_count 2 (length used)) × IsPick used 2 (pick_fanout by_zone 10 2)))
pick_fanout-IsPick_example = pick_fanout-IsPick by_zone 10 2

test_picked : pick_fanout by_zone 10 2 ≡ traffic 1 90 ∷ traffic 2 70 ∷ []
unfolding pick_fanout sort_slice busy_zones is_busy is_busier by_zone_name bytes_less
test_picked = refl
