-- ===== src/Ecszone/Rows.antt =====
-- internal/ecszone/ecszone.go: rows, which give spans of uint32 addresses a zone.
use dns_stack.Prelude.{
  ℕ, zero, suc, ◌+◌, ◌-◌, ◌%◌, Bool, true, false, Option, none, some, List, [], ◌∷◌, ◌++◌, ◌&&◌,
  ◌||◌, not, ltb, leb, ◌==◌, if◌then◌else◌, length, get_or, u32_mod,
}
use mathlib.Core.List.{reverse}
use dns_stack.Prelude.Search.{search}
use dns_stack.Prelude.Sort.{sort_slice}
use dns_stack.Text.{Bytes}
use dns_stack.Text.Match.{same, bytes_less}
use dns_stack.Spans.{Range}
use dns_stack.Ipset.Sets.{range_at, range_size, u64_mod, count_loop}

pub record Row : Type 0 where
  pub lo : ℕ
  pub hi : ℕ
  pub zone : Bytes

abbrev pub max32 : ℕ → ℕ → ℕ
max32 a b = if ltb b a then a else b

abbrev pub min32 : ℕ → ℕ → ℕ
min32 a b = if ltb a b then a else b

-- The loop from `index` down, where `n` is `index + 1`.
unfoldable pub hits_down : ℕ → ℕ → List Range → ℕ → List Range
hits_down lo hi intervals zero = []
hits_down lo hi intervals (suc index) =
    let r = range_at intervals index in
    let rest = hits_down lo hi intervals index in
    if not (leb lo r.hi)
    then []
    else if leb r.lo hi && leb lo r.hi
    then record { lo = max32 lo r.lo; hi = min32 hi r.hi } ∷ rest
    else rest

unfoldable pub intersections : ℕ → ℕ → List Range → List Range
unfolding search hits_down
intersections lo hi intervals =
    let after = search (length intervals) (λ i. ltb hi (range_at intervals i).lo) in
    if ltb hi lo || length intervals == 0 then [] else reverse (hits_down lo hi intervals after)

unfoldable pub row_less : Row → Row → Bool
unfolding bytes_less
row_less a b =
    if not (a.lo == b.lo)
    then ltb a.lo b.lo
    else if not (a.hi == b.hi)
    then ltb a.hi b.hi
    else bytes_less a.zone b.zone

-- What one turn of the loop of `MergeRows` leaves as the last row, with the row that it puts behind and whether it
-- counts a row as clipped.
pub record Merged : Type 0 where
  pub behind : List Row
  pub last : Row
  pub clips : ℕ

-- `row.Lo = last.Hi + 1`, on uint32
abbrev pub after_hi : Row → ℕ
after_hi last = (last.hi + 1) % u32_mod

unfoldable pub merge_into : Row → Row → Merged
unfolding same
merge_into last row =
    if same row.zone last.zone && leb row.lo (after_hi last)
    then record {
      behind = [];
      last = if ltb last.hi row.hi then record last { hi = row.hi } else last;
      clips = 0;
    }
    else if leb row.lo last.hi
    then (if ltb row.hi (after_hi last)
        then record { behind = []; last = last; clips = 1 }
        else record { behind = last ∷ []; last = record row { lo = after_hi last }; clips = 1 })
    else record { behind = last ∷ []; last = row; clips = 0 }

-- One turn once there is a last row.
unfoldable pub merge_turn : Row → Row → Merged
unfolding merge_into
merge_turn last row =
    if ltb row.hi row.lo
    then record { behind = []; last = last; clips = 0 }
    else merge_into last row

unfoldable pub merge_from : Row → List Row → List Row × ℕ
unfolding merge_turn
merge_from last [] = (last ∷ [], 0)
merge_from last (row ∷ rows) =
    let turn = merge_turn last row in
    let rest = merge_from turn.last rows in (turn.behind ++ rest.0, turn.clips + rest.1)

unfoldable pub merge_sorted : List Row → List Row × ℕ
unfolding merge_from
merge_sorted [] = ([], 0)
merge_sorted (row ∷ rows) =
    let skipped = merge_sorted rows in if ltb row.hi row.lo then skipped else merge_from row rows

unfoldable pub merge_rows : List Row → List Row × ℕ
unfolding merge_sorted sort_slice row_less
merge_rows rows = merge_sorted (sort_slice row_less rows)

abbrev pub row_at : List Row → ℕ → Row
row_at rows i = get_or rows i (record { lo = 0; hi = 0; zone = [] })

-- The inner loop of `DirectCoverage`, where `n` is `index + 1`.
unfoldable pub coverage_down : List Row → Range → ℕ → ℕ → ℕ
unfolding range_size
coverage_down rows r zero covered = covered
coverage_down rows r (suc index) covered =
    let row = row_at rows index in
    let part : Range = record { lo = max32 r.lo row.lo; hi = min32 r.hi row.hi } in
    let more =
      if leb row.lo r.hi && leb r.lo row.hi
      then (covered + range_size part) % u64_mod
      else covered in
    let rest = coverage_down rows r index more in if not (leb r.lo row.hi) then covered else rest

unfoldable pub coverage_loop : List Row → ℕ → List Range → ℕ
unfolding coverage_down search
coverage_loop rows covered [] = covered
coverage_loop rows covered (r ∷ rs) =
    let after = search (length rows) (λ i. ltb r.hi (row_at rows i).lo) in
    coverage_loop rows (coverage_down rows r after covered) rs

unfoldable pub direct_coverage : List Row → List Range → ℕ × ℕ
unfolding count_loop coverage_loop
direct_coverage rows direct =
    let total = count_loop 0 direct in
    if total == 0 || length rows == 0 then (0, total) else (coverage_loop rows 0 direct, total)

-- The loop of `anyOverlap` over the parts.
unfoldable pub any_overlap : List Range → List Range → Bool
unfolding search
any_overlap [] cuts = false
any_overlap (part ∷ parts) cuts =
    let i = search (length cuts) (λ i. leb part.lo (range_at cuts i).hi) in
    let rest = any_overlap parts cuts in
    if ltb i (length cuts) && leb (range_at cuts i).lo part.hi then true else rest

unfoldable pub marked : List Row → ℕ → Bool
unfolding search
marked rows value =
    let after = search (length rows) (λ i. ltb value (row_at rows i).lo) in
    ltb 0 after && leb value (row_at rows (after - 1)).hi

-- The loop of `FirstOverlap`, from the row number `i` on.
unfoldable pub first_overlap_from : ℕ → List Row → Option ℕ
first_overlap_from i [] = none
first_overlap_from i (a ∷ []) = none
first_overlap_from i (a ∷ b ∷ rows) =
    let rest = first_overlap_from (suc i) (b ∷ rows) in if leb b.lo a.hi then some i else rest

unfoldable pub first_overlap : List Row → Option ℕ
unfolding first_overlap_from
first_overlap rows = first_overlap_from 0 rows
