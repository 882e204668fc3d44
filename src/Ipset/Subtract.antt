-- ===== src/Ipset/Subtract.antt =====
-- internal/ipset/ipset.go: `Subtract` and the test `isNormalized` that it takes a short cut by.
pub mod Sweep
pub mod Rest
pub mod Laws
use dns_stack.Prelude.{
  ℕ, ◌+◌, ◌-◌, ◌%◌, Bool, true, false, List, [], ◌∷◌, ◌++◌, ◌&&◌, not, ltb, leb, ◌==◌,
  if◌then◌else◌, u32_mod, length,
}
use dns_stack.Spans.{Range}
use dns_stack.Ipset.Collapse.{collapse}

-- The rounds i > 0 of `isNormalized`; `values[i-1].Hi+1` is a uint32 and may wrap.
unfoldable pub normalized_after : ℕ → List Range → Bool
normalized_after prev [] = true
normalized_after prev (r ∷ rs) =
    leb r.lo r.hi && (not (leb r.lo ((prev + 1) % u32_mod)) && normalized_after r.hi rs)

unfoldable pub is_normalized : List Range → Bool
unfolding normalized_after
is_normalized [] = true
is_normalized (r ∷ rs) = leb r.lo r.hi && normalized_after r.hi rs

-- `if cuts[j].Lo > cur { out = append(out, Range{Lo: cur, Hi: cuts[j].Lo - 1}) }`
unfoldable pub left_part : ℕ → Range → List Range
left_part cur c = if ltb cur c.lo then record { lo = cur; hi = c.lo - 1 } ∷ [] else []

-- The body of the loop over `spans`, for the part of a span from `cur` on: what it appends to
-- `out`, and the cuts from index `j` on that it leaves. After `cur = cuts[j].Hi + 1` the next round
-- skips that cut.
unfoldable pub cut_span : ℕ → ℕ → List Range → List Range × List Range
unfolding left_part
cut_span cur hi [] = (record { lo = cur; hi = hi } ∷ [], [])
cut_span cur hi (c ∷ cs) =
    let skip = cut_span cur hi cs in
    let next = (c.hi + 1) % u32_mod in
    let more = cut_span next hi cs in
    if ltb c.hi cur
    then skip
    else if ltb hi c.lo
    then (record { lo = cur; hi = hi } ∷ [], c ∷ cs)
    else if leb hi c.hi
    then (left_part cur c, c ∷ cs)
    else if ltb hi next
    then (left_part cur c, c ∷ cs)
    else (left_part cur c ++ more.0, more.1)

unfoldable pub subtract_loop : List Range → List Range → List Range
unfolding cut_span
subtract_loop [] cuts = []
subtract_loop (s ∷ ss) cuts =
    let step = cut_span s.lo s.hi cuts in step.0 ++ subtract_loop ss step.1

-- `if !isNormalized(values) { values = Collapse(values) }`
unfoldable pub as_normalized : List Range → List Range
as_normalized rs = if is_normalized rs then rs else collapse rs

unfoldable pub subtract : List Range → List Range → List Range
subtract base remove =
    if length base == 0
    then []
    else if length remove == 0
    then collapse base
    else subtract_loop (as_normalized base) (as_normalized remove)
