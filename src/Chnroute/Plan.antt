-- ===== src/Chnroute/Plan.antt =====
-- internal/chnroute/chnroute.go: `planReverseExclusion`, `attributeDropped` and `Run`. The comparison of the ratio, in
-- floating point, is an argument: whether so many of so many addresses are too many to drop.
use dns_stack.Prelude.{
  ℕ, ◌-◌, Bool, true, Option, none, some, List, [], ◌∷◌, ◌++◌, ◌&&◌, not, ltb, leb, ◌==◌,
  if◌then◌else◌, length, get_or, map,
}
use dns_stack.Prelude.Search.{search}
use dns_stack.Prelude.Sort.{sort_slice}
use dns_stack.Text.{Bytes}
use dns_stack.Text.Match.{codes}
use dns_stack.Netip.{Addr, Prefix}
use dns_stack.Spans.{Range}
use dns_stack.Ipset.Sets.{Set, new, overlaps, address_count, count_loop}
use dns_stack.Ipset.Subtract.{subtract}
use dns_stack.Ipset.Prefix.{prefix_range, range_to_prefixes, prefixes}
use dns_stack.Ipset.Prefix.Tiles.{ranges_of_prefixes}
use dns_stack.Ipset.Global.{non_global_prefixes}
use dns_stack.Ecszone.Names.{Record}
use dns_stack.Chnroute.{
  ForeignSpan, mainland_probes, parse_apnic, load_cnip, contains_addr, guard_offshore_leak,
}

abbrev pub span_of : ForeignSpan → Range
span_of f = record { lo = f.lo; hi = f.hi }

-- The foreign spans that meet the set.
unfoldable pub overlapping : Set → List ForeignSpan → List Range
overlapping cn [] = []
overlapping cn (f ∷ foreign) =
    let rest = overlapping cn foreign in
    if overlaps (some cn) f.lo f.hi then span_of f ∷ rest else rest

unfoldable pub total_addresses : List Range → ℕ
total_addresses ranges = count_loop 0 ranges

unfoldable pub span_less : ForeignSpan → ForeignSpan → Bool
span_less a b = ltb a.lo b.lo

abbrev pub no_span : ForeignSpan
no_span = record { lo = 0; hi = 0; code = []; name = [] }

-- The foreign span that begins last at or before an address, if it reaches the address.
unfoldable pub owner : List ForeignSpan → ℕ → Option ForeignSpan
owner sorted lo =
    let i = search (length sorted) (λ k. ltb lo (get_or sorted k no_span).lo) in
    if i == 0
    then none
    else if leb lo (get_or sorted (i - 1) no_span).hi
    then some (get_or sorted (i - 1) no_span)
    else none

unfoldable pub attributed : Range → Option ForeignSpan → ForeignSpan
attributed span none = record { lo = span.lo; hi = span.hi; code = codes "?"; name = codes "?" }
attributed span (some f) = record { lo = span.lo; hi = span.hi; code = f.code; name = f.name }

-- The loop over the prefixes of one dropped range.
unfoldable pub attribute_prefixes : List ForeignSpan → List Prefix → List ForeignSpan
unfolding owner attributed
attribute_prefixes sorted [] = []
attribute_prefixes sorted (p ∷ ps) = elim (prefix_range p) [
  | some (span, true) ↦ attributed span (owner sorted span.lo) ∷ attribute_prefixes sorted ps
  | _ ↦ attribute_prefixes sorted ps
]

unfoldable pub attribute_ranges : List ForeignSpan → List Range → List ForeignSpan
attribute_ranges sorted [] = []
attribute_ranges sorted (r ∷ dropped) =
    attribute_prefixes sorted (range_to_prefixes r) ++ attribute_ranges sorted dropped

-- Spans that begin at one address are sorted here as they stand; sort.Slice leaves their order open.
unfoldable pub attribute_dropped : List Range → List ForeignSpan → List ForeignSpan
attribute_dropped dropped foreign = attribute_ranges (sort_slice span_less foreign) dropped

pub data Rejection : Type 0 where
  too_many_dropped : Rejection
  mainland_lost : List Bytes → Rejection

pub record Exclusion : Type 0 where
  pub kept : Set
  pub dropped : List ForeignSpan
  pub addrs : ℕ
  pub rejected : Option Rejection

module _ (parse_addr : Bytes → Option Addr) where
  -- The probes that the set does not hold.
  unfoldable pub missing : Set → List Bytes → List Bytes
  missing set [] = []
  missing set (probe ∷ probes) =
      let rest = missing set probes in
      if not (contains_addr parse_addr set probe) then probe ∷ rest else rest

  module _ (too_many : ℕ → ℕ → Bool) where
    unfoldable pub plan_reverse_exclusion : Set → List ForeignSpan → Exclusion
    plan_reverse_exclusion cn foreign =
        let kept = subtract cn.ranges (overlapping cn foreign) in
        let dropped = subtract cn.ranges kept in
        let addrs = total_addresses dropped in
        let lost = missing (new kept) mainland_probes in
        if too_many addrs (address_count (some cn))
        then record {
          kept = new kept;
          dropped = [];
          addrs = addrs;
          rejected = some too_many_dropped;
        }
        else if ltb 0 (length lost)
        then record {
          kept = new kept;
          dropped = [];
          addrs = addrs;
          rejected = some (mainland_lost lost);
        }
        else record {
          kept = new kept;
          dropped = attribute_dropped dropped foreign;
          addrs = addrs;
          rejected = none;
        }

pub data RunError : Type 0 where
  read_failed no_records : RunError
  offshore_leak : Bytes → RunError

-- What `Run` returns, and the prefixes and the list of exclusions that it writes.
pub record Routes : Type 0 where
  pub prefixes : List Prefix
  pub networks : ℕ
  pub cn_addresses : ℕ
  pub supplemented : ℕ
  pub excluded : List ForeignSpan
  pub dropped_addrs : ℕ

pub data Result : Type 0 where
  done : Routes → Result
  failed : RunError → Result

-- The set with the reserved blocks, as prefixes.
unfoldable pub published : Set → List Prefix
published cn = prefixes (some (new (cn.ranges ++ ranges_of_prefixes non_global_prefixes)))

unfoldable pub routes_of : Set → ℕ → List ForeignSpan → ℕ → Routes
routes_of cn supplemented excluded dropped = record {
  prefixes = published cn;
  networks = length (published cn);
  cn_addresses = address_count (some cn);
  supplemented = supplemented;
  excluded = excluded;
  dropped_addrs = dropped;
}

-- The plan is taken only if it is not rejected.
unfoldable pub apply_plan : Set → ℕ → Exclusion → Routes
apply_plan cn supplemented plan = elim plan.rejected [
  | some reason ↦ routes_of cn supplemented [] 0
  | none ↦ routes_of plan.kept supplemented plan.dropped plan.addrs
]

module _ (parse_addr : Bytes → Option Addr) (parse_uint : Bytes → Option ℕ)
    (too_many : ℕ → ℕ → Bool) where
  -- The database, if a path is given; what cannot be read leaves nothing.
  unfoldable pub supplement :
      Bool → Option (Option (List (Prefix × Record))) → List Range → List Range × List ForeignSpan
  supplement reverse (some (some entries)) apnic =
      load_cnip (λ lo hi. reverse && overlaps (some (new apnic)) lo hi) entries ([], [])
  supplement reverse _ apnic = ([], [])

  unfoldable pub exclude_foreign : Bool → Set → ℕ → List ForeignSpan → Routes
  exclude_foreign reverse cn supplemented foreign =
      if reverse && ltb 0 (length foreign)
      then apply_plan cn supplemented (plan_reverse_exclusion parse_addr too_many cn foreign)
      else routes_of cn supplemented [] 0

  unfoldable pub combine : Bool → List Range → List Range → List ForeignSpan → Result
  combine reverse apnic cn foreign =
      if length cn == 0
      then done (exclude_foreign reverse (new apnic) 0 foreign)
      else (elim (guard_offshore_leak parse_addr cn) [
        | some probe ↦ failed (offshore_leak probe)
        | none ↦ done (exclude_foreign reverse (new (apnic ++ cn)) (length (new cn).ranges) foreign)
      ])

  -- `Run`, from the lines of the records and whether their scanner failed.
  unfoldable pub run : Bool → List Bytes → Bool → Option (Option (List (Prefix × Record))) → Result
  run reverse lines scan_failed cnip =
      let apnic = parse_apnic parse_addr parse_uint lines in
      let (cn, foreign) = supplement reverse cnip apnic in
      if scan_failed
      then failed read_failed
      else if length apnic == 0
      then failed no_records
      else combine reverse apnic cn foreign

-- The rows that `writeExcluded` writes, in their order.
unfoldable pub excluded_rows : List ForeignSpan → List (Prefix × Bytes × Bytes)
excluded_rows [] = []
excluded_rows (e ∷ excluded) =
    map (λ (p : Prefix). (p, e.code, e.name)) (range_to_prefixes (span_of e))
    ++ excluded_rows excluded

unfoldable pub write_excluded : List ForeignSpan → List (Prefix × Bytes × Bytes)
write_excluded excluded = excluded_rows (sort_slice span_less excluded)
