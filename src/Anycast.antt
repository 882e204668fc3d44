-- ===== src/Anycast.antt =====
-- internal/anycast/anycast.go: name servers in China whose addresses belong to a shared, worldwide network.
-- The files, the databases of autonomous systems, and what parses and prints addresses are arguments.
pub mod Run
pub mod Causes
pub mod Reported
use Prim.Native.String.{String}
use dns_stack.Prelude.{
  ℕ, zero, suc, ◌+◌, Bool, true, false, Option, none, some, List, [], ◌∷◌, ◌++◌, ◌||◌, ◌&&◌, not,
  ◌==◌, if◌then◌else◌, length, get_or, map, take,
}
use dns_stack.Prelude.Sort.{sort_slice}
use dns_stack.Text.{Bytes, to_lower}
use dns_stack.Text.Fields.{fields}
use dns_stack.Text.Match.{codes, same, bytes_less, has_key, add_key, has_suffix}
use dns_stack.Text.Below.{is_or_below}
use dns_stack.Text.Maps.{get_else, put}
use dns_stack.Netip.{Addr, v4, Prefix, is4}
use dns_stack.Spans.{Range}
use dns_stack.Ipset.Sets.{Set, new}
use dns_stack.Ipset.Prefix.{prefix_range, contains}
use dns_stack.Ipset.Addresses.{is_global_addr}
use dns_stack.Ruleset.Setup.{holds}
use dns_stack.Cdn.{shared_dns_provider}
use dns_stack.Infra.{Entry, Snapshot}
use dns_stack.Statefile.{lines}

pub record Finding : Type 0 where
  pub ip : Bytes
  pub asn : ℕ
  pub label : Bytes
  pub because : Bytes
  pub outside : List Bytes
  pub sources : List Bytes

-- The report, less the flag that `finish` sets.
pub record Report : Type 0 where
  pub infra_ips : ℕ
  pub candidates : ℕ
  pub kept : ℕ
  pub shared : List Finding
  pub by_org : List (Bytes × ℕ)
  pub note : Bytes
  pub by_source : List (Bytes × ℕ)

abbrev pub no_report : Report
no_report = record {
  infra_ips = 0;
  candidates = 0;
  kept = 0;
  shared = [];
  by_org = [];
  note = [];
  by_source = [];
}

-- The first word of each line; no line is empty.
unfoldable pub data_lines : Option Bytes → List Bytes
unfolding lines fields
data_lines file = map (λ (line : Bytes). get_or (fields line) 0 []) (lines file)

module _ (parse_prefix : Bytes → Option Prefix) where
  -- The range of one line; none where the line is skipped.
  direct_range : Option Prefix → List Range
  direct_range none = []
  direct_range (some p) =
      if not (is4 p.addr) then [] else (elim (prefix_range p) [ some (r, true) ↦ r ∷ [] | _ ↦ [] ])

  unfoldable pub direct_ranges : List Bytes → List Range
  unfolding direct_range
  direct_ranges [] = []
  direct_ranges (value ∷ values) = direct_range (parse_prefix value) ++ direct_ranges values

  unfoldable pub load_direct4 : Option Bytes → Option Set
  unfolding direct_ranges data_lines new
  load_direct4 file =
      let ranges = direct_ranges (data_lines file) in
      if length ranges == 0 then none else some (new ranges)

-- The keys of `exact`.
unfoldable pub lower_keys : List Bytes → List Bytes → List Bytes
lower_keys keys [] = keys
lower_keys keys (zone ∷ zones) = lower_keys (add_key (to_lower zone) keys) zones

unfoldable pub load_cn_zones : Option Bytes → Option Bytes → List Bytes × List Bytes
unfolding lower_keys data_lines
load_cn_zones matched manual =
    (lower_keys [] (data_lines matched), map to_lower (data_lines manual))

unfoldable pub has_served_suffix : Bytes → List Bytes → Bool
has_served_suffix zone [] = false
has_served_suffix zone (suffix ∷ suffixes) =
    is_or_below zone suffix || has_served_suffix zone suffixes

-- The first of the zones that is served in China; the empty string if none is.
unfoldable pub serves_cn_zone : List Bytes → List Bytes → List Bytes → Bytes
serves_cn_zone [] exact suffixes = []
serves_cn_zone (zone ∷ zones) exact suffixes =
    let rest = serves_cn_zone zones exact suffixes in
    if has_key zone exact then zone else if has_served_suffix zone suffixes then zone else rest
