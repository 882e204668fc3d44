-- ===== src/Ruleset/Build.antt =====
-- internal/ruleset/ruleset.go: `Build`. The order in which Go goes over the zones, which is any, is an argument.
use dns_stack.Prelude.{Option, none, some, List, [], ◌∷◌, ◌==◌, if◌then◌else◌, length}
use dns_stack.Prelude.Ints.{outside, magnitude}
use dns_stack.Text.{Bytes}
use dns_stack.Netip.{Addr, is4}
use dns_stack.Ipset.Sets.{len}
use dns_stack.Domain.Suffixes.{Psl}
use dns_stack.Infra.{Entry, Snapshot, zones}
use dns_stack.Ruleset.Setup.{Config}
use dns_stack.Ruleset.Events.{Event, is_rto_seen, rtos_loop, zones_events}
use dns_stack.Ruleset.Outcome.{Report, report}

-- The entries of a zone with an IPv4 address; a zone without one is left out.
unfoldable pub only_v4 : List Entry → List Entry
only_v4 [] = []
only_v4 (e ∷ es) = let rest = only_v4 es in if is4 e.ip then e ∷ rest else rest

unfoldable pub v4_zones : List (Bytes × List Entry) → List (Bytes × List Entry)
unfolding only_v4
v4_zones [] = []
v4_zones ((zone, entries) ∷ m) =
    let rest = v4_zones m in
    if length (only_v4 entries) == 0 then rest else (zone, only_v4 entries) ∷ rest

pub data BuildError : Type 0 where
  empty_direct no_suffix_list bad_aggregate : BuildError

pub data Built : Type 0 where
  failed : BuildError → Built
  built : Report → Built

-- The test on the public suffix list, before the rest.
abbrev pub needs_psl : Option Psl → Built → Built
needs_psl none rest = failed no_suffix_list
needs_psl (some p) rest = rest

module _ (parse_addr : Bytes → Option Addr) (addr_string : Addr → Bytes)
    (order : List (Bytes × List Entry) → List (Bytes × List Entry)) where
  -- The events of the loop over the zones.
  unfoldable pub build_events : Snapshot → Config → List Event
  unfolding is_rto_seen rtos_loop zones_events v4_zones
  build_events s cfg =
      zones_events addr_string cfg (magnitude cfg.aggregate) parse_addr (is_rto_seen s.entries)
        (rtos_loop addr_string [] s.entries) (order (v4_zones (zones addr_string s)))

  unfoldable pub build : Snapshot → Config → Built
  unfolding build_events report outside magnitude
  build s cfg =
      if len cfg.direct == 0
      then failed empty_direct
      else needs_psl cfg.psl (
          if outside cfg.aggregate 32
          then failed bad_aggregate
          else built (report cfg (is_rto_seen s.entries) (build_events s cfg)))
