-- ===== src/Witnesses/Ruleset.antt =====
-- Two zones with global addresses, one of them in the set of direct ranges.
use dns_stack.Prelude.Sort.{sort_slice}
use dns_stack.Text.Maps.{put, get_else}
use dns_stack.Ipset.Collapse.{collapse}
use dns_stack.Prelude.{◌≡◌, refl, arith, true, false, Option, none, some, List, [], ◌∷◌, All}
use mathlib.Core.List.{Memᴰ, reverse}
use mathlib.Core.List.Permᴰ
use dns_stack.Prelude.Ints.{magnitude, pos}
use dns_stack.Text.{Bytes}
use dns_stack.Text.Match.{codes}
use dns_stack.Netip.{is4, Addr, invalid, v4, v6}
use dns_stack.Ipset.Sets.{Set, new, len}
use dns_stack.Ipset.Global.{dotted}
use dns_stack.Domain.Suffixes.{Psl}
use dns_stack.Infra.{Entry, Snapshot, zones}
use dns_stack.Ruleset.Setup.{Config}
use dns_stack.Ruleset.Setup.{routable}
use dns_stack.Ruleset.Events.{is_rto_seen, rtos_loop}
use dns_stack.Ruleset.Outcome.{Report, report}
use dns_stack.Ruleset.Build.{build, built, build_events, v4_zones}
use dns_stack.Ruleset.Agreement.{Agrees, build-Agrees}
use dns_stack.Ruleset.Causes.{MayRoute}
use dns_stack.Ruleset.Reach.{IsFit, IsReached}
use dns_stack.Ruleset.Routes.{build-routed}
use dns_stack.Spans.{covered}
use dns_stack.Ipset.Prefix.Tiles.{ranges_of_prefixes}

abbrev parse_addr : Bytes → Option Addr
parse_addr s = none

abbrev addr_string : Addr → Bytes
addr_string invalid = []
addr_string (v4 a) = a ∷ []
addr_string (v6 a) = a ∷ []

abbrev direct : Set
direct = new (record { lo = dotted 223 5 5 0; hi = dotted 223 5 5 255 } ∷ [])

abbrev psl : Psl
psl = record { rules = codes "com" ∷ []; wildcards = []; exceptions = []; from = [] }

abbrev cfg : Config
cfg = record {
  direct = some direct;
  disputed = none;
  promoted = none;
  psl = some psl;
  manual_zones = [];
  shared_anycast = [];
  mainland = [];
  aggregate = pos 24;
}

abbrev alpha : Entry
alpha = record { zone = codes "alpha.com"; ip = v4 (dotted 223 5 5 5); rto = 100; has_rto = true }

abbrev beta : Entry
beta = record { zone = codes "beta.com"; ip = v4 (dotted 8 8 8 8); rto = 0; has_rto = false }

abbrev snapshot : Snapshot
snapshot = record { entries = alpha ∷ beta ∷ []; skipped = 0 }

abbrev zone_map : List (Bytes × List Entry)
zone_map = (codes "alpha.com", alpha ∷ []) ∷ (codes "beta.com", beta ∷ []) ∷ []

build-Agrees_example :
    Agrees
      (build parse_addr addr_string (λ m. m) snapshot cfg)
      (build parse_addr addr_string reverse snapshot cfg)
build-Agrees_example =
    build-Agrees parse_addr addr_string snapshot cfg (λ m. m) reverse
      (λ m. Permᴰ.symm (Permᴰ.reverse m))

abbrev reports : Report
reports =
    report cfg (is_rto_seen snapshot.entries)
      (build_events parse_addr addr_string (λ m. m) snapshot cfg)

snapshot-reports : build parse_addr addr_string (λ m. m) snapshot cfg ≡ built reports
unfolding build len collapse
snapshot-reports = refl

snapshot-zones : v4_zones (zones addr_string snapshot) ≡ zone_map
unfolding v4_zones zones get_else put sort_slice is4
snapshot-zones = refl

zone_map-IsFit :
    All (λ z. All (λ (e : Entry). IsFit e.ip) z.1) (v4_zones (zones addr_string snapshot))
zone_map-IsFit = rw snapshot-zones ((omega arith, tt), ((omega arith, tt), tt))

routes_dns : covered (ranges_of_prefixes reports.route_prefixes) (dotted 223 5 5 5) ≡ true
unfolding report build_events dns_stack.Domain.Suffixes.is_public_suffix
    dns_stack.Domain.Suffixes.normalize dns_stack.Domain.zone_defect
    dns_stack.Ipset.Global.global_parts dns_stack.Ipset.Global.is_only dns_stack.Prelude.any
    dns_stack.Ruleset.Events.live_events dns_stack.Ruleset.Events.zone_events
    dns_stack.Ruleset.Setup.is_forced dns_stack.Ruleset.Setup.mainland_evidence
    dns_stack.Text.Match.contains dns_stack.Text.Match.cut dns_stack.Text.Match.has_suffix
    dns_stack.Text.split_dots get_else put zones collapse dns_stack.Cdn.build_geo_steered
    dns_stack.Cdn.geo_steered dns_stack.Cdn.is_geo_steered dns_stack.Ipset.Global.global_loop
    dns_stack.Ipset.Prefix.block_bits dns_stack.Ruleset.Events.is_dead
    dns_stack.Ruleset.Events.matched_events dns_stack.Ruleset.Events.settled_events
    dns_stack.Ruleset.Setup.mainland_cdn magnitude
routes_dns = refl

build-routed_example :
    (z : Bytes × List Entry) × Memᴰ z (v4_zones (zones addr_string snapshot))
    × MayRoute addr_string cfg 24 parse_addr
        (is_rto_seen snapshot.entries)
        (rtos_loop addr_string [] snapshot.entries)
        z.0
        z.1
    × (e : Entry) × Memᴰ e z.1
    × (routable e.ip ≡ true)
    × IsReached 24 e.ip (dotted 223 5 5 5)
unfolding magnitude
build-routed_example =
    build-routed parse_addr addr_string (λ m. m) snapshot cfg reports (dotted 223 5 5 5)
      snapshot-reports zone_map-IsFit routes_dns
