-- ===== src/Ruleset/Agreement.antt =====
-- internal/ruleset/ruleset.go: what `Build` returns does not depend on the order in which Go goes over a map.
use dns_stack.Prelude.{
  ℕ, ◌≡◌, refl, ap, Bool, Option, none, some, List, [], ◌∷◌, ◌++◌, inl, inr, ◌==◌, Bool-cases,
  if◌then◌else◌,
}
use mathlib.Core.List.{Permᴰ}
use mathlib.Core.List.Permᴰ
use dns_stack.Prelude.Ints.{outside, magnitude}
use dns_stack.Prelude.Permutations.{length-Permᴰ, flat, flat-Permᴰ}
use dns_stack.Text.{Bytes}
use dns_stack.Netip.{Addr}
use dns_stack.Infra.{Entry, Snapshot}
use dns_stack.Ruleset.Setup.{Config}
use dns_stack.Ruleset.Events.{Event, zone_events, zones_events}
use dns_stack.Domain.{Defect}
use dns_stack.Ruleset.Outcome.{
  report, routed, exactly, extras, dead_names, defect_names, shared_addrs, disputed_addrs,
  promoted_addrs, steered_names, ruleset_names, steered_addrs, global_only, direct_ecs_prefixes,
}
use dns_stack.Ruleset.Build.{Built, built, failed, build_events, build}
use dns_stack.Infra.{zones}
use dns_stack.Domain.Suffixes.{Psl}
use dns_stack.Ipset.Sets.{len}
use dns_stack.Ruleset.Events.{is_rto_seen, rtos_loop}
use dns_stack.Ruleset.Build.{v4_zones, needs_psl, bad_aggregate}
use dns_stack.Ruleset.Order.{
  collect-Permᴰ, collapse-Permᴰ, keys_of-Permᴰ, sorted, sorted_keys-Permᴰ,
}

-- What two runs return: the same error, or results with the same prefixes and the same lists of names.
pub Agrees : Built → Built → Type 0
Agrees (failed e) (failed f) = e ≡ f
Agrees (built a) (built b) =
    (a.route_prefixes ≡ b.route_prefixes)
    × (a.ecs_prefixes ≡ b.ecs_prefixes)
    × (a.dead_zones ≡ b.dead_zones)
    × ((d : Defect) → a.defective_zones d ≡ b.defective_zones d)
    × (a.shared_excluded ≡ b.shared_excluded)
    × (a.disputed_excluded ≡ b.disputed_excluded)
    × (a.promoted_used ≡ b.promoted_used)
    × (a.steered_zones ≡ b.steered_zones)
    × (a.steered_by_ruleset ≡ b.steered_by_ruleset)
    × (a.steered_ecs_addrs ≡ b.steered_ecs_addrs)
Agrees _ _ = ⊥

report-Agrees :
    (cfg : Config) (seen : Bool) {es fs : List Event}
    → Permᴰ es fs
    → Agrees (built (report cfg seen es)) (built (report cfg seen fs))
unfolding report Agrees
report-Agrees cfg seen {es} {fs} d = (
  collapse-Permᴰ (collect-Permᴰ routed d),
  collapse-Permᴰ (
      Permᴰ.append_right (global_only (direct_ecs_prefixes cfg)) (
        Permᴰ.trans (Permᴰ.append_right _ (collect-Permᴰ exactly d))
          (Permᴰ.append_left _ (collect-Permᴰ extras d)))),
  sorted (collect-Permᴰ dead_names d),
  λ c. sorted (collect-Permᴰ (defect_names c) d),
  sorted_keys-Permᴰ (collect-Permᴰ shared_addrs d),
  sorted_keys-Permᴰ (collect-Permᴰ disputed_addrs d),
  sorted_keys-Permᴰ (collect-Permᴰ promoted_addrs d),
  sorted_keys-Permᴰ (collect-Permᴰ steered_names d),
  sorted_keys-Permᴰ (collect-Permᴰ ruleset_names d),
  length-Permᴰ (keys_of-Permᴰ (collect-Permᴰ steered_addrs d) []),
)

module _ (parse_addr : Bytes → Option Addr) (addr_string : Addr → Bytes) (s : Snapshot)
    (cfg : Config) where
  zones_events-flat :
      (agg : ℕ) (seen : Bool) (rtos : List (Bytes × List (Bytes × Entry)))
      (m : List (Bytes × List Entry))
      → zones_events addr_string cfg agg parse_addr seen rtos m
        ≡ flat (λ z. zone_events addr_string cfg agg parse_addr seen rtos z.0 z.1) m
  unfolding zones_events flat
  zones_events-flat agg seen rtos [] = refl
  zones_events-flat agg seen rtos ((zone, entries) ∷ m) =
      ap (λ es. zone_events addr_string cfg agg parse_addr seen rtos zone entries ++ es)
        (zones_events-flat agg seen rtos m)

  module _ (first second : List (Bytes × List Entry) → List (Bytes × List Entry))
      (orders : (m : List (Bytes × List Entry)) → Permᴰ (first m) (second m)) where
    build_events-Permᴰ :
        Permᴰ
          (build_events parse_addr addr_string first s cfg)
          (build_events parse_addr addr_string second s cfg)
    unfolding build_events
    build_events-Permᴰ =
        let agg = magnitude cfg.aggregate in
        let seen = is_rto_seen s.entries in
        let rtos = rtos_loop addr_string [] s.entries in
        let m = v4_zones (zones addr_string s) in
        rw (zones_events-flat agg seen rtos (first m), zones_events-flat agg seen rtos (second m))
          (flat-Permᴰ (λ z. zone_events addr_string cfg agg parse_addr seen rtos z.0 z.1)
            (orders m))

    -- `Build` returns the same whatever order Go takes over the map of zones: the same error, or the same prefixes to
    -- route and for client subnets, the same dead zones, the same zones of each defect, and the same names and addresses
    -- of all other lists but `MatchedZones` and `AuthorityECS`.
    pub build-Agrees :
        Agrees
          (build parse_addr addr_string first s cfg)
          (build parse_addr addr_string second s cfg)
    unfolding build Agrees
    build-Agrees = elim (Bool-cases (len cfg.direct == 0)) [
      | inl e ↦ rw e refl
      | inr e ↦ rw e (under_psl cfg.psl)
    ]
      where
        checked : List Event → Built
        checked events =
            if outside cfg.aggregate 32
            then failed bad_aggregate
            else built (report cfg (is_rto_seen s.entries) events)

        under_psl :
            (o : Option Psl)
            → Agrees
                (needs_psl o (checked (build_events parse_addr addr_string first s cfg)))
                (needs_psl o (checked (build_events parse_addr addr_string second s cfg)))
        under_psl none = refl
        under_psl (some p) = elim (Bool-cases (outside cfg.aggregate 32)) [
          | inl e ↦ rw e refl
          | inr e ↦ rw e (report-Agrees cfg (is_rto_seen s.entries) build_events-Permᴰ)
        ]
