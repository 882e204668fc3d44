-- ===== src/Ruleset/Outcome.antt =====
-- internal/ruleset/ruleset.go: what `Build` makes of the events of its loop, and the functions on prefixes.
use dns_stack.Prelude.{
  ℕ, ◌+◌, ◌-◌, ◌%◌, Bool, true, false, Option, none, some, List, [], ◌∷◌, ◌++◌, ◌&&◌, ltb, ◌==◌,
  if◌then◌else◌, length, any,
}
use dns_stack.Prelude.Sort.{sort_slice}
use dns_stack.Text.{Bytes}
use dns_stack.Text.Match.{add_key, bytes_less}
use dns_stack.Netip.{Prefix, masked, addr_less}
use dns_stack.Ipset.Sets.{new, len, ranges_of, address_count, count_loop, u64_mod}
use dns_stack.Ipset.Subtract.{subtract}
use dns_stack.Ipset.Prefix.{prefixes}
use dns_stack.Ipset.Prefix.Tiles.{ranges_of_prefixes}
use dns_stack.Ipset.Global.{is_global_prefix}
use dns_stack.Domain.{Defect, empty, malformed, reserved, public_suffix, single_label}
use dns_stack.Ruleset.Setup.{Config, holds, same_addr}
use dns_stack.Ruleset.Events.{
  Zone, Event, route, exact, extra, shared, disputed, promoted, steered_addr, steered_zone,
  ruleset_zone, defective, dead, matched,
}

abbrev pub as_list : {A : Type 0} → Option A → List A
as_list none = []
as_list (some a) = a ∷ []

-- The values of the events that carry one.
unfoldable pub collect : {A : Type 0} → (Event → Option A) → List Event → List A
collect f [] = []
collect f (e ∷ es) = as_list (f e) ++ collect f es

abbrev pub routed : Event → Option Prefix
routed (route p) = some p
routed _ = none

abbrev pub exactly : Event → Option Prefix
exactly (exact p) = some p
exactly _ = none

abbrev pub extras : Event → Option Prefix
extras (extra p) = some p
extras _ = none

abbrev pub shared_addrs : Event → Option Bytes
shared_addrs (shared s) = some s
shared_addrs _ = none

abbrev pub disputed_addrs : Event → Option Bytes
disputed_addrs (disputed s) = some s
disputed_addrs _ = none

abbrev pub promoted_addrs : Event → Option Bytes
promoted_addrs (promoted s) = some s
promoted_addrs _ = none

abbrev pub steered_addrs : Event → Option Bytes
steered_addrs (steered_addr s) = some s
steered_addrs _ = none

abbrev pub steered_names : Event → Option Bytes
steered_names (steered_zone s) = some s
steered_names _ = none

abbrev pub ruleset_names : Event → Option Bytes
ruleset_names (ruleset_zone s) = some s
ruleset_names _ = none

abbrev pub dead_names : Event → Option Bytes
dead_names (dead s) = some s
dead_names _ = none

abbrev pub matches : Event → Option Zone
matches (matched z) = some z
matches _ = none

unfoldable pub same_defect : Defect → Defect → Bool
same_defect empty empty = true
same_defect malformed malformed = true
same_defect reserved reserved = true
same_defect public_suffix public_suffix = true
same_defect single_label single_label = true
same_defect _ _ = false

unfoldable pub defect_names : Defect → Event → Option Bytes
unfolding same_defect
defect_names d (defective c s) = if same_defect d c then some s else none
defect_names d _ = none

-- The keys of a map, each once.
unfoldable pub keys_of : List Bytes → List Bytes → List Bytes
unfolding add_key
keys_of keys [] = keys
keys_of keys (s ∷ ss) = keys_of (add_key s keys) ss

unfoldable pub sorted_keys : List Bytes → List Bytes
unfolding keys_of sort_slice bytes_less
sorted_keys ss = sort_slice bytes_less (keys_of [] ss)

unfoldable pub collapse : List Prefix → List Prefix
unfolding prefixes new ranges_of_prefixes
collapse ps = if length ps == 0 then [] else prefixes (some (new (ranges_of_prefixes ps)))

unfoldable pub same_prefix : Prefix → Prefix → Bool
unfolding same_addr
same_prefix p q = same_addr p.addr q.addr && p.bits_plus_one == q.bits_plus_one

unfoldable pub prefix_less : Prefix → Prefix → Bool
unfolding addr_less same_addr
prefix_less p q =
    if same_addr p.addr q.addr then ltb p.bits_plus_one q.bits_plus_one else addr_less p.addr q.addr

-- The loop of `uniquePrefixes`, with the prefixes seen.
unfoldable pub unique_loop : List Prefix → List Prefix → List Prefix
unfolding same_prefix masked
unique_loop seen [] = []
unique_loop seen (raw ∷ ps) =
    let p = masked raw in
    let skipped = unique_loop seen ps in
    let kept = unique_loop (p ∷ seen) ps in if any (same_prefix p) seen then skipped else p ∷ kept

unfoldable pub unique_prefixes : List Prefix → List Prefix
unfolding unique_loop prefix_less sort_slice
unique_prefixes ps = sort_slice prefix_less (unique_loop [] ps)

unfoldable pub direct_ecs_prefixes : Config → List Prefix
unfolding subtract
direct_ecs_prefixes cfg =
    if len cfg.disputed == 0
    then prefixes cfg.direct
    else prefixes (some (new (subtract (ranges_of cfg.direct) (ranges_of cfg.disputed))))

unfoldable pub direct_ecs_address_count : List Prefix → ℕ
unfolding count_loop
direct_ecs_address_count ps = count_loop 0 (ranges_of_prefixes ps)

-- The loop over the prefixes that are global.
unfoldable pub global_only : List Prefix → List Prefix
unfolding is_global_prefix
global_only [] = []
global_only (p ∷ ps) =
    let rest = global_only ps in if holds (is_global_prefix p) then p ∷ rest else rest

pub record Report : Type 0 where
  pub route_prefixes : List Prefix
  pub ecs_prefixes : List Prefix
  pub authority_ecs : List Prefix
  pub matched_zones : List Zone
  pub dead_zones : List Bytes
  pub defective_zones : Defect → List Bytes
  pub shared_excluded : List Bytes
  pub disputed_excluded : List Bytes
  pub promoted_used : List Bytes
  pub steered_zones : List Bytes
  pub steered_by_ruleset : List Bytes
  pub steered_ecs_addrs : ℕ
  pub rto_was_seen : Bool
  pub direct_ecs_count : ℕ
  pub direct_ecs_cut_addrs : ℕ

-- What follows the loop over the zones. The subtraction is on uint64.
unfoldable pub report : Config → Bool → List Event → Report
unfolding collapse unique_prefixes direct_ecs_prefixes direct_ecs_address_count global_only
    sorted_keys keys_of collect
report cfg seen events =
    let all_ecs = collect exactly events ++ collect extras events in
    let direct_ecs = direct_ecs_prefixes cfg in
    record {
      route_prefixes = collapse (collect routed events);
      ecs_prefixes = collapse (all_ecs ++ global_only direct_ecs);
      authority_ecs = unique_prefixes all_ecs;
      matched_zones =
          sort_slice (λ (a b : Zone). bytes_less a.name b.name) (collect matches events);
      dead_zones = sort_slice bytes_less (collect dead_names events);
      defective_zones = λ d. sort_slice bytes_less (collect (defect_names d) events);
      shared_excluded = sorted_keys (collect shared_addrs events);
      disputed_excluded = sorted_keys (collect disputed_addrs events);
      promoted_used = sorted_keys (collect promoted_addrs events);
      steered_zones = sorted_keys (collect steered_names events);
      steered_by_ruleset = sorted_keys (collect ruleset_names events);
      steered_ecs_addrs = length (keys_of [] (collect steered_addrs events));
      rto_was_seen = seen;
      direct_ecs_count = length direct_ecs;
      direct_ecs_cut_addrs =
          (address_count cfg.direct + u64_mod - direct_ecs_address_count direct_ecs) % u64_mod;
    }
