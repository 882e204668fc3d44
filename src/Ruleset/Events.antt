-- ===== src/Ruleset/Events.antt =====
-- internal/ruleset/ruleset.go, the loop of `Build` over the zones: what it appends to its slices and sets in its maps,
-- as a list of events in the code's order. An address is printed by an argument.
use dns_stack.Prelude.{
  ℕ, Bool, true, false, Option, none, some, List, [], ◌∷◌, ◌++◌, ◌&&◌, ◌||◌, not, ltb, leb, ◌==◌,
  if◌then◌else◌, length, any,
}
use dns_stack.Text.{Bytes}
use dns_stack.Text.Maps.{get, put, get_else}
use dns_stack.Netip.{Addr, Prefix, is4, prefix_from, masked}
use dns_stack.Domain.{Defect, zone_defect}
use dns_stack.Cdn.{is_geo_steered}
use dns_stack.Infra.{Entry}
use dns_stack.Ruleset.Setup.{
  Config, mainland_cdn, is_global_host, is_disputed, is_promoted, mainland_evidence, is_forced,
  is_shared,
}

pub record Zone : Type 0 where
  pub name : Bytes
  pub count : ℕ
  pub forced : Bool

-- An append to a slice of prefixes or zones, or a key set in a map.
pub data Event : Type 0 where
  route exact extra : Prefix → Event
  shared disputed promoted : Bytes → Event
  steered_addr steered_zone ruleset_zone : Bytes → Event
  defective : Defect → Bytes → Event
  dead : Bytes → Event
  matched : Zone → Event

abbrev pub steered_ecs_bits : ℕ
steered_ecs_bits = 24

abbrev pub dead_rto_millis : ℕ
dead_rto_millis = 120000

-- `agg > 0 && agg < 32`
abbrev pub is_partial : ℕ → Bool
is_partial agg = ltb 0 agg && ltb agg 32

-- `RTOSeen`. No time of an entry is below 0.
unfoldable pub is_rto_seen : List Entry → Bool
unfolding is4
is_rto_seen entries = any (λ (e : Entry). is4 e.ip && e.has_rto) entries

-- The condition under which an entry takes the place of an older one in `rtos`.
unfoldable pub replaces : Option Entry → Entry → Bool
replaces none e = true
replaces (some old) e =
    (not old.has_rto && e.has_rto) || (e.has_rto && old.has_rto && ltb old.rto e.rto)

module _ (addr_string : Addr → Bytes) where
  -- The loop that fills `rtos`.
  unfoldable pub rtos_loop :
      List (Bytes × List (Bytes × Entry)) → List Entry → List (Bytes × List (Bytes × Entry))
  unfolding replaces is4
  rtos_loop rtos [] = rtos
  rtos_loop rtos (e ∷ es) =
      let of_zone = get_else e.zone [] rtos in
      let skipped = rtos_loop rtos es in
      let unchanged = rtos_loop (put e.zone of_zone rtos) es in
      let changed = rtos_loop (put e.zone (put (addr_string e.ip) e of_zone) rtos) es in
      if not (is4 e.ip)
      then skipped
      else if replaces (get (addr_string e.ip) of_zone) e
      then changed
      else unchanged

  -- Whether the entry's time, if the zone has one, leaves the zone dead.
  unfoldable pub is_timed_out : List (Bytes × Entry) → Entry → Bool
  unfolding get
  is_timed_out by_ip e = elim (get (addr_string e.ip) by_ip) [
    | none ↦ false
    | some v ↦ v.has_rto && leb dead_rto_millis v.rto
  ]

  -- The loop over the entries of `dead`.
  unfoldable pub are_timed_out : List (Bytes × Entry) → List Entry → Bool
  unfolding is_timed_out
  are_timed_out by_ip [] = true
  are_timed_out by_ip (e ∷ es) = if is_timed_out by_ip e then are_timed_out by_ip es else false

  unfoldable pub is_dead : List (Bytes × Entry) → List Entry → Bool
  unfolding are_timed_out
  is_dead by_ip entries =
      ltb 0 (length by_ip) && length by_ip == length entries && are_timed_out by_ip entries

  -- `steer`
  unfoldable pub steer : Bool → Bytes → Addr → List Event
  unfolding is4 is_global_host masked prefix_from
  steer from_ruleset zone ip =
      if not (is4 ip) || not (is_global_host ip)
      then []
      else extra (masked (prefix_from ip steered_ecs_bits))
        ∷ steered_addr (addr_string ip)
        ∷ steered_zone zone
        ∷ (if from_ruleset then ruleset_zone zone ∷ [] else [])

  module _ (cfg : Config) (agg : ℕ) where
    -- The last part of the loop over the entries of a matched zone, where the address is global and not disputed.
    unfoldable pub settled_events : Bool → Bool → Bytes → Addr → List Event
    settled_events steered from_ruleset zone ip =
        if is_partial agg && mainland_evidence cfg ip
        then route (masked (prefix_from ip agg)) ∷ exact (prefix_from ip 32) ∷ []
        else if steered && not (mainland_evidence cfg ip)
        then steer from_ruleset zone ip
        else if is_shared cfg ip
        then extra (prefix_from ip 32) ∷ shared (addr_string ip) ∷ []
        else route (prefix_from ip 32) ∷ exact (prefix_from ip 32) ∷ []

    -- One turn of that loop.
    unfoldable pub entry_events : Bool → Bool → Bytes → Addr → List Event
    entry_events steered from_ruleset zone ip =
        let promotion = if is_promoted cfg ip then promoted (addr_string ip) ∷ [] else [] in
        if not (is4 ip)
        then []
        else if not (is_global_host ip)
        then []
        else if is_disputed cfg ip
        then route (if is_partial agg then masked (prefix_from ip agg) else prefix_from ip 32)
          ∷ disputed (addr_string ip)
          ∷ []
        else promotion ++ settled_events steered from_ruleset zone ip

    unfoldable pub matched_events : Bool → Bool → Bytes → List Entry → List Event
    unfolding entry_events
    matched_events steered from_ruleset zone [] = []
    matched_events steered from_ruleset zone (e ∷ es) =
        entry_events steered from_ruleset zone e.ip ++ matched_events steered from_ruleset zone es

    unfoldable pub steered_events : Bool → Bytes → List Entry → List Event
    unfolding steer
    steered_events from_ruleset zone [] = []
    steered_events from_ruleset zone (e ∷ es) =
        steer from_ruleset zone e.ip ++ steered_events from_ruleset zone es

    module _ (parse_addr : Bytes → Option Addr) (rto_seen : Bool)
        (rtos : List (Bytes × List (Bytes × Entry))) where
      -- What one turn of the loop over the zones does to a zone without a defect.
      unfoldable pub live_events : Bytes → List Entry → List Event
      live_events zone entries =
          let forced = is_forced cfg zone in
          let has_cn = any (λ (e : Entry). mainland_evidence cfg e.ip) entries in
          let from_ruleset = not (is_geo_steered zone) && mainland_cdn cfg zone in
          let steered = is_geo_steered zone || from_ruleset in
          if not forced && not has_cn
          then (if steered then steered_events from_ruleset zone entries else [])
          else if not forced && rto_seen && is_dead (get_else zone [] rtos) entries
          then dead zone ∷ []
          else matched (record { name = zone; count = length entries; forced = forced })
            ∷ matched_events steered from_ruleset zone entries

      -- One turn of that loop.
      unfoldable pub zone_events : Bytes → List Entry → List Event
      zone_events zone entries = elim (zone_defect parse_addr zone cfg.psl) [
        | some d ↦ defective d zone ∷ []
        | none ↦ live_events zone entries
      ]

      unfoldable pub zones_events : List (Bytes × List Entry) → List Event
      zones_events [] = []
      zones_events ((zone, entries) ∷ m) = zone_events zone entries ++ zones_events m
