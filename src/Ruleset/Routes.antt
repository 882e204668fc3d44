-- ===== src/Ruleset/Routes.antt =====
-- internal/ruleset/ruleset.go: why `Build` routes an address.
use dns_stack.Prelude.{
  ℕ, ◌≡◌, inl, inr, refl, sym, ap, ◌∙◌, true, Option, none, some, List, [], ◌∷◌, arith, ◌==◌,
  if◌then◌else◌, All, All-mono, Bool-cases,
}
use mathlib.Core.List.{Memᴰ}
use mathlib.Core.Path.{subst}
use dns_stack.Prelude.Ints.{outside, magnitude}
use dns_stack.Text.{Bytes}
use dns_stack.Netip.{Addr}
use dns_stack.Spans.{covered}
use dns_stack.Ipset.Sets.{len}
use dns_stack.Ipset.Prefix.Tiles.{ranges_of_prefixes}
use dns_stack.Domain.Suffixes.{Psl}
use dns_stack.Infra.{Entry, Snapshot, zones}
use dns_stack.Ruleset.Setup.{Config, routable}
use dns_stack.Ruleset.Events.{is_rto_seen, rtos_loop}
use dns_stack.Ruleset.Outcome.{Report, report, collect, routed, collapse}
use dns_stack.Ruleset.Build.{
  Built, BuildError, failed, built, needs_psl, bad_aggregate, empty_direct, v4_zones, build_events,
  build,
}
use dns_stack.Ruleset.Causes.{IsPrefixOfOne, MayRoute, zones_events-routed}
use dns_stack.Ruleset.Reach.{IsFit, IsReached, HasReach, prefix-HasReach, collapse-reach}

-- What holds of all items holds of one.
All-at : {A : Type 0} (P : A → Type 0) (xs : List A) (x : A) → All P xs → Memᴰ x xs → P x
All-at P [] x h m = elim m [ ]
All-at P (y ∷ ys) x h (Memᴰ.head e) = subst P (sym e) h.0
All-at P (y ∷ ys) x h (Memᴰ.tail m) = All-at P ys x h.1 m

-- The report of a build that succeeds.
report_or : Report → Built → Report
report_or r (failed e) = r
report_or r (built s) = s

not_built : {b : Built} {r : Report} {e : BuildError} → b ≡ built r → b ≡ failed e → ⊥
not_built h k = ground (arith, h, k)

needs_psl-built :
    (o : Option Psl) (rest : Built) (r : Report) → needs_psl o rest ≡ built r → rest ≡ built r
needs_psl-built none rest r e = cc
needs_psl-built (some p) rest r e = e

module _ (parse_addr : Bytes → Option Addr) (addr_string : Addr → Bytes)
    (order : List (Bytes × List Entry) → List (Bytes × List Entry)) where
  built-report :
      (s : Snapshot) (cfg : Config) (r : Report)
      → build parse_addr addr_string order s cfg ≡ built r
      → report cfg (is_rto_seen s.entries) (build_events parse_addr addr_string order s cfg) ≡ r
  unfolding report_or
  built-report s cfg r e =
      let rest : Built =
        if outside cfg.aggregate 32
        then failed bad_aggregate
        else built (
            report cfg (is_rto_seen s.entries) (build_events parse_addr addr_string order s cfg)) in
      elim (Bool-cases (len cfg.direct == 0)) [
        | inl f ↦
            let refused : build parse_addr addr_string order s cfg ≡ failed empty_direct =
              unfold build in rw f refl in
            absurd (not_built e refused)
        | inr f ↦
            let whole : build parse_addr addr_string order s cfg ≡ needs_psl cfg.psl rest =
              unfold build in rw f refl in
            let checked : rest ≡ built r = needs_psl-built cfg.psl rest r (sym whole ∙ e) in
            elim (Bool-cases (outside cfg.aggregate 32)) [
              | inl g ↦
                  let refused : rest ≡ failed bad_aggregate = rw g refl in
                  absurd (not_built checked refused)
              | inr g ↦
                  let done : rest
                      ≡ built (
                          report cfg (is_rto_seen s.entries)
                            (build_events parse_addr addr_string order s cfg)) =
                    rw g refl in
                  ap (report_or r) (sym done ∙ checked)
            ]
      ]

  -- An address that the report of `Build` routes is that of an entry of one of the zones that Build goes over, or in its
  -- block of the configured length, which is from 1 to 31; that entry has a global IPv4 address. The zone has no defect,
  -- it is a manual zone or below one or an address of it is evidence for the mainland, and, unless it is manual, it is not
  -- dead. The addresses of the entries have 32 bits.
  pub build-routed :
      (s : Snapshot) (cfg : Config) (r : Report) (x : ℕ)
      → build parse_addr addr_string order s cfg ≡ built r
      → All (λ z. All (λ (e : Entry). IsFit e.ip) z.1) (order (v4_zones (zones addr_string s)))
      → covered (ranges_of_prefixes r.route_prefixes) x ≡ true
      → (z : Bytes × List Entry) × Memᴰ z (order (v4_zones (zones addr_string s)))
        × MayRoute addr_string cfg
            (magnitude cfg.aggregate)
            parse_addr
            (is_rto_seen s.entries)
            (rtos_loop addr_string [] s.entries)
            z.0
            z.1
        × (e : Entry) × Memᴰ e z.1
        × (routable e.ip ≡ true)
        × IsReached (magnitude cfg.aggregate) e.ip x
  build-routed s cfg r x e w c =
      let zone_map = order (v4_zones (zones addr_string s)) in
      let agg = magnitude cfg.aggregate in
      let seen = is_rto_seen s.entries in
      let rtos = rtos_loop addr_string [] s.entries in
      let events = build_events parse_addr addr_string order s cfg in
      let Cause : ℕ → Type 0 = λ x.
        (z : Bytes × List Entry) × Memᴰ z zone_map
        × MayRoute addr_string cfg agg parse_addr seen rtos z.0 z.1
        × (e : Entry) × Memᴰ e z.1
        × (routable e.ip ≡ true)
        × IsReached agg e.ip x in
      let causes : All
          (λ p.
            (z : Bytes × List Entry) × Memᴰ z zone_map
            × MayRoute addr_string cfg agg parse_addr seen rtos z.0 z.1
            × IsPrefixOfOne addr_string cfg agg z.1 p)
          (collect routed events) =
        unfold build_events in
        zones_events-routed addr_string cfg agg parse_addr seen rtos zone_map in
      let reach : All (λ p. HasReach p Cause) (collect routed events) =
        All-mono _ _ (collect routed events)
          (λ p h.
            let fits = All-at _ zone_map h.0 w h.1 in
            let entry = h.3 in
            let fit = All-at _ h.0.1 entry.0 fits entry.1 in
            let one = prefix-HasReach agg entry.0.ip p fit entry.2 in
            record {
              range = one.range;
              is_range = one.is_range;
              valid = one.valid;
              word = one.word;
              reaches = λ y q. (h.0, h.1, h.2, entry.0, entry.1, entry.2.0, one.reaches y q);
            })
          causes in
      let routes : collapse (collect routed events) ≡ r.route_prefixes =
        unfold report in ap (λ (t : Report). t.route_prefixes) (built-report s cfg r e) in
      collapse-reach Cause (collect routed events) x reach
        (ap (λ ps. covered (ranges_of_prefixes ps) x) routes ∙ c)
