-- ===== src/Ruleset/Causes.antt =====
-- internal/ruleset/ruleset.go: why a prefix is routed.
use dns_stack.Prelude.{
  ℕ, ◌≡◌, ◌⊎◌, inl, inr, refl, sym, ap, ◌∙◌, Bool, true, false, Option, none, some, List, [], ◌∷◌,
  ◌++◌, ◌&&◌, ◌||◌, not, arith, any, All, All-append, All-mono, Bool-cases,
}
use mathlib.Core.List.{Memᴰ, append_assoc}
use dns_stack.Text.{Bytes}
use dns_stack.Text.Maps.{get_else}
use dns_stack.Netip.{Addr, Prefix, is4, prefix_from, masked}
use dns_stack.Domain.{Defect, zone_defect}
use dns_stack.Cdn.{is_geo_steered}
use dns_stack.Infra.{Entry}
use dns_stack.Ruleset.Setup.{
  Config, routable, is_global_host, is_disputed, is_promoted, mainland_evidence, mainland_cdn,
  is_forced, is_shared,
}
use dns_stack.Ruleset.Events.{
  Event, is_partial, steer, settled_events, entry_events, matched_events, steered_events, is_dead,
  live_events, zone_events, zones_events,
}
use dns_stack.Ruleset.Outcome.{as_list, collect, routed}

collect-append :
    (es fs : List Event) → collect routed (es ++ fs) ≡ collect routed es ++ collect routed fs
unfolding collect
collect-append [] fs = refl
collect-append (e ∷ es) fs =
    ap (λ l. as_list (routed e) ++ l) (collect-append es fs)
    ∙ sym (append_assoc (as_list (routed e)) (collect routed es) (collect routed fs))

-- The prefix is the address alone, or the block of the address, if the configured length is from 1 to 31.
abbrev pub IsPrefixOf : ℕ → Addr → Prefix → Type 0
IsPrefixOf agg ip p =
    (routable ip ≡ true)
    × ((p ≡ prefix_from ip 32) ⊎ ((is_partial agg ≡ true) × (p ≡ masked (prefix_from ip agg))))

module _ (addr_string : Addr → Bytes) where
  steer-routed :
      (fr : Bool) (zone : Bytes) (ip : Addr) → collect routed (steer addr_string fr zone ip) ≡ []
  unfolding steer collect
  steer-routed fr zone ip = elim (Bool-cases (not (is4 ip) || not (is_global_host ip))) [
    | inl e ↦ rw e refl
    | inr e ↦ rw e (elim (Bool-cases fr) [ inl f ↦ rw f refl | inr f ↦ rw f refl ])
  ]

  module _ (cfg : Config) (agg : ℕ) where
    steered_events-routed :
        (fr : Bool) (zone : Bytes) (es : List Entry)
        → collect routed (steered_events addr_string cfg agg fr zone es) ≡ []
    unfolding steered_events
    steered_events-routed fr zone [] = unfold collect in refl
    steered_events-routed fr zone (e ∷ es) =
        rw
          (
            collect-append (steer addr_string fr zone e.ip)
                (steered_events addr_string cfg agg fr zone es),
            steer-routed fr zone e.ip,
            steered_events-routed fr zone es,
          )
          refl

    settled_events-routed :
        (steered fr : Bool) (zone : Bytes) (ip : Addr)
        → routable ip ≡ true
        → All
            (IsPrefixOf agg ip)
            (collect routed (settled_events addr_string cfg agg steered fr zone ip))
    unfolding settled_events collect
    settled_events-routed steered fr zone ip r =
        elim (Bool-cases (is_partial agg && mainland_evidence cfg ip)) [
          | inl e ↦ rw e ((r, inr (ground (arith, e), refl)), tt)
          | inr e ↦ rw e (elim (Bool-cases (steered && not (mainland_evidence cfg ip))) [
            | inl f ↦ rw (f, steer-routed fr zone ip) tt
            | inr f ↦ rw f (elim (Bool-cases (is_shared cfg ip)) [
              | inl g ↦ rw g tt
              | inr g ↦ rw g ((r, inl refl), tt)
            ])
          ])
        ]

    entry_events-routed :
        (steered fr : Bool) (zone : Bytes) (ip : Addr)
        → All
            (IsPrefixOf agg ip)
            (collect routed (entry_events addr_string cfg agg steered fr zone ip))
    unfolding entry_events
    entry_events-routed steered fr zone ip = elim (Bool-cases (is4 ip)) [
      | inr e ↦ rw e (unfold collect in tt)
      | inl e ↦ rw e (elim (Bool-cases (is_global_host ip)) [
        | inr f ↦ rw f (unfold collect in tt)
        | inl f ↦
            let r : routable ip ≡ true = unfold routable in rw (e, f) refl in
            rw f (elim (Bool-cases (is_disputed cfg ip)) [
              | inl g ↦ rw g (
                  unfold collect in
                  (elim (Bool-cases (is_partial agg)) [
                    | inl h ↦ rw h ((r, inr (refl, refl)), tt)
                    | inr h ↦ rw h ((r, inl refl), tt)
                  ]))
              | inr g ↦ rw g (elim (Bool-cases (is_promoted cfg ip)) [
                | inl h ↦ rw h (unfold collect in settled_events-routed steered fr zone ip r)
                | inr h ↦ rw h (settled_events-routed steered fr zone ip r)
              ])
            ])
      ])
    ]

    -- The prefix comes from an entry of the list.
    abbrev pub IsPrefixOfOne : List Entry → Prefix → Type 0
    IsPrefixOfOne es p = (e : Entry) × Memᴰ e es × IsPrefixOf agg e.ip p

    matched_events-routed :
        (steered fr : Bool) (zone : Bytes) (es : List Entry)
        → All
            (IsPrefixOfOne es)
            (collect routed (matched_events addr_string cfg agg steered fr zone es))
    unfolding matched_events
    matched_events-routed steered fr zone [] = unfold collect in tt
    matched_events-routed steered fr zone (e ∷ es) =
        let here = entry_events addr_string cfg agg steered fr zone e.ip in
        let rest = matched_events addr_string cfg agg steered fr zone es in
        rw (collect-append here rest) (
          All-append (IsPrefixOfOne (e ∷ es)) (collect routed here) (collect routed rest)
            (All-mono (IsPrefixOf agg e.ip) (IsPrefixOfOne (e ∷ es)) (collect routed here)
              (λ p h. (e, Memᴰ.head refl, h)) (entry_events-routed steered fr zone e.ip))
            (All-mono (IsPrefixOfOne es) (IsPrefixOfOne (e ∷ es)) (collect routed rest)
              (λ p h. (h.0, Memᴰ.tail h.1, h.2)) (matched_events-routed steered fr zone es)))

    module _ (parse_addr : Bytes → Option Addr) (rto_seen : Bool)
        (rtos : List (Bytes × List (Bytes × Entry))) where
      -- The zone may be routed: it has no defect, it is forced or has an address with evidence for the mainland, and it
      -- is not dead unless forced.
      pub record MayRoute (zone : Bytes) (es : List Entry) : Type 0 where
        pub sound : zone_defect parse_addr zone cfg.psl ≡ none
        pub wanted :
            (is_forced cfg zone || any (λ (e : Entry). mainland_evidence cfg e.ip) es) ≡ true
        pub alive :
            (not (is_forced cfg zone) && rto_seen && is_dead addr_string (get_else zone [] rtos) es)
            ≡ false

      live_events-routed :
          (zone : Bytes) (es : List Entry)
          → zone_defect parse_addr zone cfg.psl ≡ none
          → All
              (λ p. MayRoute zone es × IsPrefixOfOne es p)
              (collect routed (live_events addr_string cfg agg parse_addr rto_seen rtos zone es))
      unfolding live_events
      live_events-routed zone es d =
          let fr = not (is_geo_steered zone) && mainland_cdn cfg zone in
          let cn = any (λ (e : Entry). mainland_evidence cfg e.ip) es in
          let late =
            not (is_forced cfg zone)
            && rto_seen
            && is_dead addr_string (get_else zone [] rtos) es in
          elim (Bool-cases (not (is_forced cfg zone) && not cn)) [
            | inl e ↦ rw e (elim (Bool-cases (is_geo_steered zone || fr)) [
              | inl f ↦ rw (f, steered_events-routed fr zone es) tt
              | inr f ↦ rw f (unfold collect in tt)
            ])
            | inr e ↦ rw e (elim (Bool-cases late) [
              | inl f ↦ rw f (unfold collect in tt)
              | inr f ↦ rw f (
                  unfold collect in
                  (All-mono (IsPrefixOfOne es) (λ p. MayRoute zone es × IsPrefixOfOne es p) _
                    (λ p h. (record { sound = d; wanted = ground (arith, e); alive = f }, h))
                    (matched_events-routed (is_geo_steered zone || fr) fr zone es)))
            ])
          ]

      zone_events-routed :
          (zone : Bytes) (es : List Entry)
          → All
              (λ p. MayRoute zone es × IsPrefixOfOne es p)
              (collect routed (zone_events addr_string cfg agg parse_addr rto_seen rtos zone es))
      unfolding zone_events
      zone_events-routed zone es = go (zone_defect parse_addr zone cfg.psl) refl
        where
          go :
              (o : Option Defect)
              → zone_defect parse_addr zone cfg.psl ≡ o
              → All
                  (λ p. MayRoute zone es × IsPrefixOfOne es p)
                  (collect routed
                    (zone_events addr_string cfg agg parse_addr rto_seen rtos zone es))
          go (some d) q = rw (q, zone_events) (unfold collect in tt)
          go none q = rw (q, zone_events) (live_events-routed zone es q)

      -- Every prefix that the loop over the zones routes is that of an entry of one of the zones: its global IPv4 address
      -- alone, or the block of it of the configured length. That zone has no defect, it is a manual zone or below one or
      -- an address of it is evidence for the mainland, and, unless it is manual, it is not dead.
      pub zones_events-routed :
          (m : List (Bytes × List Entry))
          → All
              (λ p. (z : Bytes × List Entry) × Memᴰ z m × MayRoute z.0 z.1 × IsPrefixOfOne z.1 p)
              (collect routed (zones_events addr_string cfg agg parse_addr rto_seen rtos m))
      unfolding zones_events
      zones_events-routed [] = unfold collect in tt
      zones_events-routed ((zone, es) ∷ m) =
          let here = zone_events addr_string cfg agg parse_addr rto_seen rtos zone es in
          let rest = zones_events addr_string cfg agg parse_addr rto_seen rtos m in
          rw (collect-append here rest) (
            All-append _ (collect routed here) (collect routed rest)
              (All-mono _ _ (collect routed here) (λ p h. ((zone, es), Memᴰ.head refl, h.0, h.1))
                (zone_events-routed zone es))
              (All-mono _ _ (collect routed rest) (λ p h. (h.0, Memᴰ.tail h.1, h.2, h.3))
                (zones_events-routed m)))
