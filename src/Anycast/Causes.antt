-- ===== src/Anycast/Causes.antt =====
-- internal/anycast/anycast.go: why an address is reported as shared.
use dns_stack.Prelude.{
  ℕ, ◌≡◌, ◌⊎◌, inl, inr, refl, ap, ◌∙◌, Bool, true, false, Option, none, some, List, [], ◌∷◌, ◌||◌,
  ◌==◌, length, arith, All, All-append, Bool-cases,
}
use Prim.Native.String.{String}
use mathlib.Core.List.{Memᴰ}
use dns_stack.Prelude.Sort.{sort_slice}
use dns_stack.Text.{Bytes}
use dns_stack.Text.Match.{codes, has_key, bytes_less}
use dns_stack.Text.Maps.{get_else}
use dns_stack.Netip.{Addr, is4}
use dns_stack.Ipset.Sets.{Set}
use dns_stack.Ipset.Prefix.{contains}
use dns_stack.Ipset.Addresses.{is_global_addr}
use dns_stack.Ruleset.Setup.{holds}
use dns_stack.Cdn.{shared_dns_provider}
use dns_stack.Anycast.{Finding, Report, has_served_suffix, serves_cn_zone}
use dns_stack.Anycast.Run.{
  Verdict, passed, candidate, found, Probes, probe, probe_second, shared_by_any_source,
  outside_zones, finding_of, is_eligible, classify, add_verdict, visit,
}

-- The zone is served in China: it is matched, or a manual zone, or below one.
abbrev pub is_served : List Bytes → List Bytes → Bytes → Bool
is_served exact suffixes zone = has_key zone exact || has_served_suffix zone suffixes

-- A zone that `servesCNZone` returns is one of its argument, and is served.
serves_cn_zone-is_served :
    (exact suffixes zones : List Bytes)
    → (length (serves_cn_zone zones exact suffixes) == 0) ≡ false
    → Memᴰ (serves_cn_zone zones exact suffixes) zones
      × (is_served exact suffixes (serves_cn_zone zones exact suffixes) ≡ true)
unfolding serves_cn_zone
serves_cn_zone-is_served exact suffixes [] h = ground (arith, h)
serves_cn_zone-is_served exact suffixes (zone ∷ zones) h = elim (Bool-cases (has_key zone exact)) [
  | inl e ↦ rw e (Memᴰ.head refl, rw e refl)
  | inr e ↦ elim (Bool-cases (has_served_suffix zone suffixes)) [
    | inl f ↦ rw (e, f) (Memᴰ.head refl, rw (e, f) refl)
    | inr f ↦
        let later : (length (serves_cn_zone zones exact suffixes) == 0) ≡ false =
          ground (arith, e, f, h) in
        let rest = serves_cn_zone-is_served exact suffixes zones later in
        rw (e, f) (Memᴰ.tail rest.0, rest.1)
  ]
]

-- A global IPv4 address outside the direct ranges.
abbrev pub IsEligible : Set → Option Addr → Type 0
IsEligible direct o =
    (addr : Addr) × (o ≡ some addr)
    × (is4 addr ≡ true)
    × (holds (is_global_addr addr) ≡ true)
    × (holds (contains (some direct) addr) ≡ false)

is_eligible-IsEligible :
    (direct : Set) (o : Option Addr) → is_eligible direct o ≡ true → IsEligible direct o
unfolding is_eligible
is_eligible-IsEligible direct none h = ground (arith, h)
is_eligible-IsEligible direct (some addr) h =
    (addr, refl, ground (arith, h), ground (arith, h), ground (arith, h))

-- Nothing was found yet, or the first number is one of a shared provider, with its label.
IsProbed : Probes → Type 0
IsProbed s =
    ((s.first ≡ none) × (s.matched ≡ []))
    ⊎ ((asn : ℕ) × (label : String) × (s.first ≡ some (asn, codes label))
        × (shared_dns_provider asn ≡ some label))

probe-IsProbed :
    (name : Bytes) (asn : Option ℕ) (s : Probes) → IsProbed s → IsProbed (probe name asn s)
unfolding IsProbed probe
probe-IsProbed name none s h = h
probe-IsProbed name (some asn) s h = go (shared_dns_provider asn) refl s.first refl
  where
    go :
        (o : Option String)
        → shared_dns_provider asn ≡ o
        → (f : Option (ℕ × Bytes)) → s.first ≡ f
        → IsProbed (probe name (some asn) s)
    go none q f r = rw (q, probe) h
    go (some label) q none r = rw (q, r, probe) (inr (asn, label, refl, q))
    go (some label) q (some f) r = elim h [
      | inl k ↦ ground (arith, k.0, r)
      | inr (n, l, k, known) ↦ rw (q, r, probe) (inr (n, l, k, known))
    ]

probe_second-IsProbed :
    (maxmind : Bytes → Option ℕ) (dbip second : Option (Bytes → Option (Option ℕ))) (ip : Bytes)
    (s : Probes)
    → IsProbed s
    → IsProbed (probe_second maxmind dbip second ip s)
unfolding probe_second
probe_second-IsProbed maxmind dbip none ip s h = h
probe_second-IsProbed maxmind dbip (some lookup) ip s h =
    elim (lookup ip)
      as (λ (o : Option (Option ℕ)).
        IsProbed (elim o [ none ↦ s | some asn ↦ probe (codes "dbip") asn s ])) [
          | none ↦ h
          | some asn ↦ probe-IsProbed (codes "dbip") asn s h
        ]

sorted-IsProbed :
    (s : Probes) → IsProbed s → IsProbed (record s { matched = sort_slice bytes_less s.matched })
unfolding IsProbed
sorted-IsProbed s (inl h) = inl (h.0, ap (sort_slice bytes_less) h.1 ∙ unfold sort_slice in refl)
sorted-IsProbed s (inr h) = inr h

-- What was found names a shared provider.
known-provider :
    (s : Probes)
    → IsProbed s
    → (length s.matched == 0) ≡ false
    → (asn : ℕ) × (label : String) × (s.first ≡ some (asn, codes label))
      × (shared_dns_provider asn ≡ some label)
unfolding IsProbed
known-provider s (inl h) k = ground (arith, h.1, k)
known-provider s (inr h) k = h

shared_by_any_source-IsProbed :
    (maxmind : Bytes → Option ℕ) (dbip : Option (Bytes → Option (Option ℕ))) (ip : Bytes)
    → IsProbed (shared_by_any_source maxmind dbip ip)
unfolding shared_by_any_source
shared_by_any_source-IsProbed maxmind dbip ip =
    let start : IsProbed (record { first = none; matched = [] }) =
      unfold IsProbed in inl (refl, refl) in
    sorted-IsProbed _ (
      probe_second-IsProbed maxmind dbip dbip ip _ (
        probe-IsProbed (codes "maxmind") (maxmind ip) (record { first = none; matched = [] })
          start))

module _ (maxmind : Bytes → Option ℕ) (dbip : Option (Bytes → Option (Option ℕ)))
    (parse_addr : Bytes → Option Addr) (direct : Set) (keep exact suffixes : List Bytes)
    (ip_zones : List (Bytes × List Bytes)) where
  -- The address is a global IPv4 one outside the direct ranges and the list of those to keep. The zone named as the
  -- reason is one of the address, and is served in China. The number is one of a shared provider, with its label, and a
  -- database is named that has such a number.
  pub record IsCaused (f : Finding) : Type 0 where
    pub eligible : IsEligible direct (parse_addr f.ip)
    pub not_kept : has_key f.ip keep ≡ false
    pub because_of : Memᴰ f.because (get_else f.ip [] ip_zones)
    pub served : is_served exact suffixes f.because ≡ true
    pub provider :
        (label : String) × (f.label ≡ codes label) × (shared_dns_provider f.asn ≡ some label)
    pub has_source : (length f.sources == 0) ≡ false

  finding_of-IsCaused :
      (ip : Bytes)
      → is_eligible direct (parse_addr ip) ≡ true
      → (length (serves_cn_zone (get_else ip [] ip_zones) exact suffixes) == 0) ≡ false
      → has_key ip keep ≡ false
      → (length (shared_by_any_source maxmind dbip ip).matched == 0) ≡ false
      → IsCaused (
          finding_of ip
            (serves_cn_zone (get_else ip [] ip_zones) exact suffixes)
            (outside_zones (get_else ip [] ip_zones) exact suffixes)
            (shared_by_any_source maxmind dbip ip))
  unfolding finding_of
  finding_of-IsCaused ip e f g h =
      let served = serves_cn_zone-is_served exact suffixes (get_else ip [] ip_zones) f in
      let (asn, label, first, known) =
        known-provider _ (shared_by_any_source-IsProbed maxmind dbip ip) h in
      record {
        eligible = is_eligible-IsEligible direct (parse_addr ip) e;
        not_kept = g;
        because_of = served.0;
        served = served.1;
        provider = (label, rw first refl, rw first known);
        has_source = h;
      }

  IsVerdict : Bytes → Verdict → Type 0
  IsVerdict ip passed = Unit
  IsVerdict ip candidate = Unit
  IsVerdict ip (found f) = IsCaused f

  classify-IsVerdict :
      (ip : Bytes)
      → IsVerdict ip
          (classify maxmind dbip parse_addr direct keep exact suffixes ip (get_else ip [] ip_zones))
  unfolding classify IsVerdict
  classify-IsVerdict ip =
      let zones = get_else ip [] ip_zones in
      let because = serves_cn_zone zones exact suffixes in
      let s = shared_by_any_source maxmind dbip ip in
      elim (Bool-cases (is_eligible direct (parse_addr ip))) [
        | inr e ↦ rw e tt
        | inl e ↦ rw e (elim (Bool-cases (length because == 0)) [
          | inl f ↦ rw f tt
          | inr f ↦ rw f (elim (Bool-cases (has_key ip keep)) [
            | inl g ↦ rw g tt
            | inr g ↦ rw g (elim (Bool-cases (length s.matched == 0)) [
              | inl h ↦ rw h tt
              | inr h ↦ rw h (finding_of-IsCaused ip e f g h)
            ])
          ])
        ])
      ]

  pub visit-IsCaused :
      (ips : List Bytes) (r : Report)
      → All IsCaused r.shared
      → All IsCaused
          (visit maxmind dbip parse_addr direct keep exact suffixes ip_zones ips r).shared
  unfolding visit
  visit-IsCaused [] r h = h
  visit-IsCaused (ip ∷ ips) r h = visit-IsCaused ips _ (
      add (classify maxmind dbip parse_addr direct keep exact suffixes ip (get_else ip [] ip_zones))
        (classify-IsVerdict ip))
    where
      add : (v : Verdict) → IsVerdict ip v → All IsCaused (add_verdict v r).shared
      add passed k = unfold add_verdict in h
      add candidate k = unfold add_verdict in h
      add (found f) k =
          unfold add_verdict IsVerdict in All-append IsCaused r.shared (f ∷ []) h (k, tt)
