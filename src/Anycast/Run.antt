-- ===== src/Anycast/Run.antt =====
-- internal/anycast/anycast.go: `dumpInfra`, `sharedByAnySource` and `Run`.
use dns_stack.Prelude.{
  ℕ, ◌+◌, ◌-◌, Bool, false, Option, none, some, List, [], ◌∷◌, ◌++◌, ◌||◌, ◌&&◌, not, ◌==◌,
  if◌then◌else◌, length, take,
}
use dns_stack.Prelude.Sort.{sort_slice}
use dns_stack.Text.{Bytes, to_lower}
use dns_stack.Text.Match.{codes, bytes_less, has_key, add_key, has_suffix}
use dns_stack.Text.Maps.{get_else, put}
use dns_stack.Netip.{Addr, Prefix, is4}
use dns_stack.Ipset.Sets.{Set}
use dns_stack.Ipset.Prefix.{contains}
use dns_stack.Ipset.Addresses.{is_global_addr}
use dns_stack.Ruleset.Setup.{holds}
use dns_stack.Cdn.{shared_dns_provider}
use dns_stack.Infra.{Entry, Snapshot}
use dns_stack.Anycast.{
  Finding, Report, no_report, data_lines, load_direct4, load_cn_zones, serves_cn_zone,
}

-- `strings.TrimSuffix(s, ".")`
unfoldable pub trim_last_dot : Bytes → Bytes
unfolding has_suffix
trim_last_dot s = if has_suffix s (codes ".") then take (length s - 1) s else s

module _ (addr_string : Addr → Bytes) where
  -- The loop over the entries: the zones of each address, each once.
  unfoldable pub collect_zones : List Entry → List (Bytes × List Bytes) → List (Bytes × List Bytes)
  unfolding trim_last_dot is4
  collect_zones [] m = m
  collect_zones (e ∷ es) m =
      let zone = to_lower (trim_last_dot e.zone) in
      let key = addr_string e.ip in
      let skipped = collect_zones es m in
      let added = collect_zones es (put key (add_key zone (get_else key [] m)) m) in
      if not (is4 e.ip) then skipped else if length zone == 0 then skipped else added

  sorted_lists : List (Bytes × List Bytes) → List (Bytes × List Bytes)
  sorted_lists [] = []
  sorted_lists ((ip, set) ∷ m) = (ip, sort_slice bytes_less set) ∷ sorted_lists m

  -- The zones of each address, sorted; none where the dump failed.
  unfoldable pub dump_infra : Option Snapshot → Option (List (Bytes × List Bytes))
  unfolding collect_zones sorted_lists
  dump_infra none = none
  dump_infra (some snapshot) = some (sorted_lists (collect_zones snapshot.entries []))

-- What `sharedByAnySource` collects; the first number and label are none until one is found, as no label is empty.
pub record Probes : Type 0 where
  pub first : Option (ℕ × Bytes)
  pub matched : List Bytes

-- One turn of the loop: the name of a database, and the number that it has for the address.
unfoldable pub probe : Bytes → Option ℕ → Probes → Probes
probe name none s = s
probe name (some asn) s = elim (shared_dns_provider asn) [
  | none ↦ s
  | some label ↦ (elim s.first [
    | none ↦ record { first = some (asn, codes label); matched = s.matched ++ name ∷ [] }
    | some f ↦ record s { matched = s.matched ++ name ∷ [] }
  ])
]

-- What one turn of the loop over the addresses finds: nothing, a candidate, or a shared one.
pub data Verdict : Type 0 where
  passed candidate : Verdict
  found : Finding → Verdict

-- The tests on the address alone.
unfoldable pub is_eligible : Set → Option Addr → Bool
is_eligible direct none = false
is_eligible direct (some addr) =
    if not (is4 addr) || not (holds (is_global_addr addr))
    then false
    else not (holds (contains (some direct) addr))

-- `m[key]++`
unfoldable pub count_key : Bytes → List (Bytes × ℕ) → List (Bytes × ℕ)
unfolding put get_else
count_key key m = put key (get_else key 0 m + 1) m

unfoldable pub count_keys : List Bytes → List (Bytes × ℕ) → List (Bytes × ℕ)
unfolding count_key
count_keys [] m = m
count_keys (key ∷ keys) m = count_keys keys (count_key key m)

unfoldable pub add_verdict : Verdict → Report → Report
add_verdict passed r = r
add_verdict candidate r = record r { candidates = r.candidates + 1 }
add_verdict (found f) r = record r {
  candidates = r.candidates + 1;
  shared = r.shared ++ f ∷ [];
  by_org = count_key f.label r.by_org;
  by_source = count_keys f.sources r.by_source;
}

-- The zones that are not served in China.
unfoldable pub outside_zones : List Bytes → List Bytes → List Bytes → List Bytes
outside_zones [] exact suffixes = []
outside_zones (zone ∷ zones) exact suffixes =
    let rest = outside_zones zones exact suffixes in
    if length (serves_cn_zone (zone ∷ []) exact suffixes) == 0 then zone ∷ rest else rest

unfoldable pub finding_of : Bytes → Bytes → List Bytes → Probes → Finding
finding_of ip because outside s = record {
  ip = ip;
  asn = elim s.first [ none ↦ 0 | some f ↦ f.0 ];
  label = elim s.first [ none ↦ [] | some f ↦ f.1 ];
  because = because;
  outside = take 3 (sort_slice bytes_less outside);
  sources = s.matched;
}

-- The numbers of the first database; of the second, if there is one and it has a record of the address.
module _ (maxmind : Bytes → Option ℕ) (dbip : Option (Bytes → Option (Option ℕ))) where
  unfoldable pub probe_second : Option (Bytes → Option (Option ℕ)) → Bytes → Probes → Probes
  probe_second none ip s = s
  probe_second (some lookup) ip s = elim (lookup ip) [
    | none ↦ s
    | some asn ↦ probe (codes "dbip") asn s
  ]

  unfoldable pub shared_by_any_source : Bytes → Probes
  shared_by_any_source ip =
      let s =
        probe_second dbip ip
          (probe (codes "maxmind") (maxmind ip) (record { first = none; matched = [] })) in
      record s { matched = sort_slice bytes_less s.matched }

  module _ (parse_addr : Bytes → Option Addr) (direct : Set)
      (keep exact suffixes : List Bytes) where
    unfoldable pub classify : Bytes → List Bytes → Verdict
    classify ip zones =
        let because = serves_cn_zone zones exact suffixes in
        let s = shared_by_any_source ip in
        if not (is_eligible direct (parse_addr ip))
        then passed
        else if length because == 0
        then passed
        else if has_key ip keep
        then candidate
        else if length s.matched == 0
        then candidate
        else found (finding_of ip because (outside_zones zones exact suffixes) s)

    -- The loop over the sorted addresses.
    unfoldable pub visit : List (Bytes × List Bytes) → List Bytes → Report → Report
    visit ip_zones [] r = r
    visit ip_zones (ip ∷ ips) r =
        visit ip_zones ips (add_verdict (classify ip (get_else ip [] ip_zones)) r)

-- The files that `Run` reads; none where one cannot be read.
pub record Files : Type 0 where
  pub direct4 : Option Bytes
  pub keep_list : Option Bytes
  pub cn_zones : Option Bytes
  pub manual_zones : Option Bytes

unfoldable pub address_keys : List (Bytes × List Bytes) → List Bytes
address_keys [] = []
address_keys ((ip, zones) ∷ m) = ip ∷ address_keys m

unfoldable pub key_set : List Bytes → List Bytes → List Bytes
unfolding add_key
key_set keys [] = keys
key_set keys (k ∷ ks) = key_set (add_key k keys) ks

module _ (addr_string : Addr → Bytes) (parse_addr : Bytes → Option Addr)
    (parse_prefix : Bytes → Option Prefix) (maxmind : Bytes → Option ℕ)
    (dbip : Option (Bytes → Option (Option ℕ))) where
  -- After the checks on the database and the first files.
  unfoldable pub run_zones : Files → Set → List Bytes → Option (List (Bytes × List Bytes)) → Report
  run_zones files direct keep none = record no_report {
    kept = length keep;
    note = codes "infra-empty";
  }
  run_zones files direct keep (some ip_zones) =
      let (exact, suffixes) = load_cn_zones files.cn_zones files.manual_zones in
      let start = record no_report { kept = length keep; infra_ips = length ip_zones } in
      if length ip_zones == 0
      then record no_report { kept = length keep; note = codes "infra-empty" }
      else if length exact == 0 && length suffixes == 0
      then record start { note = codes "cn-zones-unavailable" }
      else visit maxmind dbip parse_addr direct keep exact suffixes ip_zones
          (sort_slice bytes_less (address_keys ip_zones)) start

  -- `Run` up to `finish`; the first argument is whether there is a database with numbers.
  unfoldable pub run : Bool → Files → Option Snapshot → Report
  run has_asn files dump =
      if not has_asn
      then record no_report { note = codes "geoip-unavailable" }
      else (elim (load_direct4 parse_prefix files.direct4) [
        | none ↦ record no_report { note = codes "direct4-unavailable" }
        | some direct ↦
            run_zones files direct (key_set [] (data_lines files.keep_list))
              (dump_infra addr_string dump)
      ])
