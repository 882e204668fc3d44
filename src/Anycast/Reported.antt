-- ===== src/Anycast/Reported.antt =====
-- internal/anycast/anycast.go: the whole of `Run`: what its report names.
use dns_stack.Prelude.{
  ℕ, ◌≡◌, inl, inr, refl, Bool, Option, none, some, List, [], ◌==◌, ◌&&◌, length, All, All-mono,
  Bool-cases, true, false,
}
use dns_stack.Text.{Bytes}
use dns_stack.Netip.{Addr, Prefix}
use dns_stack.Ipset.Sets.{Set}
use dns_stack.Infra.{Snapshot}
use dns_stack.Anycast.{Finding, data_lines, load_direct4, load_cn_zones}
use dns_stack.Anycast.Run.{Files, key_set, dump_infra, run_zones, run}
use dns_stack.Anycast.Causes.{IsCaused, visit-IsCaused}

module _ (addr_string : Addr → Bytes) (parse_addr : Bytes → Option Addr)
    (parse_prefix : Bytes → Option Prefix) (maxmind : Bytes → Option ℕ)
    (dbip : Option (Bytes → Option (Option ℕ))) (files : Files) where
  -- The finding, by the lists that the files give, direct ranges, and zones by address.
  abbrev pub IsCausedBy : Set → List (Bytes × List Bytes) → Finding → Type 0
  IsCausedBy direct ip_zones =
      IsCaused maxmind dbip parse_addr direct (key_set [] (data_lines files.keep_list))
        (load_cn_zones files.cn_zones files.manual_zones).0
        (load_cn_zones files.cn_zones files.manual_zones).1 ip_zones

  run_zones-IsCausedBy :
      (direct : Set) (ip_zones : List (Bytes × List Bytes))
      → All
          (IsCausedBy direct ip_zones)
          (run_zones addr_string parse_addr parse_prefix maxmind dbip files direct
            (key_set [] (data_lines files.keep_list))
            (some ip_zones)).shared
  unfolding run_zones
  run_zones-IsCausedBy direct ip_zones =
      let (exact, suffixes) = load_cn_zones files.cn_zones files.manual_zones in
      elim (Bool-cases (length ip_zones == 0)) [
        | inl e ↦ rw e tt
        | inr e ↦ rw e (elim (Bool-cases (length exact == 0 && length suffixes == 0)) [
          | inl f ↦ rw f tt
          | inr f ↦
              rw f (visit-IsCaused maxmind dbip parse_addr direct _ exact suffixes ip_zones _ _ tt)
        ])
      ]

  -- The finding is caused by the direct ranges that the file gives, and the zones that the dump gives.
  abbrev pub IsReported : Option Snapshot → Finding → Type 0
  IsReported dump f =
      (direct : Set) × (ip_zones : List (Bytes × List Bytes)) × (load_direct4 parse_prefix
          files.direct4
        ≡ some direct)
      × (dump_infra addr_string dump ≡ some ip_zones)
      × IsCausedBy direct ip_zones f

  -- Each address that `Run` reports as shared is a global IPv4 address outside the ranges of the file of direct ranges
  -- and not in the list of those to keep. The zone given as the reason is one that the dump has for the address, and is
  -- served in China. The number given is one of a shared provider, with its label, and a database is named.
  pub run-IsCausedBy :
      (has_asn : Bool) (dump : Option Snapshot)
      → All
          (IsReported dump)
          (run addr_string parse_addr parse_prefix maxmind dbip has_asn files dump).shared
  unfolding run
  run-IsCausedBy false dump = tt
  run-IsCausedBy true dump =
      go (load_direct4 parse_prefix files.direct4) refl (dump_infra addr_string dump) refl
    where
      go :
          (d : Option Set)
          → load_direct4 parse_prefix files.direct4 ≡ d
          → (z : Option (List (Bytes × List Bytes))) → dump_infra addr_string dump ≡ z
          → All
              (IsReported dump)
              (run addr_string parse_addr parse_prefix maxmind dbip true files dump).shared
      go none p z q = rw (p, run) tt
      go (some direct) p none q = rw (p, q, run) (unfold run_zones in tt)
      go (some direct) p (some ip_zones) q =
          rw (p, q, run)
            (All-mono (IsCausedBy direct ip_zones) _ _ (λ f h. (direct, ip_zones, p, q, h))
              (run_zones-IsCausedBy direct ip_zones))
