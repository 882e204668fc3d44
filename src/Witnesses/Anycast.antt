-- ===== src/Witnesses/Anycast.antt =====
-- A dump with one address of Akamai that serves a manual zone.
use dns_stack.Prelude.{◌≡◌, refl, ℕ, true, false, Option, none, some, [], ◌∷◌, length, All}
use dns_stack.Text.{Bytes, trim_space, to_lower}
use dns_stack.Text.Match.{codes}
use dns_stack.Netip.{Addr, invalid, v4, v6, Prefix, prefix_from}
use dns_stack.Ipset.Global.{dotted, is_global_prefix, is_only, global_parts, global_loop}
use dns_stack.Prelude.Sort.{sort_slice}
use dns_stack.Text.Match.{has_prefix, bytes_less, split_on, add_key, has_key, same, has_suffix}
use dns_stack.Text.Fields.{fields}
use dns_stack.Text.Maps.{get_else, put}
use dns_stack.Statefile.{kept_lines, lines}
use dns_stack.Ipset.Sets.{new}
use dns_stack.Ipset.Prefix.{contains, prefix_range}
use dns_stack.Ipset.Addresses.{is_global_addr}
use dns_stack.Cdn.{shared_dns_provider}
use dns_stack.Anycast.{
  load_direct4, data_lines, load_cn_zones, direct_ranges, lower_keys, has_served_suffix,
  serves_cn_zone,
}
use dns_stack.Anycast.Run.{
  trim_last_dot, collect_zones, dump_infra, probe, probe_second, shared_by_any_source,
  outside_zones, finding_of, is_eligible, classify, count_key, count_keys, add_verdict, visit,
  address_keys, key_set, run_zones,
}
use dns_stack.Ipset.Collapse.{collapse}
use dns_stack.Infra.{Snapshot}
use dns_stack.Anycast.Run.{Files, run}
use dns_stack.Anycast.Reported.{IsReported, run-IsCausedBy}

abbrev files : Files
files = record {
  direct4 = some (codes "223.5.5.0/24");
  keep_list = none;
  cn_zones = none;
  manual_zones = some (codes "cn");
}

abbrev address : Addr
address = v4 (dotted 23 3 4 5)

abbrev dump : Snapshot
dump = record {
  entries =
      record { zone = codes "example.cn."; ip = address; rto = 0; has_rto = false }
      ∷ record { zone = codes "example.org."; ip = address; rto = 0; has_rto = false }
      ∷ [];
  skipped = 0;
}

abbrev addr_string : Addr → Bytes
addr_string invalid = []
addr_string (v4 a) = a ∷ []
addr_string (v6 a) = a ∷ []

abbrev parse_addr : Bytes → Option Addr
parse_addr [] = none
parse_addr (a ∷ s) = some (v4 a)

abbrev parse_prefix : Bytes → Option Prefix
parse_prefix s = some (prefix_from (v4 (dotted 223 5 5 0)) 24)

abbrev maxmind : Bytes → Option ℕ
maxmind s = some 20940

run-IsCausedBy_example :
    All
      (IsReported addr_string parse_addr parse_prefix maxmind none files (some dump))
      (run addr_string parse_addr parse_prefix maxmind none true files (some dump)).shared
run-IsCausedBy_example =
    run-IsCausedBy addr_string parse_addr parse_prefix maxmind none files true (some dump)

-- The address is reported.
shared_run :
    length (run addr_string parse_addr parse_prefix maxmind none true files (some dump)).shared ≡ 1
unfolding run run_zones load_direct4 data_lines lines load_cn_zones dump_infra trim_last_dot key_set
    address_keys visit classify add_verdict is_eligible is_global_addr contains serves_cn_zone
    has_served_suffix shared_by_any_source probe probe_second shared_dns_provider outside_zones
    finding_of count_key count_keys get_else put kept_lines split_on fields direct_ranges new
    lower_keys add_key has_key same has_suffix sort_slice collect_zones trim_space has_prefix
    prefix_from prefix_range to_lower is_global_prefix is_only global_parts global_loop collapse
    bytes_less
shared_run = refl
