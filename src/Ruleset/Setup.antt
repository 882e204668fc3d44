-- ===== src/Ruleset/Setup.antt =====
-- internal/ruleset/ruleset.go: `Config`, and its tests on an address or a zone. A test that would panic counts
-- as false; on an IPv4 address none does.
use dns_stack.Prelude.{
  Bool, true, false, Option, none, some, List, ◌&&◌, not, ◌==◌, if◌then◌else◌, length, any,
}
use dns_stack.Prelude.Ints.{ℤ}
use dns_stack.Text.{Bytes, to_lower}
use dns_stack.Text.Match.{trim_dots}
use dns_stack.Text.Below.{walk_up, is_or_below}
use dns_stack.Netip.{Addr, invalid, v4, v6, is4, prefix_from}
use dns_stack.Ipset.Sets.{Set}
use dns_stack.Ipset.Prefix.{contains}
use dns_stack.Ipset.Global.{is_global_prefix}
use dns_stack.Domain.Suffixes.{Psl}

pub record Config : Type 0 where
  pub direct : Option Set
  pub disputed : Option Set
  pub promoted : Option Set
  pub psl : Option Psl
  pub manual_zones : List Bytes
  pub shared_anycast : List Addr
  pub mainland : List Bytes
  pub aggregate : ℤ

abbrev pub holds : Option Bool → Bool
holds none = false
holds (some b) = b

unfoldable pub mainland_cdn : Config → Bytes → Bool
unfolding walk_up to_lower trim_dots
mainland_cdn cfg zone =
    let name = to_lower (trim_dots zone) in
    if length cfg.mainland == 0 then false else walk_up (length name) cfg.mainland name

-- `ipset.IsGlobalPrefix(netip.PrefixFrom(addr, 32))`
unfoldable pub is_global_host : Addr → Bool
unfolding is_global_prefix prefix_from
is_global_host addr = holds (is_global_prefix (prefix_from addr 32))

unfoldable pub routable : Addr → Bool
unfolding is4 is_global_host
routable addr = is4 addr && is_global_host addr

-- `set != nil && cfg.routable(addr) && set.Contains(addr)`
unfoldable pub is_in : Option Set → Addr → Bool
unfolding routable contains
is_in none addr = false
is_in (some s) addr = routable addr && holds (contains (some s) addr)

unfoldable pub is_disputed : Config → Addr → Bool
unfolding is_in
is_disputed cfg addr = is_in cfg.disputed addr

unfoldable pub is_promoted : Config → Addr → Bool
unfolding is_in
is_promoted cfg addr = is_in cfg.promoted addr

unfoldable pub mainland_evidence : Config → Addr → Bool
unfolding routable is_disputed is_promoted contains
mainland_evidence cfg addr =
    if not (routable addr)
    then false
    else if is_disputed cfg addr
    then false
    else if is_promoted cfg addr
    then true
    else holds (contains cfg.direct addr)

-- `forced`: the zone is a manual zone or lies below one.
unfoldable pub is_forced : Config → Bytes → Bool
is_forced cfg zone = any (is_or_below zone) cfg.manual_zones

-- `a == b` for addresses
unfoldable pub same_addr : Addr → Addr → Bool
same_addr invalid invalid = true
same_addr (v4 a) (v4 b) = a == b
same_addr (v6 a) (v6 b) = a == b
same_addr _ _ = false

unfoldable pub is_shared : Config → Addr → Bool
unfolding same_addr
is_shared cfg addr = any (same_addr addr) cfg.shared_anycast
