-- ===== src/Ipset/Addresses.antt =====
-- internal/ipset/ipset.go: `IsGlobalAddr`.
use dns_stack.Prelude.{
  ℕ, ◌*◌, ◌/◌, ◌^◌, Bool, false, Option, some, List, [], ◌∷◌, ◌||◌, not, ◌==◌, if◌then◌else◌, any,
}
use dns_stack.Netip.{
  Addr, invalid, v4, v6, Prefix, unmap, prefix_from, prefix_contains, is_loopback6, is_unspecified6,
  is_multicast6, is_link_local_unicast6, is_link_local_multicast6, is_interface_local_multicast6,
  is_private6,
}
use dns_stack.Ipset.Global.{is_global_prefix}

-- The prefix of an IPv6 address of which all but the first 64 bits are 0.
abbrev high6 : ℕ → ℕ → Prefix
high6 a bits = prefix_from (v6 (a * 2 ^ 64)) bits

abbrev pub non_global_prefixes6 : List Prefix
non_global_prefixes6 =
    high6 0x20010db800000000 32
    ∷ high6 0x2001000000000000 32
    ∷ high6 0x2001001000000000 28
    ∷ high6 0x2001002000000000 28
    ∷ high6 0x2001000200000000 48
    ∷ high6 0x3fff000000000000 20
    ∷ high6 0x2002000000000000 16
    ∷ []

unfoldable pub is_global6 : ℕ → Bool
is_global6 a =
    if is_loopback6 a
      || is_unspecified6 a
      || is_multicast6 a
      || is_link_local_unicast6 a
      || is_link_local_multicast6 a
      || is_interface_local_multicast6 a
      || is_private6 a
    then false
    else if not (a / 2 ^ 120 / 32 == 1)
    then false
    else not (any (λ (p : Prefix). prefix_contains p (v6 a)) non_global_prefixes6)

-- After `Unmap`
unfoldable pub is_global_unmapped : Addr → Option Bool
unfolding is_global6
is_global_unmapped invalid = some false
is_global_unmapped (v4 a) = is_global_prefix (prefix_from (v4 a) 32)
is_global_unmapped (v6 a) = some (is_global6 a)

unfoldable pub is_global_addr : Addr → Option Bool
unfolding is_global_unmapped unmap
is_global_addr a = is_global_unmapped (unmap a)
