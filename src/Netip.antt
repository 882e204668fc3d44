-- ===== src/Netip.antt =====
-- What the program uses of Go's standard package net/netip: addresses and prefixes as values.
pub mod Octets
use dns_stack.Prelude.{
  ℕ, zero, suc, ◌-◌, ◌*◌, ◌/◌, ◌%◌, ◌^◌, Bool, true, false, ◌&&◌, leb, ltb, ◌==◌, if◌then◌else◌,
  u32_mod,
}

-- `netip.Addr`: the zero value, an IPv4 address, an IPv6 address; each as a big-endian number.
-- IPv6 zones are left out: no code of the program reads one.
pub data Addr : Type 0 where
  invalid : Addr
  v4 : ℕ → Addr
  v6 : ℕ → Addr

unfoldable pub is4 : Addr → Bool
is4 (v4 a) = true
is4 _ = false

unfoldable pub is6 : Addr → Bool
is6 (v6 a) = true
is6 _ = false

unfoldable pub is_valid : Addr → Bool
is_valid invalid = false
is_valid _ = true

-- The addresses ::ffff:0:0/96 are IPv4 addresses mapped into IPv6.
abbrev pub mapped_block : ℕ
mapped_block = 0xffff

unfoldable pub unmap : Addr → Addr
unmap (v6 a) = if a / u32_mod == mapped_block then v4 (a - mapped_block * u32_mod) else v6 a
unmap a = a

unfoldable pub bit_len : Addr → ℕ
bit_len invalid = 0
bit_len (v4 a) = 32
bit_len (v6 a) = 128

-- `netip.Prefix` as Go keeps it: `bits_plus_one` is 0 in an invalid prefix.
pub record Prefix : Type 0 where
  pub addr : Addr
  pub bits_plus_one : ℕ

abbrev pub zero_prefix : Prefix
zero_prefix = record { addr = invalid; bits_plus_one = 0 }

-- `netip.PrefixFrom` for a count of bits that is not negative.
unfoldable pub prefix_from : Addr → ℕ → Prefix
unfolding bit_len is_valid
prefix_from a bits =
    if is_valid a && leb bits (bit_len a)
    then record { addr = a; bits_plus_one = suc bits }
    else record { addr = a; bits_plus_one = 0 }

-- The number with its low `k` bits cleared.
abbrev pub clear_low : ℕ → ℕ → ℕ
clear_low k a = a / 2 ^ k * 2 ^ k

-- `Prefix.Masked`
masked_addr : Addr → ℕ → Prefix
masked_addr a zero = zero_prefix
masked_addr invalid (suc bits) = zero_prefix
masked_addr (v4 a) (suc bits) = record {
  addr = v4 (clear_low (32 - bits) a);
  bits_plus_one = suc bits;
}
masked_addr (v6 a) (suc bits) = record {
  addr = v6 (clear_low (128 - bits) a);
  bits_plus_one = suc bits;
}

unfoldable pub masked : Prefix → Prefix
unfolding masked_addr
masked p = masked_addr p.addr p.bits_plus_one

-- `Addr.Compare` below 0: by length, then by number.
unfoldable pub addr_less : Addr → Addr → Bool
addr_less invalid invalid = false
addr_less invalid _ = true
addr_less (v4 a) (v4 b) = ltb a b
addr_less (v4 a) (v6 b) = true
addr_less (v6 a) (v6 b) = ltb a b
addr_less _ _ = false

-- The leading bits of two addresses of a family are the same.
unfoldable pub same_block : Addr → ℕ → Addr → Bool
same_block (v4 p) (suc bits) (v4 a) = a / 2 ^ (32 - bits) == p / 2 ^ (32 - bits)
same_block (v6 p) (suc bits) (v6 a) = a / 2 ^ (128 - bits) == p / 2 ^ (128 - bits)
same_block _ _ _ = false

-- `Prefix.Contains`
unfoldable pub prefix_contains : Prefix → Addr → Bool
unfolding same_block
prefix_contains p a = same_block p.addr p.bits_plus_one a

-- The classes of IPv6 addresses that net/netip knows, of an address of 128 bits.
unfoldable pub is_loopback6 : ℕ → Bool
is_loopback6 a = a == 1

unfoldable pub is_unspecified6 : ℕ → Bool
is_unspecified6 a = a == 0

unfoldable pub is_multicast6 : ℕ → Bool
is_multicast6 a = a / 2 ^ 120 == 255

unfoldable pub is_link_local_unicast6 : ℕ → Bool
is_link_local_unicast6 a = a / 2 ^ 118 == 1018

unfoldable pub is_link_local_multicast6 : ℕ → Bool
unfolding is_multicast6
is_link_local_multicast6 a = is_multicast6 a && a / 2 ^ 112 % 16 == 2

unfoldable pub is_interface_local_multicast6 : ℕ → Bool
unfolding is_multicast6
is_interface_local_multicast6 a = is_multicast6 a && a / 2 ^ 112 % 16 == 1

unfoldable pub is_private6 : ℕ → Bool
is_private6 a = a / 2 ^ 121 == 126
