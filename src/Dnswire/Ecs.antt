-- ===== src/Dnswire/Ecs.antt =====
-- internal/dnswire/ecs.go: the EDNS client subnet, written by `BuildQueryWithSubnet` and read by
-- `ClientSubnet`.
pub mod Decode
pub mod RoundTrip
use dns_stack.Prelude.{
  ℕ, zero, suc, ◌+◌, ◌-◌, ◌/◌, ◌%◌, Bool, Option, none, some, List, [], ◌∷◌, ◌++◌, ◌&&◌, ◌||◌, not,
  ltb, leb, ◌==◌, if◌then◌else◌, length, take, drop,
}
use dns_stack.Text.{Bytes}
use dns_stack.Netip.{Addr, Prefix, is6, is_valid, unmap, bit_len, masked, prefix_from}
use dns_stack.Netip.Octets.{as_slice, from_slice, zeros}
use dns_stack.Dnswire.Reader.{bad_subnet, Result, err, byte_at, be16, put16}
use dns_stack.Dnswire.Name.{append_name}
use dns_stack.Dnswire.Message.{Rr, Msg, type_opt, query_header, query_tail, map_result}

abbrev pub opt_code_client_subnet : ℕ
opt_code_client_subnet = 8

abbrev pub family_ipv4 : ℕ
family_ipv4 = 1

abbrev pub family_ipv6 : ℕ
family_ipv6 = 2

abbrev pub family_of : Addr → ℕ
family_of addr = if is6 addr then family_ipv6 else family_ipv4

-- The option: code, length, family, source bits, scope 0, and the significant bytes.
unfoldable pub subnet_option : ℕ → ℕ → Bytes → Bytes
subnet_option family bits address =
    put16 (put16 (put16 [] opt_code_client_subnet) (4 + length address)) family
    ++ ((bits % 256 ∷ 0 ∷ []) ++ address)

-- The part after `subnet.Masked()`: the masked prefix, with `Bits` -1 as `bits_plus_one` 0, and its
-- unmapped address.
unfoldable pub with_masked : ℕ → Bytes → ℕ → Prefix → Addr → Result Bytes
with_masked id name qtype subnet addr =
    let bits = subnet.bits_plus_one - 1 in
    let significant = (bits + 7) / 8 in
    let raw = as_slice addr in
    if subnet.bits_plus_one == 0 || ltb (bit_len addr) bits
    then err bad_subnet
    else if ltb (length raw) significant
    then err bad_subnet
    else map_result
        (λ b. query_tail b qtype (subnet_option (family_of addr) bits (take significant raw)))
        (append_name (query_header id) name)

unfoldable pub build_query_with_subnet : ℕ → Bytes → ℕ → Prefix → Result Bytes
build_query_with_subnet id name qtype subnet =
    if subnet.bits_plus_one == 0
    then err bad_subnet
    else with_masked id name qtype (masked subnet) (unmap (masked subnet).addr)

pub record ClientSubnet : Type 0 where
  pub prefix : Prefix
  pub scope : ℕ

-- The part of `decodeClientSubnet` after the family has given the size of an address.
unfoldable pub decode_sized : ℕ → Bytes → Option ClientSubnet
decode_sized size body =
    let addr = from_slice (take size (drop 4 body ++ zeros size)) in
    let source_bits = byte_at body 2 in
    if not (is_valid addr) || ltb (bit_len addr) source_bits
    then none
    else some (record { prefix = prefix_from addr source_bits; scope = byte_at body 3 })

unfoldable pub decode_client_subnet : Bytes → Option ClientSubnet
decode_client_subnet body =
    if be16 body 0 == family_ipv6
    then decode_sized 16 body
    else if not (be16 body 0 == family_ipv4)
    then none
    else decode_sized 4 body

-- What the loop over the options of one record does: it returns from the method, or it ends.
pub data Scan : Type 0 where
  returned : Option ClientSubnet → Scan
  ended : Scan

-- The loop `for len(data) >= 4`, on fuel: every round takes at least four bytes.
unfoldable pub scan_options : ℕ → Bytes → Scan
scan_options zero data_left = ended
scan_options (suc fuel) data_left =
    let len = be16 data_left 2 in
    let rest = scan_options fuel (drop (4 + len) data_left) in
    if ltb (length data_left) 4
    then ended
    else if ltb (length data_left) (4 + len)
    then returned none
    else if be16 data_left 0 == opt_code_client_subnet && leb 4 len
    then returned (decode_client_subnet (take len (drop 4 data_left)))
    else rest

unfoldable pub subnet_in : List Rr → Option ClientSubnet
subnet_in [] = none
subnet_in (r ∷ rs) =
    let rest = subnet_in rs in
    if not (r.rtype == type_opt)
    then rest
    else elim (scan_options (length r.rdata) r.rdata) [ returned subnet ↦ subnet | ended ↦ rest ]

-- `Msg.ClientSubnet`
unfoldable pub client_subnet : Msg → Option ClientSubnet
client_subnet m = subnet_in m.additionals
