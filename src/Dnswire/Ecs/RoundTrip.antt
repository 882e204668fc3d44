-- ===== src/Dnswire/Ecs/RoundTrip.antt =====
-- The client subnet of a query that `BuildQueryWithSubnet` has written.
use dns_stack.Prelude.{
  ℕ, ◌+◌, ◌-◌, ◌/◌, ◌≤◌, ◌<◌, ◌≡◌, ap, ◌∙◌, false, Option, some, [], ◌∷◌, inl, inr, arith, ltb,
  ◌==◌, length, length-take_le, take, Bool-cases,
}
use dns_stack.Text.{Bytes}
use dns_stack.Netip.{Addr, invalid, v4, v6, unmap, bit_len, Prefix, masked}
use dns_stack.Netip.Octets.{as_slice}
use dns_stack.Dnswire.Reader.{bad_subnet, ok, err, put16}
use dns_stack.Dnswire.Name.{normalize_name, append_name}
use dns_stack.Dnswire.Message.{Msg, query_header, query_tail, unpack}
use dns_stack.Dnswire.Query.{opt_record}
use dns_stack.Dnswire.BuildQuery.{unpack-query_tail, map_result-ok}
use dns_stack.Dnswire.Ecs.{
  family_of, subnet_option, with_masked, build_query_with_subnet, ClientSubnet,
  decode_client_subnet, subnet_in, client_subnet,
}
use dns_stack.Dnswire.Ecs.Decode.{option_body, scan_options-subnet_option, IsAddr, decoding-masked}

abbrev option_for : Prefix → Addr → Bytes
option_for m addr =
    subnet_option (family_of addr) (m.bits_plus_one - 1)
      (take ((m.bits_plus_one - 1 + 7) / 8) (as_slice addr))

-- The additional records of a query with this subnet.
subnet_in-option :
    (m : Prefix) (addr : Addr) (at : ℕ) (c : Option ClientSubnet)
    → decode_client_subnet (
        option_body
          (family_of addr)
          (m.bits_plus_one - 1)
          (take ((m.bits_plus_one - 1 + 7) / 8) (as_slice addr)))
      ≡ c
    → m.bits_plus_one ≤ 129
    → subnet_in (opt_record (option_for m addr) at ∷ []) ≡ c
unfolding subnet_in
subnet_in-option m addr at c e h =
    rw
      (scan_options-subnet_option (family_of addr) (m.bits_plus_one - 1)
        (take ((m.bits_plus_one - 1 + 7) / 8) (as_slice addr))
        (omega (arith, length-take_le ((m.bits_plus_one - 1 + 7) / 8) (as_slice addr))))
      e

bit_len-le : (addr : Addr) → bit_len addr ≤ 128
unfolding bit_len
bit_len-le invalid = omega arith
bit_len-le (v4 a) = omega arith
bit_len-le (v6 a) = omega arith

length-option_for :
    (m : Prefix) (addr : Addr) → m.bits_plus_one ≤ 129 → length (option_for m addr) < 65536
unfolding subnet_option put16
length-option_for m addr h =
    omega (arith, length-take_le ((m.bits_plus_one - 1 + 7) / 8) (as_slice addr))

refused : (w : Bytes) → err bad_subnet ≡ ok w → ⊥
refused w h = cc

-- What a query with a subnet tells of the prefix.
with_masked-ok :
    (id : ℕ) (n : Bytes) (qtype : ℕ) (m : Prefix) (addr : Addr) {w : Bytes}
    → with_masked id n qtype m addr ≡ ok w
    → ((m.bits_plus_one == 0) ≡ false)
      × (ltb (bit_len addr) (m.bits_plus_one - 1) ≡ false)
      × (b : Bytes) × (append_name (query_header id) n ≡ ok b)
      × (w ≡ query_tail b qtype (option_for m addr))
unfolding with_masked
with_masked-ok id n qtype m addr {w} e = elim (Bool-cases (m.bits_plus_one == 0)) [
  | inl f ↦ absurd (refused _ (rw f at e))
  | inr f ↦ elim (Bool-cases (ltb (bit_len addr) (m.bits_plus_one - 1))) [
    | inl g ↦ absurd (refused _ (rw (f, g) at e))
    | inr g ↦ elim (Bool-cases (ltb (length (as_slice addr)) ((m.bits_plus_one - 1 + 7) / 8))) [
      | inl k ↦ absurd (refused _ (rw (f, g, k) at e))
      | inr k ↦
          let (b, written, same) =
            map_result-ok _ (append_name (query_header id) n) (rw (f, g, k) at e) in
          (f, g, b, written, same)
    ]
  ]
]

-- A query that `BuildQueryWithSubnet` returns for a uint16 id and type, a name of at most 254 bytes
-- once normalized, and a prefix with an address of its family's width: `Unpack` reads it, and
-- `ClientSubnet` of the message is the masked prefix, with scope 0.
pub client_subnet-build_query_with_subnet :
    (id : ℕ) (n : Bytes) (qtype : ℕ) (p : Prefix) {w : Bytes}
    → id < 65536
    → qtype < 65536
    → length (normalize_name n) ≤ 254
    → IsAddr p.addr
    → build_query_with_subnet id n qtype p ≡ ok w
    → (m : Msg) × (unpack w ≡ ok m)
      × (client_subnet m ≡ some (record { prefix = masked p; scope = 0 }))
unfolding build_query_with_subnet client_subnet
client_subnet-build_query_with_subnet id n qtype p {w} i q h a e =
    elim (Bool-cases (p.bits_plus_one == 0)) [
      | inl z ↦ absurd (refused _ (rw z at e))
      | inr z ↦
          let m = masked p in
          let addr = unmap m.addr in
          let (some_bits, few_bits, b, written, same) =
            with_masked-ok id n qtype m addr (rw z at e) in
          let small : m.bits_plus_one ≤ 129 = ground (arith, few_bits, bit_len-le addr) in
          let (at, read) =
            unpack-query_tail id n qtype (option_for m addr) i q (length-option_for m addr small) h
              written in
          (
            _,
            ap unpack same ∙ read,
            subnet_in-option m addr at _
                (decoding-masked p.addr p.bits_plus_one a some_bits few_bits) small,
          )
    ]
