-- ===== src/Dnswire/Ecs/Decode.antt =====
-- The option of a client subnet, decoded.
use dns_stack.Prelude.{
  ℕ, zero, suc, ◌+◌, ◌-◌, ◌*◌, ◌/◌, ◌%◌, ◌^◌, ◌≤◌, ◌<◌, ◌≡◌, refl, sym, ap, ◌∙◌, true, false,
  Option, some, [], ◌∷◌, ◌++◌, inl, inr, arith, ltb, leb, ◌==◌, u32_mod, length, take, drop,
  Bool-cases,
}
use mathlib.Core.Bool.{false≢true}
use native.Mathlib.Nat.{mul-le-mul_right}
use dns_stack.Prelude.Powers.{pow_add, pow_mono, pow_pos}
use dns_stack.Text.{Bytes}
use dns_stack.Netip.{
  Addr, invalid, v4, v6, is6, is_valid, unmap, bit_len, mapped_block, Prefix, masked, prefix_from,
  clear_low,
}
use dns_stack.Netip.Octets.{
  octets, zeros, as_slice, from_slice, length-octets, value_from-octets, take-octets,
}
use dns_stack.Dnswire.Reader.{byte_at, be16, put16}
use dns_stack.Dnswire.Ecs.{
  family_ipv4, family_ipv6, family_of, subnet_option, ClientSubnet, decode_sized,
  decode_client_subnet, returned, scan_options,
}

scan_options-stops :
    (fuel len : ℕ) (data_left : Bytes)
    → ltb (length data_left) 4 ≡ false
    → be16 data_left 2 ≡ len
    → ltb (length data_left) (4 + len) ≡ false
    → (be16 data_left 0 == 8) ≡ true
    → leb 4 len ≡ true
    → scan_options (suc fuel) data_left
      ≡ returned (decode_client_subnet (take len (drop 4 data_left)))
unfolding scan_options
scan_options-stops fuel len data_left h e f g k = rw (h, e, f, g, k)

pub option_body : ℕ → ℕ → Bytes → Bytes
option_body family bits address = family / 256 % 256 ∷ family % 256 ∷ bits % 256 ∷ 0 ∷ address

take-length : (xs : Bytes) → take (length xs) xs ≡ xs
take-length [] = refl
take-length (x ∷ xs) = ap (λ (r : Bytes). x ∷ r) (take-length xs)

-- The scan returns with the option that stands first.
pub scan_options-subnet_option :
    (family bits : ℕ) (address : Bytes)
    → length address ≤ 16
    → scan_options (length (subnet_option family bits address)) (subnet_option family bits address)
      ≡ returned (decode_client_subnet (option_body family bits address))
unfolding subnet_option put16 option_body
scan_options-subnet_option family bits address h =
    let body = option_body family bits address in
    scan_options-stops (length (drop 1 (subnet_option family bits address))) (length body)
      (subnet_option family bits address) (ground arith) (omega arith) (ground arith) refl
      (ground arith)
    ∙ ap (λ b. returned (decode_client_subnet b)) (take-length body)

-- A number with its low bits clear is restored from its significant bytes.
restored :
    (n bits a : ℕ)
    → bits ≤ 8 * n
    → take n (take ((bits + 7) / 8) (octets n (clear_low (8 * n - bits) a)) ++ zeros n)
      ≡ octets n (clear_low (8 * n - bits) a)
restored n bits a h =
    let s = (bits + 7) / 8 in
    let m = n - s in
    let d = 8 * n - bits - 8 * m in
    let u = a / 2 ^ (8 * n - bits) * 2 ^ d in
    let sum : m + s ≡ n = omega arith in
    let power : 2 ^ (8 * n - bits) ≡ 2 ^ d * 2 ^ (8 * m) =
      ap (λ (k : ℕ). 2 ^ k) (omega arith) ∙ pow_add d (8 * m) in
    let whole : clear_low (8 * n - bits) a ≡ u * 2 ^ (8 * m) =
      ap (λ (p : ℕ). a / 2 ^ (8 * n - bits) * p) power ∙ omega arith in
    rw whole (
      ap (λ (k : ℕ). take k (take s (octets k (u * 2 ^ (8 * m))) ++ zeros k)) (sym sum)
      ∙ take-octets s m u
      ∙ ap (λ (k : ℕ). octets k (u * 2 ^ (8 * m))) sum)

from_slice-octets_4 : (x : ℕ) → x < 2 ^ 32 → from_slice (octets 4 x) ≡ v4 x
unfolding from_slice
from_slice-octets_4 x h = rw (length-octets 4 x, value_from-octets 4 x h) refl

from_slice-octets_16 : (x : ℕ) → x < 2 ^ 128 → from_slice (octets 16 x) ≡ v6 x
unfolding from_slice
from_slice-octets_16 x h = rw (length-octets 16 x, value_from-octets 16 x h) refl

clear_low-le : (k a : ℕ) → clear_low k a ≤ a
clear_low-le k a = omega (arith, pow_pos k)

decode_sized-from_slice :
    (size bits : ℕ) (body : Bytes) (addr : Addr)
    → from_slice (take size (drop 4 body ++ zeros size)) ≡ addr
    → is_valid addr ≡ true
    → byte_at body 2 ≡ bits
    → ltb (bit_len addr) bits ≡ false
    → decode_sized size body
      ≡ some (record { prefix = prefix_from addr bits; scope = byte_at body 3 })
unfolding decode_sized
decode_sized-from_slice size bits body addr e v s f = rw (e, v, s, f) refl

prefix_from-fits :
    (addr : Addr) (bits : ℕ)
    → is_valid addr ≡ true
    → leb bits (bit_len addr) ≡ true
    → prefix_from addr bits ≡ record { addr = addr; bits_plus_one = suc bits }
unfolding prefix_from
prefix_from-fits addr bits e f = rw (e, f) refl

-- The option of a masked prefix, decoded; the prefix may have any family.
abbrev found : Addr → ℕ → Option ClientSubnet
found addr bits =
    some (record { prefix = record { addr = addr; bits_plus_one = suc bits }; scope = 0 })

decode_v4 :
    (bits a : ℕ)
    → bits ≤ 32
    → a < 2 ^ 32
    → decode_client_subnet
        (option_body family_ipv4 bits (take ((bits + 7) / 8) (octets 4 (clear_low (32 - bits) a))))
      ≡ found (v4 (clear_low (32 - bits) a)) bits
unfolding decode_client_subnet option_body bit_len is_valid
decode_v4 bits a h w =
    let fits : clear_low (32 - bits) a < 2 ^ 32 = omega (arith, clear_low-le (32 - bits) a) in
    decode_sized-from_slice 4 bits _ (v4 (clear_low (32 - bits) a))
      (ap from_slice (restored 4 bits a h) ∙ from_slice-octets_4 _ fits) refl (omega arith)
      (ground arith)
    ∙ ap (λ p. some (record { prefix = p; scope = 0 }))
        (prefix_from-fits _ bits refl (ground arith))

decode_v6 :
    (bits a : ℕ)
    → bits ≤ 128
    → a < 2 ^ 128
    → decode_client_subnet (
        option_body family_ipv6 bits (take ((bits + 7) / 8) (octets 16 (clear_low (128 - bits) a))))
      ≡ found (v6 (clear_low (128 - bits) a)) bits
unfolding decode_client_subnet option_body bit_len is_valid
decode_v6 bits a h w =
    let fits : clear_low (128 - bits) a < 2 ^ 128 = omega (arith, clear_low-le (128 - bits) a) in
    decode_sized-from_slice 16 bits _ (v6 (clear_low (128 - bits) a))
      (ap from_slice (restored 16 bits a h) ∙ from_slice-octets_16 _ fits) refl (omega arith)
      (ground arith)
    ∙ ap (λ p. some (record { prefix = p; scope = 0 }))
        (prefix_from-fits _ bits refl (ground arith))

-- A masked prefix of mapped addresses has at least 81 bits.
mapped_bits : (bits a : ℕ) → bits ≤ 32 → clear_low (128 - bits) a / u32_mod ≡ mapped_block → ⊥
mapped_bits bits a h e = elim (Bool-cases (a / 2 ^ (128 - bits) == 0)) [
  | inl z ↦ ground (arith, e)
  | inr z ↦
      let one : 1 ≤ a / 2 ^ (128 - bits) = ground (arith, z) in
      omega
        (arith, e, pow_mono 96 (128 - bits) (omega arith), mul-le-mul_right (2 ^ (128 - bits)) one)
]

-- The addresses of a netip.Addr.
abbrev pub IsAddr : Addr → Type 0
IsAddr invalid = Unit
IsAddr (v4 a) = a < 2 ^ 32
IsAddr (v6 a) = a < 2 ^ 128

-- The subnet that the option of a masked prefix is decoded to.
abbrev pub decoding : Prefix → Addr → Option ClientSubnet
decoding m addr = decode_client_subnet (
    option_body (family_of addr) (m.bits_plus_one - 1)
      (take ((m.bits_plus_one - 1 + 7) / 8) (as_slice addr)))

decoding_v6 :
    (bits a : ℕ)
    → a < 2 ^ 128
    → let m = masked (record { addr = v6 a; bits_plus_one = suc bits }) in
      ltb (bit_len (unmap m.addr)) (m.bits_plus_one - 1) ≡ false
      → decoding m (unmap m.addr) ≡ some (record { prefix = m; scope = 0 })
unfolding masked unmap as_slice is6
decoding_v6 bits a w f =
    let z : suc bits - 1 ≡ bits = omega arith in
    elim (Bool-cases (clear_low (128 - bits) a / u32_mod == mapped_block)) [
      | inl g ↦
          let short : ltb 32 bits ≡ false = unfold bit_len in (rw (g, z) at f) in
          absurd (mapped_bits bits a (ground arith) (ground arith))
      | inr g ↦
          let short : ltb 128 bits ≡ false = unfold bit_len in (rw (g, z) at f) in
          rw (z, g) (decode_v6 bits a (ground arith) w)
    ]

pub decoding-masked :
    (a : Addr) (bits_plus_one : ℕ)
    → IsAddr a
    → let m = masked (record { addr = a; bits_plus_one = bits_plus_one }) in
      (m.bits_plus_one == 0) ≡ false
      → ltb (bit_len (unmap m.addr)) (m.bits_plus_one - 1) ≡ false
      → decoding m (unmap m.addr) ≡ some (record { prefix = m; scope = 0 })
unfolding masked unmap as_slice is6 bit_len
decoding-masked a zero w e f = absurd (false≢true (sym e))
decoding-masked invalid (suc bits) w e f = absurd (false≢true (sym e))
decoding-masked (v4 a) (suc bits) w e f =
    let z : suc bits - 1 ≡ bits = omega arith in rw z (decode_v4 bits a (ground (arith, z)) w)
decoding-masked (v6 a) (suc bits) w e f = decoding_v6 bits a w f
