-- ===== src/Cidrutil/Load/Sets.antt =====
-- internal/cidrutil/set.go: `Contains` of the set that `ParseSet` makes, against the texts.
use dns_stack.Prelude.{
  ℕ, zero, suc, ◌-◌, ◌/◌, ◌^◌, ◌≡◌, refl, sym, ap, ◌∙◌, Bool, false, Option, none, some, List, [],
  ◌∷◌, ◌&&◌, arith, ◌==◌, if◌then◌else◌, All, any, inl, inr, Bool-cases,
}
use dns_stack.Prelude.Powers.{pow_pos}
use native.Mathlib.Nat.{mul-div_cancel}
use dns_stack.Text.{Bytes}
use dns_stack.Text.Match.{codes, contains as has_text}
use dns_stack.Netip.{
  Addr, invalid, v4, v6, unmap, is_valid, bit_len, Prefix, prefix_from, masked, clear_low,
}
use dns_stack.Cidrutil.Membership.{contains}
use dns_stack.Cidrutil.Contains.{holds, agrees, HasAddr, IsProper, contains-new_set}
use dns_stack.Cidrutil.Load.{block_of, single_of, parse_prefix, parsed_values, parse_set}

-- The same address.
abbrev pub is_addr : Addr → Addr → Bool
is_addr (v4 a) (v4 x) = x == a
is_addr (v6 a) (v6 x) = x == a
is_addr _ _ = false

abbrev pub in_block : Option Prefix → Addr → Bool
in_block none x = false
in_block (some p) x = holds x p

abbrev pub is_single : Option Addr → Addr → Bool
is_single none x = false
is_single (some a) x = is_addr (unmap a) x

clear_low-block : (k a : ℕ) → clear_low k a / 2 ^ k ≡ a / 2 ^ k
clear_low-block k a = mul-div_cancel (a / 2 ^ k) (pow_pos k)

masked_block :
    (bits : ℕ) (a x : Addr)
    → HasAddr bits a
    → holds x (masked (record { addr = a; bits_plus_one = bits })) ≡ agrees bits a x
unfolding masked
masked_block zero a x h = refl
masked_block (suc bits) invalid x h = absurd h
masked_block (suc bits) (v4 a) (v4 x) h =
    ap (λ b. x / 2 ^ (32 - bits) == b) (clear_low-block (32 - bits) a)
masked_block (suc bits) (v4 a) invalid h = refl
masked_block (suc bits) (v4 a) (v6 x) h = refl
masked_block (suc bits) (v6 a) (v6 x) h =
    ap (λ b. x / 2 ^ (128 - bits) == b) (clear_low-block (128 - bits) a)
masked_block (suc bits) (v6 a) invalid h = refl
masked_block (suc bits) (v6 a) (v4 x) h = refl

masked-HasAddr :
    (bits : ℕ) (a : Addr)
    → HasAddr bits a
    → IsProper (masked (record { addr = a; bits_plus_one = bits }))
unfolding masked
masked-HasAddr zero a h = tt
masked-HasAddr (suc bits) invalid h = absurd h
masked-HasAddr (suc bits) (v4 a) h = tt
masked-HasAddr (suc bits) (v6 a) h = tt

whole_block : (a x : Addr) → holds x (prefix_from a (bit_len a)) ≡ is_addr a x
unfolding prefix_from bit_len is_valid
whole_block invalid x = refl
whole_block (v4 a) (v4 x) = ground arith
whole_block (v4 a) invalid = refl
whole_block (v4 a) (v6 x) = refl
whole_block (v6 a) (v6 x) = ground arith
whole_block (v6 a) invalid = refl
whole_block (v6 a) (v4 x) = refl

whole-HasAddr : (a : Addr) → IsProper (prefix_from a (bit_len a))
unfolding prefix_from bit_len is_valid
whole-HasAddr invalid = tt
whole-HasAddr (v4 a) = tt
whole-HasAddr (v6 a) = tt

-- A valid prefix that is parsed has an address.
abbrev pub ParsesProper : (Bytes → Option Prefix) → Type 0
ParsesProper parse = (s : Bytes) (p : Prefix) → parse s ≡ some p → IsProper p

module _ (parse_netip_prefix : Bytes → Option Prefix) (parse_addr : Bytes → Option Addr) where
  -- The text stands for the address: as a prefix that holds it, or as an address that is it once unmapped.
  abbrev pub stands_for : Addr → Bytes → Bool
  stands_for x raw =
      if has_text raw (codes "/")
      then in_block (parse_netip_prefix raw) x
      else is_single (parse_addr raw) x

  -- What a parsed text holds, and that it is proper.
  abbrev Reads : Option Prefix → (Addr → Bool) → Type 0
  Reads none test = (x : Addr) → test x ≡ false
  Reads (some p) test = IsProper p × ((x : Addr) → test x ≡ holds x p)

  block-Reads :
      (o : Option Prefix)
      → ((p : Prefix) → o ≡ some p → IsProper p)
      → Reads (block_of o) (in_block o)
  unfolding block_of
  block-Reads none h = λ x. refl
  block-Reads (some p) h = (
    masked-HasAddr p.bits_plus_one p.addr (h p refl),
    λ x. sym (masked_block p.bits_plus_one p.addr x (h p refl)),
  )

  single-Reads : (o : Option Addr) → Reads (single_of o) (is_single o)
  unfolding single_of
  single-Reads none = λ x. refl
  single-Reads (some a) = (whole-HasAddr (unmap a), λ x. sym (whole_block (unmap a) x))

  parse_prefix-Reads :
      (raw : Bytes)
      → ParsesProper parse_netip_prefix
      → Reads (parse_prefix parse_netip_prefix parse_addr raw) (λ x. stands_for x raw)
  unfolding parse_prefix
  parse_prefix-Reads raw h = elim (Bool-cases (has_text raw (codes "/"))) [
    | inl e ↦ rw e (block-Reads (parse_netip_prefix raw) (h raw))
    | inr e ↦ rw e (single-Reads (parse_addr raw))
  ]

  -- The loop of `ParseSet`.
  abbrev IsParsed : List Prefix → List Bytes → Type 0
  IsParsed ps values = All IsProper ps × ((x : Addr) → any (holds x) ps ≡ any (stands_for x) values)

  add_value :
      (o : Option Prefix) (raw : Bytes) (ps : List Prefix) (values : List Bytes)
      → Reads o (λ x. stands_for x raw)
      → IsParsed ps values
      → IsParsed (elim o [ none ↦ ps | some p ↦ p ∷ ps ]) (raw ∷ values)
  unfolding any
  add_value none raw ps values r (h, e) = (h, λ x. ground (arith, r x, e x))
  add_value (some p) raw ps values (q, r) (h, e) = ((q, h), λ x. ground (arith, r x, e x))

  parsed_values-IsParsed :
      (values : List Bytes)
      → ParsesProper parse_netip_prefix
      → IsParsed (parsed_values parse_netip_prefix parse_addr values) values
  unfolding parsed_values any
  parsed_values-IsParsed [] h = (tt, λ x. refl)
  parsed_values-IsParsed (raw ∷ values) h =
      add_value (parse_prefix parse_netip_prefix parse_addr raw) raw
        (parsed_values parse_netip_prefix parse_addr values) values (parse_prefix-Reads raw h)
        (parsed_values-IsParsed values h)

  -- `Contains` of the set that `ParseSet` makes of texts holds exactly if the address is valid and, unmapped, lies in a
  -- prefix among them or is an address among them, unmapped; the parser of prefixes gives an address to a valid prefix.
  pub contains-parse_set :
      (values : List Bytes) (x : Addr)
      → ParsesProper parse_netip_prefix
      → contains (some (parse_set parse_netip_prefix parse_addr values).parsed) x
        ≡ (is_valid x && any (stands_for (unmap x)) values)
  unfolding parse_set
  contains-parse_set values x h =
      let (proper, same_addresses) = parsed_values-IsParsed values h in
      contains-new_set (parsed_values parse_netip_prefix parse_addr values) x proper
      ∙ ap (λ b. is_valid x && b) (same_addresses (unmap x))
