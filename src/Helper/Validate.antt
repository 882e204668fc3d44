-- ===== src/Helper/Validate.antt =====
-- internal/helper/validate.go: names that the privileged helper accepts. The parser of addresses is an argument.
pub mod Subnet
use dns_stack.Prelude.{
  ℕ, ◌-◌, ◌+◌, ◌*◌, ◌/◌, Bool, true, false, Option, none, some, List, [], ◌∷◌, ◌&&◌, ◌||◌, not, ltb,
  leb, ◌==◌, if◌then◌else◌, length, get_or,
}
use dns_stack.Text.{Bytes, to_lower, trim_space, split_dots}
use dns_stack.Text.Match.{codes, same, cut, contains, trim_dots, is_some}
use dns_stack.Netip.{Addr, v4, Prefix, prefix_from, masked}
use dns_stack.Ipset.Addresses.{is_global_addr}
use dns_stack.Ruleset.Setup.{holds, same_addr}

pub data NameError : Type 0 where
  bad_domain ip_as_domain : NameError

-- A name, or the error.
pub data SafeName : Type 0 where
  safe : Bytes → SafeName
  unsafe : NameError → SafeName

unfoldable pub is_label_byte : ℕ → Bool
is_label_byte c =
    (leb b'a' c && leb c b'z')
    || (leb b'A' c && leb c b'Z')
    || (leb b'0' c && leb c b'9')
    || c == b'_'
    || c == b'-'

unfoldable pub are_label_bytes : Bytes → Bool
unfolding is_label_byte
are_label_bytes [] = true
are_label_bytes (c ∷ s) = let rest = are_label_bytes s in if is_label_byte c then rest else false

unfoldable pub valid_label : Bytes → Bool
unfolding are_label_bytes
valid_label label =
    if length label == 0 || ltb 63 (length label)
    then false
    else if get_or label 0 0 == b'-' || get_or label (length label - 1) 0 == b'-'
    then false
    else are_label_bytes label

unfoldable pub valid_labels : List Bytes → Bool
unfolding valid_label
valid_labels [] = true
valid_labels (l ∷ ls) = let rest = valid_labels ls in if not (valid_label l) then false else rest

module _ (parse_addr : Bytes → Option Addr) where
  unfoldable pub safe_domain : Bytes → SafeName
  unfolding valid_labels
  safe_domain raw =
      let value = trim_dots (to_lower (trim_space raw)) in
      if length value == 0 || ltb 253 (length value) || not (contains value (b'.' ∷ []))
      then unsafe bad_domain
      else if not (valid_labels (split_dots value))
      then unsafe bad_domain
      else if is_some (parse_addr value)
      then unsafe ip_as_domain
      else safe value

  -- The last byte of an IPv4 address set to 255.
  unfoldable pub broadcast_of : ℕ → ℕ
  broadcast_of a = a / 256 * 256 + 255

  unfoldable pub safe_subnet : Option Addr → Option Prefix
  safe_subnet (some (v4 a)) =
      if not (same_addr (masked (prefix_from (v4 a) 24)).addr (v4 a))
      then none
      else if not (holds (is_global_addr (v4 a)))
          || not (holds (is_global_addr (v4 (broadcast_of a))))
      then none
      else some (prefix_from (v4 a) 24)
  safe_subnet _ = none

  -- The text before the slash and after it.
  unfoldable pub split_subnet : Option (Bytes × Bytes) → Option Prefix
  split_subnet none = none
  split_subnet (some (host, mask)) =
      if not (same mask (codes "24")) then none else safe_subnet (parse_addr host)

  -- `SafeClientSubnet`; the printing of the prefix is left out.
  unfoldable pub safe_client_subnet : Bytes → Option Prefix
  safe_client_subnet raw = split_subnet (cut b'/' (trim_space raw))
