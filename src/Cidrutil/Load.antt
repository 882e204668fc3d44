-- ===== src/Cidrutil/Load.antt =====
-- internal/cidrutil: `ParsePrefix`, `ReadPrefixes` and `FormatAddr4` of cidrutil.go, `ParseSet` of set.go. The parsers and
-- the printer of net/netip are arguments.
pub mod Sets
use dns_stack.Prelude.{
  ℕ, ◌+◌, ◌*◌, ◌/◌, ◌%◌, ◌^◌, Bool, true, false, Option, none, some, List, [], ◌∷◌, ◌++◌, ◌||◌,
  ◌==◌, if◌then◌else◌, length,
}
use dns_stack.Text.{Bytes, trim_space}
use dns_stack.Text.Match.{codes, has_prefix, contains}
use dns_stack.Netip.{Addr, v4, unmap, bit_len, Prefix, prefix_from, masked}
use dns_stack.Cidrutil.Membership.{Set, new_set}

unfoldable pub block_of : Option Prefix → Option Prefix
block_of none = none
block_of (some p) = some (masked p)

unfoldable pub single_of : Option Addr → Option Prefix
single_of none = none
single_of (some a) = some (prefix_from (unmap a) (bit_len (unmap a)))

-- The bytes of a uint32 value.
unfoldable pub format_addr4 : (Addr → Bytes) → ℕ → Bytes
format_addr4 print_addr value = print_addr (
    v4 (
      value / 2 ^ 24 % 256 * 2 ^ 24
      + (value / 2 ^ 16 % 256 * 2 ^ 16 + (value / 2 ^ 8 % 256 * 2 ^ 8 + value % 256))))

pub record ParsedSet : Type 0 where
  pub parsed : Set
  pub rejected : List Bytes

-- What `ReadPrefixes` returns; the error is a flag.
pub record PrefixLines : Type 0 where
  pub taken : List Prefix
  pub failed : Bool

module _ (parse_netip_prefix : Bytes → Option Prefix) (parse_addr : Bytes → Option Addr) where
  -- `ParsePrefix`
  unfoldable pub parse_prefix : Bytes → Option Prefix
  parse_prefix text =
      if contains text (codes "/")
      then block_of (parse_netip_prefix text)
      else single_of (parse_addr text)

  unfoldable pub parsed_values : List Bytes → List Prefix
  parsed_values [] = []
  parsed_values (raw ∷ values) =
      let rest = parsed_values values in elim (parse_prefix raw) [ none ↦ rest | some p ↦ p ∷ rest ]

  unfoldable pub rejected_values : List Bytes → List Bytes
  rejected_values [] = []
  rejected_values (raw ∷ values) =
      let rest = rejected_values values in
      elim (parse_prefix raw) [ none ↦ raw ∷ rest | some p ↦ rest ]

  unfoldable pub parse_set : List Bytes → ParsedSet
  parse_set values = record {
    parsed = new_set (parsed_values values);
    rejected = rejected_values values;
  }

  -- The loop of `ReadPrefixes`; a line that cannot be read is none.
  unfoldable pub prefix_rows : List Bytes → Option (List Prefix)
  prefix_rows [] = some []
  prefix_rows (text ∷ lines) =
      let rest = prefix_rows lines in
      let line = trim_space text in
      if length line == 0 || has_prefix line (codes "#") then rest else (elim (parse_prefix line) [
        | none ↦ none
        | some p ↦ elim rest [ none ↦ none | some ps ↦ some (p ∷ ps) ]
      ])

  -- `ReadPrefixes`, with whether the scanner failed.
  unfoldable pub read_prefixes : List Bytes → Bool → PrefixLines
  read_prefixes lines scan_failed = elim (prefix_rows lines) [
    | none ↦ record { taken = []; failed = true }
    | some ps ↦ record { taken = ps; failed = scan_failed }
  ]
