-- ===== src/Dnswire/Types.antt =====
-- internal/dnswire/message.go: `TypeName` and `TypeCode`. The printer and the parser of numbers are arguments.
pub mod Codes
use dns_stack.Prelude.{
  ℕ, ◌-◌, Bool, Option, none, some, List, [], ◌∷◌, ◌++◌, ◌&&◌, leb, ◌==◌, if◌then◌else◌, map,
}
use dns_stack.Text.{Bytes, trim_space}
use dns_stack.Text.Match.{codes, same, cut_prefix}

abbrev pub type_names : List (ℕ × Bytes)
type_names =
    (1, codes "A")
    ∷ (2, codes "NS")
    ∷ (5, codes "CNAME")
    ∷ (6, codes "SOA")
    ∷ (12, codes "PTR")
    ∷ (15, codes "MX")
    ∷ (16, codes "TXT")
    ∷ (28, codes "AAAA")
    ∷ (33, codes "SRV")
    ∷ (35, codes "NAPTR")
    ∷ (43, codes "DS")
    ∷ (46, codes "RRSIG")
    ∷ (47, codes "NSEC")
    ∷ (48, codes "DNSKEY")
    ∷ (50, codes "NSEC3")
    ∷ (52, codes "TLSA")
    ∷ (64, codes "SVCB")
    ∷ (65, codes "HTTPS")
    ∷ (99, codes "SPF")
    ∷ (255, codes "ANY")
    ∷ (257, codes "CAA")
    ∷ []

-- `typeNames[t]`
unfoldable pub name_in : List (ℕ × Bytes) → ℕ → Option Bytes
name_in [] t = none
name_in ((code, name) ∷ names) t =
    let rest = name_in names t in if code == t then some name else rest

-- The loop of `TypeCode`; no name stands twice.
unfoldable pub code_in : List (ℕ × Bytes) → Bytes → Option ℕ
code_in [] upper = none
code_in ((code, name) ∷ names) upper =
    let rest = code_in names upper in if same name upper then some code else rest

unfoldable pub upper : ℕ → ℕ
upper c = if leb b'a' c && leb c b'z' then c - 32 else c

unfoldable pub to_upper : Bytes → Bytes
to_upper s = map upper s

unfoldable pub type_name : (ℕ → Bytes) → ℕ → Bytes
type_name print_number t = elim (name_in type_names t) [
  | some name ↦ name
  | none ↦ codes "TYPE" ++ print_number t
]

-- `strconv.ParseUint(digits, 10, 16)` is none for an error.
unfoldable pub number_of : (Bytes → Option ℕ) → Bytes → Option ℕ → Option ℕ
number_of parse_number name (some code) = some code
number_of parse_number name none = elim (cut_prefix name (codes "TYPE")) [
  | some digits ↦ parse_number digits
  | none ↦ parse_number name
]

unfoldable pub type_code : (Bytes → Option ℕ) → Bytes → Option ℕ
type_code parse_number name =
    let known = to_upper (trim_space name) in
    number_of parse_number known (code_in type_names known)
