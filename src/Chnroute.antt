-- ===== src/Chnroute.antt =====
-- internal/chnroute/chnroute.go: the address ranges of China, from the records of APNIC and a database of countries.
-- The parsers of addresses and numbers are arguments; a scanner gives the lines. Printing and logging are left out.
pub mod Plan
pub mod Loaded
pub mod Planned
pub mod Covered
pub mod Excluded
pub mod Routed
use dns_stack.Prelude.{
  ℕ, ◌+◌, ◌-◌, ◌%◌, Bool, true, false, Option, none, some, List, [], ◌∷◌, ◌++◌, ◌&&◌, ◌||◌, not,
  ltb, leb, ◌==◌, if◌then◌else◌, length, max_u32, u32_mod,
}
use dns_stack.Text.{Bytes, trim_space}
use dns_stack.Text.Match.{codes, same, contains, split_on}
use dns_stack.Text.Maps.{get_else}
use dns_stack.Netip.{Addr, invalid, v4, v6, Prefix, masked}
use dns_stack.Spans.{Range}
use dns_stack.Ipset.Sets.{Set, new}
use dns_stack.Ipset.Prefix.{prefix_range}
use dns_stack.Ipset.Prefix as Ipset
use dns_stack.Ruleset.Setup.{holds}
use dns_stack.Ecszone.Names.{Record}

abbrev pub offshore_probes : List Bytes
offshore_probes =
    codes "23.56.25.51" ∷ codes "1.36.0.1" ∷ codes "119.31.191.80" ∷ codes "203.198.0.1" ∷ []

abbrev pub mainland_probes : List Bytes
mainland_probes =
    codes "223.6.6.6"
    ∷ codes "119.29.29.29"
    ∷ codes "1.2.4.8"
    ∷ codes "180.76.76.76"
    ∷ codes "223.5.5.5"
    ∷ codes "101.6.6.6"
    ∷ []

pub record ForeignSpan : Type 0 where
  pub lo : ℕ
  pub hi : ℕ
  pub code : Bytes
  pub name : Bytes

-- `count` is positive and a uint32, as ParseUint with 32 bits gives it; the sums are on uint64 and on uint32.
unfoldable pub apnic_range : ℕ → ℕ → List Range
apnic_range lo count =
    if count == 0
    then []
    else if ltb max_u32 (lo + count - 1)
    then []
    else record { lo = lo; hi = (lo + count + (u32_mod - 1)) % u32_mod } ∷ []

module _ (parse_addr : Bytes → Option Addr) (parse_uint : Bytes → Option ℕ) where
  unfoldable pub counted : ℕ → Option ℕ → List Range
  unfolding apnic_range
  counted lo none = []
  counted lo (some count) = apnic_range lo count

  unfoldable pub started : Option Addr → Bytes → List Range
  unfolding counted
  started (some (v4 lo)) count = counted lo (parse_uint count)
  started _ count = []

  -- The range of one line, from its parts.
  unfoldable pub apnic_line : List Bytes → List Range
  unfolding started
  apnic_line (registry ∷ country ∷ kind ∷ start ∷ count ∷ date ∷ status ∷ more) =
      if not (same country (codes "CN")) || not (same kind (codes "ipv4"))
      then []
      else if not (same status (codes "allocated")) && not (same status (codes "assigned"))
      then []
      else started (parse_addr start) count
  apnic_line _ = []

  unfoldable pub parse_apnic : List Bytes → List Range
  unfolding split_on trim_space
  parse_apnic [] = []
  parse_apnic (text ∷ lines) = apnic_line (split_on b'|' (trim_space text)) ++ parse_apnic lines

module _ (relevant : ℕ → ℕ → Bool) where
  foreign_name : Bytes → Bytes
  foreign_name name = if length name == 0 then codes "?" else name

  -- One step of the walk, for the span of the entry's prefix.
  unfoldable pub visit_entry :
      Record → Option (Range × Bool) → List Range × List ForeignSpan → List Range × List ForeignSpan
  unfolding foreign_name
  visit_entry fields (some (span, true)) (cn, foreign) =
      let code = get_else (codes "country_code") [] fields in
      if same code (codes "CN")
      then (cn ++ span ∷ [], foreign)
      else if length code == 0 || not (relevant span.lo span.hi)
      then (cn, foreign)
      else (
        cn,
        foreign
            ++ record {
              lo = span.lo;
              hi = span.hi;
              code = code;
              name = foreign_name (get_else (codes "country_name") [] fields);
            }
              ∷ [],
      )
  visit_entry fields _ out = out

  -- The walk over the entries of the database.
  unfoldable pub load_cnip :
      List (Prefix × Record) → List Range × List ForeignSpan → List Range × List ForeignSpan
  unfolding masked
  load_cnip [] out = out
  load_cnip ((prefix, fields) ∷ entries) out =
      load_cnip entries (visit_entry fields (prefix_range (masked prefix)) out)

module _ (parse_addr : Bytes → Option Addr) where
  -- `Contains` of the set; a probe that cannot be parsed is in no set.
  unfoldable pub contains_addr : Set → Bytes → Bool
  contains_addr set probe = elim (parse_addr probe) [
    | none ↦ false
    | some addr ↦ holds (Ipset.contains (some set) addr)
  ]

  -- The first of the probes that the set holds.
  unfoldable pub leaked : Set → List Bytes → Option Bytes
  unfolding contains_addr
  leaked set [] = none
  leaked set (probe ∷ probes) =
      let rest = leaked set probes in if contains_addr set probe then some probe else rest

  unfoldable pub guard_offshore_leak : List Range → Option Bytes
  unfolding leaked
  guard_offshore_leak cn = leaked (new cn) offshore_probes

unfoldable pub count_matches : List Bytes → ℕ
unfolding contains
count_matches [] = 0
count_matches (text ∷ lines) =
    let rest = count_matches lines in if contains text (codes "|CN|ipv4|") then rest + 1 else rest

-- `VerifyDelegated`: whether the file is accepted; the last argument is whether the scanner failed.
unfoldable pub verify_delegated : List Bytes → ℕ → Bool → Bool
unfolding count_matches
verify_delegated lines min_entries failed =
    if failed then false else not (ltb (count_matches lines) min_entries)
