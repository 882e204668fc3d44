-- ===== src/Ipset/Load.antt =====
-- internal/ipset/ipset.go: `LoadReader`, over the lines that a scanner gives, and whether it failed. The parsers of
-- net/netip are arguments. A prefix that cannot be parsed is none.
use dns_stack.Prelude.{
  ℕ, ◌+◌, Bool, true, Option, none, some, List, [], ◌∷◌, ◌++◌, ◌||◌, not, ◌==◌, if◌then◌else◌,
  length, get_or,
}
use dns_stack.Text.{Bytes, trim_space}
use dns_stack.Text.Fields.{fields}
use dns_stack.Text.Match.{codes, contains, has_prefix}
use dns_stack.Netip.{Addr, v4, Prefix, is4, prefix_from, masked}
use dns_stack.Spans.{Range}
use dns_stack.Ipset.Sets.{Set, new}
use dns_stack.Ipset.Prefix.{prefix_range}
use dns_stack.Ipset.Global.{global_parts}

pub record LoadResult : Type 0 where
  pub set : Set
  pub total : ℕ
  pub skipped_lines : ℕ

-- The variables of the loop.
pub record Loading : Type 0 where
  pub loaded : List Range
  pub seen : ℕ
  pub passed : ℕ

-- The ranges of one line that is neither empty nor a comment; none where it is skipped.
unfoldable pub kept_parts : Bool → Range → Option (List Range)
kept_parts global_only r =
    if not global_only
    then some (r ∷ [])
    else if length (global_parts r) == 0
    then none
    else some (global_parts r)

unfoldable pub prefix_parts : Bool → Option Prefix → Option (List Range)
unfolding kept_parts
prefix_parts global_only none = none
prefix_parts global_only (some p) =
    if not (is4 p.addr)
    then none
    else (elim (prefix_range p) [ some (r, true) ↦ kept_parts global_only r | _ ↦ none ])

unfoldable pub add_parts : Option (List Range) → Loading → Loading
add_parts none s = record s { passed = s.passed + 1 }
add_parts (some parts) s = record s { loaded = s.loaded ++ parts; seen = s.seen + 1 }

module _ (parse_netip_prefix : Bytes → Option Prefix) (parse_addr : Bytes → Option Addr) where
  host_prefix : Option Addr → Option Prefix
  host_prefix (some (v4 a)) = some (prefix_from (v4 a) 32)
  host_prefix _ = none

  masked_prefix : Option Prefix → Option Prefix
  masked_prefix none = none
  masked_prefix (some p) = some (masked p)

  unfoldable pub parse_prefix : Bytes → Option Prefix
  unfolding host_prefix masked_prefix
  parse_prefix s =
      if contains s (codes "/")
      then masked_prefix (parse_netip_prefix s)
      else host_prefix (parse_addr s)

  unfoldable pub load_line : Bool → Bytes → Loading → Loading
  unfolding parse_prefix prefix_parts add_parts
  load_line global_only line s =
      if length line == 0 || has_prefix line (codes "#")
      then s
      else add_parts (prefix_parts global_only (parse_prefix (get_or (fields line) 0 []))) s

  unfoldable pub load_lines : Bool → List Bytes → Loading → Loading
  unfolding load_line
  load_lines global_only [] s = s
  load_lines global_only (text ∷ lines) s =
      load_lines global_only lines (load_line global_only (trim_space text) s)

  unfoldable pub load_reader : Bool → List Bytes → Bool → Option LoadResult
  unfolding load_lines new
  load_reader global_only lines failed =
      let s = load_lines global_only lines (record { loaded = []; seen = 0; passed = 0 }) in
      if failed
      then none
      else some (record { set = new s.loaded; total = s.seen; skipped_lines = s.passed })
