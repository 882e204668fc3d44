-- ===== src/Domain/Suffixes.antt =====
-- internal/domain/psl.go: the public suffix list, and `Normalize` of domain.go. A set of names is the
-- list of its keys, each once.
use dns_stack.Prelude.{
  ℕ, ◌+◌, Bool, true, false, Option, none, some, List, [], ◌∷◌, ◌||◌, not, ◌==◌, if◌then◌else◌,
  length, drop,
}
use dns_stack.Text.{Bytes, to_lower, trim_space}
use dns_stack.Text.Match.{codes, has_key, add_key, has_prefix, contains, cut, split_on, trim_dots}

unfoldable pub normalize : Bytes → Bytes
unfolding to_lower trim_space trim_dots
normalize name = to_lower (trim_dots (trim_space name))

abbrev pub icann_begin : Bytes
icann_begin = codes "===BEGIN ICANN DOMAINS==="

abbrev pub icann_end : Bytes
icann_end = codes "===END ICANN DOMAINS==="

pub record Psl : Type 0 where
  pub rules : List Bytes
  pub wildcards : List Bytes
  pub exceptions : List Bytes
  pub from : Bytes

-- The `switch` on one line with a rule.
unfoldable pub add_rule : Bytes → Psl → Psl
unfolding add_key normalize
add_rule line p =
    if has_prefix line (codes "!")
    then record p { exceptions = add_key (normalize (drop 1 line)) p.exceptions }
    else if has_prefix line (codes "*.")
    then record p { wildcards = add_key (normalize (drop 2 line)) p.wildcards }
    else record p { rules = add_key (normalize line) p.rules }

-- `inside` after a comment line
unfoldable pub after_comment : Bool → Bytes → Bool
after_comment inside line =
    if contains line icann_begin then true else if contains line icann_end then false else inside

-- The loop over the lines, with `inside`.
unfoldable pub psl_lines : Bool → Psl → List Bytes → Psl
unfolding after_comment add_rule
psl_lines inside p [] = p
psl_lines inside p (raw ∷ lines) =
    let line = trim_space raw in
    let comment = psl_lines (after_comment inside line) p lines in
    let skipped = psl_lines inside p lines in
    let added = psl_lines inside (add_rule line p) lines in
    if has_prefix line (codes "//")
    then comment
    else if length line == 0 || not inside
    then skipped
    else added

unfoldable pub parse_psl : Bytes → Bytes → Psl
unfolding psl_lines
parse_psl text from =
    psl_lines (not (contains text icann_begin))
      (record { rules = []; wildcards = []; exceptions = []; from = from }) (split_on 10 text)

unfoldable pub psl_len : Option Psl → ℕ
psl_len none = 0
psl_len (some p) = length p.rules + length p.wildcards

-- What `IsPublicSuffix` finds after the first dot.
unfoldable pub is_wildcard : Psl → Option (Bytes × Bytes) → Bool
is_wildcard p none = false
is_wildcard p (some (label, parent)) =
    if length parent == 0 then false else has_key parent p.wildcards

unfoldable pub is_public_suffix : Option Psl → Bytes → Bool
unfolding normalize is_wildcard
is_public_suffix none raw = false
is_public_suffix (some p) raw =
    let name = normalize raw in
    if length name == 0
    then false
    else if has_key name p.exceptions
    then false
    else if has_key name p.rules
    then true
    else is_wildcard p (cut b'.' name)
