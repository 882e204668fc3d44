-- ===== src/Domain.antt =====
-- internal/domain/domain.go: `Normalize`, the form of a name, and `ZoneDefect`. The parser of
-- addresses of net/netip is an argument. The empty defect is none.
use dns_stack.Prelude.{
  ℕ, ◌+◌, ◌-◌, Bool, true, false, Option, none, some, List, [], ◌∷◌, ◌++◌, ◌&&◌, ◌||◌, not, leb,
  ltb, ◌==◌, if◌then◌else◌, length, get_or, any,
}
use dns_stack.Text.{Bytes, to_lower, trim_space, split_dots}
use dns_stack.Text.Match.{codes, same, has_suffix, has_key, contains, trim_dots, is_some}
use dns_stack.Text.Below.{is_or_below}
use dns_stack.Netip.{Addr}
pub mod Suffixes
use dns_stack.Domain.Suffixes.{Psl, normalize, is_public_suffix}

pub data Defect : Type 0 where
  empty malformed reserved public_suffix single_label : Defect

abbrev pub reserved_suffixes : List Bytes
reserved_suffixes =
    codes "in-addr.arpa"
    ∷ codes "ip6.arpa"
    ∷ codes "arpa"
    ∷ codes "local"
    ∷ codes "localhost"
    ∷ codes "localdomain"
    ∷ codes "invalid"
    ∷ codes "test"
    ∷ codes "example"
    ∷ codes "home.arpa"
    ∷ codes "onion"
    ∷ codes "lan"
    ∷ codes "internal"
    ∷ codes "corp"
    ∷ codes "home"
    ∷ codes "intranet"
    ∷ []

abbrev pub fallback_public_suffixes : List Bytes
fallback_public_suffixes =
    codes "com.cn"
    ∷ codes "net.cn"
    ∷ codes "org.cn"
    ∷ codes "gov.cn"
    ∷ codes "edu.cn"
    ∷ codes "ac.cn"
    ∷ codes "mil.cn"
    ∷ codes "com.hk"
    ∷ codes "net.hk"
    ∷ codes "org.hk"
    ∷ codes "edu.hk"
    ∷ codes "gov.hk"
    ∷ codes "com.tw"
    ∷ codes "net.tw"
    ∷ codes "org.tw"
    ∷ codes "edu.tw"
    ∷ codes "gov.tw"
    ∷ codes "co.uk"
    ∷ codes "org.uk"
    ∷ codes "ac.uk"
    ∷ codes "gov.uk"
    ∷ codes "co.jp"
    ∷ codes "ne.jp"
    ∷ codes "or.jp"
    ∷ codes "ac.jp"
    ∷ codes "go.jp"
    ∷ codes "com.au"
    ∷ codes "net.au"
    ∷ codes "org.au"
    ∷ codes "edu.au"
    ∷ codes "gov.au"
    ∷ codes "com.br"
    ∷ codes "com.sg"
    ∷ codes "com.my"
    ∷ codes "co.kr"
    ∷ codes "or.kr"
    ∷ []

unfoldable pub is_alnum : ℕ → Bool
is_alnum c = (leb b'a' c && leb c b'z') || (leb b'0' c && leb c b'9')

-- `body = body[1:]` after an underscore
unfoldable pub body_of : Bytes → Bytes
body_of [] = []
body_of (c ∷ s) = if c == b'_' then s else c ∷ s

-- The loop over the bytes of the body.
unfoldable pub is_body : Bytes → Bool
unfolding is_alnum
is_body [] = true
is_body (c ∷ s) = if not (is_alnum c) && not (c == b'-') then false else is_body s

unfoldable pub is_label_valid : Bytes → Bool
unfolding is_alnum body_of is_body
is_label_valid label =
    let body = body_of label in
    if length label == 0
    then false
    else if length body == 0
    then false
    else if not (is_alnum (get_or body 0 0)) || not (is_alnum (get_or body (length body - 1) 0))
    then false
    else is_body body

-- The loop over the labels.
unfoldable pub are_labels : List Bytes → Bool
unfolding is_label_valid
are_labels [] = true
are_labels (l ∷ ls) =
    if ltb (length l) 1 || ltb 63 (length l)
    then false
    else if not (is_label_valid l)
    then false
    else are_labels ls

module _ (parse_addr : Bytes → Option Addr) where
  unfoldable pub is_well_formed : Bytes → Bool
  unfolding are_labels
  is_well_formed name =
      if length name == 0 || ltb 253 (length name)
      then false
      else if is_some (parse_addr name)
      then false
      else are_labels (split_dots name)

  unfoldable pub is_reserved : Bytes → Bool
  is_reserved name = any (is_or_below name) reserved_suffixes

  unfoldable pub zone_defect : Bytes → Option Psl → Option Defect
  unfolding is_well_formed is_reserved
  zone_defect raw psl =
      let name = normalize raw in
      if length name == 0
      then some empty
      else if not (is_well_formed name)
      then some malformed
      else if is_reserved name
      then some reserved
      else if not (contains name (b'.' ∷ []))
      then some single_label
      else if (elim psl [
        | some p ↦ is_public_suffix (some p) name
        | none ↦ has_key name fallback_public_suffixes
      ])
      then some public_suffix
      else none
