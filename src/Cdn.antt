-- ===== src/Cdn.antt =====
-- internal/cdn/cdn.go: which names a content delivery network answers by the place of the client.
-- `geoSteered` and `sharedDNSAS` are maps; of the first, the keys.
pub mod Table
use Prim.Native.String.{String}
use dns_stack.Prelude.{
  ℕ, ◌+◌, Bool, true, false, Option, none, some, List, [], ◌≡◌, ◌∷◌, ◌++◌, map, ltb, ◌==◌,
  if◌then◌else◌, length, any, ◌||◌, ◌∙◌, arith, inl, inr, Bool-cases, sym, ap, any-append, refl,
}
use dns_stack.Prelude.Sort.{sort_slice}
use dns_stack.Text.{Bytes}
use dns_stack.Text.Match.{add_key, has_key, same, same_iff, bytes_less}
use dns_stack.Text.Below.{walk_up, is_below_any, has_key-any, walk_up-is_below_any}
use native.Mathlib.Nat.{le_refl}
use dns_stack.Domain.Suffixes.{normalize}
use dns_stack.Cdn.Table.{Operator, operators}

unfoldable pub all_asns : Operator → List ℕ
all_asns o = o.asns ++ o.prefix_asns

abbrev pub dns_only_as : List (ℕ × String)
dns_only_as =
    (26496, "GoDaddy")
    ∷ (398101, "GoDaddy")
    ∷ (33517, "Dyn")
    ∷ (33070, "Dyn")
    ∷ (30060, "Verisign")
    ∷ []

-- The loop over the roots of one operator.
unfoldable add_roots : List Bytes → List Bytes → List Bytes
unfolding add_key
add_roots [] out = out
add_roots (r ∷ roots) out = add_roots roots (add_key r out)

unfoldable pub build_geo_steered : List Operator → List Bytes → List Bytes
unfolding add_roots
build_geo_steered [] out = out
build_geo_steered (op ∷ ops) out = build_geo_steered ops (add_roots op.roots out)

-- `table[asn] = name`
unfoldable set_asn : ℕ → String → List (ℕ × String) → List (ℕ × String)
set_asn asn name [] = (asn, name) ∷ []
set_asn asn name ((a, n) ∷ table) =
    let rest = set_asn asn name table in if asn == a then (a, name) ∷ table else (a, n) ∷ rest

-- The loop over the numbers of one operator.
unfoldable add_asns : String → List ℕ → List (ℕ × String) → List (ℕ × String)
unfolding set_asn
add_asns name [] table = table
add_asns name (asn ∷ asns) table = add_asns name asns (set_asn asn name table)

unfoldable pub build_shared_dns_as : List Operator → List (ℕ × String) → List (ℕ × String)
unfolding add_asns
build_shared_dns_as [] table = table
build_shared_dns_as (op ∷ ops) table = build_shared_dns_as ops (add_asns op.name op.asns table)

unfoldable pub geo_steered : List Bytes
geo_steered = build_geo_steered operators []

unfoldable pub is_geo_steered : Bytes → Bool
unfolding walk_up
is_geo_steered name = walk_up (length (normalize name)) geo_steered (normalize name)

-- One turn of the loop of `Operators`.
unfoldable sorted_operator : Operator → Operator
unfolding sort_slice bytes_less
sorted_operator op = record op {
  roots = sort_slice bytes_less op.roots;
  asns = sort_slice ltb op.asns;
  prefix_asns = sort_slice ltb op.prefix_asns;
}

unfoldable pub all_operators : List Operator
unfolding sorted_operator
all_operators =
    sort_slice (λ (a b : Operator). bytes_less a.id b.id) (map sorted_operator operators)

unfoldable asn_label : ℕ → List (ℕ × String) → Option String
asn_label asn [] = none
asn_label asn ((a, n) ∷ table) = let rest = asn_label asn table in if asn == a then some n else rest

unfoldable pub shared_dns_provider : ℕ → Option String
unfolding asn_label build_shared_dns_as
shared_dns_provider asn = asn_label asn (build_shared_dns_as operators dns_only_as)

is_below_any-has_key :
    (s r : Bytes) (keys : List Bytes)
    → has_key r keys ≡ true
    → (is_below_any (r ∷ []) s || is_below_any keys s) ≡ is_below_any keys s
unfolding has_key any
is_below_any-has_key s r [] h = cc
is_below_any-has_key s r (k ∷ keys) h = elim (Bool-cases (same r k)) [
  | inr e ↦ ground (arith, e, h, is_below_any-has_key s r keys (ground (arith, e, h)))
  | inl e ↦ let same_key : r ≡ k = (same_iff r k).0 e in rw same_key (ground arith)
]

is_below_any-add_key :
    (s r : Bytes) (keys : List Bytes)
    → is_below_any (add_key r keys) s ≡ (is_below_any (r ∷ []) s || is_below_any keys s)
unfolding add_key
is_below_any-add_key s r keys = elim (Bool-cases (has_key r keys)) [
  | inr e ↦ rw e (any-append _ keys (r ∷ []) ∙ ground arith)
  | inl e ↦ rw e (sym (is_below_any-has_key s r keys e))
]

is_below_any-add_roots :
    (s : Bytes) (roots out : List Bytes)
    → is_below_any (add_roots roots out) s ≡ (is_below_any roots s || is_below_any out s)
unfolding add_roots any
is_below_any-add_roots s [] out = refl
is_below_any-add_roots s (r ∷ roots) out =
    is_below_any-add_roots s roots (add_key r out) ∙ ground (arith, is_below_any-add_key s r out)

is_below_any-build_geo_steered :
    (s : Bytes) (ops : List Operator) (out : List Bytes)
    → is_below_any (build_geo_steered ops out) s
      ≡ (any (λ (op : Operator). is_below_any op.roots s) ops || is_below_any out s)
unfolding build_geo_steered any
is_below_any-build_geo_steered s [] out = refl
is_below_any-build_geo_steered s (op ∷ ops) out =
    is_below_any-build_geo_steered s ops (add_roots op.roots out)
    ∙ ground (arith, is_below_any-add_roots s op.roots out)

walk_up-build_geo_steered :
    (ops : List Operator) (s : Bytes)
    → walk_up (length s) (build_geo_steered ops []) s
      ≡ any (λ (op : Operator). is_below_any op.roots s) ops
walk_up-build_geo_steered ops s =
    walk_up-is_below_any (length s) (build_geo_steered ops []) s (le_refl (length s))
    ∙ is_below_any-build_geo_steered s ops []
    ∙ (unfold any in ground arith)

-- `IsGeoSteered` holds exactly if the normalized name is a root of an operator that is not empty, or ends with a dot
-- and such a root.
pub is_geo_steered-is_below_any :
    (name : Bytes)
    → is_geo_steered name
      ≡ any (λ (op : Operator). is_below_any op.roots (normalize name)) operators
unfolding is_geo_steered geo_steered
is_geo_steered-is_below_any name = walk_up-build_geo_steered operators (normalize name)
