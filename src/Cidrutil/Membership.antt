-- ===== src/Cidrutil/Membership.antt =====
-- internal/cidrutil/set.go: `Set` and `Contains`. An address is a netip.Addr of either family.
use dns_stack.Prelude.{
  ℕ, ◌+◌, ◌-◌, ◌^◌, ◌≡◌, refl, Bool, true, false, Option, some, none, List, [], ◌∷◌, ◌&&◌, arith,
  ltb, leb, ◌==◌, if◌then◌else◌, length, any, any_empty,
}
use dns_stack.Prelude.Search.{search, search-first_index}
use dns_stack.Netip.{Addr, invalid, v4, v6, is6, is_valid, unmap, Prefix, masked}
use dns_stack.Spans.{Range, covered, within, IsNormal}
use dns_stack.Ipset.Sets.{range_at}
use dns_stack.Ipset.Lookup.{meets, ends-Upward, meets-first_index}
use dns_stack.Cidrutil.Merge.{Span, merge_spans}

-- `ToBig`
unfoldable pub to_big : Addr → ℕ
to_big invalid = 0
to_big (v4 a) = a
to_big (v6 a) = a

-- `spansOfPrefix`, for a valid prefix
unfoldable pub span_of_prefix : Prefix → Span
unfolding to_big is6 masked
span_of_prefix p =
    let m = masked p in
    let bits = if is6 m.addr then 128 else 32 in
    let lo = to_big m.addr in record { lo = lo; hi = lo + 2 ^ (bits - (m.bits_plus_one - 1)) - 1 }

pub record Set : Type 0 where
  pub v4_spans : List Span
  pub v6_spans : List Span

-- The loop of `NewSet` that sorts valid prefixes by family.
unfoldable pub family_spans : Bool → List Prefix → List Span
family_spans six [] = []
family_spans six (p ∷ ps) =
    let rest = family_spans six ps in
    if p.bits_plus_one == 0
    then rest
    else (if is6 p.addr
        then (if six then span_of_prefix p ∷ rest else rest)
        else (if six then rest else span_of_prefix p ∷ rest))

unfoldable pub new_set : List Prefix → Set
unfolding family_spans
new_set ps = record {
  v4_spans = merge_spans (family_spans false ps);
  v6_spans = merge_spans (family_spans true ps);
}

-- The search in the spans of one family.
unfoldable pub in_spans : List Span → ℕ → Bool
unfolding search
in_spans spans value =
    if length spans == 0
    then false
    else (let i = search (length spans) (λ k. leb value (range_at spans k).hi) in
        ltb i (length spans) && leb (range_at spans i).lo value)

-- `Contains`; a nil set is none.
unfoldable pub contains : Option Set → Addr → Bool
unfolding is_valid unmap is6 to_big
contains none addr = false
contains (some s) addr =
    if is_valid addr
    then (let a = unmap addr in in_spans (if is6 a then s.v6_spans else s.v4_spans) (to_big a))
    else false

meets_point : (x : ℕ) (spans : List Span) → any (meets x x) spans ≡ covered spans x
unfolding any
meets_point x [] = refl
meets_point x (s ∷ ss) = ground (arith, meets_point x ss)

pub in_spans-covered :
    (spans : List Span) (x : ℕ) → IsNormal spans → in_spans spans x ≡ covered spans x
unfolding in_spans
in_spans-covered spans x k = ground (
  arith,
  any_empty (within x) spans,
  search-first_index (λ (r : Range). leb x r.hi) (record { lo = 0; hi = 0 }) spans
      (ends-Upward x 0 spans k),
  meets-first_index x x 0 spans k,
  meets_point x spans,
)
