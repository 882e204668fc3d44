-- ===== src/Cidrutil/Prefixes.antt =====
-- internal/cidrutil/cidrutil.go: the operations on lists of prefixes of both families.
use dns_stack.Prelude.{
  ℕ, ◌<◌, ◌^◌, ◌≡◌, refl, ap, ◌∙◌, Bool, true, false, Option, some, none, List, [], ◌∷◌, ◌++◌, not,
  if◌then◌else◌, map, any, any-append, All,
}
use dns_stack.Netip.{Addr, is6, is_valid, unmap, Prefix}
use dns_stack.Spans.{covered, within}
use dns_stack.Cidrutil.Merge.{Span, merge_spans, merge_spans-below, covered-merge_spans}
use dns_stack.Cidrutil.Combine.{intersect_spans, subtract_spans}
use dns_stack.Cidrutil.Membership.{Set, to_big, span_of_prefix, family_spans}
use dns_stack.Cidrutil.Blocks.{width, range_prefixes, covered-range_prefixes}

-- The prefixes of the spans of one family, in their order.
unfoldable pub prefixes_of_spans : Bool → List Span → List Prefix
prefixes_of_spans six [] = []
prefixes_of_spans six (s ∷ ss) = range_prefixes s.lo s.hi six ++ prefixes_of_spans six ss

unfoldable pub spans_to_prefixes : List Span → List Span → List Prefix
spans_to_prefixes v4_spans v6_spans =
    prefixes_of_spans false v4_spans ++ prefixes_of_spans true v6_spans

unfoldable pub collapse_family : List Span → Bool → List Prefix
collapse_family spans six = prefixes_of_spans six (merge_spans spans)

-- `CollapsePrefixes`
unfoldable pub collapse_prefixes : List Prefix → List Prefix
collapse_prefixes prefixes =
    collapse_family (family_spans false prefixes) false
    ++ collapse_family (family_spans true prefixes) true

-- The loop of `CollapseAddrs`, for the addresses of one family.
unfoldable pub addr_spans : Bool → List Addr → List Span
addr_spans six [] = []
addr_spans six (a ∷ addrs) =
    let rest = addr_spans six addrs in
    let span : Span = record { lo = to_big (unmap a); hi = to_big (unmap a) } in
    if not (is_valid (unmap a))
    then rest
    else (if is6 (unmap a)
        then (if six then span ∷ rest else rest)
        else (if six then rest else span ∷ rest))

unfoldable pub collapse_addrs : List Addr → List Prefix
collapse_addrs addrs =
    collapse_family (addr_spans false addrs) false ++ collapse_family (addr_spans true addrs) true

-- `Intersect`
unfoldable pub intersect : List Prefix → List Prefix → List Prefix
intersect base mask =
    spans_to_prefixes (intersect_spans (family_spans false base) (family_spans false mask))
      (intersect_spans (family_spans true base) (family_spans true mask))

-- `Subtract`
unfoldable pub subtract : List Prefix → List Prefix → List Prefix
subtract base remove =
    spans_to_prefixes (subtract_spans (family_spans false base) (family_spans false remove))
      (subtract_spans (family_spans true base) (family_spans true remove))

-- `Set.Prefixes`; a nil set is none.
unfoldable pub prefixes : Option Set → List Prefix
prefixes none = []
prefixes (some s) = spans_to_prefixes s.v4_spans s.v6_spans

-- The span ends inside the family.
abbrev pub EndsIn : Bool → Span → Type 0
EndsIn six s = s.hi < 2 ^ width six

map-append :
    (ps qs : List Prefix)
    → map span_of_prefix (ps ++ qs) ≡ map span_of_prefix ps ++ map span_of_prefix qs
map-append [] qs = refl
map-append (p ∷ ps) qs = ap (λ (ss : List Span). span_of_prefix p ∷ ss) (map-append ps qs)

covered-prefixes_of_spans :
    (six : Bool) (ss : List Span) (x : ℕ)
    → All (EndsIn six) ss
    → covered (map span_of_prefix (prefixes_of_spans six ss)) x ≡ covered ss x
unfolding prefixes_of_spans any
covered-prefixes_of_spans six [] x h = refl
covered-prefixes_of_spans six (s ∷ ss) x h =
    ap (λ r. covered r x) (map-append (range_prefixes s.lo s.hi six) (prefixes_of_spans six ss))
    ∙ any-append (within x) (map span_of_prefix (range_prefixes s.lo s.hi six)) _
    ∙ rw (covered-range_prefixes s.lo s.hi six x h.0, covered-prefixes_of_spans six ss x h.1) refl

merge_spans-EndsIn :
    (six : Bool) (ss : List Span) → All (EndsIn six) ss → All (EndsIn six) (merge_spans ss)
merge_spans-EndsIn six ss h = merge_spans-below (2 ^ width six) ss h

-- `collapseFamily` of any spans that end inside the family covers exactly their addresses.
pub covered-collapse_family :
    (spans : List Span) (six : Bool) (x : ℕ)
    → All (EndsIn six) spans
    → covered (map span_of_prefix (collapse_family spans six)) x ≡ covered spans x
unfolding collapse_family
covered-collapse_family spans six x h =
    covered-prefixes_of_spans six (merge_spans spans) x (merge_spans-EndsIn six spans h)
    ∙ covered-merge_spans spans x
