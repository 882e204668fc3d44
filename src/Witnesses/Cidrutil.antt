-- ===== src/Witnesses/Cidrutil.antt =====
-- Spans and prefixes of both families.
use dns_stack.Prelude.{
  Option, none, Bool-cases, inl, inr, if◌then◌else◌, map, leb, true, ℕ, ◌+◌, ◌*◌, ◌^◌, ◌≡◌, refl,
  false, some, List, [], ◌∷◌, ◌&&◌, not, arith, u32_mod, All, any,
}
use mathlib.Core.Path.{subst}
use dns_stack.Netip.{Addr, bit_len, v4, v6, is_valid, unmap, Prefix, zero_prefix, prefix_from}
use dns_stack.Spans.{IsNormalOf, range_less, IsValid, covered}
use dns_stack.Prelude.Sort.{sort_slice}
use dns_stack.Cidrutil.Merge.{Span, merge_loop, merge_spans, merge_spans-IsNormalOf}
use dns_stack.Cidrutil.Combine.{intersect_loop, intersect_spans, subtract_loop, subtract_spans}
use dns_stack.Cidrutil.Subtract.{covered-subtract_spans}
use dns_stack.Cidrutil.Membership.{contains, new_set, in_spans, span_of_prefix}
use dns_stack.Cidrutil.Blocks.{
  range_prefixes, span_blocks, size_from, from_big, covered-range_prefixes,
}
use dns_stack.Cidrutil.Prefixes.{EndsIn}
use dns_stack.Cidrutil.Contains.{IsProper}
use dns_stack.Cidrutil.Load.{single_of, block_of, parse_set, parse_prefix, rejected_values}
use dns_stack.Cidrutil.Load.Sets.{ParsesProper, stands_for, contains-parse_set}
use dns_stack.Text.{Bytes}
use dns_stack.Text.Match.{codes, same, contains as has_text}

abbrev span : ℕ → ℕ → Span
span lo hi = record { lo = lo; hi = hi }

abbrev loose : List Span
loose = span 30 40 ∷ span 5 9 ∷ span 8 12 ∷ []

abbrev taken : List Span
taken = span 11 33 ∷ span 7 7 ∷ []

loose-IsValid : All IsValid loose
loose-IsValid = omega arith

taken-IsValid : All IsValid taken
taken-IsValid = omega arith

-- 16.0.0.0/4, 2^120 / 16, an invalid prefix, and the mapped form of 0.0.1.0/24.
abbrev blocks : List Prefix
blocks =
    record { addr = v4 (2 ^ 28); bits_plus_one = 5 }
    ∷ record { addr = v6 (2 ^ 120); bits_plus_one = 17 }
    ∷ zero_prefix
    ∷ record { addr = v6 (0xffff * u32_mod + 256); bits_plus_one = 121 }
    ∷ []

merge_spans_run : merge_spans loose ≡ span 5 12 ∷ span 30 40 ∷ []
unfolding merge_spans merge_loop sort_slice range_less
merge_spans_run = refl

intersect_spans_run : intersect_spans loose taken ≡ span 7 7 ∷ span 11 12 ∷ span 30 33 ∷ []
unfolding intersect_spans intersect_loop merge_spans merge_loop sort_slice range_less
intersect_spans_run = refl

subtract_spans_run : subtract_spans loose taken ≡ span 5 6 ∷ span 8 10 ∷ span 34 40 ∷ []
unfolding subtract_spans subtract_loop merge_spans merge_loop sort_slice range_less
subtract_spans_run = refl

-- `NewSet` keeps a prefix of mapped addresses in the family of IPv6, and `Contains` looks for the
-- unmapped address in the family of IPv4: no address is found through such a prefix.
contains_mapped_run : contains (some (new_set blocks)) (v6 (0xffff * u32_mod + 257)) ≡ false
unfolding contains new_set merge_spans merge_loop sort_slice range_less in_spans span_of_prefix
contains_mapped_run = refl

merge_spans-IsNormalOf_example : IsNormalOf loose (merge_spans loose)
merge_spans-IsNormalOf_example = merge_spans-IsNormalOf loose loose-IsValid

covered-subtract_spans_example :
    covered (subtract_spans loose taken) 35 ≡ (covered loose 35 && not (covered taken 35))
covered-subtract_spans_example = covered-subtract_spans loose taken 35 loose-IsValid taken-IsValid

-- 1.2.0.0/16 written out, and 0.0.1.1 as a mapped address.
abbrev block_text : Bytes
block_text = codes "1.2.0.0/16"

unfoldable parse_block : Bytes → Option Prefix
parse_block s = if same s block_text then some (prefix_from (v4 (258 * 65536)) 16) else none

parse_block-Proper : ParsesProper parse_block
unfolding parse_block prefix_from bit_len is_valid
parse_block-Proper s p e = elim (Bool-cases (same s block_text)) [
  | inl f ↦
      let known : prefix_from (v4 (258 * 65536)) 16 ≡ p = ground (arith, e, f) in
      subst IsProper known tt
  | inr f ↦ ground (arith, e, f)
]

abbrev parse_mapped : Bytes → Option Addr
parse_mapped s = some (v6 (0xffff * u32_mod + 257))

abbrev texts : List Bytes
texts = block_text ∷ codes "::ffff:0.0.1.1" ∷ codes "1/2" ∷ []

contains-parse_set_example :
    contains (some (parse_set parse_block parse_mapped texts).parsed) (v4 257)
    ≡ (is_valid (v4 257) && any (stands_for parse_block parse_mapped (unmap (v4 257))) texts)
contains-parse_set_example =
    contains-parse_set parse_block parse_mapped texts (v4 257) parse_block-Proper

test_rejected : (parse_set parse_block parse_mapped texts).rejected ≡ codes "1/2" ∷ []
unfolding parse_set rejected_values parse_prefix parse_block has_text block_of same single_of
test_rejected = refl

range_prefixes_run :
    range_prefixes 5 8 false
    ≡ prefix_from (v4 5) 32 ∷ prefix_from (v4 6) 31 ∷ prefix_from (v4 8) 32 ∷ []
unfolding range_prefixes span_blocks size_from from_big prefix_from
range_prefixes_run = refl

covered-range_prefixes_example :
    covered (map span_of_prefix (range_prefixes 5 8 true)) 7 ≡ (leb 5 7 && leb 7 8)
covered-range_prefixes_example = covered-range_prefixes 5 8 true 7 (omega arith)

loose-EndsIn : All (EndsIn false) loose
loose-EndsIn = omega arith
