-- ===== src/Witnesses/Ipset.antt =====
-- Sets of addresses: overlapping ranges out of order, and their collapsed form 5..7, 10..31.
use dns_stack.Prelude.{
  ℕ, ◌/◌, ◌^◌, ◌≤◌, ◌≡◌, ◌↔◌, refl, Bool, true, false, some, List, [], ◌∷◌, ◌&&◌, not, ◌==◌, arith,
  u32_mod, All,
}
use dns_stack.Netip.{v4, prefix_from}
use dns_stack.Spans.{IsNormalOf, Range, IsValid, IsWord, IsNormal, covered, within}
use dns_stack.Ipset.Collapse.{collapse, collapse-IsNormalOf, collapse_canonical}
use dns_stack.Ipset.Sets.{new, contains_uint, covers_range, address_count}
use dns_stack.Ipset.Queries.{contains_uint-new, covers_range-new}
use dns_stack.Ipset.Subtract.{is_normalized, as_normalized, subtract_loop, subtract}
use dns_stack.Ipset.Subtract.Laws.{covered-subtract, subtract-IsNormal}
use dns_stack.Ipset.Prefix.{block_bits, range_to_prefixes, prefixes, prefix_range}
use dns_stack.Ipset.Prefix.Tiles.{ranges_of_prefixes}
use dns_stack.Ipset.Prefix.RoundTrip.{new-prefixes}
use dns_stack.Ipset.Prefix.Bounds.{prefix_range-agrees}
use dns_stack.Ipset.Global.{is_global_prefix, dotted}
use dns_stack.Ipset.Global.Laws.{reserved}
use dns_stack.Ipset.Global.Whole.{is_global_prefix-reserved}
use dns_stack.Ipset.Count.{count_below, address_count-count_below}

abbrev range : ℕ → ℕ → Range
range lo hi = record { lo = lo; hi = hi }

abbrev messy : List Range
messy = range 15 30 ∷ range 5 7 ∷ range 10 20 ∷ range 31 31 ∷ []

abbrev tidy : List Range
tidy = range 5 7 ∷ range 10 31 ∷ []

abbrev cuts : List Range
cuts = range 6 6 ∷ range 12 40 ∷ []

messy-IsValid : All IsValid messy
messy-IsValid = omega arith

messy-IsWord : All IsWord messy
messy-IsWord = omega arith

tidy-IsValid : All IsValid tidy
tidy-IsValid = omega arith

tidy-IsWord : All IsWord tidy
tidy-IsWord = omega arith

cuts-IsValid : All IsValid cuts
cuts-IsValid = omega arith

cuts-IsWord : All IsWord cuts
cuts-IsWord = omega arith

collapse_run : collapse messy ≡ tidy
unfolding collapse
collapse_run = refl

subtract_run : subtract tidy cuts ≡ range 5 5 ∷ range 7 7 ∷ range 10 11 ∷ []
unfolding subtract subtract_loop as_normalized is_normalized
subtract_run = refl

-- `isNormalized` takes a list in which a range after one that ends at 255.255.255.255 is out of
-- order for a normal form, since `values[i-1].Hi+1` wraps to 0: `Subtract` then leaves 5..6 in.
subtract_wrapped_run :
    subtract (range 0 20 ∷ []) (range 10 4294967295 ∷ range 5 6 ∷ []) ≡ range 0 9 ∷ []
unfolding subtract subtract_loop as_normalized is_normalized
subtract_wrapped_run = refl

range_to_prefixes_run :
    range_to_prefixes (range 5 8)
    ≡ prefix_from (v4 5) 32 ∷ prefix_from (v4 6) 31 ∷ prefix_from (v4 8) 32 ∷ []
unfolding range_to_prefixes block_bits prefix_from
range_to_prefixes_run = refl

collapse-IsNormalOf_example : IsNormalOf messy (collapse messy)
collapse-IsNormalOf_example = collapse-IsNormalOf messy messy-IsValid messy-IsWord

collapse_canonical_example :
    (collapse messy ≡ collapse tidy) ↔ ((x : ℕ) → covered messy x ≡ covered tidy x)
collapse_canonical_example =
    collapse_canonical messy tidy messy-IsValid messy-IsWord tidy-IsValid tidy-IsWord

contains_uint-new_example : contains_uint (some (new messy)) 25 ≡ covered messy 25
contains_uint-new_example = contains_uint-new messy messy-IsValid messy-IsWord 25

covers_range-new_example :
    (covers_range (some (new messy)) 12 31 ≡ true)
    ↔ ((12 ≤ 31) × ((x : ℕ) → 12 ≤ x → x ≤ 31 → covered messy x ≡ true))
covers_range-new_example = covers_range-new messy messy-IsValid messy-IsWord 12 31

covered-subtract_example :
    covered (subtract messy cuts) 11 ≡ (covered messy 11 && not (covered cuts 11))
covered-subtract_example =
    covered-subtract messy cuts messy-IsValid messy-IsWord (omega arith) cuts-IsValid cuts-IsWord
      (omega arith) 11

subtract-IsNormal_example : IsNormal (subtract messy cuts)
subtract-IsNormal_example =
    subtract-IsNormal messy cuts messy-IsValid messy-IsWord (omega arith) cuts-IsValid cuts-IsWord
      (omega arith)

new-prefixes_example : new (ranges_of_prefixes (prefixes (some (new messy)))) ≡ new messy
new-prefixes_example = new-prefixes messy messy-IsValid messy-IsWord

prefix_range-agrees_example :
    (r : Range) × (prefix_range (prefix_from (v4 (dotted 10 1 2 3)) 8) ≡ some (r, true))
    × IsValid r
    × IsWord r
    × ((x : ℕ) → within x r ≡ (x / 2 ^ 24 == dotted 10 1 2 3 / 2 ^ 24))
prefix_range-agrees_example = prefix_range-agrees (dotted 10 1 2 3) 8 (omega arith) (omega arith)

is_global_prefix-reserved_example :
    (b : Bool) × (is_global_prefix (prefix_from (v4 (dotted 192 168 1 0)) 24) ≡ some b)
    × ((b ≡ true) ↔ ((x : ℕ) → x / 2 ^ 8 ≡ dotted 192 168 1 0 / 2 ^ 8 → reserved x ≡ false))
is_global_prefix-reserved_example =
    is_global_prefix-reserved (dotted 192 168 1 0) 24 (omega arith) (omega arith)

address_count-count_below_example :
    address_count (some (new messy)) ≡ count_below u32_mod (λ x. covered messy x)
address_count-count_below_example = address_count-count_below messy messy-IsValid messy-IsWord
