-- ===== src/Ipset/Prefix/RoundTrip.antt =====
-- A set written out as prefixes and read back.
use dns_stack.Prelude.{
  ℕ, ◌+◌, ◌≤◌, ◌≡◌, refl, ap, ◌∙◌, some, List, [], ◌∷◌, ◌++◌, map, ◌||◌, arith, max_u32, All,
  All-append, any, any-append,
}
use dns_stack.Netip.{Prefix}
use dns_stack.Spans.{Range, IsValid, IsWord, NormalFrom, covered, within}
use dns_stack.Ipset.Collapse.{
  collapse, covered-collapse, collapse-IsNormal, collapse-IsWord, collapse_canonical,
}
use dns_stack.Ipset.Sets.{new}
use dns_stack.Ipset.Prefix.{range_to_prefixes, prefixes_of, prefixes}
use dns_stack.Ipset.Prefix.Tiles.{
  Tiles, ranges_of_prefixes, range_to_prefixes-Tiles, covered-range_to_prefixes,
}

ranges_of_prefixes-append :
    (ps qs : List Prefix)
    → ranges_of_prefixes (ps ++ qs) ≡ ranges_of_prefixes ps ++ ranges_of_prefixes qs
unfolding ranges_of_prefixes
ranges_of_prefixes-append [] qs = refl
ranges_of_prefixes-append (p ∷ ps) qs = ground (arith, ranges_of_prefixes-append ps qs)

covered-prefixes_of :
    (x : ℕ) (rs : List Range)
    → All IsValid rs
    → All IsWord rs
    → covered (ranges_of_prefixes (prefixes_of rs)) x ≡ covered rs x
unfolding prefixes_of
covered-prefixes_of x [] v w = unfold ranges_of_prefixes any in refl
covered-prefixes_of x (r ∷ rs) v w =
    rw (ranges_of_prefixes-append (range_to_prefixes r) (prefixes_of rs)) (
      any-append (within x) (ranges_of_prefixes (range_to_prefixes r))
        (ranges_of_prefixes (prefixes_of rs))
      ∙ joined (covered-range_to_prefixes r x v.0 w.0) (covered-prefixes_of x rs v.1 w.1))
  where
    joined :
        covered (ranges_of_prefixes (range_to_prefixes r)) x ≡ within x r
        → covered (ranges_of_prefixes (prefixes_of rs)) x ≡ covered rs x
        → (covered (ranges_of_prefixes (range_to_prefixes r)) x
            || covered (ranges_of_prefixes (prefixes_of rs)) x)
          ≡ covered (r ∷ rs) x
    joined a b = unfold any in ground arith

Tiles-bounds :
    (lo hi : ℕ) (rs : List Range) → hi ≤ max_u32 → Tiles lo hi rs → All IsValid rs × All IsWord rs
Tiles-bounds lo hi [] h t = absurd t
Tiles-bounds lo hi (r ∷ []) h t = omega arith
Tiles-bounds lo hi (r ∷ s ∷ rs) h t =
    let rest = Tiles-bounds (r.hi + 1) hi (s ∷ rs) h t.3 in
    ((omega arith, rest.0), (omega arith, rest.1))

prefixes_of-bounds :
    (rs : List Range)
    → All IsValid rs
    → All IsWord rs
    → All IsValid (ranges_of_prefixes (prefixes_of rs))
      × All IsWord (ranges_of_prefixes (prefixes_of rs))
unfolding prefixes_of
prefixes_of-bounds [] v w = unfold ranges_of_prefixes in (tt, tt)
prefixes_of-bounds (r ∷ rs) v w =
    let here =
      Tiles-bounds r.lo r.hi (ranges_of_prefixes (range_to_prefixes r)) w.0.1
        (range_to_prefixes-Tiles r v.0 w.0) in
    let rest = prefixes_of-bounds rs v.1 w.1 in
    rw (ranges_of_prefixes-append (range_to_prefixes r) (prefixes_of rs))
      (All-append IsValid _ _ here.0 rest.0, All-append IsWord _ _ here.1 rest.1)

NormalFrom-IsValid : (n : ℕ) (rs : List Range) → NormalFrom n rs → All IsValid rs
NormalFrom-IsValid n [] k = tt
NormalFrom-IsValid n (r ∷ rs) k = (k.1, NormalFrom-IsValid (r.hi + 2) rs k.2)

pub new_same : (xs ys : List Range) → collapse xs ≡ collapse ys → new xs ≡ new ys
unfolding new
new_same xs ys e = ap (λ c. record { ranges = c; starts = map (λ (r : Range). r.lo) c }) e

module _ (rs : List Range) (valid : All IsValid rs) (word : All IsWord rs) where
  collapsed-IsValid : All IsValid (collapse rs)
  collapsed-IsValid = NormalFrom-IsValid 0 (collapse rs) (collapse-IsNormal rs valid word)

  -- The prefixes of a set made from valid uint32 ranges hold exactly the addresses that the ranges hold.
  pub covered-prefixes :
      (x : ℕ) → covered (ranges_of_prefixes (prefixes (some (new rs)))) x ≡ covered rs x
  unfolding prefixes new
  covered-prefixes x =
      covered-prefixes_of x (collapse rs) collapsed-IsValid (collapse-IsWord rs word)
      ∙ covered-collapse rs x word

  prefixes-bounds :
      All IsValid (ranges_of_prefixes (prefixes (some (new rs))))
      × All IsWord (ranges_of_prefixes (prefixes (some (new rs))))
  unfolding prefixes new
  prefixes-bounds = prefixes_of-bounds (collapse rs) collapsed-IsValid (collapse-IsWord rs word)

  -- A set made from valid uint32 ranges is determined by its prefixes: the set made from the ranges of its
  -- prefixes is the set again.
  pub new-prefixes : new (ranges_of_prefixes (prefixes (some (new rs)))) ≡ new rs
  new-prefixes = new_same (ranges_of_prefixes (prefixes (some (new rs)))) rs (
      (collapse_canonical (ranges_of_prefixes (prefixes (some (new rs)))) rs prefixes-bounds.0
          prefixes-bounds.1 valid word).1
        covered-prefixes)
