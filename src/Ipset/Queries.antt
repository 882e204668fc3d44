-- ===== src/Ipset/Queries.antt =====
-- What the queries of `ipset.Set` answer, for a set that `New` made from any ranges.
use dns_stack.Prelude.{
  ℕ, suc, ◌≤◌, ◌≡◌, refl, sym, ◌∙◌, ap, ◌↔◌, true, some, List, [], ◌∷◌, arith, ltb, leb, length,
  All, any, any_empty,
}
use dns_stack.Prelude.Search.{search-first_index}
use dns_stack.Spans.{Range, IsValid, IsWord, IsNormal, covered}
use dns_stack.Ipset.Collapse.{collapse, covered-collapse, collapse-IsNormal}
use native.Mathlib.Nat.{le_refl, le_trans}
use dns_stack.Ipset.Sets.{Set, new, locate, reaches, before, contains_uint, covers_range, overlaps}
use dns_stack.Ipset.Lookup.{
  encloses, meets, los, starts-Upward, ends-Upward, reaches-first_index, meets-first_index,
  encloses→covered, covered→encloses, meets→covered, covered→meets,
}

overlaps_ordered : (s : Set) (lo hi : ℕ) → overlaps (some s) lo hi ≡ true → lo ≤ hi
unfolding overlaps
overlaps_ordered s lo hi e = ground arith

covers_range_ordered : (s : Set) (lo hi : ℕ) → covers_range (some s) lo hi ≡ true → lo ≤ hi
unfolding covers_range
covers_range_ordered s lo hi e = ground arith

length-los : (rs : List Range) → length (los rs) ≡ length rs
length-los [] = refl
length-los (r ∷ rs) = ap suc (length-los rs)

-- The search over the starts of a normal form, then the test on the range before.
reaches-locate :
    (lo hi : ℕ) (rs : List Range)
    → lo ≤ hi
    → IsNormal (collapse rs)
    → reaches (collapse rs) hi (locate (new rs) lo) ≡ any (encloses lo hi) (collapse rs)
unfolding new locate
reaches-locate lo hi rs h k =
    ap (λ i. reaches (collapse rs) hi (before i))
      (search-first_index (ltb lo) 0 (los (collapse rs)) (starts-Upward lo 0 (collapse rs) k))
    ∙ reaches-first_index lo hi 0 (collapse rs) h k

covers_range-encloses :
    (lo hi : ℕ) (rs : List Range)
    → lo ≤ hi
    → IsNormal (collapse rs)
    → covers_range (some (new rs)) lo hi ≡ any (encloses lo hi) (collapse rs)
unfolding covers_range new
covers_range-encloses lo hi rs h k =
    ground (arith, reaches-locate lo hi rs h k, any_empty (encloses lo hi) (collapse rs))

module _ (rs : List Range) (valid : All IsValid rs) (word : All IsWord rs) where
  -- `ContainsUint` on a set made from any valid uint32 ranges, unsorted and overlapping as they
  -- may be, answers whether some given range holds the address.
  pub contains_uint-new : (v : ℕ) → contains_uint (some (new rs)) v ≡ covered rs v
  unfolding contains_uint new
  contains_uint-new v =
      let k = collapse-IsNormal rs valid word in
      ground (
        arith,
        reaches-locate v v rs (le_refl v) k,
        any_empty (encloses v v) (collapse rs),
        covered-collapse rs v word,
      )

  -- `CoversRange` on a set made from valid uint32 ranges holds exactly if `lo` is at most `hi` and every address from `lo` to `hi` lies in
  -- some given range, not necessarily all in the same one.
  pub covers_range-new :
      (lo hi : ℕ)
      → (covers_range (some (new rs)) lo hi ≡ true)
        ↔ ((lo ≤ hi) × ((x : ℕ) → lo ≤ x → x ≤ hi → covered rs x ≡ true))
  covers_range-new lo hi = (
    λ e.
        let h : lo ≤ hi = covers_range_ordered (new rs) lo hi e in
        (
          h,
          λ x p q.
              sym (covered-collapse rs x word)
              ∙ encloses→covered lo hi x (collapse rs)
                  (sym (covers_range-encloses lo hi rs h normal) ∙ e) p q,
        ),
    λ all.
        covers_range-encloses lo hi rs all.0 normal
        ∙ covered→encloses lo hi 0 (collapse rs) all.0 normal
            (λ x p q. covered-collapse rs x word ∙ all.1 x p q),
  )
    where
      normal : IsNormal (collapse rs)
      normal = collapse-IsNormal rs valid word

  overlaps-meets :
      (lo hi : ℕ) → lo ≤ hi → overlaps (some (new rs)) lo hi ≡ any (meets lo hi) (collapse rs)
  unfolding overlaps new
  overlaps-meets lo hi h =
      let k = collapse-IsNormal rs valid word in
      ground (
        arith,
        search-first_index (λ (r : Range). leb lo r.hi) (record { lo = 0; hi = 0 }) (collapse rs)
            (ends-Upward lo 0 (collapse rs) k),
        meets-first_index lo hi 0 (collapse rs) k,
      )

  -- `Overlaps` on a set made from valid uint32 ranges holds exactly if some address from `lo` to `hi` lies in some given
  -- range.
  pub overlaps-new :
      (lo hi : ℕ)
      → (overlaps (some (new rs)) lo hi ≡ true)
        ↔ ((x : ℕ) × (lo ≤ x) × (x ≤ hi) × (covered rs x ≡ true))
  overlaps-new lo hi = (
    λ e.
        let h : lo ≤ hi = overlaps_ordered (new rs) lo hi e in
        let (x, p, q, c) =
          meets→covered lo hi 0 (collapse rs) h normal (sym (overlaps-meets lo hi h) ∙ e) in
        (x, p, q, sym (covered-collapse rs x word) ∙ c),
    λ found.
        let (x, p, q, c) = found in
        overlaps-meets lo hi (le_trans p q)
        ∙ covered→meets lo hi x (collapse rs) p q (covered-collapse rs x word ∙ c),
  )
    where
      normal : IsNormal (collapse rs)
      normal = collapse-IsNormal rs valid word
