-- ===== src/Chnroute/Planned.antt =====
-- internal/chnroute/chnroute.go: what the reverse exclusion keeps.
use dns_stack.Prelude.{
  ℕ, ◌+◌, ◌≤◌, ◌<◌, ◌≡◌, refl, ap, ◌∙◌, true, false, some, List, [], ◌∷◌, ◌&&◌, ◌||◌, not, inl, inr,
  arith, max_u32, u32_mod, map, All, any, Bool-cases,
}
use mathlib.Core.Path.{fun_ext}
use dns_stack.Spans.{Range, IsValid, IsWord, NormalFrom, covered, within}
use dns_stack.Ipset.Collapse.{collapse-IsNormal, collapse-IsWord, covered-collapse}
use dns_stack.Ipset.Sets.{new, overlaps}
use dns_stack.Ipset.Queries.{overlaps-new}
use dns_stack.Ipset.Subtract.{subtract}
use dns_stack.Ipset.Subtract.Laws.{TopIsLast, covered-subtract, subtract-IsNormal}
use dns_stack.Ipset.Count.{count_below, count_loop-count_below}
use dns_stack.Ecszone.Parts.{NormalFrom-TopIsLast, NormalFrom-IsValid}
use dns_stack.Chnroute.{ForeignSpan}
use dns_stack.Chnroute.Plan.{span_of, overlapping, total_addresses}
use dns_stack.Chnroute.Loaded.{IsProper}

pub IsProper-IsValid : (rs : List Range) → All IsProper rs → All IsValid rs
IsProper-IsValid [] h = tt
IsProper-IsValid (r ∷ rs) h = (h.0.0, IsProper-IsValid rs h.1)

pub IsProper-IsWord : (rs : List Range) → All IsProper rs → All IsWord rs
IsProper-IsWord [] h = tt
IsProper-IsWord (r ∷ rs) h = (h.0.1, IsProper-IsWord rs h.1)

pub IsProper-of : (rs : List Range) → All IsValid rs → All IsWord rs → All IsProper rs
IsProper-of [] v w = tt
IsProper-of (r ∷ rs) v w = ((v.0, w.0), IsProper-of rs v.1 w.1)

-- A list in normal form whose addresses are uint32 values has uint32 ends.
NormalFrom-IsWord :
    (n : ℕ) (rs : List Range)
    → NormalFrom n rs
    → ((x : ℕ) → covered rs x ≡ true → x ≤ max_u32)
    → All IsWord rs
NormalFrom-IsWord n [] k h = tt
NormalFrom-IsWord n (r ∷ rs) k h =
    let top : r.hi ≤ max_u32 = h r.hi (unfold any in ground (arith, k.1)) in
    (
      (omega (arith, k.1, top), omega (arith, top)),
      NormalFrom-IsWord (r.hi + 2) rs k.2 (λ x t. h x (unfold any in ground (arith, t))),
    )

-- An address of a list of uint32 ranges is a uint32.
covered-word : (rs : List Range) (x : ℕ) → All IsWord rs → covered rs x ≡ true → x ≤ max_u32
unfolding any
covered-word [] x w h = cc
covered-word (r ∷ rs) x w h = elim (Bool-cases (within x r)) [
  | inl e ↦ ground (arith, w.0.1, e)
  | inr e ↦ covered-word rs x w.1 (ground (arith, e, h))
]

-- The range ends before 255.255.255.255.
IsBelowTop : Range → Type 0
IsBelowTop r = r.hi < max_u32

uncovered-IsBelowTop :
    (rs : List Range) → All IsProper rs → covered rs max_u32 ≡ false → All IsBelowTop rs
unfolding any IsBelowTop
uncovered-IsBelowTop [] p h = tt
uncovered-IsBelowTop (r ∷ rs) p h =
    (ground (arith, p.0.1.1, h), uncovered-IsBelowTop rs p.1 (ground (arith, h)))

IsBelowTop-TopIsLast : (rs : List Range) → All IsBelowTop rs → TopIsLast rs
unfolding IsBelowTop
IsBelowTop-TopIsLast [] h = tt
IsBelowTop-TopIsLast (r ∷ []) h = tt
IsBelowTop-TopIsLast (r ∷ s ∷ rs) h = (h.0, IsBelowTop-TopIsLast (s ∷ rs) h.1)

module _ (rs : List Range) (proper : All IsProper rs) where
  overlapping-All :
      (P : Range → Type 0) (foreign : List ForeignSpan)
      → All P (map span_of foreign)
      → All P (overlapping (new rs) foreign)
  unfolding overlapping
  overlapping-All P [] h = tt
  overlapping-All P (f ∷ foreign) h = elim (Bool-cases (overlaps (some (new rs)) f.lo f.hi)) [
    | inl e ↦ rw e (h.0, overlapping-All P foreign h.1)
    | inr e ↦ rw e (overlapping-All P foreign h.1)
  ]

  set-NormalFrom : NormalFrom 0 (new rs).ranges
  unfolding new
  set-NormalFrom = collapse-IsNormal rs (IsProper-IsValid rs proper) (IsProper-IsWord rs proper)

  pub set-IsWord : All IsWord (new rs).ranges
  unfolding new
  set-IsWord = collapse-IsWord rs (IsProper-IsWord rs proper)

  pub set-IsProper : All IsProper (new rs).ranges
  set-IsProper = IsProper-of _ (NormalFrom-IsValid 0 _ set-NormalFrom) set-IsWord

  pub covered-set : (x : ℕ) → covered (new rs).ranges x ≡ covered rs x
  unfolding new
  covered-set x = covered-collapse rs x (IsProper-IsWord rs proper)

  -- A span that holds an address of the set meets the set.
  overlaps-at :
      (f : ForeignSpan) (x : ℕ)
      → covered rs x ≡ true
      → within x (span_of f) ≡ true
      → overlaps (some (new rs)) f.lo f.hi ≡ true
  overlaps-at f x c h =
      (overlaps-new rs (IsProper-IsValid rs proper) (IsProper-IsWord rs proper) f.lo f.hi).1
        (x, ground (arith, h), ground (arith, h), c)

  covered-overlapping :
      (foreign : List ForeignSpan) (x : ℕ)
      → covered rs x ≡ true
      → covered (overlapping (new rs) foreign) x ≡ covered (map span_of foreign) x
  unfolding overlapping any
  covered-overlapping [] x c = refl
  covered-overlapping (f ∷ foreign) x c =
      let rest = covered-overlapping foreign x c in
      elim (Bool-cases (overlaps (some (new rs)) f.lo f.hi)) [
        | inl e ↦ rw e (ap (λ b. within x (span_of f) || b) rest)
        | inr e ↦ rw e (elim (Bool-cases (within x (span_of f))) [
          | inl h ↦ ground (arith, e, overlaps-at f x c h)
          | inr h ↦ rw h rest
        ])
      ]

  module _ (foreign : List ForeignSpan) (spans : All IsProper (map span_of foreign))
      (free : covered (map span_of foreign) max_u32 ≡ false) where
    -- The ranges that are kept.
    abbrev pub kept : List Range
    kept = subtract (new rs).ranges (overlapping (new rs) foreign)

    cuts : All IsProper (overlapping (new rs) foreign)
    cuts = overlapping-All IsProper foreign spans

    cuts-TopIsLast : TopIsLast (overlapping (new rs) foreign)
    cuts-TopIsLast =
        IsBelowTop-TopIsLast _ (
          overlapping-All IsBelowTop foreign
            (uncovered-IsBelowTop (map span_of foreign) spans free))

    pub covered-kept :
        (x : ℕ) → covered kept x ≡ (covered rs x && not (covered (map span_of foreign) x))
    covered-kept x =
        covered-subtract (new rs).ranges (overlapping (new rs) foreign)
          (NormalFrom-IsValid 0 _ set-NormalFrom) set-IsWord
          (NormalFrom-TopIsLast 0 _ set-NormalFrom set-IsWord) (IsProper-IsValid _ cuts)
          (IsProper-IsWord _ cuts) cuts-TopIsLast x
        ∙ rw (covered-set x) (ground (arith, covered-overlapping foreign x))

    kept-NormalFrom : NormalFrom 0 kept
    kept-NormalFrom =
        subtract-IsNormal (new rs).ranges (overlapping (new rs) foreign)
          (NormalFrom-IsValid 0 _ set-NormalFrom) set-IsWord
          (NormalFrom-TopIsLast 0 _ set-NormalFrom set-IsWord) (IsProper-IsValid _ cuts)
          (IsProper-IsWord _ cuts) cuts-TopIsLast

    kept-IsWord : All IsWord kept
    kept-IsWord =
        NormalFrom-IsWord 0 kept kept-NormalFrom
          (λ x t. covered-word rs x (IsProper-IsWord rs proper) (ground (arith, covered-kept x, t)))

    pub kept-IsProper : All IsProper kept
    kept-IsProper = IsProper-of kept (NormalFrom-IsValid 0 kept kept-NormalFrom) kept-IsWord

    -- What is dropped are the addresses of the set in a foreign span.
    pub covered-dropped :
        (x : ℕ)
        → covered (subtract (new rs).ranges kept) x
          ≡ (covered rs x && covered (map span_of foreign) x)
    covered-dropped x =
        covered-subtract (new rs).ranges kept (NormalFrom-IsValid 0 _ set-NormalFrom) set-IsWord
          (NormalFrom-TopIsLast 0 _ set-NormalFrom set-IsWord)
          (NormalFrom-IsValid 0 kept kept-NormalFrom) kept-IsWord
          (NormalFrom-TopIsLast 0 kept kept-NormalFrom kept-IsWord) x
        ∙ rw (covered-set x, covered-kept x) (ground arith)

    dropped-NormalFrom : NormalFrom 0 (subtract (new rs).ranges kept)
    dropped-NormalFrom =
        subtract-IsNormal (new rs).ranges kept (NormalFrom-IsValid 0 _ set-NormalFrom) set-IsWord
          (NormalFrom-TopIsLast 0 _ set-NormalFrom set-IsWord)
          (NormalFrom-IsValid 0 kept kept-NormalFrom) kept-IsWord
          (NormalFrom-TopIsLast 0 kept kept-NormalFrom kept-IsWord)

    dropped-IsWord : All IsWord (subtract (new rs).ranges kept)
    dropped-IsWord = NormalFrom-IsWord 0 _ dropped-NormalFrom (λ x t.
        covered-word rs x (IsProper-IsWord rs proper) (ground (arith, covered-dropped x, t)))

    -- `totalAddresses` counts them.
    pub total_addresses-dropped :
        total_addresses (subtract (new rs).ranges kept)
        ≡ count_below u32_mod (λ x. covered rs x && covered (map span_of foreign) x)
    unfolding total_addresses
    total_addresses-dropped =
        count_loop-count_below (subtract (new rs).ranges kept) dropped-NormalFrom dropped-IsWord
        ∙ ap (count_below u32_mod) (fun_ext covered-dropped)
