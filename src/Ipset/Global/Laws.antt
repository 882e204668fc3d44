-- ===== src/Ipset/Global/Laws.antt =====
-- What `GlobalParts` keeps of a range, and what `IsGlobalPrefix` decides.
use dns_stack.Prelude.{
  ℕ, ◌≤◌, ◌<◌, ◌≡◌, refl, ◌∙◌, Bool, true, false, some, List, [], ◌∷◌, ◌&&◌, ◌||◌, not, inl, inr,
  ltb, ◌==◌, if◌then◌else◌, arith, u32_mod, max_u32, length, All, All-append, any, any-append,
  any_empty, Bool-cases,
}
use dns_stack.Prelude.Sort.{any-sort_slice}
use dns_stack.Netip.{v4, Prefix, prefix_from}
use dns_stack.Spans.{Range, range_less, IsValid, IsWord, covered, within}
use dns_stack.Ipset.Prefix.{prefix_range}
use dns_stack.Ipset.Prefix.Bounds.{prefix_range-agrees}
use dns_stack.Ipset.Prefix.Tiles.{ranges_of_prefixes, ranges_of_prefixes-∷}
use dns_stack.Ipset.Global.{
  dotted, cidr, non_global_prefixes, exclude, exclude_all, global_loop, global_parts,
}

covered-exclude :
    (x : ℕ) (e part : Range)
    → IsValid e
    → part.hi ≤ max_u32
    → covered (exclude e part) x ≡ (within x part && not (within x e))
unfolding exclude any
covered-exclude x e part v w = ground arith

exclude-IsWord : (e part : Range) → e.lo ≤ max_u32 → IsWord part → All IsWord (exclude e part)
unfolding exclude
exclude-IsWord e part v w = ground arith

covered-exclude_all :
    (x : ℕ) (e : Range) (parts : List Range)
    → IsValid e
    → All IsWord parts
    → covered (exclude_all e parts) x ≡ (covered parts x && not (within x e))
unfolding exclude_all
covered-exclude_all x e [] v w = unfold any in refl
covered-exclude_all x e (part ∷ parts) v w =
    any-append (within x) (exclude e part) (exclude_all e parts)
    ∙ joined (covered-exclude x e part v w.0.1) (covered-exclude_all x e parts v w.1)
  where
    joined :
        covered (exclude e part) x ≡ (within x part && not (within x e))
        → covered (exclude_all e parts) x ≡ (covered parts x && not (within x e))
        → (covered (exclude e part) x || covered (exclude_all e parts) x)
          ≡ (covered (part ∷ parts) x && not (within x e))
    joined a b = unfold any in ground arith

exclude_all-IsWord :
    (e : Range) (parts : List Range)
    → e.lo ≤ max_u32
    → All IsWord parts
    → All IsWord (exclude_all e parts)
unfolding exclude_all
exclude_all-IsWord e [] v w = tt
exclude_all-IsWord e (part ∷ parts) v w =
    All-append IsWord (exclude e part) (exclude_all e parts) (exclude-IsWord e part v w.0)
      (exclude_all-IsWord e parts v w.1)

-- A prefix with a range, as every constant of `nonGlobalPrefixes` is.
abbrev pub HasRange : Prefix → Type 0
HasRange p = (r : Range) × (prefix_range p ≡ some (r, true)) × IsValid r × IsWord r

-- One round of the loop.
pub global_loop-∷ :
    (p : Prefix) (ps : List Prefix) (parts : List Range) (r : Range)
    → prefix_range p ≡ some (r, true)
    → global_loop (p ∷ ps) parts ≡ (
        if length (exclude_all r parts) == 0
        then exclude_all r parts
        else global_loop ps (exclude_all r parts))
unfolding global_loop
global_loop-∷ p ps parts r e = rw (e, global_loop)

covered-global_loop :
    (x : ℕ) (ps : List Prefix) (parts : List Range)
    → All HasRange ps
    → All IsWord parts
    → covered (global_loop ps parts) x
      ≡ (covered parts x && not (covered (ranges_of_prefixes ps) x))
covered-global_loop x [] parts h w = unfold global_loop ranges_of_prefixes any in ground arith
covered-global_loop x (p ∷ ps) parts h w =
    let (r, e, v, rw_r) = h.0 in
    round r e (covered-exclude_all x r parts v w)
      (covered-global_loop x ps (exclude_all r parts) h.1 (exclude_all-IsWord r parts rw_r.0 w))
  where
    round :
        (r : Range)
        → prefix_range p ≡ some (r, true)
        → covered (exclude_all r parts) x ≡ (covered parts x && not (within x r))
        → covered (global_loop ps (exclude_all r parts)) x
          ≡ (covered (exclude_all r parts) x && not (covered (ranges_of_prefixes ps) x))
        → covered (global_loop (p ∷ ps) parts) x
          ≡ (covered parts x && not (covered (ranges_of_prefixes (p ∷ ps)) x))
    round r e a b = rw (global_loop-∷ p ps parts r e) (
        rw (ranges_of_prefixes-∷ p ps r e) (split a b (any_empty (within x) (exclude_all r parts))))
      where
        split :
            covered (exclude_all r parts) x ≡ (covered parts x && not (within x r))
            → covered (global_loop ps (exclude_all r parts)) x
              ≡ (covered (exclude_all r parts) x && not (covered (ranges_of_prefixes ps) x))
            → (length (exclude_all r parts) ≡ 0 → covered (exclude_all r parts) x ≡ false)
            → covered
                (if length (exclude_all r parts) == 0
                  then exclude_all r parts
                  else global_loop ps (exclude_all r parts))
                x
              ≡ (covered parts x && not (covered (r ∷ ranges_of_prefixes ps) x))
        split a b c = unfold any in ground arith

cidr-HasRange :
    (a b c d bits : ℕ)
    → bits ≤ 32
    → dotted a b c d < u32_mod
    → prefix_from (v4 (dotted a b c d)) bits ≡ cidr a b c d bits
    → HasRange (cidr a b c d bits)
cidr-HasRange a b c d bits h w e =
    let r = prefix_range-agrees (dotted a b c d) bits h w in rw (← e) (r.0, r.1, r.2, r.3)

pub non_global-HasRange : All HasRange non_global_prefixes
unfolding prefix_from
non_global-HasRange = (
  cidr-HasRange 0 0 0 0 8 (omega arith) (omega arith) refl,
  (
    cidr-HasRange 10 0 0 0 8 (omega arith) (omega arith) refl,
    (
      cidr-HasRange 100 64 0 0 10 (omega arith) (omega arith) refl,
      (
        cidr-HasRange 127 0 0 0 8 (omega arith) (omega arith) refl,
        (
          cidr-HasRange 169 254 0 0 16 (omega arith) (omega arith) refl,
          (
            cidr-HasRange 172 16 0 0 12 (omega arith) (omega arith) refl,
            (
              cidr-HasRange 192 0 0 0 24 (omega arith) (omega arith) refl,
              (
                cidr-HasRange 192 0 2 0 24 (omega arith) (omega arith) refl,
                (
                  cidr-HasRange 192 88 99 0 24 (omega arith) (omega arith) refl,
                  (
                    cidr-HasRange 192 168 0 0 16 (omega arith) (omega arith) refl,
                    (
                      cidr-HasRange 198 18 0 0 15 (omega arith) (omega arith) refl,
                      (
                        cidr-HasRange 198 51 100 0 24 (omega arith) (omega arith) refl,
                        (
                          cidr-HasRange 203 0 113 0 24 (omega arith) (omega arith) refl,
                          (
                            cidr-HasRange 224 0 0 0 4 (omega arith) (omega arith) refl,
                            (cidr-HasRange 240 0 0 0 4 (omega arith) (omega arith) refl, tt),
                          ),
                        ),
                      ),
                    ),
                  ),
                ),
              ),
            ),
          ),
        ),
      ),
    ),
  ),
)

-- The address lies in a block of `nonGlobalPrefixes`.
abbrev pub reserved : ℕ → Bool
reserved x = covered (ranges_of_prefixes non_global_prefixes) x

empty_range : (r : Range) (x : ℕ) → ltb r.hi r.lo ≡ true → false ≡ (within x r && not (reserved x))
empty_range r x e = ground arith

only_part :
    (r : Range) (x : ℕ)
    → (covered (r ∷ []) x && not (reserved x)) ≡ (within x r && not (reserved x))
only_part r x = unfold any in ground arith

-- `GlobalParts` of a uint32 range covers exactly its addresses outside the reserved blocks.
pub covered-global_parts :
    (r : Range) (x : ℕ) → IsWord r → covered (global_parts r) x ≡ (within x r && not (reserved x))
unfolding global_parts
covered-global_parts r x w = elim (Bool-cases (ltb r.hi r.lo)) [
  | inl e ↦ rw e (unfold any in empty_range r x e)
  | inr e ↦ rw e (
      any-sort_slice range_less (within x) (global_loop non_global_prefixes (r ∷ []))
      ∙ covered-global_loop x non_global_prefixes (r ∷ []) non_global-HasRange (w, tt)
      ∙ only_part r x)
]
