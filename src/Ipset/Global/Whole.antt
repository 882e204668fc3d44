-- ===== src/Ipset/Global/Whole.antt =====
-- `IsGlobalPrefix` decides whether a prefix avoids all reserved blocks.
use Prim.Native.Nat.{max}
use dns_stack.Prelude.{
  ℕ, ◌-◌, ◌/◌, ◌^◌, ◌≤◌, ◌<◌, ◌≡◌, refl, sym, ap, ◌∙◌, ◌↔◌, Bool, true, false, some, List, [], ◌∷◌,
  ◌&&◌, not, ltb, arith, u32_mod, All, any, ==_iff,
}
use dns_stack.Prelude.Sort.{sort_slice, sort_slice_sorted}
use dns_stack.Netip.{v4, Prefix, prefix_from, is4}
use dns_stack.Spans.{Range, range_less, range_less-IsStrict, IsValid, IsWord, covered, within}
use dns_stack.Ipset.Prefix.Tiles.{ranges_of_prefixes, ranges_of_prefixes-∷}
use dns_stack.Ipset.Prefix.Bounds.{
  block, prefix_bounds-masked, block-IsValid, block-IsWord, within-block,
}
use dns_stack.Ipset.Global.{
  non_global_prefixes, exclude_all, global_loop, global_parts, is_only, is_global_prefix,
}
use dns_stack.Ipset.Global.Laws.{
  HasRange, global_loop-∷, non_global-HasRange, reserved, covered-global_parts,
}

-- A part that has no address in the excluded range stays whole.
exclude_disjoint :
    (e r : Range)
    → IsValid e
    → IsValid r
    → ((x : ℕ) → within x r ≡ true → within x e ≡ false)
    → exclude_all e (r ∷ []) ≡ r ∷ []
unfolding exclude_all
exclude_disjoint e r v w d = ground (arith, d (max e.lo r.lo), d e.lo, d r.lo)

global_loop_disjoint :
    (ps : List Prefix) (r : Range)
    → All HasRange ps
    → IsValid r
    → ((x : ℕ) → within x r ≡ true → covered (ranges_of_prefixes ps) x ≡ false)
    → global_loop ps (r ∷ []) ≡ r ∷ []
global_loop_disjoint [] r h w d = unfold global_loop in refl
global_loop_disjoint (p ∷ ps) r h w d =
    let (e, eq, v, word) = h.0 in
    let apart : (x : ℕ) → within x r ≡ true → covered (e ∷ ranges_of_prefixes ps) x ≡ false =
      λ x t. rw (← ranges_of_prefixes-∷ p ps e eq) (d x t) in
    global_loop-∷ p ps (r ∷ []) e eq
    ∙ rw (exclude_disjoint e r v w (λ x t. first e ps x (apart x t)))
        (global_loop_disjoint ps r h.1 w (λ x t. others e ps x (apart x t)))
  where
    first :
        (e : Range) (ps : List Prefix) (x : ℕ)
        → covered (e ∷ ranges_of_prefixes ps) x ≡ false
        → within x e ≡ false
    first e ps x t = unfold any in ground arith

    others :
        (e : Range) (ps : List Prefix) (x : ℕ)
        → covered (e ∷ ranges_of_prefixes ps) x ≡ false
        → covered (ranges_of_prefixes ps) x ≡ false
    others e ps x t = unfold any in ground arith

module _ (r : Range) (valid : IsValid r) (word : IsWord r) where
  global_parts_whole : ((x : ℕ) → within x r ≡ true → reserved x ≡ false) → global_parts r ≡ r ∷ []
  unfolding global_parts
  global_parts_whole d =
      let ordered : ltb r.hi r.lo ≡ false = ground arith in
      rw ordered (
        ap (sort_slice range_less)
          (global_loop_disjoint non_global_prefixes r non_global-HasRange valid d)
        ∙ sort_slice_sorted range_less range_less-IsStrict (r ∷ []) (tt, tt))

  is_only-covered :
      (x : ℕ) (rs : List Range) → is_only rs r.lo r.hi ≡ true → covered rs x ≡ within x r
  unfolding is_only any
  is_only-covered x [] e = cc
  is_only-covered x (s ∷ []) e = ground arith
  is_only-covered x (s ∷ t ∷ rs) e = ground arith

  is_only_whole : is_only (r ∷ []) r.lo r.hi ≡ true
  unfolding is_only
  is_only_whole = ground arith

  -- The test of `IsGlobalPrefix` on the parts of a range.
  is_only-global_parts :
      (is_only (global_parts r) r.lo r.hi ≡ true)
      ↔ ((x : ℕ) → within x r ≡ true → reserved x ≡ false)
  is_only-global_parts = (
    λ e x t. kept x t (sym (covered-global_parts r x word) ∙ is_only-covered x (global_parts r) e),
    λ d. rw (global_parts_whole d) is_only_whole,
  )
    where
      kept :
          (x : ℕ)
          → within x r ≡ true
          → (within x r && not (reserved x)) ≡ within x r
          → reserved x ≡ false
      kept x t e = ground arith

prefix_from-is4 : (a bits : ℕ) → is4 (prefix_from (v4 a) bits).addr ≡ true
unfolding is4 prefix_from
prefix_from-is4 a bits = ground arith

is_global_prefix-is_only :
    (a bits : ℕ)
    → bits ≤ 32
    → is_global_prefix (prefix_from (v4 a) bits)
      ≡ some (is_only (global_parts (block a bits)) (block a bits).lo (block a bits).hi)
unfolding is_global_prefix
is_global_prefix-is_only a bits h = rw (prefix_from-is4 a bits) (rw (prefix_bounds-masked a bits h))

-- `IsGlobalPrefix` on a prefix a/bits of an IPv4 address, with at most 32 bits: it does not panic, and holds exactly if
-- no address with the first `bits` bits of `a` lies in a reserved block.
pub is_global_prefix-reserved :
    (a bits : ℕ)
    → a < u32_mod
    → bits ≤ 32
    → (b : Bool) × (is_global_prefix (prefix_from (v4 a) bits) ≡ some b)
      × ((b ≡ true) ↔ ((x : ℕ) → x / 2 ^ (32 - bits) ≡ a / 2 ^ (32 - bits) → reserved x ≡ false))
is_global_prefix-reserved a bits w h =
    let r = block a bits in
    let decided = is_only-global_parts r (block-IsValid a bits h w) (block-IsWord a bits h w) in
    let agree = within-block a bits h w in
    (
      is_only (global_parts r) r.lo r.hi,
      is_global_prefix-is_only a bits h,
      (
        λ e x q. decided.0 e x (agree x ∙ (==_iff _ _).1 q),
        λ all. decided.1 (λ x t. all x ((==_iff _ _).0 (sym (agree x) ∙ t))),
      ),
    )
