-- ===== src/Chnroute/Excluded.antt =====
-- internal/chnroute/chnroute.go: what is published with and without the reverse exclusion.
use mathlib.Core.Path.{fun_ext}
use dns_stack.Prelude.{
  ℕ, ◌≡◌, refl, sym, ap, ◌∙◌, Bool, true, false, Option, some, List, [], ◌&&◌, ◌||◌, not, inl, inr,
  arith, u32_mod, max_u32, ltb, length, map, All, All-mono, Bool-cases,
}
use dns_stack.Text.{Bytes}
use dns_stack.Netip.{Addr, v4}
use dns_stack.Spans.{Range, covered}
use dns_stack.Ipset.Sets.{new, address_count}
use dns_stack.Ipset.Count.{count_below, address_count-count_below}
use dns_stack.Ipset.Prefix.Tiles.{ranges_of_prefixes}
use dns_stack.Ipset.Subtract.{subtract}
use dns_stack.Ipset.Global.Laws.{reserved}
use dns_stack.Chnroute.{ForeignSpan, mainland_probes}
use dns_stack.Chnroute.Plan.{
  span_of, total_addresses, attribute_dropped, missing, plan_reverse_exclusion, Routes, routes_of,
  apply_plan, exclude_foreign,
}
use dns_stack.Chnroute.Loaded.{IsProper}
use dns_stack.Chnroute.Planned.{
  IsProper-IsValid, IsProper-IsWord, kept, covered-kept, kept-IsProper, total_addresses-dropped,
}
use dns_stack.Chnroute.Covered.{covered-published, IsHeld, missing-IsHeld}

module _ (parse_addr : Bytes → Option Addr) (too_many : ℕ → ℕ → Bool)
    (listed foreign : ℕ → Bool) where
  -- What is kept of the listed addresses.
  abbrev pub remaining : Bool → ℕ → Bool
  remaining excluding x = listed x && not (excluding && foreign x)

  -- The prefixes hold the reserved addresses and what remains of the listed ones. Either nothing is excluded; or the
  -- foreign addresses are, they are not too many, and every probe of the mainland remains.
  pub record IsRouted (routes : Routes) : Type 0 where
    pub excluding : Bool
    pub routed :
        (x : ℕ)
        → covered (ranges_of_prefixes routes.prefixes) x ≡ (remaining excluding x || reserved x)
    pub counted : routes.cn_addresses ≡ count_below u32_mod (remaining excluding)
    pub untouched : excluding ≡ false → routes.dropped_addrs ≡ 0
    pub dropped :
        excluding ≡ true → routes.dropped_addrs ≡ count_below u32_mod (λ x. listed x && foreign x)
    pub limited :
        excluding ≡ true → too_many routes.dropped_addrs (count_below u32_mod listed) ≡ false
    pub mainland :
        excluding ≡ true
        → All
            (λ probe. (a : ℕ) × (parse_addr probe ≡ some (v4 a)) × (remaining true a ≡ true))
            mainland_probes

module _ (parse_addr : Bytes → Option Addr) (too_many : ℕ → ℕ → Bool) (rs : List Range)
    (proper : All IsProper rs) (foreign : List ForeignSpan)
    (spans : All IsProper (map span_of foreign))
    (free : covered (map span_of foreign) max_u32 ≡ false) where
  abbrev pub IsRoutedHere : Routes → Type 0
  IsRoutedHere =
      IsRouted parse_addr too_many (λ x. covered rs x) (λ x. covered (map span_of foreign) x)

  plain-IsRouted : (supplemented : ℕ) → IsRoutedHere (routes_of (new rs) supplemented [] 0)
  unfolding routes_of
  plain-IsRouted supplemented = record {
    excluding = false;
    routed = λ x. covered-published rs proper x ∙ ground arith;
    counted =
        address_count-count_below rs (IsProper-IsValid rs proper) (IsProper-IsWord rs proper)
        ∙ ap (count_below u32_mod) (fun_ext (λ x. ground arith));
    untouched = λ e. refl;
    dropped = λ e. cc;
    limited = λ e. cc;
    mainland = λ e. absurd cc;
  }

  -- The ranges that the plan keeps.
  abbrev left : List Range
  left = kept rs proper foreign spans free

  taken-IsRouted :
      (supplemented : ℕ) (excluded : List ForeignSpan)
      → too_many (total_addresses (subtract (new rs).ranges left)) (address_count (some (new rs)))
        ≡ false
      → ltb 0 (length (missing parse_addr (new left) mainland_probes)) ≡ false
      → IsRoutedHere (
          routes_of
            (new left)
            supplemented
            excluded
            (total_addresses (subtract (new rs).ranges left)))
  unfolding routes_of
  taken-IsRouted supplemented excluded limit none_lost =
      let proper_left = kept-IsProper rs proper foreign spans free in
      let remains = covered-kept rs proper foreign spans free in
      record {
        excluding = true;
        routed = λ x. covered-published left proper_left x ∙ ap (λ b. b || reserved x) (remains x);
        counted =
            address_count-count_below left (IsProper-IsValid left proper_left)
              (IsProper-IsWord left proper_left)
            ∙ ap (count_below u32_mod) (fun_ext remains);
        untouched = λ e. cc;
        dropped = λ e. total_addresses-dropped rs proper foreign spans free;
        limited = λ e.
            rw
              (← address_count-count_below rs (IsProper-IsValid rs proper)
                (IsProper-IsWord rs proper))
              limit;
        mainland = λ e.
            All-mono (IsHeld left proper_left parse_addr)
              (λ probe.
                (a : ℕ) × (parse_addr probe ≡ some (v4 a))
                × ((covered rs a && not (true && covered (map span_of foreign) a)) ≡ true))
              mainland_probes (λ probe h. (h.0, h.1, sym (remains h.0) ∙ h.2))
              (missing-IsHeld left proper_left parse_addr mainland_probes none_lost);
      }

  apply_plan-IsRouted :
      (supplemented : ℕ)
      → IsRoutedHere (
          apply_plan
            (new rs)
            supplemented
            (plan_reverse_exclusion parse_addr too_many (new rs) foreign))
  unfolding apply_plan plan_reverse_exclusion
  apply_plan-IsRouted supplemented =
      let dropped = subtract (new rs).ranges left in
      let lost = missing parse_addr (new left) mainland_probes in
      elim (Bool-cases (too_many (total_addresses dropped) (address_count (some (new rs))))) [
        | inl e ↦ rw e (plain-IsRouted supplemented)
        | inr e ↦ rw e (elim (Bool-cases (ltb 0 (length lost))) [
          | inl f ↦ rw f (plain-IsRouted supplemented)
          | inr f ↦ rw f (taken-IsRouted supplemented (attribute_dropped dropped foreign) e f)
        ])
      ]

  pub exclude_foreign-IsRouted :
      (parse_uint : Bytes → Option ℕ) (reverse : Bool) (supplemented : ℕ)
      → IsRoutedHere
          (exclude_foreign parse_addr parse_uint too_many reverse (new rs) supplemented foreign)
  unfolding exclude_foreign
  exclude_foreign-IsRouted parse_uint reverse supplemented =
      elim (Bool-cases (reverse && ltb 0 (length foreign))) [
        | inl e ↦ rw e (apply_plan-IsRouted supplemented)
        | inr e ↦ rw e (plain-IsRouted supplemented)
      ]
