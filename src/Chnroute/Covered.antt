-- ===== src/Chnroute/Covered.antt =====
-- internal/chnroute/chnroute.go: which addresses the published prefixes hold, and the probes.
use dns_stack.Prelude.{
  ℕ, ◌≡◌, refl, sym, ap, ◌∙◌, Bool, true, false, Option, none, some, List, [], ◌∷◌, ◌++◌, ◌||◌, inl,
  inr, arith, ltb, length, All, All-append, any-append, Bool-cases,
}
use dns_stack.Text.{Bytes}
use dns_stack.Netip.{Addr, invalid, v4, v6, Prefix, is4}
use dns_stack.Spans.{Range, covered, within}
use dns_stack.Ipset.Sets.{new}
use dns_stack.Ipset.Queries.{contains_uint-new}
use dns_stack.Ipset.Prefix.{contains, to_u32}
use dns_stack.Ipset.Prefix.Tiles.{ranges_of_prefixes, ranges_of_prefixes-∷}
use dns_stack.Ipset.Prefix.RoundTrip.{covered-prefixes}
use dns_stack.Ipset.Global.{non_global_prefixes}
use dns_stack.Ipset.Global.Laws.{HasRange, non_global-HasRange, reserved}
use dns_stack.Chnroute.{contains_addr, leaked}
use dns_stack.Chnroute.Plan.{published, missing}
use dns_stack.Chnroute.Loaded.{IsProper}
use dns_stack.Chnroute.Planned.{IsProper-IsValid, IsProper-IsWord, covered-set, set-IsProper}

HasRange-IsProper : (ps : List Prefix) → All HasRange ps → All IsProper (ranges_of_prefixes ps)
HasRange-IsProper [] h = unfold ranges_of_prefixes in tt
HasRange-IsProper (p ∷ ps) h =
    let (r, e, valid, word) = h.0 in
    rw (ranges_of_prefixes-∷ p ps r e) ((valid, word), HasRange-IsProper ps h.1)

module _ (rs : List Range) (proper : All IsProper rs) where
  -- The published prefixes of a set hold its addresses and the reserved ones.
  pub covered-published :
      (x : ℕ) → covered (ranges_of_prefixes (published (new rs))) x ≡ (covered rs x || reserved x)
  unfolding published
  covered-published x =
      let all = (new rs).ranges ++ ranges_of_prefixes non_global_prefixes in
      let both : All IsProper all =
        All-append IsProper _ _ (set-IsProper rs proper)
          (HasRange-IsProper non_global_prefixes non_global-HasRange) in
      covered-prefixes all (IsProper-IsValid all both) (IsProper-IsWord all both) x
      ∙ any-append (within x) (new rs).ranges (ranges_of_prefixes non_global_prefixes)
      ∙ ap (λ b. b || reserved x) (covered-set rs proper x)

  module _ (parse_addr : Bytes → Option Addr) where
    at_address : Option Addr → Bool
    at_address (some (v4 a)) = covered rs a
    at_address _ = false

    -- A set holds a probe that is an IPv4 address of the ranges, and no other.
    contains_addr-new :
        (probe : Bytes) → contains_addr parse_addr (new rs) probe ≡ at_address (parse_addr probe)
    unfolding contains_addr at_address contains is4 to_u32
    contains_addr-new probe = go (parse_addr probe) refl
      where
        go :
            (o : Option Addr)
            → parse_addr probe ≡ o
            → contains_addr parse_addr (new rs) probe ≡ at_address o
        go none e = rw (e, contains_addr) refl
        go (some invalid) e = rw (e, contains_addr) refl
        go (some (v6 a)) e = rw (e, contains_addr) refl
        go (some (v4 a)) e =
            rw (e, contains_addr)
              (contains_uint-new rs (IsProper-IsValid rs proper) (IsProper-IsWord rs proper) a)

    -- The probe is an IPv4 address that the ranges hold.
    abbrev pub IsHeld : Bytes → Type 0
    IsHeld probe = (a : ℕ) × (parse_addr probe ≡ some (v4 a)) × (covered rs a ≡ true)

    held :
        (o : Option Addr)
        → at_address o ≡ true
        → (a : ℕ) × (o ≡ some (v4 a)) × (covered rs a ≡ true)
    unfolding at_address
    held none h = ground (arith, h)
    held (some invalid) h = ground (arith, h)
    held (some (v6 a)) h = ground (arith, h)
    held (some (v4 a)) h = (a, refl, h)

    contains_addr-IsHeld :
        (probe : Bytes) → contains_addr parse_addr (new rs) probe ≡ true → IsHeld probe
    contains_addr-IsHeld probe h = held (parse_addr probe) (sym (contains_addr-new probe) ∙ h)

    -- If no probe is missing, the set holds all.
    pub missing-IsHeld :
        (probes : List Bytes)
        → ltb 0 (length (missing parse_addr (new rs) probes)) ≡ false
        → All IsHeld probes
    unfolding missing
    missing-IsHeld [] h = tt
    missing-IsHeld (probe ∷ probes) h =
        elim (Bool-cases (contains_addr parse_addr (new rs) probe)) [
          | inl e ↦ (contains_addr-IsHeld probe e, missing-IsHeld probes (ground (arith, e, h)))
          | inr e ↦ ground (arith, e, h)
        ]

    -- The ranges do not hold the probe.
    abbrev pub IsFree : Bytes → Type 0
    IsFree probe = (a : ℕ) → parse_addr probe ≡ some (v4 a) → covered rs a ≡ false

    contains_addr-IsFree :
        (probe : Bytes) → contains_addr parse_addr (new rs) probe ≡ false → IsFree probe
    unfolding at_address
    contains_addr-IsFree probe h a e = sym (contains_addr-new probe ∙ ap at_address e) ∙ h

    pub leaked-IsFree :
        (probes : List Bytes) → leaked parse_addr (new rs) probes ≡ none → All IsFree probes
    unfolding leaked
    leaked-IsFree [] h = tt
    leaked-IsFree (probe ∷ probes) h = elim (Bool-cases (contains_addr parse_addr (new rs) probe)) [
      | inl e ↦ ground (arith, e, h)
      | inr e ↦ (contains_addr-IsFree probe e, leaked-IsFree probes (ground (arith, e, h)))
    ]

    pub leaked-IsHeld :
        (probes : List Bytes) (probe : Bytes)
        → leaked parse_addr (new rs) probes ≡ some probe
        → IsHeld probe
    unfolding leaked
    leaked-IsHeld [] probe h = cc
    leaked-IsHeld (p ∷ probes) probe h = elim (Bool-cases (contains_addr parse_addr (new rs) p)) [
      | inl e ↦
          let same_probe : p ≡ probe = ground (arith, e, h) in
          rw (← same_probe) (contains_addr-IsHeld p e)
      | inr e ↦ leaked-IsHeld probes probe (ground (arith, e, h))
    ]
