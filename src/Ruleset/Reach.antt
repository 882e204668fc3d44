-- ===== src/Ruleset/Reach.antt =====
-- internal/ruleset/ruleset.go: the addresses of the prefixes that are routed.
use dns_stack.Prelude.{
  ℕ, ◌-◌, ◌/◌, ◌^◌, ◌<◌, ◌≤◌, ◌≡◌, ◌⊎◌, inl, inr, refl, sym, ap, ◌∙◌, true, false, some, List, [],
  ◌∷◌, ◌||◌, arith, ==_iff, ◌==◌, any, All, Bool-cases, u32_mod, length,
}
use mathlib.Core.Path.{subst}
use native.Mathlib.Nat.{mul-div_cancel, div-mul-le_self}
use dns_stack.Prelude.Powers.{pow_pos}
use dns_stack.Netip.{Addr, invalid, v4, v6, Prefix, is4, prefix_from, masked, clear_low}
use dns_stack.Spans.{Range, covered, within, IsValid, IsWord}
use dns_stack.Ipset.Sets.{new}
use dns_stack.Ipset.Prefix.{prefix_range, prefixes}
use dns_stack.Ipset.Prefix.Bounds.{prefix_range-agrees}
use dns_stack.Ipset.Prefix.Tiles.{ranges_of_prefixes, ranges_of_prefixes-∷}
use dns_stack.Ipset.Prefix.RoundTrip.{covered-prefixes}
use dns_stack.Ecszone.Direct.{masked-prefix_from}
use dns_stack.Ruleset.Setup.{routable}
use dns_stack.Ruleset.Events.{is_partial}
use dns_stack.Ruleset.Outcome.{collapse}
use dns_stack.Ruleset.Causes.{IsPrefixOf}

-- An IPv4 address is a number of 32 bits.
abbrev pub IsFit : Addr → Type 0
IsFit (v4 a) = a < u32_mod
IsFit _ = Unit

-- The address is that of the entry, or in its block of the configured length, which is from 1 to 31.
abbrev pub IsReached : ℕ → Addr → ℕ → Type 0
IsReached agg (v4 a) x =
    (x ≡ a) ⊎ ((is_partial agg ≡ true) × (x / 2 ^ (32 - agg) ≡ a / 2 ^ (32 - agg)))
IsReached agg _ x = ⊥

-- The range of a prefix, and what its addresses are.
pub record HasReach (p : Prefix) (P : ℕ → Type 0) : Type 0 where
  pub range : Range
  pub is_range : prefix_range p ≡ some (range, true)
  pub valid : IsValid range
  pub word : IsWord range
  pub reaches : (x : ℕ) → within x range ≡ true → P x

host-HasReach : (agg a : ℕ) → a < u32_mod → HasReach (prefix_from (v4 a) 32) (IsReached agg (v4 a))
host-HasReach agg a w =
    let (r, e, valid, word, agrees) = prefix_range-agrees a 32 (omega arith) w in
    record {
      range = r;
      is_range = e;
      valid = valid;
      word = word;
      reaches = λ x h. inl (ground (arith, agrees x, h));
    }

block-HasReach :
    (agg a : ℕ)
    → a < u32_mod
    → is_partial agg ≡ true
    → HasReach (masked (prefix_from (v4 a) agg)) (IsReached agg (v4 a))
block-HasReach agg a w q =
    let few : agg ≤ 32 = ground (arith, q) in
    let small : clear_low (32 - agg) a < u32_mod =
      omega (arith, w, div-mul-le_self a (2 ^ (32 - agg))) in
    let (r, e, valid, word, agrees) = prefix_range-agrees (clear_low (32 - agg) a) agg few small in
    record {
      range = r;
      is_range = ap prefix_range (masked-prefix_from a agg few) ∙ e;
      valid = valid;
      word = word;
      reaches = λ x h. inr (
        q,
        (==_iff _ _).0 (sym (agrees x) ∙ h)
            ∙ mul-div_cancel (a / 2 ^ (32 - agg)) (pow_pos (32 - agg)),
      );
    }

pub prefix-HasReach :
    (agg : ℕ) (ip : Addr) (p : Prefix)
    → IsFit ip
    → IsPrefixOf agg ip p
    → HasReach p (IsReached agg ip)
unfolding routable is4
prefix-HasReach agg invalid p w (r, h) = ground (arith, r)
prefix-HasReach agg (v6 a) p w (r, h) = ground (arith, r)
prefix-HasReach agg (v4 a) p w (r, inl e) =
    subst (λ q. HasReach q (IsReached agg (v4 a))) (sym e) (host-HasReach agg a w)
prefix-HasReach agg (v4 a) p w (r, inr (q, e)) =
    subst (λ q. HasReach q (IsReached agg (v4 a))) (sym e) (block-HasReach agg a w q)

-- The prefixes of a list, of each of which something is known that explains its addresses.
module _ (Q : ℕ → Type 0) where
  ranges-IsValid :
      (ps : List Prefix)
      → All (λ p. HasReach p Q) ps
      → All IsValid (ranges_of_prefixes ps) × All IsWord (ranges_of_prefixes ps)
  ranges-IsValid [] h = unfold ranges_of_prefixes in (tt, tt)
  ranges-IsValid (p ∷ ps) h =
      let (valid, word) = ranges-IsValid ps h.1 in
      rw (ranges_of_prefixes-∷ p ps h.0.range h.0.is_range) ((h.0.valid, valid), (h.0.word, word))

  ranges-reach :
      (ps : List Prefix) (x : ℕ)
      → All (λ p. HasReach p Q) ps
      → covered (ranges_of_prefixes ps) x ≡ true
      → Q x
  ranges-reach [] x h c = absurd (unfold ranges_of_prefixes any in ground (arith, c))
  ranges-reach (p ∷ ps) x h c =
      let here : (within x h.0.range || covered (ranges_of_prefixes ps) x) ≡ true =
        unfold any in
        ap (λ rs. covered rs x) (sym (ranges_of_prefixes-∷ p ps h.0.range h.0.is_range)) ∙ c in
      elim (Bool-cases (within x h.0.range)) [
        | inl e ↦ h.0.reaches x e
        | inr e ↦ ranges-reach ps x h.1 (ground (arith, here, e))
      ]

  pub collapse-reach :
      (ps : List Prefix) (x : ℕ)
      → All (λ p. HasReach p Q) ps
      → covered (ranges_of_prefixes (collapse ps)) x ≡ true
      → Q x
  unfolding collapse
  collapse-reach [] x h c = ranges-reach [] x tt c
  collapse-reach (p ∷ ps) x h c =
      let (valid, word) = ranges-IsValid (p ∷ ps) h in
      let some_item : (length (p ∷ ps) == 0) ≡ false = ground arith in
      let same_list : collapse (p ∷ ps) ≡ prefixes (some (new (ranges_of_prefixes (p ∷ ps)))) =
        rw some_item refl in
      ranges-reach (p ∷ ps) x h (
        sym (covered-prefixes (ranges_of_prefixes (p ∷ ps)) valid word x)
        ∙ ap (λ qs. covered (ranges_of_prefixes qs) x) (sym same_list)
        ∙ c)
