-- ===== src/Ruleset/Order.antt =====
-- internal/ruleset/ruleset.go: the functions that end `Build` do not see the order of the events.
use dns_stack.Prelude.{
  suc, ◌≡◌, refl, ap, ◌∙◌, Bool, true, false, Option, none, some, List, [], ◌∷◌, ◌++◌, ◌||◌, inl,
  inr, arith, ◌==◌, length, Bool-cases,
}
use mathlib.Core.List.{Permᴰ, append_assoc}
use mathlib.Core.List.Permᴰ
use dns_stack.Prelude.Sort.{sort_slice}
use dns_stack.Prelude.Permutations.{flat, flat-Permᴰ, sort_slice-Permᴰ}
use dns_stack.Text.{Bytes}
use dns_stack.Text.Match.{same, same_iff, bytes_less, has_key, add_key}
use dns_stack.Text.Order.{bytes_less-IsStrict, bytes_less-TiesAreEqual}
use dns_stack.Netip.{Prefix}
use dns_stack.Spans.{Range}
use dns_stack.Ipset.Collapse as Ranges
use dns_stack.Ipset.Sets.{new}
use dns_stack.Ipset.Prefix.{prefix_range, prefixes}
use dns_stack.Ipset.Prefix.Tiles.{ranges_of_prefixes}
use dns_stack.Ipset.Prefix.RoundTrip.{new_same}
use dns_stack.Ruleset.Events.{Event}
use dns_stack.Ruleset.Outcome.{as_list, collect, keys_of, sorted_keys, collapse}

collect-flat :
    {A : Type 0} (f : Event → Option A) (es : List Event)
    → collect f es ≡ flat (λ e. as_list (f e)) es
unfolding collect flat
collect-flat f [] = refl
collect-flat f (e ∷ es) = ap (λ l. as_list (f e) ++ l) (collect-flat f es)

pub collect-Permᴰ :
    {A : Type 0} (f : Event → Option A) {es fs : List Event}
    → Permᴰ es fs
    → Permᴰ (collect f es) (collect f fs)
collect-Permᴰ f {es} {fs} d =
    rw (collect-flat f es, collect-flat f fs) (flat-Permᴰ (λ e. as_list (f e)) d)

-- The addresses of one prefix, as `collapse` adds them.
as_range : Option (Range × Bool) → List Range
as_range (some (r, true)) = r ∷ []
as_range _ = []

ranges_of_prefixes-flat :
    (ps : List Prefix) → ranges_of_prefixes ps ≡ flat (λ p. as_range (prefix_range p)) ps
unfolding flat ranges_of_prefixes as_range
ranges_of_prefixes-flat [] = refl
ranges_of_prefixes-flat (p ∷ ps) = by_range (prefix_range p) refl (ranges_of_prefixes-flat ps)
  where
    rest : List Range
    rest = flat (λ q. as_range (prefix_range q)) ps

    by_range :
        (o : Option (Range × Bool))
        → prefix_range p ≡ o
        → ranges_of_prefixes ps ≡ rest
        → ranges_of_prefixes (p ∷ ps) ≡ as_range o ++ rest
    by_range none e ih = rw (e, ranges_of_prefixes) ih
    by_range (some (r, true)) e ih = rw (e, ranges_of_prefixes) (ap (λ (l : List Range). r ∷ l) ih)
    by_range (some (r, false)) e ih = rw (e, ranges_of_prefixes) ih

collapse-prefixes : (ps : List Prefix) → collapse ps ≡ prefixes (some (new (ranges_of_prefixes ps)))
unfolding collapse Ranges.collapse
collapse-prefixes [] = refl
collapse-prefixes (p ∷ ps) =
    let some_prefix : (suc (length ps) == 0) ≡ false = ground arith in rw some_prefix refl

pub collapse-Permᴰ : {ps qs : List Prefix} → Permᴰ ps qs → collapse ps ≡ collapse qs
collapse-Permᴰ {ps} {qs} d =
    rw
      (
        collapse-prefixes ps,
        collapse-prefixes qs,
        ranges_of_prefixes-flat ps,
        ranges_of_prefixes-flat qs,
      )
      (ap (λ s. prefixes (some s))
        (new_same _ _ (Ranges.collapse-Permᴰ (flat-Permᴰ (λ q. as_range (prefix_range q)) d))))

-- Membership does not see the order of the keys.
has_key-Permᴰ : (s : Bytes) {ks js : List Bytes} → Permᴰ ks js → has_key s ks ≡ has_key s js
unfolding has_key
has_key-Permᴰ s Permᴰ.nil = refl
has_key-Permᴰ s (Permᴰ.cons {b = b} e d) = rw e (ap (λ t. same s b || t) (has_key-Permᴰ s d))
has_key-Permᴰ s (Permᴰ.swap {a' = a} {b' = b} {l = l} e f) = rw (e, f) (ground arith)
has_key-Permᴰ s (Permᴰ.trans d e) = has_key-Permᴰ s d ∙ has_key-Permᴰ s e

has_key-append :
    (s k : Bytes) (ks : List Bytes) → has_key s (ks ++ k ∷ []) ≡ (has_key s ks || same s k)
unfolding has_key
has_key-append s k [] = ground arith
has_key-append s k (j ∷ ks) = ground (arith, has_key-append s k ks)

add_key-Permᴰ : (s : Bytes) {ks js : List Bytes} → Permᴰ ks js → Permᴰ (add_key s ks) (add_key s js)
unfolding add_key
add_key-Permᴰ s {ks} {js} d = rw (has_key-Permᴰ s d) (elim (Bool-cases (has_key s js)) [
  | inl e ↦ rw e d
  | inr e ↦ rw e (Permᴰ.append_right (s ∷ []) d)
])

keys_of-Permᴰ_keys :
    (ss : List Bytes) {ks js : List Bytes} → Permᴰ ks js → Permᴰ (keys_of ks ss) (keys_of js ss)
unfolding keys_of
keys_of-Permᴰ_keys [] d = d
keys_of-Permᴰ_keys (s ∷ ss) d = keys_of-Permᴰ_keys ss (add_key-Permᴰ s d)

same_comm : (s t : Bytes) → same s t ≡ same t s
unfolding same
same_comm [] [] = refl
same_comm [] (b ∷ t) = refl
same_comm (a ∷ s) [] = refl
same_comm (a ∷ s) (b ∷ t) = rw (same_comm s t) (ground arith)

-- Two keys may be added in either order.
add_key_comm :
    (s t : Bytes) (ks : List Bytes) → Permᴰ (add_key s (add_key t ks)) (add_key t (add_key s ks))
unfolding add_key
add_key_comm s t ks = elim (Bool-cases (has_key s ks)) [
  | inl e ↦ (elim (Bool-cases (has_key t ks)) [
    | inl f ↦ rw (e, f) (rw e (Permᴰ.refl ks))
    | inr f ↦ rw (e, f) (rw (has_key-append s t ks) (rw e (Permᴰ.refl (ks ++ t ∷ []))))
  ])
  | inr e ↦ (elim (Bool-cases (has_key t ks)) [
    | inl f ↦ rw (e, f) (rw (has_key-append t s ks) (rw (e, f) (Permᴰ.refl (ks ++ s ∷ []))))
    | inr f ↦
        rw (e, f)
          (rw (has_key-append s t ks, has_key-append t s ks)
            (rw (e, f, same_comm t s)
              (elim (Bool-cases (same s t)) [
                | inl q ↦ rw (q, (same_iff s t).0 q) (Permᴰ.refl (ks ++ t ∷ []))
                | inr q ↦
                    rw (q, append_assoc ks (t ∷ []) (s ∷ []), append_assoc ks (s ∷ []) (t ∷ []))
                      (Permᴰ.append_left ks (Permᴰ.swap refl refl))
              ])))
  ])
]

pub keys_of-Permᴰ :
    {ss ts : List Bytes} → Permᴰ ss ts → (ks : List Bytes) → Permᴰ (keys_of ks ss) (keys_of ks ts)
unfolding keys_of
keys_of-Permᴰ Permᴰ.nil ks = Permᴰ.refl ks
keys_of-Permᴰ (Permᴰ.cons {b = b} e d) ks = rw e (keys_of-Permᴰ d (add_key b ks))
keys_of-Permᴰ (Permᴰ.swap {a' = a} {b' = b} {l = l} e f) ks =
    rw (e, f) (keys_of-Permᴰ_keys l (add_key_comm a b ks))
keys_of-Permᴰ (Permᴰ.trans d e) ks = Permᴰ.trans (keys_of-Permᴰ d ks) (keys_of-Permᴰ e ks)

pub sorted :
    {ss ts : List Bytes} → Permᴰ ss ts → sort_slice bytes_less ss ≡ sort_slice bytes_less ts
sorted d = sort_slice-Permᴰ bytes_less bytes_less-IsStrict bytes_less-TiesAreEqual d

pub sorted_keys-Permᴰ : {ss ts : List Bytes} → Permᴰ ss ts → sorted_keys ss ≡ sorted_keys ts
unfolding sorted_keys
sorted_keys-Permᴰ d = sorted (keys_of-Permᴰ d [])
