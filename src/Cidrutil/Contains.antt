-- ===== src/Cidrutil/Contains.antt =====
-- `Set.Contains` against the prefixes that the set was made from.
use dns_stack.Prelude.{
  ℕ, zero, suc, ◌+◌, ◌-◌, ◌/◌, ◌^◌, ◌≡◌, refl, ap, ◌∙◌, Bool, true, false, some, List, [], ◌∷◌,
  ◌||◌, ◌&&◌, inl, inr, arith, u32_mod, ◌==◌, if◌then◌else◌, All, any, Bool-cases,
}
use mathlib.Core.Bool.{false≢true}
use dns_stack.Prelude.Powers.{pow_pos}
use dns_stack.Netip.{
  Addr, invalid, v4, v6, is6, is_valid, unmap, mapped_block, Prefix, masked, clear_low,
}
use dns_stack.Spans.{covered, within, IsValid}
use dns_stack.Ipset.Prefix.Bounds.{within_ends}
use dns_stack.Cidrutil.Merge.{Span, merge_spans, covered-merge_spans, merge_spans-IsNormal}
use dns_stack.Cidrutil.Membership.{
  span_of_prefix, family_spans, new_set, in_spans, contains, to_big, in_spans-covered,
}

-- `netip.Prefix.Contains`: the family is the same, and so are the leading bits.
abbrev pub agrees : ℕ → Addr → Addr → Bool
agrees zero a x = false
agrees (suc bits) (v4 a) (v4 x) = x / 2 ^ (32 - bits) == a / 2 ^ (32 - bits)
agrees (suc bits) (v6 a) (v6 x) = x / 2 ^ (128 - bits) == a / 2 ^ (128 - bits)
agrees (suc bits) _ _ = false

abbrev pub holds : Addr → Prefix → Bool
holds x p = agrees p.bits_plus_one p.addr x

-- A valid prefix has an address, as those that netip makes.
abbrev pub HasAddr : ℕ → Addr → Type 0
HasAddr zero a = Unit
HasAddr (suc bits) invalid = ⊥
HasAddr (suc bits) _ = Unit

abbrev pub IsProper : Prefix → Type 0
IsProper p = HasAddr p.bits_plus_one p.addr

-- The family and the number of an address.
abbrev of_family : Bool → ℕ → Addr
of_family true x = v6 x
of_family false x = v4 x

within_block :
    (x a k : ℕ)
    → within x (record { lo = clear_low k a; hi = clear_low k a + 2 ^ k - 1 })
      ≡ (x / 2 ^ k == a / 2 ^ k)
within_block x a k =
    within_ends x (a / 2 ^ k) (2 ^ k)
      (record { lo = clear_low k a; hi = clear_low k a + 2 ^ k - 1 }) (pow_pos k)
      (omega (arith, pow_pos k)) refl

-- One prefix of the loop of `NewSet`.
one_span :
    (six : Bool) (x : ℕ) (bits_plus_one : ℕ) (a : Addr) (rest : List Span)
    → HasAddr bits_plus_one a
    → covered
        (if bits_plus_one == 0
          then rest
          else (if is6 a
              then (if six
                  then span_of_prefix (record { addr = a; bits_plus_one = bits_plus_one }) ∷ rest
                  else rest)
              else (if six
                  then rest
                  else span_of_prefix (record { addr = a; bits_plus_one = bits_plus_one }) ∷ rest)))
        x
      ≡ (agrees bits_plus_one a (of_family six x) || covered rest x)
unfolding any span_of_prefix is6
one_span six x zero a rest h = refl
one_span six x (suc bits) invalid rest h = absurd h
one_span true x (suc bits) (v4 a) rest h =
    let z : (suc bits == 0) ≡ false = ground arith in rw z refl
one_span false x (suc bits) (v4 a) rest h =
    let e : suc bits - 1 ≡ bits = omega arith in
    let z : (suc bits == 0) ≡ false = ground arith in
    rw (e, z) (ap (λ b. b || covered rest x) (within_block x a (32 - bits)))
one_span true x (suc bits) (v6 a) rest h =
    let e : suc bits - 1 ≡ bits = omega arith in
    let z : (suc bits == 0) ≡ false = ground arith in
    rw (e, z) (ap (λ b. b || covered rest x) (within_block x a (128 - bits)))
one_span false x (suc bits) (v6 a) rest h =
    let z : (suc bits == 0) ≡ false = ground arith in rw z refl

covered-family_spans :
    (six : Bool) (x : ℕ) (ps : List Prefix)
    → All IsProper ps
    → covered (family_spans six ps) x ≡ any (holds (of_family six x)) ps
unfolding family_spans
covered-family_spans six x [] h = unfold any in refl
covered-family_spans six x (p ∷ ps) h =
    one_span six x p.bits_plus_one p.addr (family_spans six ps) h.0
    ∙ joined (covered-family_spans six x ps h.1)
  where
    joined :
        covered (family_spans six ps) x ≡ any (holds (of_family six x)) ps
        → (holds (of_family six x) p || covered (family_spans six ps) x)
          ≡ any (holds (of_family six x)) (p ∷ ps)
    joined e = unfold any in ap (λ b. holds (of_family six x) p || b) e

span-IsValid : (p : Prefix) → IsValid (span_of_prefix p)
unfolding span_of_prefix
span-IsValid p =
    omega
      (arith, pow_pos ((if is6 (masked p).addr then 128 else 32) - ((masked p).bits_plus_one - 1)))

family_spans-IsValid : (six : Bool) (ps : List Prefix) → All IsValid (family_spans six ps)
unfolding family_spans
family_spans-IsValid six [] = tt
family_spans-IsValid six (p ∷ ps) =
    let k = family_spans-IsValid six ps in
    let v = span-IsValid p in
    elim (Bool-cases (p.bits_plus_one == 0)) [
      | inl e ↦ rw e k
      | inr e ↦ rw e (elim (Bool-cases (is6 p.addr)) [
        | inl f ↦ rw f (elim (Bool-cases six) [ inl g ↦ rw g (v, k) | inr g ↦ rw g k ])
        | inr f ↦ rw f (elim (Bool-cases six) [ inl g ↦ rw g k | inr g ↦ rw g (v, k) ])
      ])
    ]

in_family :
    (six : Bool) (ps : List Prefix) (x : ℕ)
    → All IsProper ps
    → in_spans (merge_spans (family_spans six ps)) x ≡ any (holds (of_family six x)) ps
in_family six ps x h =
    in_spans-covered (merge_spans (family_spans six ps)) x
      (merge_spans-IsNormal (family_spans six ps) (family_spans-IsValid six ps))
    ∙ covered-merge_spans (family_spans six ps) x
    ∙ covered-family_spans six x ps h

unmap-is_valid : (a : Addr) → is_valid a ≡ true → is_valid (unmap a) ≡ true
unfolding unmap is_valid
unmap-is_valid invalid e = e
unmap-is_valid (v4 a) e = refl
unmap-is_valid (v6 a) e = elim (Bool-cases (a / u32_mod == mapped_block)) [
  | inl f ↦ rw f refl
  | inr f ↦ rw f refl
]

contains_as :
    (ps : List Prefix) (a : Addr)
    → All IsProper ps
    → is_valid a ≡ true
    → in_spans (if is6 a then (new_set ps).v6_spans else (new_set ps).v4_spans) (to_big a)
      ≡ any (holds a) ps
unfolding new_set is6 to_big is_valid
contains_as ps invalid h e = absurd (false≢true e)
contains_as ps (v4 x) h e = in_family false ps x h
contains_as ps (v6 x) h e = in_family true ps x h

-- `Contains` of the set that `NewSet` makes: exactly when the address is valid and, once
-- unmapped, lies in one of the prefixes, each of which is invalid or has an address.
pub contains-new_set :
    (ps : List Prefix) (a : Addr)
    → All IsProper ps
    → contains (some (new_set ps)) a ≡ (is_valid a && any (holds (unmap a)) ps)
unfolding contains
contains-new_set ps a h = elim (Bool-cases (is_valid a)) [
  | inl e ↦ rw e (contains_as ps (unmap a) h (unmap-is_valid a e))
  | inr e ↦ rw e refl
]
