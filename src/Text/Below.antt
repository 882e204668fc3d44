-- ===== src/Text/Below.antt =====
-- The walk up from a name to its parents, as internal/cdn/cdn.go `IsGeoSteered` and
-- internal/ruleset/ruleset.go `mainlandCDN` write it: is the name or a parent of it a key?
use dns_stack.Prelude.{
  ℕ, zero, suc, ◌≤◌, ◌<◌, ◌≡◌, refl, sym, ap, ◌∙◌, Bool, true, false, Option, none, some, List, [],
  ◌∷◌, ◌&&◌, ◌||◌, inl, inr, arith, ltb, ◌==◌, Bool-cases, if◌then◌else◌, length, any,
}
use dns_stack.Text.{Bytes}
use dns_stack.Text.Match.{same, has_suffix, has_key, cut, push_front}

-- The loop, on fuel: each turn drops at least the dot, so that the name's length is enough.
unfoldable pub walk_up : ℕ → List Bytes → Bytes → Bool
walk_up zero keys rest = false
walk_up (suc fuel) keys rest =
    if length rest == 0
    then false
    else if has_key rest keys
    then true
    else (elim (cut b'.' rest) [ none ↦ false | some (label, parent) ↦ walk_up fuel keys parent ])

-- `name == s || strings.HasSuffix(name, "."+s)`
abbrev pub is_or_below : Bytes → Bytes → Bool
is_or_below name s = same name s || has_suffix name (b'.' ∷ s)

-- The name is a key that is not empty, or lies below one.
abbrev pub is_below_any : List Bytes → Bytes → Bool
is_below_any keys name = any (λ k. ltb 0 (length k) && is_or_below name k) keys

pub has_key-any : (s : Bytes) (keys : List Bytes) → has_key s keys ≡ any (λ k. same s k) keys
unfolding has_key any
has_key-any s [] = refl
has_key-any s (k ∷ keys) = ap (λ b. same s k || b) (has_key-any s keys)

-- Whether the key is the name's parent or lies above it.
reached : Option (Bytes × Bytes) → Bytes → Bool
reached none k = false
reached (some (label, parent)) k = is_or_below parent k

reached-push_front :
    (c : ℕ) (o : Option (Bytes × Bytes)) (k : Bytes) → reached (push_front c o) k ≡ reached o k
unfolding reached
reached-push_front c none k = refl
reached-push_front c (some _) k = refl

-- A name lies below a key exactly if the part after its first dot is the key or lies below it.
has_suffix-cut : (s k : Bytes) → has_suffix s (b'.' ∷ k) ≡ reached (cut b'.' s) k
unfolding cut has_suffix same reached
has_suffix-cut [] k = refl
has_suffix-cut (c ∷ s) k = elim (Bool-cases (c == b'.')) [
  | inl e ↦ rw e refl
  | inr e ↦ rw e (has_suffix-cut s k ∙ sym (reached-push_front c (cut b'.' s) k))
]

push_front-some :
    (c : ℕ) (label parent : Bytes) (o : Option (Bytes × Bytes))
    → push_front c o ≡ some (label, parent)
    → (rest : Bytes) × (o ≡ some (rest, parent))
push_front-some c label parent none h = cc
push_front-some c label parent (some (rest, after)) h =
    (rest, ap (λ (p : Bytes). some (rest, p)) cc)

cut_shorter :
    (s label parent : Bytes) → cut b'.' s ≡ some (label, parent) → length parent < length s
unfolding cut
cut_shorter [] label parent h = cc
cut_shorter (c ∷ s) label parent h = elim (Bool-cases (c == b'.')) [
  | inl e ↦ let same_rest : s ≡ parent = ground (arith, e, h) in rw (sym same_rest) (omega arith)
  | inr e ↦
      let found = push_front-some c label parent (cut b'.' s) (ground (arith, e, h)) in
      ground (arith, cut_shorter s found.0 parent found.1)
]

or_swap : (a b h t : Bool) → ((a || b) || (h || t)) ≡ ((a || h) || (b || t))
or_swap a b h t = ground arith

-- One turn of the walk.
is_below_any-step :
    (c : ℕ) (s : Bytes) (keys : List Bytes)
    → is_below_any keys (c ∷ s)
      ≡ (has_key (c ∷ s) keys || any (λ k. ltb 0 (length k) && reached (cut b'.' (c ∷ s)) k) keys)
unfolding has_key any same
is_below_any-step c s [] = refl
is_below_any-step c s ([] ∷ keys) = is_below_any-step c s keys
is_below_any-step c s ((b ∷ k) ∷ keys) =
    let positive : ltb 0 (suc (length k)) ≡ true = ground arith in
    rw (has_suffix-cut (c ∷ s) (b ∷ k), positive, is_below_any-step c s keys)
      (or_swap (same (c ∷ s) (b ∷ k)) (reached (cut b'.' (c ∷ s)) (b ∷ k)) _ _)

-- A name without a first dot, or with an empty one, is below no key.
is_below_any-nothing : (keys : List Bytes) → any (λ k. ltb 0 (length k) && false) keys ≡ false
unfolding any
is_below_any-nothing [] = refl
is_below_any-nothing (k ∷ keys) = ground (arith, is_below_any-nothing keys)

is_below_any-empty : (keys : List Bytes) → is_below_any keys [] ≡ false
unfolding any same has_suffix
is_below_any-empty [] = refl
is_below_any-empty ([] ∷ keys) = is_below_any-empty keys
is_below_any-empty ((b ∷ k) ∷ keys) = ground (arith, is_below_any-empty keys)

walk_up-reached :
    (fuel : ℕ) (keys : List Bytes) (o : Option (Bytes × Bytes))
    → ((label parent : Bytes)
        → o ≡ some (label, parent)
        → walk_up fuel keys parent ≡ is_below_any keys parent)
    → (elim o [ none ↦ false | some (label, parent) ↦ walk_up fuel keys parent ])
      ≡ any (λ k. ltb 0 (length k) && reached o k) keys
unfolding reached
walk_up-reached fuel keys none h = sym (is_below_any-nothing keys)
walk_up-reached fuel keys (some (label, parent)) h = h label parent refl

-- The walk up from a name, with fuel for every byte, finds a key exactly if the name is a key that is not
-- empty or ends with a dot and such a key.
pub walk_up-is_below_any :
    (fuel : ℕ) (keys : List Bytes) (name : Bytes)
    → length name ≤ fuel
    → walk_up fuel keys name ≡ is_below_any keys name
unfolding walk_up
walk_up-is_below_any zero keys [] h = sym (is_below_any-empty keys)
walk_up-is_below_any (suc fuel) keys [] h = sym (is_below_any-empty keys)
walk_up-is_below_any zero keys (c ∷ s) h = ground (arith, h)
walk_up-is_below_any (suc fuel) keys (c ∷ s) h =
    let up = walk_up-reached fuel keys (cut b'.' (c ∷ s)) (λ label parent q.
      let shorter = cut_shorter (c ∷ s) label parent q in
      walk_up-is_below_any fuel keys parent (omega (arith, h, shorter))) in
    let some_byte : (suc (length s) == 0) ≡ false = ground arith in
    rw (is_below_any-step c s keys, some_byte)
      (elim (Bool-cases (has_key (c ∷ s) keys)) [ inl e ↦ rw e refl | inr e ↦ rw e up ])
