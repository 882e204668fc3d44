-- ===== src/Text/Match.antt =====
-- The tests and cuts of Go's package strings, on lists of bytes.
use Prim.Native.Char.{code}
use Prim.Native.String.{String}
use dns_stack.Prelude.{
  ℕ, ◌≡◌, ◌↔◌, refl, sym, Bool-ext, Bool, true, false, Option, none, some, List, [], ◌∷◌, ◌++◌,
  ◌&&◌, ◌||◌, arith, ltb, ◌==◌, if◌then◌else◌,
}
use dns_stack.Text.{Bytes, first_with, trim_right}

-- The code points of a text: its bytes, if it is ASCII.
abbrev pub codes : String → Bytes
codes String.[] = []
codes (String.◌∷◌ c s) = code c ∷ codes s

-- `a == b`
unfoldable pub same : Bytes → Bytes → Bool
same [] [] = true
same (a ∷ s) (b ∷ t) = a == b && same s t
same _ _ = false

-- `a < b`, byte by byte
unfoldable pub bytes_less : Bytes → Bytes → Bool
bytes_less s [] = false
bytes_less [] (b ∷ t) = true
bytes_less (a ∷ s) (b ∷ t) = if a == b then bytes_less s t else ltb a b

-- Membership in a map whose values are not used.
unfoldable pub has_key : Bytes → List Bytes → Bool
unfolding same
has_key k [] = false
has_key k (j ∷ js) = same k j || has_key k js

-- `m[k] = struct{}{}`
unfoldable pub add_key : Bytes → List Bytes → List Bytes
unfolding has_key
add_key k keys = if has_key k keys then keys else keys ++ k ∷ []

-- `strings.CutPrefix`
unfoldable pub cut_prefix : Bytes → Bytes → Option Bytes
cut_prefix s [] = some s
cut_prefix [] (b ∷ t) = none
cut_prefix (a ∷ s) (b ∷ t) = if a == b then cut_prefix s t else none

abbrev pub is_some {ℓ} : {A : Type ℓ} → Option A → Bool
is_some none = false
is_some (some a) = true

unfoldable pub has_prefix : Bytes → Bytes → Bool
unfolding cut_prefix
has_prefix s t = is_some (cut_prefix s t)

unfoldable pub has_suffix : Bytes → Bytes → Bool
unfolding same
has_suffix [] t = same [] t
has_suffix (a ∷ s) t = same (a ∷ s) t || has_suffix s t

-- `strings.Contains`
unfoldable pub contains : Bytes → Bytes → Bool
unfolding has_prefix
contains [] t = has_prefix [] t
contains (a ∷ s) t = has_prefix (a ∷ s) t || contains s t

abbrev pub push_front : ℕ → Option (Bytes × Bytes) → Option (Bytes × Bytes)
push_front a none = none
push_front a (some (before, after)) = some (a ∷ before, after)

-- `strings.Cut(s, c)` and what `strings.IndexByte` finds: the parts around the first `c`.
unfoldable pub cut : ℕ → Bytes → Option (Bytes × Bytes)
cut c [] = none
cut c (a ∷ s) = let rest = cut c s in if a == c then some ([], s) else push_front a rest

-- `strings.Split(s, c)`
unfoldable pub split_on : ℕ → Bytes → List Bytes
unfolding first_with
split_on c [] = [] ∷ []
split_on c (a ∷ s) = if a == c then [] ∷ split_on c s else first_with a (split_on c s)

-- `strings.TrimRight(s, ".")`
unfoldable pub trim_dots : Bytes → Bytes
unfolding trim_right
trim_dots s = trim_right (λ c. c == b'.') s

pub same_iff : (s t : Bytes) → (same s t ≡ true) ↔ (s ≡ t)
unfolding same
same_iff [] [] = (λ h. refl, λ h. refl)
same_iff [] (b ∷ t) = (λ h. cc, λ h. cc)
same_iff (a ∷ s) [] = (λ h. cc, λ h. cc)
same_iff (a ∷ s) (b ∷ t) = (λ h. ground (arith, same_iff s t), λ h. ground (arith, same_iff s t))

pub same_comm : (s t : Bytes) → same s t ≡ same t s
same_comm s t =
    Bool-ext (same s t) (same t s) (λ h. (same_iff t s).1 (sym ((same_iff s t).0 h)))
      (λ h. (same_iff s t).1 (sym ((same_iff t s).0 h)))

pub same_refl : (s : Bytes) → same s s ≡ true
same_refl s = (same_iff s s).1 refl
