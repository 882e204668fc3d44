-- ===== src/Dnswire/Types/Codes.antt =====
-- internal/dnswire/message.go: `TypeCode` reads what `TypeName` writes.
use dns_stack.Prelude.{
  ℕ, ◌<◌, ◌≤◌, ◌≡◌, refl, sym, ap, ◌∙◌, Bool, true, false, Option, none, some, List, [], ◌∷◌, ◌++◌,
  not, ◌==◌, arith, All, any, inl, inr, Bool-cases,
}
use dns_stack.Text.{Bytes, is_space, trim_space, trim_right, drop_while}
use dns_stack.Text.Match.{codes, same, same_iff, cut_prefix, has_prefix}
use dns_stack.Text.Solid.{IsSolid, trim_space-IsSolid}
use dns_stack.Dnswire.Types.{
  type_names, name_in, code_in, upper, to_upper, type_name, number_of, type_code,
}

-- What the standard library documents of the decimal text of a uint16 value.
pub record IsDecimal (parse_number : Bytes → Option ℕ) (print_number : ℕ → Bytes) : Type 0 where
  pub reads : (t : ℕ) → t < 65536 → parse_number (print_number t) ≡ some t
  pub digits : (t : ℕ) → t < 65536 → All (λ c. (b'0' ≤ c) × (c ≤ b'9')) (print_number t)

is_code : Option ℕ → ℕ → Bool
is_code none t = false
is_code (some code) t = code == t

code_of : (o : Option ℕ) (code : ℕ) → is_code o code ≡ true → o ≡ some code
unfolding is_code
code_of none code h = cc
code_of (some other) code h = ground arith

-- The name of an entry is found again.
is_found : ℕ × Bytes → Bool
is_found (code, name) = is_code (code_in type_names (to_upper (trim_space name))) code

found :
    (names : List (ℕ × Bytes)) (t : ℕ) (name : Bytes)
    → any (λ e. not (is_found e)) names ≡ false
    → name_in names t ≡ some name
    → code_in type_names (to_upper (trim_space name)) ≡ some t
unfolding any name_in is_found
found [] t name h e = cc
found ((code, other) ∷ names) t name h e = elim (Bool-cases (code == t)) [
  | inr c ↦ found names t name (ground (arith, h)) (ground (arith, e, c))
  | inl c ↦
      let same_code : code ≡ t = ground (arith, c) in
      let same_name : other ≡ name = ground (arith, e, c) in
      let o : Option ℕ = code_in type_names (to_upper (trim_space other)) in
      let known : o ≡ some code = code_of o code (ground (arith, h)) in
      rw (sym same_name) (known ∙ ap some same_code)
]

begins_type : (s : Bytes) → has_prefix (codes "TYPE" ++ s) (codes "TYPE") ≡ true
unfolding has_prefix cut_prefix
begins_type s = refl

-- A text that begins with TYPE is none of the names.
code_in_type :
    (names : List (ℕ × Bytes)) (s : Bytes)
    → any (λ (e : ℕ × Bytes). has_prefix e.1 (codes "TYPE")) names ≡ false
    → code_in names (codes "TYPE" ++ s) ≡ none
unfolding any code_in
code_in_type [] s h = refl
code_in_type ((code, name) ∷ names) s h = elim (Bool-cases (same name (codes "TYPE" ++ s))) [
  | inr e ↦ rw e (code_in_type names s (ground (arith, h)))
  | inl e ↦
      let named : name ≡ codes "TYPE" ++ s = (same_iff _ _).0 e in
      let begins : has_prefix name (codes "TYPE") ≡ true = rw named (begins_type s) in
      ground (arith, h, begins)
]

to_upper-digits : (s : Bytes) → All (λ c. (b'0' ≤ c) × (c ≤ b'9')) s → to_upper s ≡ s
unfolding to_upper upper
to_upper-digits [] h = refl
to_upper-digits (c ∷ s) h =
    let kept : upper c ≡ c = ground (arith, h.0) in
    rw kept (ap (λ r. c ∷ r) (to_upper-digits s h.1))

digits-IsSolid : (s : Bytes) → All (λ c. (b'0' ≤ c) × (c ≤ b'9')) s → IsSolid s
unfolding is_space
digits-IsSolid [] h = tt
digits-IsSolid (c ∷ s) h = (ground (arith, h.0), digits-IsSolid s h.1)

type_code_known :
    (parse_number : Bytes → Option ℕ) (t : ℕ) (name : Bytes)
    → name_in type_names t ≡ some name
    → type_code parse_number name ≡ some t
unfolding type_code number_of is_found is_code code_in to_upper upper trim_space trim_right
    drop_while is_space same any
type_code_known parse_number t name e = rw (found type_names t name refl e) refl

type_code_digits :
    (parse_number : Bytes → Option ℕ) (s : Bytes)
    → All (λ c. (b'0' ≤ c) × (c ≤ b'9')) s
    → type_code parse_number (codes "TYPE" ++ s) ≡ parse_number s
unfolding type_code number_of has_prefix cut_prefix any
type_code_digits parse_number s h =
    let solid : IsSolid (codes "TYPE" ++ s) =
      unfold is_space in (refl, (refl, (refl, (refl, digits-IsSolid s h)))) in
    let kept : to_upper (codes "TYPE" ++ s) ≡ codes "TYPE" ++ s =
      unfold to_upper upper in ap (λ r. codes "TYPE" ++ r) (to_upper-digits s h) in
    rw (trim_space-IsSolid (codes "TYPE" ++ s) solid)
      (rw kept (rw (code_in_type type_names s refl) refl))

type_code_of :
    (parse_number : Bytes → Option ℕ) (print_number : ℕ → Bytes)
    → IsDecimal parse_number print_number
    → (t : ℕ) → t < 65536
    → (o : Option Bytes) → name_in type_names t ≡ o
    → type_code parse_number (type_name print_number t) ≡ some t
unfolding type_name
type_code_of parse_number print_number d t w (some name) e =
    rw (e, type_name) (type_code_known parse_number t name e)
type_code_of parse_number print_number d t w none e =
    rw (e, type_name) (type_code_digits parse_number (print_number t) (d.digits t w) ∙ d.reads t w)

-- `TypeCode` gives the type back whose name `TypeName` writes, for every uint16 type.
pub type_code-type_name :
    (parse_number : Bytes → Option ℕ) (print_number : ℕ → Bytes)
    → IsDecimal parse_number print_number
    → (t : ℕ) → t < 65536
    → type_code parse_number (type_name print_number t) ≡ some t
type_code-type_name parse_number print_number d t w =
    type_code_of parse_number print_number d t w (name_in type_names t) refl
