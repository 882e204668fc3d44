-- ===== src/Text.antt =====
-- Byte strings: what the program uses of Go's package strings. `ToLower` and `TrimSpace` are those
-- on ASCII; a byte from 128 on is left alone.
pub mod Split
pub mod Match
pub mod Fields
pub mod Maps
pub mod Solid
pub mod Below
pub mod Order
use dns_stack.Prelude.{
  ℕ, zero, suc, ◌+◌, Bool, true, false, List, [], ◌∷◌, ◌++◌, map, ◌&&◌, ◌||◌, leb, ltb, ◌==◌,
  if◌then◌else◌, length,
}
use mathlib.Core.List.{reverse}

abbrev pub Bytes : Type 0
Bytes = List ℕ

unfoldable pub lower : ℕ → ℕ
lower c = if leb b'A' c && leb c b'Z' then c + 32 else c

unfoldable pub to_lower : Bytes → Bytes
unfolding lower
to_lower s = map lower s

unfoldable pub is_space : ℕ → Bool
is_space c = c == 32 || (leb 9 c && leb c 13)

unfoldable pub drop_while : (ℕ → Bool) → Bytes → Bytes
drop_while p [] = []
drop_while p (c ∷ s) = let rest = drop_while p s in if p c then rest else c ∷ s

unfoldable pub trim_right : (ℕ → Bool) → Bytes → Bytes
unfolding drop_while
trim_right p s = reverse (drop_while p (reverse s))

unfoldable pub trim_space : Bytes → Bytes
unfolding drop_while trim_right is_space
trim_space s = trim_right is_space (drop_while is_space s)

-- The byte in front of the first label.
unfoldable pub first_with : ℕ → List Bytes → List Bytes
first_with c [] = (c ∷ []) ∷ []
first_with c (l ∷ ls) = (c ∷ l) ∷ ls

-- `strings.Split(s, ".")`
unfoldable pub split_dots : Bytes → List Bytes
unfolding first_with
split_dots [] = [] ∷ []
split_dots (c ∷ s) = if c == b'.' then [] ∷ split_dots s else first_with c (split_dots s)

-- `strings.Join(labels, ".")`
unfoldable pub join_dots : List Bytes → Bytes
join_dots [] = []
join_dots (l ∷ []) = l
join_dots (l ∷ m ∷ ls) = l ++ b'.' ∷ join_dots (m ∷ ls)
