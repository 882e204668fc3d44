-- ===== src/Dnswire/Name.antt =====
-- internal/dnswire/message.go: `NormalizeName`, `appendName` and `parser.name`.
pub mod Total
pub mod RoundTrip
pub mod Accepts
use dns_stack.Prelude.{
  ℕ, zero, suc, ◌+◌, ◌*◌, ◌/◌, ◌%◌, Bool, true, false, Option, some, none, List, [], ◌∷◌, ◌++◌,
  ◌||◌, ltb, leb, ◌==◌, not, if◌then◌else◌, length,
}
use dns_stack.Text.{Bytes, to_lower, trim_right, trim_space, split_dots, join_dots}
use dns_stack.Dnswire.Reader.{
  Error, truncated, bad_name, pointer_loop, no_fuel, Result, ok, err, Parser, byte_at, be16, slice,
}

abbrev pub max_name_pointers : ℕ
max_name_pointers = 32

abbrev pub max_name_length : ℕ
max_name_length = 255

abbrev pub max_label_length : ℕ
max_label_length = 63

unfoldable pub normalize_name : Bytes → Bytes
unfolding to_lower trim_right trim_space
normalize_name name = to_lower (trim_right (λ c. c == b'.') (trim_space name))

-- The loop over the labels, which appends to `b`.
unfoldable pub append_labels : Bytes → List Bytes → Result Bytes
append_labels b [] = ok (b ++ 0 ∷ [])
append_labels b (l ∷ ls) =
    if length l == 0 || ltb max_label_length (length l)
    then err bad_name
    else append_labels ((b ++ length l % 256 ∷ []) ++ l) ls

unfoldable pub append_normalized : Bytes → Bytes → Result Bytes
unfolding append_labels split_dots
append_normalized b name =
    if length name == 0
    then ok (b ++ 0 ∷ [])
    else if ltb max_name_length (length name)
    then err bad_name
    else append_labels b (split_dots name)

unfoldable pub append_name : Bytes → Bytes → Result Bytes
unfolding append_normalized normalize_name
append_name b name = append_normalized b (normalize_name name)

-- `if end < 0 { end = e }`
abbrev pub end_or : Option ℕ → ℕ → ℕ
end_or none e = e
end_or (some end) e = end

-- The loop of `parser.name`. `end` is none where Go has -1.
unfoldable pub name_loop : ℕ → Bytes → ℕ → Option ℕ → ℕ → ℕ → List Bytes → Result (Bytes × ℕ)
unfolding to_lower join_dots
name_loop zero buf off end pointers total labels = err no_fuel
name_loop (suc fuel) buf off end pointers total labels =
    let n = byte_at buf off in
    let target = be16 buf off % 0x4000 in
    let jump =
      name_loop fuel buf target (some (end_or end (off + 2))) (pointers + 1) total labels in
    let label = slice buf (off + 1) n in
    let next =
      name_loop fuel buf (off + 1 + n) end pointers (total + n + 1) (labels ++ label ∷ []) in
    if leb (length buf) off
    then err truncated
    else if n == 0
    then ok (to_lower (join_dots labels), end_or end (off + 1))
    else if n / 64 == 3
    then (if ltb (length buf) (off + 2)
        then err truncated
        else if ltb max_name_pointers (pointers + 1) || leb off target
        then err pointer_loop
        else jump)
    else if not (n / 64 == 0)
    then err bad_name
    else if ltb (length buf) (off + 1 + n)
    then err truncated
    else if ltb max_name_length (total + n + 1)
    then err bad_name
    else next

-- Each label adds at least 2 to a total of at most 255, and each pointer 1 to a count of at most 32.
abbrev pub name_fuel : ℕ
name_fuel = 300

unfoldable pub name : Parser Bytes
name buf off = name_loop name_fuel buf off none 0 0 []
