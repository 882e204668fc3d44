-- ===== src/Config.antt =====
-- internal/config/env.go and upsert.go: a file of assignments, read and changed in place. A file that cannot be read is
-- none. A map of values is a list of entries.
pub mod Lines
pub mod Values
pub mod Added
pub mod Breaks
pub mod Upserted
use dns_stack.Prelude.{
  ℕ, ◌-◌, Bool, true, false, Option, none, some, List, [], ◌∷◌, ◌++◌, ◌&&◌, ◌||◌, not, ltb, ◌==◌,
  if◌then◌else◌, length, get_or, take, drop, map,
}
use dns_stack.Prelude.Sort.{sort_slice}
use dns_stack.Text.{Bytes, trim_space, trim_right}
use dns_stack.Text.Match.{codes, same, bytes_less, has_key, has_prefix, cut, split_on}
use dns_stack.Text.Maps.{get, get_else, put}

abbrev pub newline : ℕ
newline = 10

unfoldable pub unquote : Bytes → Bytes
unquote value =
    let quote = get_or value 0 0 in
    if ltb (length value) 2
    then value
    else if not (quote == 34 || quote == 39)
    then value
    else if get_or value (length value - 1) 0 == quote
    then take (length value - 2) (drop 1 value)
    else value

unfoldable pub assignment : Option (Bytes × Bytes) → Option (Bytes × Bytes)
assignment none = none
assignment (some (name, value)) =
    let key = trim_space name in
    if length key == 0 then none else some (key, unquote (trim_space value))

-- The key and the value of one line, if it is an assignment.
unfoldable pub entry_of : Bytes → Option (Bytes × Bytes)
entry_of text =
    let line = trim_space text in
    if length line == 0 || has_prefix line (codes "#") then none else assignment (cut b'=' line)

-- The calls of `visit`, in their order.
unfoldable pub each_line : List Bytes → List (Bytes × Bytes)
each_line [] = []
each_line (text ∷ lines) = elim (entry_of text) [
  | none ↦ each_line lines
  | some e ↦ e ∷ each_line lines
]

unfoldable pub each : Option Bytes → List (Bytes × Bytes)
each none = []
each (some body) = each_line (split_on newline body)

unfoldable pub put_all : List (Bytes × Bytes) → List (Bytes × Bytes) → List (Bytes × Bytes)
put_all [] out = out
put_all ((key, value) ∷ es) out = put_all es (put key value out)

unfoldable pub read : Option Bytes → List (Bytes × Bytes)
read file = put_all (each file) []

-- The assignments of the wanted keys.
unfoldable pub put_wanted :
    List Bytes → List (Bytes × Bytes) → List (Bytes × Bytes) → List (Bytes × Bytes)
put_wanted keys [] out = out
put_wanted keys ((key, value) ∷ es) out =
    put_wanted keys es (if has_key key keys then put key value out else out)

unfoldable pub read_keys : Option Bytes → List Bytes → List (Bytes × Bytes)
read_keys file keys = put_wanted keys (each file) []

unfoldable pub value_of : Option Bytes → Bytes → Bytes
value_of file key = get_else key [] (read_keys file (key ∷ []))

-- The key and its new value, if the line is an assignment of a key of the map.
unfoldable pub wanted : List (Bytes × Bytes) → Option (Bytes × Bytes) → Option (Bytes × Bytes)
wanted values none = none
wanted values (some (name, old)) = elim (get (trim_space name) values) [
  | none ↦ none
  | some value ↦
      if has_prefix (trim_space name) (codes "#") then none else some (trim_space name, value)
]

-- The loop over the lines: the new lines, and the keys that are done.
unfoldable pub upsert_lines : List (Bytes × Bytes) → List Bytes → List Bytes × List Bytes
upsert_lines values [] = ([], [])
upsert_lines values (text ∷ lines) =
    let rest = upsert_lines values lines in
    elim (wanted values (cut b'=' (trim_space text))) [
      | none ↦ (text ∷ rest.0, rest.1)
      | some (key, value) ↦ ((key ++ b'=' ∷ value) ∷ rest.0, key ∷ rest.1)
    ]

-- The keys that are not done.
unfoldable pub missing_keys : List (Bytes × Bytes) → List Bytes → List Bytes
missing_keys [] done = []
missing_keys ((key, value) ∷ values) done =
    let rest = missing_keys values done in if not (has_key key done) then key ∷ rest else rest

-- The lines for the missing keys.
unfoldable pub added_lines : List (Bytes × Bytes) → List Bytes → List Bytes
added_lines values [] = []
added_lines values (key ∷ keys) = (key ++ b'=' ∷ get_else key [] values) ∷ added_lines values keys

-- `strings.Join(lines, "\n")`
unfoldable pub join_lines : List Bytes → Bytes
join_lines [] = []
join_lines (l ∷ []) = l
join_lines (l ∷ m ∷ ls) = l ++ newline ∷ join_lines (m ∷ ls)

-- What `Upsert` writes over the file's body.
unfoldable pub upsert : List (Bytes × Bytes) → Bytes → Bytes
upsert values body =
    let lines = split_on newline (trim_right (λ c. c == newline) body) in
    let (changed, done) = upsert_lines values lines in
    join_lines (changed ++ added_lines values (sort_slice bytes_less (missing_keys values done)))
    ++ newline ∷ []
