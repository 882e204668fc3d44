-- ===== src/Text/Fields.antt =====
-- `strings.Fields` of Go, on lists of bytes.
use dns_stack.Prelude.{List, [], ◌∷◌, ◌==◌, if◌then◌else◌, length}
use dns_stack.Text.{Bytes, is_space, first_with}

-- `strings.Fields`: the parts between spaces, but for empty ones.
unfoldable pub split_spaces : Bytes → List Bytes
unfolding is_space first_with
split_spaces [] = [] ∷ []
split_spaces (c ∷ s) =
    let rest = split_spaces s in if is_space c then [] ∷ rest else first_with c rest

unfoldable pub non_empty : List Bytes → List Bytes
non_empty [] = []
non_empty (s ∷ ss) = let rest = non_empty ss in if length s == 0 then rest else s ∷ rest

unfoldable pub fields : Bytes → List Bytes
unfolding split_spaces non_empty
fields s = non_empty (split_spaces s)
