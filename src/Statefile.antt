-- ===== src/Statefile.antt =====
-- internal/statefile/statefile.go: the lines of a state file. A file that cannot be read is none.
use dns_stack.Prelude.{Option, none, some, List, [], ◌∷◌, ◌||◌, ◌==◌, if◌then◌else◌, length}
use dns_stack.Text.{Bytes, trim_space}
use dns_stack.Text.Match.{codes, has_prefix, split_on}

-- The loop: the lines that are neither empty nor a comment.
unfoldable pub kept_lines : List Bytes → List Bytes
kept_lines [] = []
kept_lines (text ∷ texts) =
    let line = trim_space text in
    let rest = kept_lines texts in
    if length line == 0 || has_prefix line (codes "#") then rest else line ∷ rest

unfoldable pub lines : Option Bytes → List Bytes
unfolding kept_lines split_on
lines none = []
lines (some file) = kept_lines (split_on 10 file)
