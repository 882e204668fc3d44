-- ===== src/Pipeline/Nft.antt =====
-- internal/pipeline/nft.go: the blocks of a table as nft prints it. Go's regular expressions are an argument: does a
-- pattern match in a text?
use dns_stack.Prelude.{
  ℕ, suc, ◌+◌, Bool, List, [], ◌∷◌, ◌++◌, ◌&&◌, ◌||◌, ◌==◌, if◌then◌else◌, length,
}
use dns_stack.Text.{Bytes, trim_space}
use dns_stack.Text.Match.{codes, same, has_suffix, split_on}
use dns_stack.Text.Maps.{put}
use dns_stack.Text.Fields.{fields}

-- `strings.Count` of one byte
unfoldable pub count_byte : ℕ → Bytes → ℕ
count_byte c [] = 0
count_byte c (a ∷ s) = let rest = count_byte c s in if a == c then suc rest else rest

-- The variables of the loop. The depth is `opened` less `closed`.
pub record BlockScan : Type 0 where
  pub blocks : List (Bytes × Bytes)
  pub name : Bytes
  pub body : Bytes
  pub opened : ℕ
  pub closed : ℕ

abbrev pub is_depth_one : BlockScan → Bool
is_depth_one s = s.opened == s.closed + 1

-- The `if` on the fields of a line that opens a block.
unfoldable pub begin_block : List Bytes → BlockScan → BlockScan
unfolding same
begin_block (kind ∷ label ∷ brace ∷ []) s =
    if same kind (codes "set") || same kind (codes "chain")
    then record s { name = kind ++ codes " " ++ label; body = [] }
    else s
begin_block _ s = s

unfoldable pub count_braces : Bytes → BlockScan → BlockScan
unfolding count_byte
count_braces line s = record s {
  opened = s.opened + count_byte b'{' line;
  closed = s.closed + count_byte b'}' line;
}

-- The rest of a turn: the line joins the body, and the block ends where the depth is one.
unfoldable pub end_block : Bytes → BlockScan → BlockScan
unfolding put
end_block line s =
    let body = s.body ++ line ++ 10 ∷ [] in
    if length s.name == 0
    then s
    else if is_depth_one s
    then record s { blocks = put s.name body s.blocks; name = []; body = body }
    else record s { body = body }

unfoldable pub scan_line : Bytes → BlockScan → BlockScan
unfolding begin_block count_braces end_block fields
scan_line line s =
    let trimmed = trim_space line in
    let begun =
      if is_depth_one s && has_suffix trimmed (codes "{")
      then begin_block (fields trimmed) s
      else s in
    end_block line (count_braces line begun)

unfoldable pub scan_lines : List Bytes → BlockScan → BlockScan
unfolding scan_line
scan_lines [] s = s
scan_lines (line ∷ lines) s = scan_lines lines (scan_line line s)

unfoldable pub nft_table_blocks : Bytes → List (Bytes × Bytes)
unfolding scan_lines
nft_table_blocks table =
    (scan_lines (split_on 10 table)
      (record { blocks = []; name = []; body = []; opened = 0; closed = 0 })).blocks

module _ (matches : Bytes → Bytes → Bool) where
  abbrev pub nft_entry : Bytes
  nft_entry = codes "\\d+\\.\\d+\\.\\d+\\.\\d+"

  unfoldable pub count_entries : List Bytes → ℕ
  count_entries [] = 0
  count_entries (field ∷ rest) =
      let n = count_entries rest in if matches nft_entry field then suc n else n

  unfoldable pub count_nft_elements : Bytes → ℕ
  unfolding count_entries
  count_nft_elements text = count_entries (split_on b',' text)
