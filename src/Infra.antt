-- ===== src/Infra.antt =====
-- internal/infra/infra.go: the addresses of name servers by zone, as Unbound dumps them. What parses and
-- prints an address and a number is an argument; a scanner gives the lines, and whether it failed.
use dns_stack.Prelude.{
  ℕ, ◌+◌, Bool, true, false, Option, none, some, List, [], ◌∷◌, ◌++◌, ◌||◌, not, ltb, ◌==◌,
  if◌then◌else◌, length,
}
use dns_stack.Prelude.Sort.{sort_slice}
use dns_stack.Netip.{Addr, addr_less}
use dns_stack.Text.{Bytes, to_lower, trim_space}
use dns_stack.Text.Fields.{fields}
use dns_stack.Text.Match.{codes, same, bytes_less, has_key, has_prefix, has_suffix, trim_dots}
use dns_stack.Text.Maps.{get_else, put}

pub record Entry : Type 0 where
  pub zone : Bytes
  pub ip : Addr
  pub rto : ℕ
  pub has_rto : Bool

pub record Snapshot : Type 0 where
  pub entries : List Entry
  pub skipped : ℕ

abbrev pub empty_pairs : Snapshot
empty_pairs = record { entries = []; skipped = 0 }

module _ (parse_addr : Bytes → Option Addr) (atoi : Bytes → Option ℕ) where
  -- The loop that looks for `rto`; `atoi` finds no number below 0.
  unfoldable pub with_rto : Entry → List Bytes → Entry
  unfolding same
  with_rto e [] = e
  with_rto e (name ∷ []) = e
  with_rto e (name ∷ value ∷ parts) =
      let rest = with_rto e (value ∷ parts) in
      if not (same name (codes "rto"))
      then rest
      else (elim (atoi value) [ none ↦ e | some v ↦ record e { rto = v; has_rto = true } ])

  -- The entry of one line, from its fields.
  unfoldable pub line_entry : List Bytes → Option Entry
  unfolding with_rto
  line_entry [] = none
  line_entry (first ∷ []) = none
  line_entry (first ∷ name ∷ parts) =
      let zone = to_lower (trim_dots name) in
      elim (parse_addr first) [
        | none ↦ none
        | some ip ↦
            if not (has_suffix name (codes ".")) || length zone == 0
            then none
            else some (with_rto (record { zone = zone; ip = ip; rto = 0; has_rto = false }) parts)
      ]

  add_entry : Option Entry → Snapshot → Snapshot
  add_entry none out = record out { skipped = out.skipped + 1 }
  add_entry (some e) out = record out { entries = out.entries ++ e ∷ [] }

  -- The loop over the lines.
  unfoldable pub parse_lines : Snapshot → List Bytes → Snapshot
  unfolding line_entry add_entry fields
  parse_lines out [] = out
  parse_lines out (text ∷ lines) =
      let line = trim_space text in
      let skipped = parse_lines out lines in
      let added = parse_lines (add_entry (line_entry (fields line)) out) lines in
      if length line == 0 || has_prefix line (codes ";") || has_prefix line (codes "#")
      then skipped
      else added

module _ (addr_string : Addr → Bytes) where
  -- The order of entries: by zone, by address, those with no time first, by time.
  unfoldable pub entry_less : Entry → Entry → Bool
  unfolding same bytes_less
  entry_less a b =
      if not (same a.zone b.zone)
      then bytes_less a.zone b.zone
      else if not (same (addr_string a.ip) (addr_string b.ip))
      then bytes_less (addr_string a.ip) (addr_string b.ip)
      else (elim a.has_rto [
        | true ↦ if b.has_rto then ltb a.rto b.rto else false
        | false ↦ if b.has_rto then true else ltb a.rto b.rto
      ])

  -- Whether `seen[e.Zone][key]` holds: an entry of the zone has the address already.
  unfoldable pub is_seen : Bytes → List Entry → Bool
  unfolding same
  is_seen key [] = false
  is_seen key (e ∷ es) = same (addr_string e.ip) key || is_seen key es

  -- The loop of `Zones`. What `seen` holds for a zone are the keys of the zone's entries.
  unfoldable pub zones_loop : List (Bytes × List Entry) → List Entry → List (Bytes × List Entry)
  unfolding is_seen
  zones_loop m [] = m
  zones_loop m (e ∷ es) =
      let old = get_else e.zone [] m in
      let skipped = zones_loop m es in
      let added = zones_loop (put e.zone (old ++ e ∷ []) m) es in
      if is_seen (addr_string e.ip) old then skipped else added

  sort_zones : List (Bytes × List Entry) → List (Bytes × List Entry)
  sort_zones [] = []
  sort_zones ((zone, es) ∷ m) =
      (zone, sort_slice (λ (a b : Entry). addr_less a.ip b.ip) es) ∷ sort_zones m

  unfoldable pub zones : Snapshot → List (Bytes × List Entry)
  unfolding zones_loop sort_zones
  zones s = sort_zones (zones_loop [] s.entries)

module _ (addr_string : Addr → Bytes) (itoa : ℕ → Bytes) where
  -- The key of an entry in `Pairs`
  unfoldable pub pair_key : Entry → Bytes
  pair_key e =
      e.zone
      ++ 0 ∷ addr_string e.ip
      ++ 0 ∷ itoa e.rto
      ++ 0 ∷ (if e.has_rto then codes "true" else codes "false")

  -- The loop of `Pairs`, with the keys that it has seen.
  unfoldable pub pairs_loop : List Bytes → List Entry → List Entry
  unfolding has_key pair_key
  pairs_loop seen [] = []
  pairs_loop seen (e ∷ es) =
      let skipped = pairs_loop seen es in
      let kept = pairs_loop (pair_key e ∷ seen) es in
      if has_key (pair_key e) seen then skipped else e ∷ kept

  unfoldable pub pairs : Snapshot → List Entry
  unfolding pairs_loop
  pairs s = pairs_loop [] s.entries

module _ (parse_addr : Bytes → Option Addr) (atoi : Bytes → Option ℕ)
    (addr_string : Addr → Bytes) where
  unfoldable pub parse : List Bytes → Bool → Option Snapshot
  unfolding parse_lines entry_less sort_slice
  parse lines failed =
      let out = parse_lines parse_addr atoi empty_pairs lines in
      if failed
      then none
      else some (record out { entries = sort_slice (entry_less addr_string) out.entries })
