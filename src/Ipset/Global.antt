-- ===== src/Ipset/Global.antt =====
-- internal/ipset/ipset.go: the reserved IPv4 blocks, `GlobalParts` and `IsGlobalPrefix`.
pub mod Laws
pub mod Whole
use dns_stack.Prelude.{
  ℕ, ◌+◌, ◌-◌, ◌*◌, ◌%◌, Bool, true, false, Option, some, none, List, [], ◌∷◌, ◌++◌, ◌&&◌, ◌||◌,
  not, ltb, ◌==◌, if◌then◌else◌, u32_mod, length, get_or,
}
use dns_stack.Prelude.Chain.{◌>>=◌}
use dns_stack.Prelude.Sort.{sort_slice}
use dns_stack.Netip.{Addr, v4, Prefix, is4, masked, prefix_from}
use dns_stack.Spans.{Range, range_less}
use dns_stack.Ipset.Sets.{range_at}
use dns_stack.Ipset.Prefix.{prefix_range, prefix_bounds}

-- The address a.b.c.d
abbrev pub dotted : ℕ → ℕ → ℕ → ℕ → ℕ
dotted a b c d = 16777216 * a + 65536 * b + 256 * c + d

-- `netip.MustParsePrefix` of a.b.c.d/bits
abbrev pub cidr : ℕ → ℕ → ℕ → ℕ → ℕ → Prefix
cidr a b c d bits = record { addr = v4 (dotted a b c d); bits_plus_one = bits + 1 }

abbrev pub non_global_prefixes : List Prefix
non_global_prefixes =
    cidr 0 0 0 0 8
    ∷ cidr 10 0 0 0 8
    ∷ cidr 100 64 0 0 10
    ∷ cidr 127 0 0 0 8
    ∷ cidr 169 254 0 0 16
    ∷ cidr 172 16 0 0 12
    ∷ cidr 192 0 0 0 24
    ∷ cidr 192 0 2 0 24
    ∷ cidr 192 88 99 0 24
    ∷ cidr 192 168 0 0 16
    ∷ cidr 198 18 0 0 15
    ∷ cidr 198 51 100 0 24
    ∷ cidr 203 0 113 0 24
    ∷ cidr 224 0 0 0 4
    ∷ cidr 240 0 0 0 4
    ∷ []

-- The body of the loop over `parts`: what is left of a part without the excluded range.
unfoldable pub exclude : Range → Range → List Range
exclude excluded part =
    if ltb excluded.hi part.lo || ltb part.hi excluded.lo
    then part ∷ []
    else (if ltb part.lo excluded.lo
        then record { lo = part.lo; hi = excluded.lo - 1 } ∷ []
        else [])
      ++ (if ltb excluded.hi part.hi
          then record { lo = (excluded.hi + 1) % u32_mod; hi = part.hi } ∷ []
          else [])

unfoldable pub exclude_all : Range → List Range → List Range
unfolding exclude
exclude_all excluded [] = []
exclude_all excluded (part ∷ parts) = exclude excluded part ++ exclude_all excluded parts

-- The loop over the excluded prefixes. They are constants, so that `PrefixRange` cannot panic.
unfoldable pub global_loop : List Prefix → List Range → List Range
unfolding exclude_all
global_loop [] parts = parts
global_loop (p ∷ ps) parts = elim (prefix_range p) [
  | some (excluded, true) ↦
      let next = exclude_all excluded parts in
      if length next == 0 then next else global_loop ps next
  | _ ↦ global_loop ps parts
]

unfoldable pub global_parts : Range → List Range
global_parts input =
    if ltb input.hi input.lo
    then []
    else sort_slice range_less (global_loop non_global_prefixes (input ∷ []))

-- `len(parts) == 1 && parts[0].Lo == lo && parts[0].Hi == hi`
unfoldable pub is_only : List Range → ℕ → ℕ → Bool
is_only parts lo hi =
    length parts == 1 && ((range_at parts 0).lo == lo && (range_at parts 0).hi == hi)

-- `IsGlobalPrefix`; `none` is the panic of `prefixBounds`.
unfoldable pub is_global_prefix : Prefix → Option Bool
unfolding is4
is_global_prefix p =
    if not (is4 p.addr)
    then some false
    else (prefix_bounds (masked p) >>= λ b.
        if not b.2
        then some false
        else some (is_only (global_parts (record { lo = b.0; hi = b.1 })) b.0 b.1))
