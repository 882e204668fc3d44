-- ===== src/Ipset/Prefix.antt =====
-- internal/ipset/ipset.go: prefixes and ranges, `prefixBounds` and `rangeToPrefixes`.
pub mod Tiles
pub mod RoundTrip
pub mod Bounds
use dns_stack.Prelude.{
  ℕ, zero, suc, ◌+◌, ◌-◌, ◌/◌, ◌%◌, ◌^◌, Bool, true, false, Option, none, some, List, [], ◌∷◌, ◌++◌,
  ◌&&◌, ◌||◌, not, ltb, leb, ◌==◌, if◌then◌else◌, u32_mod,
}
use dns_stack.Prelude.Chain.{◌>>=◌}
use dns_stack.Netip.{
  Addr, v4, v6, invalid, mapped_block, is4, Prefix, prefix_from, masked, clear_low,
}
use dns_stack.Spans.{Range}
use dns_stack.Ipset.Sets.{Set, contains_uint, covers_range}

-- `toUint32`: `As4` gives the address of a mapped one, and panics (`none`) on all others.
unfoldable pub to_u32 : Addr → Option ℕ
to_u32 invalid = none
to_u32 (v4 a) = some a
to_u32 (v6 a) = if a / u32_mod == mapped_block then some (a % u32_mod) else none

-- `uint32(1)<<n - 1`, with the shift and the subtraction on uint32
abbrev pub low_mask : ℕ → ℕ
low_mask n = (2 ^ n % u32_mod + u32_mod - 1) % u32_mod

bounds_at : ℕ → ℕ → ℕ × ℕ × Bool
bounds_at lo zero = (0, 0, false)
bounds_at lo (suc bits) =
    if ltb 32 bits then (0, 0, false) else (lo, (lo + low_mask (32 - bits)) % u32_mod, true)

-- `prefixBounds`: the ends and whether there are any; `none` is a panic.
unfoldable pub prefix_bounds : Prefix → Option (ℕ × ℕ × Bool)
unfolding to_u32 is4 masked bounds_at
prefix_bounds p =
    if not (is4 p.addr)
    then some (0, 0, false)
    else (to_u32 (masked p).addr >>= λ lo. some (bounds_at lo (masked p).bits_plus_one))

unfoldable pub prefix_range : Prefix → Option (Range × Bool)
unfolding prefix_bounds
prefix_range p = prefix_bounds p >>= λ b. some (record { lo = b.0; hi = b.1 }, b.2)

unfoldable pub contains : Option Set → Addr → Option Bool
unfolding contains_uint is4 to_u32
contains none a = some false
contains (some s) a =
    if not (is4 a) then some false else (to_u32 a >>= λ v. some (contains_uint (some s) v))

unfoldable pub covers_prefix : Option Set → Prefix → Option Bool
unfolding covers_range is4 prefix_bounds
covers_prefix none p = some false
covers_prefix (some s) p =
    if not (is4 p.addr)
    then some false
    else (prefix_bounds p >>= λ b. some (b.2 && covers_range (some s) b.0 b.1))

-- The loop over `maxSize` at the start `lo` of a block: the shortest prefix that begins there and
-- does not reach past `hi`. `lo &^ mask` clears the low bits of `lo`.
unfoldable pub block_bits : ℕ → ℕ → ℕ → ℕ
block_bits lo hi zero = 0
block_bits lo hi (suc k) =
    let smaller = block_bits lo hi k in
    if not (clear_low (32 - k) lo == lo)
    then suc k
    else if ltb hi ((lo + low_mask (32 - k)) % u32_mod)
    then suc k
    else smaller

-- The outer loop, with fuel.
unfoldable pub blocks : ℕ → ℕ → ℕ → List Prefix
unfolding prefix_from
blocks zero lo hi = []
blocks (suc fuel) lo hi =
    let bits = block_bits lo hi 32 in
    let last = (lo + low_mask (32 - bits)) % u32_mod in
    let rest = blocks fuel ((last + 1) % u32_mod) hi in
    prefix_from (v4 lo) bits ∷ (if leb hi last || ltb last lo then [] else rest)

-- Every round takes at least one address of the range.
unfoldable pub range_to_prefixes : Range → List Prefix
unfolding blocks
range_to_prefixes r = blocks (r.hi - r.lo + 1) r.lo r.hi

unfoldable pub prefixes_of : List Range → List Prefix
unfolding range_to_prefixes
prefixes_of [] = []
prefixes_of (r ∷ rs) = range_to_prefixes r ++ prefixes_of rs

unfoldable pub prefixes : Option Set → List Prefix
unfolding prefixes_of
prefixes none = []
prefixes (some s) = prefixes_of s.ranges
