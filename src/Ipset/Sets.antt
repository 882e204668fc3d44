-- ===== src/Ipset/Sets.antt =====
-- internal/ipset/ipset.go: `Set` and its queries. A nil `*Set` is `none`; an index -1 is `none`.
use dns_stack.Prelude.{
  ℕ, zero, suc, ◌+◌, ◌-◌, ◌%◌, Bool, false, Option, none, some, List, [], ◌∷◌, ◌&&◌, ◌||◌, map, ltb,
  leb, ◌==◌, if◌then◌else◌, u32_mod, length, get_or,
}
use dns_stack.Prelude.Search.{search}
use dns_stack.Spans.{Range}
use dns_stack.Ipset.Collapse.{collapse}

pub record Set : Type 0 where
  pub ranges : List Range
  pub starts : List ℕ

unfoldable pub new : List Range → Set
new rs = let c = collapse rs in record { ranges = c; starts = map (λ (r : Range). r.lo) c }

unfoldable pub len : Option Set → ℕ
len none = 0
len (some s) = length s.ranges

unfoldable pub ranges_of : Option Set → List Range
ranges_of none = []
ranges_of (some s) = s.ranges

abbrev pub u64_mod : ℕ
u64_mod = 18446744073709551616

-- `uint64(r.Hi-r.Lo) + 1`, the subtraction on uint32
unfoldable pub range_size : Range → ℕ
range_size r = (r.hi + u32_mod - r.lo) % u32_mod + 1

unfoldable pub count_loop : ℕ → List Range → ℕ
unfolding range_size
count_loop n [] = n
count_loop n (r ∷ rs) = count_loop ((n + range_size r) % u64_mod) rs

unfoldable pub address_count : Option Set → ℕ
unfolding count_loop
address_count none = 0
address_count (some s) = count_loop 0 s.ranges

-- An index into `ranges` that the code has shown to be in bounds.
abbrev pub range_at : List Range → ℕ → Range
range_at rs i = get_or rs i (record { lo = 0; hi = 0 })

unfoldable pub overlaps : Option Set → ℕ → ℕ → Bool
unfolding search
overlaps none lo hi = false
overlaps (some s) lo hi =
    if ltb hi lo
    then false
    else (let i = search (length s.ranges) (λ k. leb lo (range_at s.ranges k).hi) in
        ltb i (length s.ranges) && leb (range_at s.ranges i).lo hi)

-- `i - 1` on Go's int: -1 is `none`.
abbrev pub before : ℕ → Option ℕ
before zero = none
before (suc i) = some i

unfoldable pub locate : Set → ℕ → Option ℕ
unfolding search
locate s v = before (search (length s.starts) (λ k. ltb v (get_or s.starts k 0)))

-- `i >= 0 && s.ranges[i].Hi >= hi`
unfoldable pub reaches : List Range → ℕ → Option ℕ → Bool
reaches rs hi none = false
reaches rs hi (some i) = leb hi (range_at rs i).hi

unfoldable pub contains_uint : Option Set → ℕ → Bool
unfolding locate reaches
contains_uint none v = false
contains_uint (some s) v = if length s.ranges == 0 then false else reaches s.ranges v (locate s v)

unfoldable pub covers_range : Option Set → ℕ → ℕ → Bool
unfolding locate reaches
covers_range none lo hi = false
covers_range (some s) lo hi =
    if length s.ranges == 0 || ltb hi lo then false else reaches s.ranges hi (locate s lo)
