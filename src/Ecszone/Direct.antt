-- ===== src/Ecszone/Direct.antt =====
-- internal/ecszone/ecszone.go: which addresses `LoadDirectIntervals` reads from its file.
use native.Mathlib.Nat.{div-mul-le_self}
use dns_stack.Prelude.{
  ℕ, ◌-◌, ◌^◌, ◌≤◌, ◌<◌, ◌≡◌, refl, sym, ap, ◌∙◌, Bool, true, false, Option, none, some, List, [],
  ◌∷◌, ◌&&◌, not, inl, inr, ltb, ◌==◌, if◌then◌else◌, arith, u32_mod, max_u32, All, All-append,
  All-mono, any, any-append, ==_iff, length, Bool-cases,
}
use dns_stack.Prelude.Sort.{All-sort_slice}
use dns_stack.Text.{Bytes, trim_space}
use dns_stack.Netip.{v4, Prefix, prefix_from, masked, is4, clear_low}
use dns_stack.Spans.{Range, range_less, IsValid, IsWord, covered, within}
use dns_stack.Ipset.Prefix.{prefix_range}
use dns_stack.Ipset.Prefix.Tiles.{ranges_of_prefixes}
use dns_stack.Ipset.Prefix.Bounds.{prefix_range-agrees}
use dns_stack.Ipset.Global.{non_global_prefixes, exclude, exclude_all, global_loop, global_parts}
use dns_stack.Ipset.Global.Laws.{
  HasRange, global_loop-∷, non_global-HasRange, reserved, covered-global_parts,
}
use dns_stack.Ecszone.Assigned.{in_span}
use dns_stack.Ecszone.Build.{is_skipped, line_parts, direct_lines}

-- A valid range that ends below 255.255.255.255.
abbrev pub IsEarly : Range → Type 0
IsEarly r = (r.lo ≤ r.hi) × (r.hi < max_u32)

abbrev IsProper : Range → Type 0
IsProper r = IsValid r × IsWord r

exclude-IsProper : (e part : Range) → IsProper e → IsProper part → All IsProper (exclude e part)
unfolding exclude
exclude-IsProper e part v w = ground arith

exclude_all-IsProper :
    (e : Range) (parts : List Range)
    → IsProper e
    → All IsProper parts
    → All IsProper (exclude_all e parts)
unfolding exclude_all
exclude_all-IsProper e [] v w = tt
exclude_all-IsProper e (part ∷ parts) v w =
    All-append IsProper (exclude e part) (exclude_all e parts) (exclude-IsProper e part v w.0)
      (exclude_all-IsProper e parts v w.1)

global_loop-IsProper :
    (ps : List Prefix) (parts : List Range)
    → All HasRange ps
    → All IsProper parts
    → All IsProper (global_loop ps parts)
global_loop-IsProper [] parts h w = unfold global_loop in w
global_loop-IsProper (p ∷ ps) parts h w =
    let (r, e, v, word) = h.0 in
    let rest = exclude_all-IsProper r parts (v, word) w in
    rw (global_loop-∷ p ps parts r e) (elim (Bool-cases (length (exclude_all r parts) == 0)) [
      | inl f ↦ rw f rest
      | inr f ↦ rw f (global_loop-IsProper ps (exclude_all r parts) h.1 rest)
    ])

-- Valid ranges that do not cover the last address end before it.
pub early :
    (rs : List Range)
    → All IsValid rs
    → ((x : ℕ) → covered rs x ≡ true → x < max_u32)
    → All IsEarly rs
early [] w h = tt
early (r ∷ rs) w h = (
  (w.0, h r.hi (unfold any in ground arith)),
  early rs w.1 (λ x c. h x (unfold any in ground (arith, c))),
)

reserved_last : reserved max_u32 ≡ true
unfolding ranges_of_prefixes any
reserved_last = refl

not_last :
    (r : Range) (x : ℕ) (b : Bool)
    → r.hi ≤ max_u32
    → (x ≡ max_u32 → b ≡ true)
    → (within x r && not b) ≡ true
    → x < max_u32
not_last r x true h f e = ground (arith, e)
not_last r x false h f e = elim (Bool-cases (x == max_u32)) [
  | inl q ↦ cc (f ((==_iff x max_u32).0 q))
  | inr q ↦ ground (arith, e, q)
]

pub global_parts-IsEarly : (r : Range) → IsProper r → All IsEarly (global_parts r)
global_parts-IsEarly r w =
    early (global_parts r) (All-mono IsProper IsValid _ (λ x q. q.0) proper) (λ x c.
      not_last r x (reserved x) w.1.1 (λ q. ap reserved q ∙ reserved_last)
        (sym (covered-global_parts r x w.1) ∙ c))
  where
    proper : All IsProper (global_parts r)
    proper =
        unfold global_parts in
        elim (Bool-cases (ltb r.hi r.lo)) [
          | inl e ↦ rw e tt
          | inr e ↦ rw e (
              All-sort_slice range_less IsProper _
                (global_loop-IsProper non_global_prefixes (r ∷ []) non_global-HasRange (w, tt)))
        ]

pub masked-prefix_from :
    (a bits : ℕ)
    → bits ≤ 32
    → masked (prefix_from (v4 a) bits) ≡ prefix_from (v4 (clear_low (32 - bits) a)) bits
unfolding masked prefix_from
masked-prefix_from a bits h = let fits : ltb 32 bits ≡ false = ground arith in ground (arith, fits)

masked_range :
    (a bits : ℕ) (p : Prefix)
    → a < u32_mod
    → bits ≤ 32
    → p ≡ prefix_from (v4 a) bits
    → (r : Range) × (prefix_range (masked p) ≡ some (r, true)) × IsProper r
masked_range a bits p w h e =
    let small : clear_low (32 - bits) a < u32_mod =
      omega (arith, w, div-mul-le_self a (2 ^ (32 - bits))) in
    let (r, range, valid, word, _) = prefix_range-agrees (clear_low (32 - bits) a) bits h small in
    (r, ap prefix_range (ap masked e ∙ masked-prefix_from a bits h) ∙ range, (valid, word))

-- A prefix that was parsed, if any, is an IPv4 one that holds the address.
unfoldable pub holds_addr : ℕ → Option Prefix → Bool
holds_addr x none = false
holds_addr x (some prefix) = is4 prefix.addr && in_span x (prefix_range (masked prefix))

module _ (parse_prefix : Bytes → Option Prefix) where
  -- The line is an IPv4 prefix that holds the address.
  unfoldable pub is_listed : ℕ → Bytes → Bool
  is_listed x raw =
      let line = trim_space raw in
      if is_skipped line then false else holds_addr x (parse_prefix line)

  -- What net/netip documents of a prefix that it has parsed, if it is an IPv4 one: 32 bits of an address at most.
  abbrev pub ParsesWords : Type 0
  ParsesWords =
      (text : Bytes) (p : Prefix)
      → parse_prefix text ≡ some p
      → is4 p.addr ≡ true
      → (a : ℕ) × (bits : ℕ) × (p ≡ prefix_from (v4 a) bits) × (a < u32_mod) × (bits ≤ 32)

  module _ (words : ParsesWords) where
    line_parts_lem :
        (line : Bytes) (o : Option Prefix)
        → parse_prefix line ≡ o
        → All IsEarly (line_parts parse_prefix line)
          × ((x : ℕ)
              → covered (line_parts parse_prefix line) x ≡ (holds_addr x o && not (reserved x)))
    unfolding line_parts holds_addr any
    line_parts_lem line none e =
        let shown : line_parts parse_prefix line ≡ [] = rw (e, line_parts) refl in
        rw shown (tt, λ x. refl)
    line_parts_lem line (some p) e = elim (Bool-cases (is4 p.addr)) [
      | inr f ↦
          let shown : line_parts parse_prefix line ≡ [] = rw (e, line_parts) (rw f refl) in
          rw (shown, f) (tt, λ x. refl)
      | inl f ↦
          let (a, bits, from, word, fits) = words line p e f in
          let (r, range, proper) = masked_range a bits p word fits from in
          let shown : line_parts parse_prefix line ≡ global_parts r =
            rw (e, line_parts) (rw (f, range) refl) in
          rw (shown, f, range)
            (global_parts-IsEarly r proper, λ x. covered-global_parts r x proper.1)
    ]

    -- The parts that the lines give cover the addresses of the listed prefixes that are not reserved.
    pub direct_lines_lem :
        (lines : List Bytes)
        → All IsEarly (direct_lines parse_prefix lines)
          × ((x : ℕ)
              → covered (direct_lines parse_prefix lines) x
                ≡ (any (is_listed x) lines && not (reserved x)))
    unfolding direct_lines is_listed any
    direct_lines_lem [] = (tt, λ x. refl)
    direct_lines_lem (raw ∷ lines) =
        let line = trim_space raw in
        let (rest_early, rest) = direct_lines_lem lines in
        elim (Bool-cases (is_skipped line)) [
          | inl e ↦ rw e (rest_early, rest)
          | inr e ↦
              let (first_early, first) = line_parts_lem line (parse_prefix line) refl in
              rw e (
                All-append IsEarly (line_parts parse_prefix line) _ first_early rest_early,
                λ x.
                    any-append (within x) (line_parts parse_prefix line)
                      (direct_lines parse_prefix lines)
                    ∙ rw (first x, rest x) (ground arith),
              )
        ]
