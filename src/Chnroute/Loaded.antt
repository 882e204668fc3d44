-- ===== src/Chnroute/Loaded.antt =====
-- internal/chnroute/chnroute.go: the ranges that `parseAPNIC` and `loadCNIP` read.
use dns_stack.Prelude.{
  ℕ, ◌≤◌, ◌<◌, ◌≡◌, refl, ap, ◌∙◌, Bool, true, false, Option, none, some, List, [], ◌∷◌, ◌++◌, ◌&&◌,
  ◌||◌, not, inl, inr, arith, u32_mod, ◌==◌, length, map, All, All-append, any, any-append,
  Bool-cases,
}
use mathlib.Core.List.{map-append}
use dns_stack.Text.{Bytes}
use dns_stack.Text.Match.{codes, same}
use dns_stack.Text.Maps.{get_else}
use dns_stack.Netip.{Addr, invalid, v4, v6, Prefix, prefix_from, masked}
use dns_stack.Spans.{Range, IsValid, IsWord, covered, within}
use dns_stack.Ipset.Prefix.{prefix_range}
use dns_stack.Ipset.Prefix.Bounds.{block, prefix_bounds-masked, block-IsValid, block-IsWord}
use dns_stack.Ecszone.Names.{Record}
use dns_stack.Ecszone.Assigned.{in_span}
use dns_stack.Chnroute.{
  ForeignSpan, apnic_range, apnic_line, counted, started, parse_apnic, visit_entry, load_cnip,
}
use dns_stack.Chnroute.Plan.{span_of}

-- A valid range of uint32 values.
abbrev pub IsProper : Range → Type 0
IsProper r = IsValid r × IsWord r

apnic_range-IsProper :
    (lo count : ℕ) → lo < u32_mod → count < u32_mod → All IsProper (apnic_range lo count)
unfolding apnic_range
apnic_range-IsProper lo count h k = ground arith

module _ (parse_addr : Bytes → Option Addr) (parse_uint : Bytes → Option ℕ)
    (addr_word : (s : Bytes) (a : ℕ) → parse_addr s ≡ some (v4 a) → a < u32_mod)
    (uint_word : (s : Bytes) (n : ℕ) → parse_uint s ≡ some n → n < u32_mod) where
  counted-IsProper :
      (lo : ℕ) (o : Option ℕ)
      → lo < u32_mod
      → ((n : ℕ) → o ≡ some n → n < u32_mod)
      → All IsProper (counted parse_addr parse_uint lo o)
  unfolding counted
  counted-IsProper lo none h k = tt
  counted-IsProper lo (some n) h k = apnic_range-IsProper lo n h (k n refl)

  started-IsProper :
      (o : Option Addr) (count : Bytes)
      → ((a : ℕ) → o ≡ some (v4 a) → a < u32_mod)
      → All IsProper (started parse_addr parse_uint o count)
  unfolding started
  started-IsProper none count h = tt
  started-IsProper (some invalid) count h = tt
  started-IsProper (some (v6 a)) count h = tt
  started-IsProper (some (v4 a)) count h =
      counted-IsProper a (parse_uint count) (h a refl) (uint_word count)

  apnic_line-IsProper : (parts : List Bytes) → All IsProper (apnic_line parse_addr parse_uint parts)
  unfolding apnic_line
  apnic_line-IsProper [] = tt
  apnic_line-IsProper (a ∷ []) = tt
  apnic_line-IsProper (a ∷ b ∷ []) = tt
  apnic_line-IsProper (a ∷ b ∷ c ∷ []) = tt
  apnic_line-IsProper (a ∷ b ∷ c ∷ d ∷ []) = tt
  apnic_line-IsProper (a ∷ b ∷ c ∷ d ∷ e ∷ []) = tt
  apnic_line-IsProper (a ∷ b ∷ c ∷ d ∷ e ∷ f ∷ []) = tt
  apnic_line-IsProper (a ∷ country ∷ kind ∷ start ∷ count ∷ f ∷ status ∷ more) =
      let proper = started-IsProper (parse_addr start) count (addr_word start) in
      elim (Bool-cases (not (same country (codes "CN")) || not (same kind (codes "ipv4")))) [
        | inl e ↦ rw e tt
        | inr e ↦
            rw e
              (elim (Bool-cases
                (not (same status (codes "allocated")) && not (same status (codes "assigned")))) [
                  | inl g ↦ rw g tt
                  | inr g ↦ rw g proper
                ])
      ]

  -- Each range of `parseAPNIC` is valid, of uint32 values: the sums in it do not overflow.
  pub parse_apnic-IsProper :
      (lines : List Bytes) → All IsProper (parse_apnic parse_addr parse_uint lines)
  unfolding parse_apnic
  parse_apnic-IsProper [] = tt
  parse_apnic-IsProper (text ∷ lines) =
      All-append IsProper _ _ (apnic_line-IsProper _) (parse_apnic-IsProper lines)

-- The entry is an IPv4 prefix.
abbrev pub IsEntry : Prefix × Record → Type 0
IsEntry e = (a : ℕ) × (bits : ℕ) × (e.0 ≡ prefix_from (v4 a) bits) × (a < u32_mod) × (bits ≤ 32)

-- The entry gives the address to China.
abbrev pub is_cn : ℕ → Prefix × Record → Bool
is_cn x (prefix, fields) =
    same (get_else (codes "country_code") [] fields) (codes "CN")
    && in_span x (prefix_range (masked prefix))

-- The span, where there is one, is relevant.
abbrev pub is_relevant : (ℕ → ℕ → Bool) → Option (Range × Bool) → Bool
is_relevant relevant (some (r, true)) = relevant r.lo r.hi
is_relevant relevant _ = false

-- The entry gives the address to another country, and its span is relevant.
abbrev pub is_foreign : (ℕ → ℕ → Bool) → ℕ → Prefix × Record → Bool
is_foreign relevant x (prefix, fields) =
    not (same (get_else (codes "country_code") [] fields) (codes "CN"))
    && not (length (get_else (codes "country_code") [] fields) == 0)
    && is_relevant relevant (prefix_range (masked prefix))
    && in_span x (prefix_range (masked prefix))

covered-snoc :
    (rs : List Range) (r : Range) (x : ℕ) → covered (rs ++ r ∷ []) x ≡ (covered rs x || within x r)
covered-snoc rs r x = any-append (within x) rs (r ∷ []) ∙ unfold any in ground arith

covered-map-snoc :
    (fs : List ForeignSpan) (f : ForeignSpan) (x : ℕ)
    → covered (map span_of (fs ++ f ∷ [])) x ≡ (covered (map span_of fs) x || within x (span_of f))
covered-map-snoc fs f x =
    rw (map-append span_of fs (f ∷ [])) (covered-snoc (map span_of fs) (span_of f) x)

prefix_range-masked :
    (a bits : ℕ)
    → bits ≤ 32
    → prefix_range (masked (prefix_from (v4 a) bits)) ≡ some (block a bits, true)
unfolding prefix_range
prefix_range-masked a bits h = rw (prefix_bounds-masked a bits h)

module _ (relevant : ℕ → ℕ → Bool) where
  covered-visit_entry :
      (fields : Record) (o : Option (Range × Bool)) (cn : List Range) (foreign : List ForeignSpan)
      (x : ℕ)
      → (covered (visit_entry relevant fields o (cn, foreign)).0 x ≡ (
          covered cn x
          || (same (get_else (codes "country_code") [] fields) (codes "CN") && in_span x o)))
        × (covered (map span_of (visit_entry relevant fields o (cn, foreign)).1) x ≡ (
            covered (map span_of foreign) x
            || (not (same (get_else (codes "country_code") [] fields) (codes "CN"))
                && not (length (get_else (codes "country_code") [] fields) == 0)
                && is_relevant relevant o
                && in_span x o)))
  unfolding visit_entry
  covered-visit_entry fields none cn foreign x = (ground arith, ground arith)
  covered-visit_entry fields (some (r, false)) cn foreign x = (ground arith, ground arith)
  covered-visit_entry fields (some (r, true)) cn foreign x =
      let code = get_else (codes "country_code") [] fields in
      elim (Bool-cases (same code (codes "CN"))) [
        | inl e ↦ rw e (covered-snoc cn r x, ground arith)
        | inr e ↦ rw e (elim (Bool-cases (length code == 0 || not (relevant r.lo r.hi))) [
          | inl g ↦ rw g (ground arith, ground (arith, g))
          | inr g ↦ rw g (ground arith, covered-map-snoc foreign _ x ∙ ground (arith, g))
        ])
      ]

  -- The ranges of both lists, as the walk collects them.
  pub covered-load_cnip :
      (entries : List (Prefix × Record)) (cn : List Range) (foreign : List ForeignSpan) (x : ℕ)
      → (covered (load_cnip relevant entries (cn, foreign)).0 x
          ≡ (covered cn x || any (is_cn x) entries))
        × (covered (map span_of (load_cnip relevant entries (cn, foreign)).1) x
            ≡ (covered (map span_of foreign) x || any (is_foreign relevant x) entries))
  unfolding load_cnip any
  covered-load_cnip [] cn foreign x = (ground arith, ground arith)
  covered-load_cnip ((prefix, fields) ∷ entries) cn foreign x =
      let next = visit_entry relevant fields (prefix_range (masked prefix)) (cn, foreign) in
      let here = covered-visit_entry fields (prefix_range (masked prefix)) cn foreign x in
      let rest = covered-load_cnip entries next.0 next.1 x in
      (
        rest.0
            ∙ ap (λ b. b || any (is_cn x) entries) here.0
            ∙ regroup (covered cn x) (is_cn x (prefix, fields)) (any (is_cn x) entries),
        rest.1
            ∙ ap (λ b. b || any (is_foreign relevant x) entries) here.1
            ∙ regroup (covered (map span_of foreign) x) (is_foreign relevant x (prefix, fields))
                (any (is_foreign relevant x) entries),
      )
    where
      regroup : (a b c : Bool) → ((a || b) || c) ≡ (a || (b || c))
      regroup a b c = ground arith

  -- The span of an entry of the database is proper.
  IsProperSpan : Option (Range × Bool) → Type 0
  IsProperSpan (some (r, true)) = IsProper r
  IsProperSpan _ = Unit

  visit_entry-IsProper :
      (fields : Record) (o : Option (Range × Bool)) (cn : List Range) (foreign : List ForeignSpan)
      → IsProperSpan o
      → All IsProper cn
      → All IsProper (map span_of foreign)
      → All IsProper (visit_entry relevant fields o (cn, foreign)).0
        × All IsProper (map span_of (visit_entry relevant fields o (cn, foreign)).1)
  unfolding visit_entry IsProperSpan
  visit_entry-IsProper fields none cn foreign p h k = (h, k)
  visit_entry-IsProper fields (some (r, false)) cn foreign p h k = (h, k)
  visit_entry-IsProper fields (some (r, true)) cn foreign p h k =
      let code = get_else (codes "country_code") [] fields in
      elim (Bool-cases (same code (codes "CN"))) [
        | inl e ↦ rw e (All-append IsProper cn (r ∷ []) h (p, tt), k)
        | inr e ↦ rw e (elim (Bool-cases (length code == 0 || not (relevant r.lo r.hi))) [
          | inl g ↦ rw g (h, k)
          | inr g ↦ rw g (
            h,
            rw (map-append span_of foreign (_ ∷ []))
                (All-append IsProper (map span_of foreign) (r ∷ []) k (p, tt)),
          )
        ])
      ]

  IsEntry-IsProperSpan :
      (e : Prefix × Record) → IsEntry e → IsProperSpan (prefix_range (masked e.0))
  unfolding IsProperSpan
  IsEntry-IsProperSpan e (a, bits, same_prefix, w, h) =
      rw same_prefix
        (rw (prefix_range-masked a bits h) (block-IsValid a bits h w, block-IsWord a bits h w))

  pub load_cnip-IsProper :
      (entries : List (Prefix × Record)) (cn : List Range) (foreign : List ForeignSpan)
      → All IsEntry entries
      → All IsProper cn
      → All IsProper (map span_of foreign)
      → All IsProper (load_cnip relevant entries (cn, foreign)).0
        × All IsProper (map span_of (load_cnip relevant entries (cn, foreign)).1)
  unfolding load_cnip
  load_cnip-IsProper [] cn foreign e h k = (h, k)
  load_cnip-IsProper ((prefix, fields) ∷ entries) cn foreign e h k =
      let next =
        visit_entry-IsProper fields (prefix_range (masked prefix)) cn foreign
          (IsEntry-IsProperSpan (prefix, fields) e.0) h k in
      load_cnip-IsProper entries _ _ e.1 next.0 next.1
