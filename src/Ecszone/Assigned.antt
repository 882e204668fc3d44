-- ===== src/Ecszone/Assigned.antt =====
-- internal/ecszone/ecszone.go: which addresses `Build` gives a zone.
use dns_stack.Prelude.{
  ℕ, ◌≡◌, refl, sym, ap, ◌∙◌, Bool, true, false, Option, none, some, List, [], ◌∷◌, ◌&&◌, ◌||◌, not,
  inl, inr, arith, ltb, ◌==◌, length, any, any-append, any_empty, All, Bool-cases,
}
use dns_stack.Text.{Bytes}
use dns_stack.Text.Match.{codes, same}
use dns_stack.Text.Maps.{get_else}
use dns_stack.Netip.{Prefix, is4, masked}
use dns_stack.Spans.{Range, NormalFrom, IsValid, IsWord, covered, within}
use dns_stack.Ipset.Collapse.{collapse, collapse-IsNormal, collapse-IsWord, covered-collapse}
use dns_stack.Ipset.Sets.{new, ranges_of}
use dns_stack.Ipset.Prefix.{prefix_range}
use dns_stack.Ipset.Subtract.{subtract}
use dns_stack.Ipset.Subtract.Laws.{covered-subtract}
use dns_stack.Ecszone.Names.{Record, zone_of}
use dns_stack.Ecszone.Rows.{intersections, any_overlap}
use dns_stack.Ecszone.Intersections.{covered-intersections}
use dns_stack.Ecszone.Merge.{in_row, in_rows}
use dns_stack.Ecszone.Parts.{
  NormalFrom-TopIsLast, NormalFrom-IsValid, intersections-IsValid, intersections-IsWord,
  intersections-TopIsLast, any_overlap-meets, meets-covered,
}
use dns_stack.Ecszone.Build.{
  BuildStats, BuildState, cut_disputed, rows_of, no_stats, add_span, at_span, visit, visit_all,
  build,
}

in_rows-rows_of :
    (zone : Bytes) (rs : List Range) (x : ℕ) → in_rows (rows_of zone rs) x ≡ covered rs x
unfolding rows_of any
in_rows-rows_of zone [] x = refl
in_rows-rows_of zone (r ∷ rs) x = ap (λ b. within x r || b) (in_rows-rows_of zone rs x)

-- The span of a prefix, where `PrefixRange` gives one, holds the address.
abbrev pub in_span : ℕ → Option (Range × Bool) → Bool
in_span x (some (r, true)) = within x r
in_span x _ = false

-- The database gives the address a zone by this entry: it is an IPv4 prefix of China with a known province and
-- carrier, and holds the address.
abbrev pub is_zoned : ℕ → Prefix × Record → Bool
is_zoned x (prefix, fields) =
    same (get_else (codes "country_code") [] fields) (codes "CN")
    && is4 prefix.addr
    && ltb 0 (length (zone_of fields))
    && in_span x (prefix_range (masked prefix))

module _ (direct cuts : List Range) (m : NormalFrom 0 direct) (w : All IsWord direct)
    (n : NormalFrom 0 cuts) (v : All IsWord cuts) where
  pub covered-cut_disputed :
      (lo hi x : ℕ) (st : BuildStats)
      → covered (cut_disputed cuts (intersections lo hi direct) st).0 x
        ≡ (covered (intersections lo hi direct) x && not (covered cuts x))
  unfolding cut_disputed
  covered-cut_disputed lo hi x st =
      let parts = intersections lo hi direct in
      let subtracted : covered (subtract parts cuts) x ≡ (covered parts x && not (covered cuts x)) =
        covered-subtract parts cuts (intersections-IsValid lo hi direct m w)
          (intersections-IsWord lo hi direct m w) (intersections-TopIsLast lo hi direct m w)
          (NormalFrom-IsValid 0 cuts n) v (NormalFrom-TopIsLast 0 cuts n v) x in
      elim (Bool-cases (ltb 0 (length cuts) && any_overlap parts cuts)) [
        | inl e ↦ rw e subtracted
        | inr e ↦ rw e (apart parts (ground (arith, e)))
      ]
    where
      apart :
          (parts : List Range)
          → (ltb 0 (length cuts) ≡ true → any_overlap parts cuts ≡ false)
          → covered parts x ≡ (covered parts x && not (covered cuts x))
      apart parts f = elim (Bool-cases (covered parts x)) [
        | inr e ↦ rw e refl
        | inl e ↦
            let free : covered cuts x ≡ false = elim (Bool-cases (ltb 0 (length cuts))) [
              | inl l ↦ meets-covered parts cuts x (sym (any_overlap-meets parts cuts n) ∙ f l) e
              | inr l ↦ any_empty (within x) cuts (ground (arith, l))
            ] in
            rw (e, free) refl
      ]

  -- The address is direct and not disputed.
  is_open : ℕ → Bool
  is_open x = covered direct x && not (covered cuts x)

  in_rows-add_span :
      (span : Range) (zone : Bytes) (s : BuildState) (x : ℕ)
      → in_rows (add_span direct cuts span zone s).rows x
        ≡ (in_rows s.rows x || (ltb 0 (length zone) && within x span && is_open x))
  unfolding add_span is_open
  in_rows-add_span span zone s x = elim (Bool-cases (length zone == 0)) [
    | inl e ↦ rw e (ground (arith, e))
    | inr e ↦
        let named : ltb 0 (length zone) ≡ true = ground (arith, e) in
        let parts = (cut_disputed cuts (intersections span.lo span.hi direct) s.stats).0 in
        rw
          (
            e,
            named,
            any-append (in_row x) s.rows (rows_of zone parts),
            in_rows-rows_of zone parts x,
            covered-cut_disputed span.lo span.hi x s.stats,
            covered-intersections span.lo span.hi direct x m,
          )
          (ground arith)
  ]

  in_rows-at_span :
      (zone : Bytes) (s : BuildState) (o : Option (Range × Bool)) (x : ℕ)
      → in_rows (at_span direct cuts zone s o).rows x
        ≡ (in_rows s.rows x || ((ltb 0 (length zone) && in_span x o) && is_open x))
  unfolding at_span
  in_rows-at_span zone s none x = ground arith
  in_rows-at_span zone s (some (r, false)) x = ground arith
  in_rows-at_span zone s (some (r, true)) x = rw (in_rows-add_span r zone s x) (ground arith)

  in_rows-visit :
      (prefix : Prefix) (fields : Record) (s : BuildState) (x : ℕ)
      → in_rows (visit direct cuts prefix fields s).rows x
        ≡ (in_rows s.rows x || (is_zoned x (prefix, fields) && is_open x))
  unfolding visit
  in_rows-visit prefix fields s x =
      elim (Bool-cases (same (get_else (codes "country_code") [] fields) (codes "CN"))) [
        | inr e ↦ rw e (ground arith)
        | inl e ↦ rw e (elim (Bool-cases (is4 prefix.addr)) [
          | inr f ↦ rw f (ground arith)
          | inl f ↦ rw f (in_rows-at_span (zone_of fields) s (prefix_range (masked prefix)) x)
        ])
      ]

  in_rows-visit_all :
      (entries : List (Prefix × Record)) (s : BuildState) (x : ℕ)
      → in_rows (visit_all direct cuts s entries).rows x
        ≡ (in_rows s.rows x || (any (is_zoned x) entries && is_open x))
  unfolding visit_all any
  in_rows-visit_all [] s x = ground arith
  in_rows-visit_all ((prefix, fields) ∷ entries) s x =
      rw
        (
          in_rows-visit_all entries (visit direct cuts prefix fields s) x,
          in_rows-visit prefix fields s x,
        )
        (ground arith)

-- `Build` returns rows that hold exactly the addresses that an entry of the database gives a zone, that are direct and
-- that are not disputed. The direct ranges are in normal form, and the disputed set is what `New` makes of valid ranges,
-- all of uint32 values.
pub in_rows-build :
    (direct disputed : List Range)
    → NormalFrom 0 direct
    → All IsWord direct
    → All IsValid disputed
    → All IsWord disputed
    → (entries : List (Prefix × Record))
    → (s : BuildState) × (build direct (some (new disputed)) (some entries) ≡ some s)
      × ((x : ℕ)
          → in_rows s.rows x
            ≡ (any (is_zoned x) entries && covered direct x && not (covered disputed x)))
unfolding build ranges_of new is_open any
in_rows-build direct disputed m w v u entries =
    let cuts = collapse disputed in
    let start : BuildState = record { rows = []; stats = no_stats } in
    let rows =
      in_rows-visit_all direct cuts m w (collapse-IsNormal disputed v u)
        (collapse-IsWord disputed u) entries start in
    (
      visit_all direct cuts start entries,
      refl,
      λ x.
          let shown : in_rows (visit_all direct cuts start entries).rows x
              ≡ (any (is_zoned x) entries && (covered direct x && not (covered cuts x))) =
            rows x in
          rw (shown, covered-collapse disputed x u) (ground arith),
    )
