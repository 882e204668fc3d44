-- ===== src/Chnroute/Routed.antt =====
-- internal/chnroute/chnroute.go: what `Run` publishes, and when it refuses.
use mathlib.Core.Path.{fun_ext, subst}
use dns_stack.Prelude.{
  ℕ, ◌<◌, ◌≡◌, refl, sym, ap, ◌∙◌, Bool, true, false, Option, none, some, List, [], ◌++◌, ◌&&◌,
  ◌||◌, inl, inr, arith, u32_mod, max_u32, ◌==◌, length, map, All, All-append, All-mono, any,
  any-append, any_empty, Bool-cases,
}
use dns_stack.Text.{Bytes}
use dns_stack.Netip.{Addr, v4, Prefix}
use dns_stack.Spans.{Range, covered, within}
use dns_stack.Ipset.Sets.{new, overlaps}
use dns_stack.Ecszone.Names.{Record}
use dns_stack.Chnroute.{leaked, ForeignSpan, offshore_probes, parse_apnic, guard_offshore_leak}
use dns_stack.Chnroute.Plan.{
  span_of, read_failed, no_records, offshore_leak, Result, done, failed, supplement,
  exclude_foreign, combine, run,
}
use dns_stack.Chnroute.Loaded.{
  IsProper, IsEntry, is_cn, is_foreign, parse_apnic-IsProper, covered-load_cnip, load_cnip-IsProper,
}
use dns_stack.Chnroute.Excluded.{IsRouted, exclude_foreign-IsRouted}
use dns_stack.Chnroute.Covered.{IsFree, leaked-IsFree, leaked-IsHeld}

-- The entries of the database, if it is given and can be read.
abbrev pub entries_in : Option (Option (List (Prefix × Record))) → List (Prefix × Record)
entries_in (some (some entries)) = entries
entries_in _ = []

module _ (parse_addr : Bytes → Option Addr) (parse_uint : Bytes → Option ℕ)
    (too_many : ℕ → ℕ → Bool) (reverse : Bool) (apnic : List Range) where
  supplement-IsProper :
      (c : Option (Option (List (Prefix × Record))))
      → All IsEntry (entries_in c)
      → All IsProper (supplement parse_addr parse_uint too_many reverse c apnic).0
        × All IsProper (map span_of (supplement parse_addr parse_uint too_many reverse c apnic).1)
  unfolding supplement
  supplement-IsProper none h = (tt, tt)
  supplement-IsProper (some none) h = (tt, tt)
  supplement-IsProper (some (some entries)) h =
      load_cnip-IsProper (λ lo hi. reverse && overlaps (some (new apnic)) lo hi) entries [] [] h tt
        tt

  covered-supplement :
      (c : Option (Option (List (Prefix × Record)))) (x : ℕ)
      → (covered (supplement parse_addr parse_uint too_many reverse c apnic).0 x
          ≡ any (is_cn x) (entries_in c))
        × (covered (map span_of (supplement parse_addr parse_uint too_many reverse c apnic).1) x
            ≡ any
                (is_foreign (λ lo hi. reverse && overlaps (some (new apnic)) lo hi) x)
                (entries_in c))
  unfolding supplement any
  covered-supplement none x = (refl, refl)
  covered-supplement (some none) x = (refl, refl)
  covered-supplement (some (some entries)) x =
      covered-load_cnip (λ lo hi. reverse && overlaps (some (new apnic)) lo hi) entries [] [] x

module _ (parse_addr : Bytes → Option Addr) (parse_uint : Bytes → Option ℕ)
    (too_many : ℕ → ℕ → Bool) (reverse : Bool) (lines : List Bytes) (scan_failed : Bool)
    (cnip : Option (Option (List (Prefix × Record)))) where
  -- The ranges of the records.
  abbrev pub apnic : List Range
  apnic = parse_apnic parse_addr parse_uint lines

  abbrev pub entries : List (Prefix × Record)
  entries = entries_in cnip

  abbrev pub relevant : ℕ → ℕ → Bool
  relevant lo hi = reverse && overlaps (some (new apnic)) lo hi

  -- A record or an entry gives the address to China.
  abbrev pub is_listed : ℕ → Bool
  is_listed x = covered apnic x || any (is_cn x) entries

  -- The results: the routes by the listed and the foreign addresses, and no offshore probe that the database gives to
  -- China; or the reason why there are none.
  abbrev pub IsResult : Result → Type 0
  IsResult (done routes) =
      IsRouted parse_addr too_many is_listed (λ x. any (is_foreign relevant x) entries) routes
      × All (λ probe. (a : ℕ) → parse_addr probe ≡ some (v4 a) → any (is_cn a) entries ≡ false)
          offshore_probes
  IsResult (failed read_failed) = scan_failed ≡ true
  IsResult (failed no_records) = (scan_failed ≡ false) × (apnic ≡ [])
  IsResult (failed (offshore_leak probe)) =
      (a : ℕ) × (parse_addr probe ≡ some (v4 a)) × (any (is_cn a) entries ≡ true)

  module _ (cn : List Range) (foreign : List ForeignSpan) (proper_apnic : All IsProper apnic)
      (proper : All IsProper cn) (spans : All IsProper (map span_of foreign))
      (given : (x : ℕ) → covered cn x ≡ any (is_cn x) entries)
      (elsewhere : (x : ℕ) → covered (map span_of foreign) x ≡ any (is_foreign relevant x) entries)
      (free : any (is_foreign relevant max_u32) entries ≡ false) where
    excluded-IsRouted :
        (rs : List Range) (supplemented : ℕ)
        → All IsProper rs
        → ((x : ℕ) → covered rs x ≡ is_listed x)
        → IsRouted parse_addr too_many is_listed
            (λ x. any (is_foreign relevant x) entries)
            (exclude_foreign parse_addr parse_uint too_many reverse (new rs) supplemented foreign)
    excluded-IsRouted rs supplemented proper_rs same_listed =
        let routes =
          exclude_foreign parse_addr parse_uint too_many reverse (new rs) supplemented foreign in
        let free_spans : covered (map span_of foreign) max_u32 ≡ false = elsewhere max_u32 ∙ free in
        subst
          (λ l. IsRouted parse_addr too_many l (λ x. any (is_foreign relevant x) entries) routes)
          (fun_ext same_listed)
          (subst (λ l. IsRouted parse_addr too_many (λ x. covered rs x) l routes)
            (fun_ext elsewhere)
            (exclude_foreign-IsRouted parse_addr too_many rs proper_rs foreign spans free_spans
              parse_uint reverse supplemented))

    combine-IsResult : IsResult (combine parse_addr parse_uint too_many reverse apnic cn foreign)
    unfolding combine guard_offshore_leak
    combine-IsResult = elim (Bool-cases (length cn == 0)) [
      | inl e ↦
          let none_given : (x : ℕ) → any (is_cn x) entries ≡ false =
            λ x. sym (given x) ∙ any_empty (within x) cn (ground (arith, e)) in
          rw e (
            excluded-IsRouted apnic 0 proper_apnic (λ x. rw (none_given x) (ground arith)),
            all_free none_given,
          )
      | inr e ↦ rw e (guarded (leaked parse_addr (new cn) offshore_probes) refl)
    ]
      where
        all_free :
            ((x : ℕ) → any (is_cn x) entries ≡ false)
            → All
                (λ probe. (a : ℕ) → parse_addr probe ≡ some (v4 a) → any (is_cn a) entries ≡ false)
                offshore_probes
        all_free h = (λ a p. h a, (λ a p. h a, (λ a p. h a, (λ a p. h a, tt))))

        guarded :
            (o : Option Bytes)
            → leaked parse_addr (new cn) offshore_probes ≡ o
            → IsResult (elim o [
              | some probe ↦ failed (offshore_leak probe)
              | none ↦ done (
                  exclude_foreign parse_addr parse_uint too_many reverse
                    (new (apnic ++ cn))
                    (length (new cn).ranges)
                    foreign)
            ])
        guarded none q = (
          excluded-IsRouted (apnic ++ cn) _ (All-append IsProper apnic cn proper_apnic proper)
              (λ x. any-append (within x) apnic cn ∙ ap (λ b. covered apnic x || b) (given x)),
          All-mono (IsFree cn proper parse_addr)
              (λ probe. (a : ℕ) → parse_addr probe ≡ some (v4 a) → any (is_cn a) entries ≡ false)
              offshore_probes (λ probe h a p. sym (given a) ∙ h a p)
              (leaked-IsFree cn proper parse_addr offshore_probes q),
        )
        guarded (some probe) q =
            let (a, p, c) = leaked-IsHeld cn proper parse_addr offshore_probes probe q in
            (a, p, sym (given a) ∙ c)

  -- `Run` publishes prefixes that hold exactly the reserved addresses and the addresses that a record of APNIC or the
  -- database gives to China, less, if it excludes any, those that the database gives to another country by a span that
  -- meets the records of APNIC; it counts both kinds of addresses exactly; it excludes only what is not too much, and no
  -- probe of the mainland; and it refuses only if the records cannot be read or are none, or the database gives an
  -- offshore probe to China. The parsers give values of 32 bits, the entries are IPv4 prefixes, and the database does
  -- not give 255.255.255.255 to a country by a span that meets the records.
  pub run-IsResult :
      ((s : Bytes) (a : ℕ) → parse_addr s ≡ some (v4 a) → a < u32_mod)
      → ((s : Bytes) (n : ℕ) → parse_uint s ≡ some n → n < u32_mod)
      → All IsEntry entries
      → any (is_foreign relevant max_u32) entries ≡ false
      → IsResult (run parse_addr parse_uint too_many reverse lines scan_failed cnip)
  unfolding run
  run-IsResult addr_word uint_word well free =
      let proper_apnic = parse_apnic-IsProper parse_addr parse_uint addr_word uint_word lines in
      let same_addresses = covered-supplement parse_addr parse_uint too_many reverse apnic cnip in
      let (proper, spans) =
        supplement-IsProper parse_addr parse_uint too_many reverse apnic cnip well in
      let (cn, foreign) = supplement parse_addr parse_uint too_many reverse cnip apnic in
      let combined =
        combine-IsResult cn foreign proper_apnic proper spans (λ x. (same_addresses x).0)
          (λ x. (same_addresses x).1) free in
      elim (Bool-cases scan_failed) [
        | inl e ↦ rw e refl
        | inr e ↦ elim (Bool-cases (length apnic == 0)) [
          | inl f ↦ rw (e, f) (refl, ground (arith, f))
          | inr f ↦
              let read : run parse_addr parse_uint too_many reverse lines scan_failed cnip
                  ≡ combine parse_addr parse_uint too_many reverse apnic cn foreign =
                rw (e, f) refl in
              subst IsResult (sym read) combined
        ]
      ]
