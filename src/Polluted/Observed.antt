-- ===== src/Polluted/Observed.antt =====
-- internal/polluted/polluted.go: which addresses `Run` counts as observed.
use dns_stack.Prelude.{
  ℕ, ◌+◌, ◌≤◌, ◌≡◌, refl, sym, ap, ◌∙◌, false, none, List, [], ◌∷◌, inl, inr, leb, if◌then◌else◌,
  arith, Bool-cases,
}
use dns_stack.Text.{Bytes}
use dns_stack.Text.Match.{same, same_iff, has_key}
use dns_stack.Text.Maps.{IsMap, get, get_else, put, get-put, put-IsMap, value_or, get_else-get}
use dns_stack.Netip.{Addr}
use dns_stack.Polluted.{observed_keys, count_lines}

-- No key stands twice.
abbrev pub IsDistinct : List Bytes → Type 0
IsDistinct [] = Unit
IsDistinct (k ∷ ks) = (has_key k ks ≡ false) × IsDistinct ks

-- The keys with enough lines are those whose count is.
has_key-observed_keys :
    (k : Bytes) (least : ℕ) (counts : List (Bytes × ℕ))
    → 1 ≤ least
    → IsMap counts
    → has_key k (observed_keys least counts) ≡ leb least (value_or 0 (get k counts))
unfolding observed_keys has_key get value_or
has_key-observed_keys k least [] p h = ground arith
has_key-observed_keys k least ((j, n) ∷ counts) p h = elim (Bool-cases (leb least n)) [
  | inl e ↦ rw e (elim (Bool-cases (same k j)) [
    | inl f ↦ rw f (sym e)
    | inr f ↦ rw f (has_key-observed_keys k least counts p h.1)
  ])
  | inr e ↦ rw e (elim (Bool-cases (same k j)) [
    | inr f ↦ rw f (has_key-observed_keys k least counts p h.1)
    | inl f ↦
        let here : k ≡ j = (same_iff k j).0 f in
        let gone : get k counts ≡ none = ap (λ m. get m counts) here ∙ h.0 in
        let without : leb least (value_or 0 (get k counts)) ≡ false = rw gone (ground arith) in
        rw f (has_key-observed_keys k least counts p h.1 ∙ without ∙ sym e)
  ])
]

observed_keys-IsDistinct :
    (least : ℕ) (counts : List (Bytes × ℕ))
    → 1 ≤ least
    → IsMap counts
    → IsDistinct (observed_keys least counts)
unfolding observed_keys value_or
observed_keys-IsDistinct least [] p h = tt
observed_keys-IsDistinct least ((j, n) ∷ counts) p h = elim (Bool-cases (leb least n)) [
  | inr e ↦ rw e (observed_keys-IsDistinct least counts p h.1)
  | inl e ↦ rw e (
    has_key-observed_keys j least counts p h.1 ∙ rw (h.0, value_or) (ground arith),
    observed_keys-IsDistinct least counts p h.1,
  )
]

module _ (print_addr : Addr → Bytes) where
  -- How many of the addresses have the text.
  unfoldable pub occurrences : Bytes → List Addr → ℕ
  occurrences k [] = 0
  occurrences k (a ∷ addrs) =
      let rest = occurrences k addrs in if same k (print_addr a) then rest + 1 else rest

  get-count_lines :
      (k : Bytes) (addrs : List Addr) (counts : List (Bytes × ℕ))
      → value_or 0 (get k (count_lines print_addr addrs counts))
        ≡ occurrences k addrs + value_or 0 (get k counts)
  unfolding count_lines occurrences value_or
  get-count_lines k [] counts = omega arith
  get-count_lines k (a ∷ addrs) counts =
      let key = print_addr a in
      get-count_lines k addrs (put key (get_else key 0 counts + 1) counts)
      ∙ rw (get-put k key (get_else key 0 counts + 1) counts, get_else-get key 0 counts)
          (elim (Bool-cases (same k key)) [
            | inr e ↦ rw e refl
            | inl e ↦
                let same_count : value_or 0 (get key counts) ≡ value_or 0 (get k counts) =
                  ap (λ n. value_or 0 (get n counts)) (sym ((same_iff k key).0 e)) in
                rw e (omega (arith, same_count))
          ])

  count_lines-IsMap :
      (addrs : List Addr) (counts : List (Bytes × ℕ))
      → IsMap counts
      → IsMap (count_lines print_addr addrs counts)
  unfolding count_lines
  count_lines-IsMap [] counts h = h
  count_lines-IsMap (a ∷ addrs) counts h =
      count_lines-IsMap addrs (put (print_addr a) _ counts) (put-IsMap (print_addr a) _ counts h)

  -- A text counts as observed if enough addresses have it.
  pub is_observed-occurrences :
      (k : Bytes) (least : ℕ) (addrs : List Addr)
      → 1 ≤ least
      → has_key k (observed_keys least (count_lines print_addr addrs []))
        ≡ leb least (occurrences k addrs)
  unfolding get value_or
  is_observed-occurrences k least addrs p =
      has_key-observed_keys k least (count_lines print_addr addrs []) p
        (count_lines-IsMap addrs [] tt)
      ∙ ap (leb least) (get-count_lines k addrs [] ∙ omega arith)

  pub observed-IsDistinct :
      (least : ℕ) (addrs : List Addr)
      → 1 ≤ least
      → IsDistinct (observed_keys least (count_lines print_addr addrs []))
  observed-IsDistinct least addrs p =
      observed_keys-IsDistinct least (count_lines print_addr addrs []) p
        (count_lines-IsMap addrs [] tt)
