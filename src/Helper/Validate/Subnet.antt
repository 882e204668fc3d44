-- ===== src/Helper/Validate/Subnet.antt =====
-- internal/helper/validate.go: which blocks of addresses `SafeClientSubnet` accepts.
use mathlib.Core.Bool.{false≢true}
use dns_stack.Prelude.{
  ℕ, ◌/◌, ◌%◌, ◌<◌, ◌≡◌, refl, sym, ap, ◌∙◌, ◌↔◌, Bool, true, false, Option, none, some, List, [],
  ◌∷◌, not, inl, inr, ◌==◌, arith, u32_mod, All, any, ==_iff, ◌||◌, Bool-cases, if◌then◌else◌,
}
use dns_stack.Text.{Bytes, trim_space}
use dns_stack.Text.Match.{codes, same, same_iff, cut}
use dns_stack.Netip.{Addr, invalid, v4, v6, Prefix, prefix_from, masked, clear_low}
use dns_stack.Spans.{Range, covered, within}
use dns_stack.Ruleset.Setup.{holds, same_addr}
use dns_stack.Ipset.Prefix.Tiles.{ranges_of_prefixes}
use dns_stack.Ipset.Addresses.{is_global_addr}
use dns_stack.Ipset.Global.{non_global_prefixes}
use dns_stack.Ipset.Global.Laws.{reserved}
use dns_stack.Ipset.Global.Whole.{is_global_prefix-reserved}
use dns_stack.Helper.Validate.{broadcast_of, safe_subnet, split_subnet, safe_client_subnet}

-- A range of whole blocks of 256 addresses.
abbrev IsAligned : Range → Type 0
IsAligned r = (r.lo % 256 ≡ 0) × (r.hi % 256 ≡ 255)

within-IsAligned : (r : Range) (x y : ℕ) → IsAligned r → x / 256 ≡ y / 256 → within x r ≡ within y r
within-IsAligned r x y h e = ground arith

covered-IsAligned :
    (rs : List Range) (x y : ℕ) → All IsAligned rs → x / 256 ≡ y / 256 → covered rs x ≡ covered rs y
unfolding any
covered-IsAligned [] x y h e = refl
covered-IsAligned (r ∷ rs) x y h e =
    rw (within-IsAligned r x y h.0 e, covered-IsAligned rs x y h.1 e) refl

reserved-IsAligned : All IsAligned (ranges_of_prefixes non_global_prefixes)
unfolding ranges_of_prefixes
reserved-IsAligned = (
  (refl, refl),
  (
    (refl, refl),
    (
      (refl, refl),
      (
        (refl, refl),
        (
          (refl, refl),
          (
            (refl, refl),
            (
              (refl, refl),
              (
                (refl, refl),
                (
                  (refl, refl),
                  (
                    (refl, refl),
                    (
                      (refl, refl),
                      ((refl, refl), ((refl, refl), ((refl, refl), ((refl, refl), tt)))),
                    ),
                  ),
                ),
              ),
            ),
          ),
        ),
      ),
    ),
  ),
)

-- The reserved blocks are made of whole blocks of 256 addresses.
reserved-block : (x y : ℕ) → x / 256 ≡ y / 256 → reserved x ≡ reserved y
reserved-block x y e =
    covered-IsAligned (ranges_of_prefixes non_global_prefixes) x y reserved-IsAligned e

is_global_addr-reserved :
    (a : ℕ) → a < u32_mod → (holds (is_global_addr (v4 a)) ≡ true) ↔ (reserved a ≡ false)
unfolding is_global_addr
is_global_addr-reserved a w =
    let (b, answer, decided) = is_global_prefix-reserved a 32 w (omega arith) in
    rw answer (
      λ e. decided.0 e a refl,
      λ free. decided.1 (λ x q. sym (reserved-block a x (omega (arith, q))) ∙ free),
    )

-- The prefix is the block of 256 addresses that begins at the address, and none of them is reserved.
pub record IsOpenBlock (a : ℕ) (p : Prefix) : Type 0 where
  pub is_block : p ≡ prefix_from (v4 a) 24
  pub begins : a % 256 ≡ 0
  pub is_open : (x : ℕ) → x / 256 ≡ a / 256 → reserved x ≡ false

-- What the three tests let through.
passed :
    (starts first last : Bool) (q p : Prefix)
    → ((if not starts then none else if not first || not last then none else some q) ≡ some p)
      ↔ ((p ≡ q) × (starts ≡ true) × (first ≡ true) × (last ≡ true))
passed true true true q p = (λ e. (ground (arith, e), refl, refl, refl), λ h. rw h.0 refl)
passed false first last q p = (λ e. ground (arith, e), λ h. ground (arith, h))
passed true false last q p = (λ e. ground (arith, e), λ h. ground (arith, h))
passed true true false q p = (λ e. ground (arith, e), λ h. ground (arith, h))

module _ (parse_addr : Bytes → Option Addr) where
  -- An IPv4 address is accepted exactly if it begins a block of 256 addresses, and none of them is reserved.
  pub safe_subnet-reserved :
      (a : ℕ) (p : Prefix)
      → a < u32_mod
      → (safe_subnet parse_addr (some (v4 a)) ≡ some p) ↔ IsOpenBlock a p
  unfolding safe_subnet same_addr prefix_from masked broadcast_of
  safe_subnet-reserved a p w =
      let (decided, built) =
        passed (clear_low 8 a == a) (holds (is_global_addr (v4 a)))
          (holds (is_global_addr (v4 (broadcast_of parse_addr a)))) (prefix_from (v4 a) 24) p in
      let last : broadcast_of parse_addr a / 256 ≡ a / 256 = omega arith in
      let ends = is_global_addr-reserved (broadcast_of parse_addr a) (omega (arith, w)) in
      let starts = is_global_addr-reserved a w in
      (
        λ e.
            let (eq, start, first, rest) = decided e in
            record {
              is_block = eq;
              begins = omega (arith, (==_iff _ _).0 start);
              is_open = λ x q. reserved-block x a q ∙ starts.0 first;
            },
        λ h. built (
          h.is_block,
          (==_iff _ _).1 (omega (arith, h.begins)),
          starts.1 (h.is_open a refl),
          ends.1 (h.is_open _ last),
        ),
      )

  -- The same of what a parser returns.
  parsed-reserved :
      (addr : Option Addr) (p : Prefix)
      → ((a : ℕ) → addr ≡ some (v4 a) → a < u32_mod)
      → (safe_subnet parse_addr addr ≡ some p) ↔ ((a : ℕ) × (addr ≡ some (v4 a)) × IsOpenBlock a p)
  unfolding safe_subnet
  parsed-reserved addr p words =
      (accepted addr words, λ h. rw h.1 ((safe_subnet-reserved h.0 p (words h.0 h.1)).1 h.2))
    where
      accepted :
          (addr : Option Addr)
          → ((a : ℕ) → addr ≡ some (v4 a) → a < u32_mod)
          → safe_subnet parse_addr addr ≡ some p
          → (a : ℕ) × (addr ≡ some (v4 a)) × IsOpenBlock a p
      accepted none words e = absurd (ground (arith, e))
      accepted (some invalid) words e = absurd (ground (arith, e))
      accepted (some (v6 a)) words e = absurd (ground (arith, e))
      accepted (some (v4 a)) words e = (a, refl, (safe_subnet-reserved a p (words a refl)).0 e)

  split_subnet-reserved :
      ((host : Bytes) (a : ℕ) → parse_addr host ≡ some (v4 a) → a < u32_mod)
      → (parts : Option (Bytes × Bytes)) (p : Prefix)
      → (split_subnet parse_addr parts ≡ some p) ↔ (
          (host : Bytes) × (a : ℕ) × (parts ≡ some (host, codes "24"))
          × (parse_addr host ≡ some (v4 a))
          × IsOpenBlock a p)
  unfolding split_subnet
  split_subnet-reserved words none p =
      (λ e. absurd (ground (arith, e)), λ h. absurd (ground (arith, h)))
  split_subnet-reserved words (some (host, mask)) p = elim (Bool-cases (same mask (codes "24"))) [
    | inr e ↦ rw e (
      λ f. absurd (ground (arith, f)),
      λ h.
          let (other, a, eq, is_v4, block) = h in
          let here : mask ≡ codes "24" = ground (arith, eq) in
          absurd (false≢true (sym e ∙ (same_iff mask (codes "24")).1 here)),
    )
    | inl e ↦
        let is_24 : mask ≡ codes "24" = (same_iff mask (codes "24")).0 e in
        let host_case = parsed-reserved (parse_addr host) p (words host) in
        rw e (
          λ f.
              let (a, is_v4, block) = host_case.0 f in
              (host, a, ap (λ m. some (host, m)) is_24, is_v4, block),
          λ h.
              let (other, a, eq, is_v4, block) = h in
              let here : other ≡ host = ground (arith, eq) in
              host_case.1 (a, rw (← here) is_v4, block),
        )
  ]

  -- `SafeClientSubnet` accepts a text exactly if, without the space around it, it is an IPv4 address, a slash and 24, the
  -- address begins a block of 256 addresses and no address of the block is reserved; the result is the prefix of that
  -- block. The parser returns IPv4 addresses below 2 ^ 32.
  pub safe_client_subnet-reserved :
      ((host : Bytes) (a : ℕ) → parse_addr host ≡ some (v4 a) → a < u32_mod)
      → (raw : Bytes) (p : Prefix)
      → (safe_client_subnet parse_addr raw ≡ some p) ↔ (
          (host : Bytes) × (a : ℕ) × (cut b'/' (trim_space raw) ≡ some (host, codes "24"))
          × (parse_addr host ≡ some (v4 a))
          × IsOpenBlock a p)
  unfolding safe_client_subnet
  safe_client_subnet-reserved words raw p =
      split_subnet-reserved words (cut b'/' (trim_space raw)) p
