-- ===== src/Helper/Auth/Verified.antt =====
-- internal/helper/auth.go: what `verified_once` of the settings of OAuth stands for.
use dns_stack.Prelude.{
  ◌≡◌, refl, sym, ap, ◌∙◌, Bool, true, false, Option, none, some, List, inl, inr, arith, ◌==◌, ◌||◌,
  length, Bool-cases,
}
use dns_stack.Text.{Bytes, trim_space}
use dns_stack.Text.Match.{codes, same, same_iff, has_key}
use dns_stack.Text.Maps.{IsMap, get, get-put}
use dns_stack.Helper.Json.{Json}
use dns_stack.Helper.Auth.{
  oauth_writable_keys, overlay, string_value, list_value, truthy, replaced,
  oauth_credential_replaced, keep_secret, keep_bound, verified_once, merge_oauth, field_or_nil,
}
use dns_stack.Helper.Auth.Merged.{overlaid, get-overlay, or_nil, field_or_nil-get}

module _ {N : Type 0} where
  -- The text of an entry, without space around it.
  unfoldable pub trimmed : Option (Json N) → Bytes
  trimmed entry = trim_space (string_value (or_nil entry))

  -- An entry that is not replaced has the text it had.
  overlaid-Trimmed :
      (entry old : Option (Json N))
      → replaced entry (or_nil old) false ≡ false
      → trimmed (overlaid true entry old) ≡ trimmed old
  unfolding replaced overlaid trimmed or_nil
  overlaid-Trimmed none old e = refl
  overlaid-Trimmed (some raw) old e = (same_iff _ _).0 (ground (arith, e))

  -- A secret that is given and not replaced has the text it had.
  given-Trimmed :
      (entry old : Option (Json N))
      → length (trimmed entry) == 0 ≡ false
      → replaced entry (or_nil old) true ≡ false
      → trimmed (overlaid true entry old) ≡ trimmed old
  unfolding replaced overlaid trimmed or_nil
  given-Trimmed none old f e = refl
  given-Trimmed (some raw) old f e = (same_iff _ _).0 (ground (arith, e, f))

module _ {N : Type 0} (is_zero : N → Bool) where
  get-keep_bound :
      (k : Bytes) (old : List (Bytes × Json N)) (users : Option (List (Json N)))
      (merged : List (Bytes × Json N))
      → same k (codes "bound_ids") ≡ false
      → get k (keep_bound is_zero old users merged) ≡ get k merged
  unfolding keep_bound
  get-keep_bound k old none merged e = refl
  get-keep_bound k old (some users) merged e = get-put k (codes "bound_ids") _ merged ∙ rw e refl

  get-keep_secret :
      (k : Bytes) (old incoming merged : List (Bytes × Json N))
      → same k (codes "client_secret") ≡ false
      → get k (keep_secret is_zero old incoming merged) ≡ get k merged
  unfolding keep_secret
  get-keep_secret k old incoming merged e =
      elim (Bool-cases
        (length (trim_space (string_value (field_or_nil (codes "client_secret") incoming))) == 0)) [
          | inr f ↦ rw f refl
          | inl f ↦ rw f (get-put k (codes "client_secret") _ merged ∙ rw e refl)
        ]

  -- The entry of another key than the three that are settled last is the overlaid one.
  get-settled :
      (k : Bytes) (old incoming : List (Bytes × Json N))
      → IsMap incoming
      → same k (codes "verified_once") ≡ false
      → same k (codes "bound_ids") ≡ false
      → get k (merge_oauth is_zero old incoming)
        ≡ get k (keep_secret is_zero old incoming (overlay oauth_writable_keys incoming old))
  unfolding merge_oauth
  get-settled k old incoming h e f =
      get-put k (codes "verified_once") _ _
      ∙ rw e (get-keep_bound k old (list_value (field_or_nil (codes "allowed_users") incoming)) _ f)

  client_id-Trimmed :
      (old incoming : List (Bytes × Json N))
      → IsMap incoming
      → replaced (get (codes "client_id") incoming) (field_or_nil (codes "client_id") old) false
        ≡ false
      → trimmed (get (codes "client_id") (merge_oauth is_zero old incoming))
        ≡ trimmed (get (codes "client_id") old)
  unfolding same has_key trimmed
  client_id-Trimmed old incoming h e =
      ap trimmed (
        get-settled (codes "client_id") old incoming h refl refl
        ∙ get-keep_secret (codes "client_id") old incoming _ refl
        ∙ get-overlay (codes "client_id") oauth_writable_keys incoming old h)
      ∙ overlaid-Trimmed (get (codes "client_id") incoming) (get (codes "client_id") old)
          (rw (← field_or_nil-get (codes "client_id") old) e)

  -- A secret that is kept or not replaced has the text it had.
  keep_secret-Trimmed :
      (old incoming merged : List (Bytes × Json N))
      → get (codes "client_secret") merged
        ≡ overlaid true (get (codes "client_secret") incoming) (get (codes "client_secret") old)
      → replaced
          (get (codes "client_secret") incoming)
          (field_or_nil (codes "client_secret") old)
          true
        ≡ false
      → trimmed (get (codes "client_secret") (keep_secret is_zero old incoming merged))
        ≡ trimmed (get (codes "client_secret") old)
  unfolding keep_secret trimmed or_nil same
  keep_secret-Trimmed old incoming merged h e =
      rw (field_or_nil-get (codes "client_secret") incoming)
        (elim (Bool-cases (length (trimmed (get (codes "client_secret") incoming)) == 0)) [
          | inl f ↦ rw f (
              ap trimmed (get-put (codes "client_secret") (codes "client_secret") _ merged)
              ∙ ap (λ v. trim_space (string_value v))
                  (field_or_nil-get (codes "client_secret") old))
          | inr f ↦ rw f (
              ap trimmed h
              ∙ given-Trimmed (get (codes "client_secret") incoming)
                  (get (codes "client_secret") old) f
                  (rw (← field_or_nil-get (codes "client_secret") old) e))
        ])

  client_secret-Trimmed :
      (old incoming : List (Bytes × Json N))
      → IsMap incoming
      → replaced
          (get (codes "client_secret") incoming)
          (field_or_nil (codes "client_secret") old)
          true
        ≡ false
      → trimmed (get (codes "client_secret") (merge_oauth is_zero old incoming))
        ≡ trimmed (get (codes "client_secret") old)
  unfolding same has_key
  client_secret-Trimmed old incoming h e =
      ap trimmed (get-settled (codes "client_secret") old incoming h refl refl)
      ∙ keep_secret-Trimmed old incoming _
          (get-overlay (codes "client_secret") oauth_writable_keys incoming old h) e

  verified_once-settled :
      (old incoming : List (Bytes × Json N))
      → truthy is_zero (field_or_nil (codes "verified_once") (merge_oauth is_zero old incoming))
        ≡ verified_once is_zero old incoming
  unfolding merge_oauth truthy or_nil same
  verified_once-settled old incoming =
      ap (truthy is_zero)
        (field_or_nil-get (codes "verified_once") (merge_oauth is_zero old incoming))
      ∙ ap (λ entry. truthy is_zero (or_nil entry))
          (get-put (codes "verified_once") (codes "verified_once") _ _)

  -- What it takes to count as verified once.
  verified_once-Kept :
      (old incoming : List (Bytes × Json N))
      → verified_once is_zero old incoming ≡ true
      → (replaced (get (codes "client_id") incoming) (field_or_nil (codes "client_id") old) false
          ≡ false)
        × (replaced
              (get (codes "client_secret") incoming)
              (field_or_nil (codes "client_secret") old)
              true
            ≡ false)
        × ((truthy is_zero (field_or_nil (codes "verified_once") old)
              || truthy is_zero (field_or_nil (codes "verified_once") incoming))
            ≡ true)
  unfolding verified_once oauth_credential_replaced
  verified_once-Kept old incoming e = ground (arith, e)

  -- Settings of OAuth that count as verified once after an update have the client's identifier and secret that they had
  -- before it, up to the space around them, and were verified before it or by it. No key stands twice in the update.
  pub merge_oauth-Verified :
      (old incoming : List (Bytes × Json N))
      → IsMap incoming
      → truthy is_zero (field_or_nil (codes "verified_once") (merge_oauth is_zero old incoming))
        ≡ true
      → (trimmed (get (codes "client_id") (merge_oauth is_zero old incoming))
          ≡ trimmed (get (codes "client_id") old))
        × (trimmed (get (codes "client_secret") (merge_oauth is_zero old incoming))
            ≡ trimmed (get (codes "client_secret") old))
        × ((truthy is_zero (field_or_nil (codes "verified_once") old)
              || truthy is_zero (field_or_nil (codes "verified_once") incoming))
            ≡ true)
  merge_oauth-Verified old incoming h e =
      let kept = verified_once-Kept old incoming (sym (verified_once-settled old incoming) ∙ e) in
      (client_id-Trimmed old incoming h kept.0, client_secret-Trimmed old incoming h kept.1, kept.2)
