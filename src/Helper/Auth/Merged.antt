-- ===== src/Helper/Auth/Merged.antt =====
-- internal/helper/auth.go: what `MergeAuthUpdate` makes of each key.
use dns_stack.Prelude.{
  ◌≡◌, refl, ap, ◌∙◌, Bool, true, false, Option, none, some, List, [], ◌∷◌, inl, inr, arith, ◌==◌,
  length, Bool-cases, if◌then◌else◌,
}
use dns_stack.Text.{Bytes}
use dns_stack.Text.Match.{codes, same, same_iff, has_key}
use dns_stack.Text.Maps.{IsMap, get, get_else, put, get-put, get-delete}
use dns_stack.Helper.Json.{Json, null, bool, obj, fields_of}
use dns_stack.Helper.Auth.{
  panel_writable_keys, overlay, object_value, truthy, merge_oauth, merge_totp, merge_key,
  merge_auth_update,
}

module _ {N : Type 0} where
  -- The entry of a key, after an update that takes the key or not.
  unfoldable pub overlaid : Bool → Option (Json N) → Option (Json N) → Option (Json N)
  overlaid takes none old = old
  overlaid takes (some v) old = if takes then some v else old

  get-put_if :
      (k j : Bytes) (v : Json N) (takes : Bool) (m : List (Bytes × Json N))
      → get k (if takes then put j v m else m)
        ≡ (if same k j then overlaid takes (some v) (get k m) else get k m)
  unfolding overlaid
  get-put_if k j v true m = get-put k j v m
  get-put_if k j v false m = ground arith

  -- A writable key that the update has takes its value from there, and every other key stays.
  pub get-overlay :
      (k : Bytes) (writable : List Bytes) (incoming merged : List (Bytes × Json N))
      → IsMap incoming
      → get k (overlay writable incoming merged)
        ≡ overlaid (has_key k writable) (get k incoming) (get k merged)
  unfolding overlay get overlaid
  get-overlay k writable [] merged h = refl
  get-overlay k writable ((j, v) ∷ incoming) merged h =
      get-overlay k writable incoming (if has_key j writable then put j v merged else merged) h.1
      ∙ ap (overlaid (has_key k writable) (get k incoming))
          (get-put_if k j v (has_key j writable) merged)
      ∙ elim (Bool-cases (same k j)) [
        | inr e ↦ rw (e, get) refl
        | inl e ↦
            let here : k ≡ j = (same_iff k j).0 e in
            let gone : get k incoming ≡ none = ap (λ n. get n incoming) here ∙ h.0 in
            rw (e, gone, get) (rw here refl)
      ]

-- The value of an entry, nil where there is none.
unfoldable pub or_nil : {N : Type 0} → Option (Json N) → Json N
or_nil none = null
or_nil (some v) = v

pub field_or_nil-get :
    {N : Type 0} (key : Bytes) (m : List (Bytes × Json N))
    → get_else key null m ≡ or_nil (get key m)
unfolding get_else or_nil
field_or_nil-get key m = elim (get key m) [ none ↦ refl | some v ↦ refl ]

module _ {N : Type 0} (is_zero : N → Bool) where
  -- What an update makes of the entry of a writable key.
  unfoldable pub updated : Bytes → Option (Json N) → Json N → Option (Json N)
  updated key old value =
      if same key (codes "oauth")
      then some
          (obj (fields_of (merge_oauth is_zero (object_value (or_nil old)) (object_value value))))
      else if same key (codes "totp")
      then (if length (object_value value) == 0
          then none
          else some (
              obj
                (fields_of (merge_totp is_zero (object_value (or_nil old)) (object_value value)))))
      else some (bool (truthy is_zero value))

  -- The entry of a key after the whole update.
  unfoldable pub entry_after : Bytes → Option (Json N) → Option (Json N) → Option (Json N)
  entry_after key old none = old
  entry_after key old (some value) =
      if has_key key panel_writable_keys then updated key old value else old

  get-merge_key :
      (k key : Bytes) (value : Json N) (stored : List (Bytes × Json N))
      → get k (merge_key is_zero key value stored)
        ≡ (if same k key then updated key (get key stored) value else get k stored)
  unfolding merge_key updated
  get-merge_key k key value stored =
      rw (← field_or_nil-get key stored) (elim (Bool-cases (same key (codes "oauth"))) [
        | inl e ↦ rw e (get-put k key _ stored)
        | inr e ↦ rw e (elim (Bool-cases (same key (codes "totp"))) [
          | inr f ↦ rw f (get-put k key _ stored)
          | inl f ↦ rw f (elim (Bool-cases (length (object_value value) == 0)) [
            | inl g ↦ rw g (get-delete k key stored)
            | inr g ↦ rw g (get-put k key _ stored)
          ])
        ])
      ])

  -- One writable entry of the update, taken or not.
  get-step :
      (k key : Bytes) (value : Json N) (takes : Bool) (stored : List (Bytes × Json N))
      → get k (if takes then merge_key is_zero key value stored else stored) ≡ (
          if same k key
          then (if takes then updated key (get key stored) value else get k stored)
          else get k stored)
  get-step k key value true stored = get-merge_key k key value stored
  get-step k key value false stored = ground arith

  -- After `MergeAuthUpdate` the entry of every key depends on its own entry of the update only: a key that the panel may
  -- not write, or that the update does not have, stays; `oauth` and `totp` are merged with what they were, and a `totp`
  -- without entries is taken away; `password_disabled` becomes a Boolean. No key stands twice in the update.
  pub get-merge_auth_update :
      (k : Bytes) (stored update : List (Bytes × Json N))
      → IsMap update
      → get k (merge_auth_update is_zero stored update)
        ≡ entry_after k (get k stored) (get k update)
  unfolding merge_auth_update get entry_after
  get-merge_auth_update k stored [] h = refl
  get-merge_auth_update k stored ((key, value) ∷ update) h =
      let takes = has_key key panel_writable_keys in
      get-merge_auth_update k (if takes then merge_key is_zero key value stored else stored) update
        h.1
      ∙ ap (λ old. entry_after k old (get k update)) (get-step k key value takes stored)
      ∙ elim (Bool-cases (same k key)) [
        | inr e ↦ rw (e, get) refl
        | inl e ↦
            let here : k ≡ key = (same_iff k key).0 e in
            let gone : get k update ≡ none = ap (λ n. get n update) here ∙ h.0 in
            rw (e, gone, get) (rw here refl)
      ]
