-- ===== src/Helper/Auth.antt =====
-- internal/helper/auth.go: how the panel's settings of authentication are merged into its record. A loop over a map goes
-- over its entries in the order of the list.
pub mod Accounts
pub mod Merged
pub mod Verified
use dns_stack.Prelude.{
  Bool, true, false, Option, none, some, List, [], ◌∷◌, ◌&&◌, ◌||◌, not, ◌==◌, if◌then◌else◌,
  length,
}
use dns_stack.Text.{Bytes, to_lower, trim_space}
use dns_stack.Text.Match.{codes, same, has_key}
use dns_stack.Text.Maps.{get, get_else, put, delete}
use dns_stack.Helper.Json.{
  Json, null, bool, num, str, arr, obj, Items, fields_list, fields_of, items_list,
}

abbrev pub panel_writable_keys : List Bytes
panel_writable_keys = codes "oauth" ∷ codes "password_disabled" ∷ codes "totp" ∷ []

abbrev pub oauth_writable_keys : List Bytes
oauth_writable_keys =
    codes "client_id"
    ∷ codes "client_secret"
    ∷ codes "allowed_users"
    ∷ codes "verified_once"
    ∷ codes "bound_ids"
    ∷ []

abbrev pub totp_writable_keys : List Bytes
totp_writable_keys = codes "secret" ∷ codes "enabled" ∷ []

module _ {N : Type 0} where
  -- `m[key]`: nil where the key is missing.
  abbrev pub field_or_nil : Bytes → List (Bytes × Json N) → Json N
  field_or_nil key m = get_else key null m

  unfoldable pub object_value : Json N → List (Bytes × Json N)
  object_value (obj fields) = fields_list fields
  object_value _ = []

  -- `raw.(string)`, and the empty string where it is none.
  unfoldable pub string_value : Json N → Bytes
  string_value (str s) = s
  string_value _ = []

  unfoldable pub list_value : Json N → Option (List (Json N))
  list_value (arr items) = some (items_list items)
  list_value _ = none

  -- The writable entries of `incoming`, on top of `merged`.
  unfoldable pub overlay :
      List Bytes → List (Bytes × Json N) → List (Bytes × Json N) → List (Bytes × Json N)
  overlay writable [] merged = merged
  overlay writable ((k, v) ∷ incoming) merged =
      overlay writable incoming (if has_key k writable then put k v merged else merged)

  -- `changed` of a key, from its entry and the value it had.
  unfoldable pub replaced : Option (Json N) → Json N → Bool → Bool
  replaced none previous blank_keeps = false
  replaced (some raw) previous blank_keeps =
      let next = trim_space (string_value raw) in
      if length next == 0 && blank_keeps
      then false
      else not (same next (trim_space (string_value previous)))

  unfoldable pub oauth_credential_replaced : List (Bytes × Json N) → List (Bytes × Json N) → Bool
  oauth_credential_replaced old incoming =
      replaced (get (codes "client_id") incoming) (field_or_nil (codes "client_id") old) false
      || replaced (get (codes "client_secret") incoming) (field_or_nil (codes "client_secret") old)
          true

  -- The bound identifiers of the users in the list.
  unfoldable pub bound_ids_for :
      List (Json N) → List (Bytes × Json N) → List (Bytes × Json N) → List (Bytes × Json N)
  bound_ids_for [] bound kept = kept
  bound_ids_for (raw ∷ users) bound kept =
      let user = to_lower (trim_space (string_value raw)) in
      bound_ids_for users bound (elim (get user bound) [
        | none ↦ kept
        | some id ↦ if length user == 0 then kept else put user id kept
      ])

module _ {N : Type 0} (is_zero : N → Bool) where
  unfoldable pub truthy : Json N → Bool
  truthy null = false
  truthy (bool b) = b
  truthy (num n) = not (is_zero n)
  truthy (str s) = not (length s == 0)
  truthy (arr items) = true
  truthy (obj fields) = true

  unfoldable pub keep_secret :
      List (Bytes × Json N) → List (Bytes × Json N) → List (Bytes × Json N) → List (Bytes × Json N)
  keep_secret old incoming merged =
      if length (trim_space (string_value (field_or_nil (codes "client_secret") incoming))) == 0
      then put (codes "client_secret") (field_or_nil (codes "client_secret") old) merged
      else merged

  unfoldable pub keep_bound :
      List (Bytes × Json N) → Option (List (Json N)) → List (Bytes × Json N) → List (Bytes × Json N)
  keep_bound old none merged = merged
  keep_bound old (some users) merged =
      put (codes "bound_ids")
        (obj (
          fields_of (bound_ids_for users (object_value (field_or_nil (codes "bound_ids") old)) [])))
        merged

  -- Whether the settings count as verified once.
  unfoldable pub verified_once : List (Bytes × Json N) → List (Bytes × Json N) → Bool
  verified_once old incoming =
      if oauth_credential_replaced old incoming
      then false
      else truthy (field_or_nil (codes "verified_once") old)
        || truthy (field_or_nil (codes "verified_once") incoming)

  unfoldable pub merge_oauth : List (Bytes × Json N) → List (Bytes × Json N) → List (Bytes × Json N)
  merge_oauth old incoming = put (codes "verified_once") (bool (verified_once old incoming)) (
      keep_bound old (list_value (field_or_nil (codes "allowed_users") incoming))
        (keep_secret old incoming (overlay oauth_writable_keys incoming old)))

  unfoldable pub merge_totp : List (Bytes × Json N) → List (Bytes × Json N) → List (Bytes × Json N)
  merge_totp old incoming =
      let merged = overlay totp_writable_keys incoming old in
      put (codes "enabled") (bool (truthy (field_or_nil (codes "enabled") merged))) merged

  -- The switch on a writable key.
  unfoldable pub merge_key : Bytes → Json N → List (Bytes × Json N) → List (Bytes × Json N)
  merge_key key value stored =
      if same key (codes "oauth")
      then put key
          (obj
            (fields_of (merge_oauth (object_value (field_or_nil key stored)) (object_value value))))
          stored
      else if same key (codes "totp")
      then (if length (object_value value) == 0
          then delete key stored
          else put key
              (obj (
                fields_of
                  (merge_totp (object_value (field_or_nil key stored)) (object_value value))))
              stored)
      else put key (bool (truthy value)) stored

  unfoldable pub merge_auth_update :
      List (Bytes × Json N) → List (Bytes × Json N) → List (Bytes × Json N)
  merge_auth_update stored [] = stored
  merge_auth_update stored ((key, value) ∷ update) =
      merge_auth_update
        (if has_key key panel_writable_keys then merge_key key value stored else stored) update

  -- `DisableTOTP` on a record that can be loaded: none is the error, and the flag tells whether it is written.
  unfoldable pub disable_totp : List (Bytes × Json N) → Option (List (Bytes × Json N) × Bool)
  disable_totp stored = if length stored == 0 then none else (elim (get (codes "totp") stored) [
    | none ↦ some (stored, false)
    | some totp ↦ some (delete (codes "totp") stored, true)
  ])

  unfoldable pub keep_keys :
      List Bytes → List (Bytes × Json N) → List (Bytes × Json N) → List (Bytes × Json N)
  keep_keys [] previous out = out
  keep_keys (key ∷ keys) previous out =
      keep_keys keys previous
        (elim (get key previous) [ none ↦ out | some value ↦ put key value out ])

  -- `passwordRecord`, from the record of the new password.
  unfoldable pub password_record :
      List (Bytes × Json N) → List (Bytes × Json N) → Bool → List (Bytes × Json N)
  password_record previous hashed reenable =
      let kept = keep_keys (codes "username" ∷ codes "totp" ∷ codes "oauth" ∷ []) previous hashed in
      if not reenable && truthy (field_or_nil (codes "password_disabled") previous)
      then put (codes "password_disabled") (bool true) kept
      else kept
