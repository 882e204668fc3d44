-- ===== src/Helper/Auth/Accounts.antt =====
-- internal/helper/auth.go: the operations on the record of the panel's account. Each is given the record that
-- `loadAuthRecord` returns, and returns the record that is written or why none is.
use dns_stack.Prelude.{
  ℕ, ◌⊎◌, inl, inr, Bool, true, false, Option, none, some, List, [], ◌∷◌, ◌&&◌, ◌||◌, ◌==◌,
  if◌then◌else◌, length, leb, ltb,
}
use dns_stack.Text.{Bytes, to_lower, trim_space}
use dns_stack.Text.Match.{codes}
use dns_stack.Text.Maps.{put}
use dns_stack.Helper.Json.{Json, str}
use dns_stack.Helper.Auth.{password_record}

pub data AccountError : Type 0 where
  bad_username : AccountError
  no_record : AccountError
  too_short : AccountError
  too_long : AccountError
  -- The system has no randomness, or the key cannot be derived.
  no_key : AccountError

unfoldable pub is_alphanumeric : ℕ → Bool
is_alphanumeric c = (leb b'a' c && leb c b'z') || (leb b'0' c && leb c b'9')

unfoldable pub is_username_byte : ℕ → Bool
is_username_byte c = is_alphanumeric c || c == b'.' || c == b'_' || c == b'-'

unfoldable pub are_username_bytes : Bytes → Bool
are_username_bytes [] = true
are_username_bytes (c ∷ s) = is_username_byte c && are_username_bytes s

-- `usernamePattern.MatchString`: a first byte, and from 1 to 31 further ones.
unfoldable pub is_username : Bytes → Bool
is_username [] = false
is_username (c ∷ s) =
    is_alphanumeric c && are_username_bytes s && leb 1 (length s) && leb (length s) 31

unfoldable pub normalize_username : Bytes → AccountError ⊎ Bytes
normalize_username raw =
    let name = to_lower (trim_space raw) in if is_username name then inr name else inl bad_username

module _ {N : Type 0} where
  unfoldable pub named :
      AccountError ⊎ Bytes → List (Bytes × Json N) → AccountError ⊎ List (Bytes × Json N)
  named (inl e) stored = inl e
  named (inr name) stored = inr (put (codes "username") (str name) stored)

  unfoldable pub set_panel_username :
      Bytes → List (Bytes × Json N) → AccountError ⊎ List (Bytes × Json N)
  set_panel_username username stored = elim (normalize_username username) [
    | inl e ↦ inl e
    | inr name ↦
        if length stored == 0 then inl no_record else inr (put (codes "username") (str name) stored)
  ]

  -- The new session key is an argument, none where the system gives no random bytes.
  unfoldable pub rotate_session_key :
      Option Bytes → List (Bytes × Json N) → AccountError ⊎ List (Bytes × Json N)
  rotate_session_key key stored = if length stored == 0 then inl no_record else (elim key [
    | none ↦ inl no_key
    | some k ↦ inr (put (codes "session_key") (str k) stored)
  ])

module _ {N : Type 0} (is_zero : N → Bool) where
  -- `SetPanelPassword` of a password of so many runes, with the stored of its hash, none where hashing fails.
  unfoldable pub set_panel_password :
      ℕ
      → Bytes
      → Option (List (Bytes × Json N))
      → List (Bytes × Json N)
      → AccountError ⊎ List (Bytes × Json N)
  set_panel_password runes username hashed previous =
      if ltb runes 12 then inl too_short else if ltb 256 runes then inl too_long else (elim hashed [
        | none ↦ inl no_key
        | some h ↦
            let account = password_record is_zero previous h true in
            if length username == 0
            then inr account
            else named (normalize_username username) account
      ])
