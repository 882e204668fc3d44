-- ===== src/Witnesses/Helper.antt =====
-- The panel's settings before and after an update.
use dns_stack.Prelude.{
  ◌<◌, ◌↔◌, u32_mod, arith, none, Option, if◌then◌else◌, ℕ, ◌≡◌, ◌==◌, ◌||◌, refl, Bool, true, List,
  [], ◌∷◌, some, inl, inr,
}
use dns_stack.Text.{to_lower, trim_space, Bytes}
use dns_stack.Text.Match.{cut, codes, same, has_key}
use dns_stack.Text.Maps.{get, get_else, put}
use dns_stack.Netip.{Addr, v4, prefix_from}
use dns_stack.Ipset.Global.{dotted}
use dns_stack.Helper.Validate.{safe_client_subnet}
use dns_stack.Helper.Validate.Subnet.{IsOpenBlock, safe_client_subnet-reserved}
use dns_stack.Helper.Json.{Json, bool, str, num, obj, fields_of}
use dns_stack.Helper.Auth.{
  merge_key, replaced, oauth_credential_replaced, verified_once, overlay, string_value, keep_secret,
  list_value, keep_bound, field_or_nil, truthy, merge_auth_update, merge_oauth,
}
use dns_stack.Helper.Auth.Merged.{entry_after, get-merge_auth_update}
use dns_stack.Helper.Auth.Verified.{trimmed, merge_oauth-Verified}
use dns_stack.Helper.Auth.Accounts.{
  is_username_byte, are_username_bytes, is_alphanumeric, is_username, normalize_username,
  set_panel_username, bad_username,
}

abbrev is_zero : ℕ → Bool
is_zero n = n == 0

abbrev oauth : List (Bytes × Json ℕ)
oauth =
    (codes "client_id", str (codes "app"))
    ∷ (codes "client_secret", str (codes "key"))
    ∷ (codes "verified_once", bool true)
    ∷ []

abbrev incoming : List (Bytes × Json ℕ)
incoming = (codes "client_id", str (codes " app")) ∷ (codes "client_secret", str []) ∷ []

abbrev stored : List (Bytes × Json ℕ)
stored = (codes "algo", str (codes "scrypt")) ∷ (codes "oauth", obj (fields_of oauth)) ∷ []

abbrev update : List (Bytes × Json ℕ)
update =
    (codes "algo", str [])
    ∷ (codes "oauth", obj (fields_of incoming))
    ∷ (codes "password_disabled", num 1)
    ∷ []

get-merge_auth_update_example :
    get (codes "oauth") (merge_auth_update is_zero stored update)
    ≡ entry_after is_zero (codes "oauth") (get (codes "oauth") stored) (get (codes "oauth") update)
unfolding get same
get-merge_auth_update_example =
    get-merge_auth_update is_zero (codes "oauth") stored update (refl, (refl, (refl, tt)))

merge_oauth-Verified_example :
    (trimmed (get (codes "client_id") (merge_oauth is_zero oauth incoming))
      ≡ trimmed (get (codes "client_id") oauth))
    × (trimmed (get (codes "client_secret") (merge_oauth is_zero oauth incoming))
        ≡ trimmed (get (codes "client_secret") oauth))
    × ((truthy is_zero (field_or_nil (codes "verified_once") oauth)
          || truthy is_zero (field_or_nil (codes "verified_once") incoming))
        ≡ true)
unfolding get same truthy get_else merge_oauth put keep_bound list_value keep_secret trim_space
    string_value overlay has_key verified_once oauth_credential_replaced replaced
merge_oauth-Verified_example = merge_oauth-Verified is_zero oauth incoming (refl, (refl, tt)) refl

test_algo :
    get (codes "algo") (merge_auth_update is_zero stored update) ≡ some (str (codes "scrypt"))
unfolding get merge_auth_update has_key merge_key put
test_algo = refl

test_named :
    set_panel_username (codes " Ann ") stored
    ≡ inr (put (codes "username") (str (codes "ann")) stored)
unfolding set_panel_username normalize_username is_username to_lower trim_space is_alphanumeric
    are_username_bytes is_username_byte
test_named = refl

test_short : set_panel_username (codes "a") stored ≡ inl bad_username
unfolding set_panel_username normalize_username is_username to_lower trim_space is_alphanumeric
    are_username_bytes
test_short = refl

-- A parser that knows one address.
abbrev parse_one : Bytes → Option Addr
parse_one host = if same host (codes "8.8.8.0") then some (v4 (dotted 8 8 8 0)) else none

parse_one-words : (host : Bytes) (a : ℕ) → parse_one host ≡ some (v4 a) → a < u32_mod
parse_one-words host a e = ground (arith, e)

safe_client_subnet-reserved_example :
    (safe_client_subnet parse_one (codes " 8.8.8.0/24 ")
      ≡ some (prefix_from (v4 (dotted 8 8 8 0)) 24))
    ↔ ((host : Bytes) × (a : ℕ) × (cut b'/' (trim_space (codes " 8.8.8.0/24 "))
          ≡ some (host, codes "24"))
        × (parse_one host ≡ some (v4 a))
        × IsOpenBlock a (prefix_from (v4 (dotted 8 8 8 0)) 24))
safe_client_subnet-reserved_example =
    safe_client_subnet-reserved parse_one parse_one-words (codes " 8.8.8.0/24 ")
      (prefix_from (v4 (dotted 8 8 8 0)) 24)
