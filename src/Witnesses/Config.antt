-- ===== src/Witnesses/Config.antt =====
-- A file with a comment, two assignments and a key to change.
use dns_stack.Prelude.{◌≡◌, refl, ◌++◌, some, List, [], ◌∷◌, inl, inr, Bool-cases, arith}
use dns_stack.Text.{Bytes, is_space}
use dns_stack.Text.Match.{has_prefix, cut_prefix, codes, same, same_iff}
use dns_stack.Text.Maps.{get}
use dns_stack.Config.{unquote, newline, upsert, value_of}
use dns_stack.Config.Lines.{IsPlain}
use dns_stack.Config.Upserted.{value_of-upsert}

abbrev values : List (Bytes × Bytes)
values = (codes "PORT", codes "853") ∷ []

abbrev body : Bytes
body = codes "# ports" ++ newline ∷ codes "PORT = 443" ++ newline ∷ codes "HOST=a" ++ newline ∷ []

port-IsPlain : IsPlain (codes "PORT", codes "853")
unfolding is_space unquote has_prefix cut_prefix
port-IsPlain = record {
  ascii_key = omega arith;
  ascii_value = omega arith;
  solid_key = (refl, (refl, (refl, (refl, tt))));
  no_equals = (refl, (refl, (refl, (refl, tt))));
  not_empty = refl;
  no_comment = refl;
  solid_value = (refl, (refl, (refl, tt)));
  no_quotes = refl;
}

values-IsPlain : (k v : Bytes) → get k values ≡ some v → IsPlain (k, v)
unfolding get
values-IsPlain k v h = elim (Bool-cases (same k (codes "PORT"))) [
  | inr e ↦ ground (arith, e, h)
  | inl e ↦
      let key : k ≡ codes "PORT" = (same_iff k (codes "PORT")).0 e in
      let value : v ≡ codes "853" = ground (arith, e, h) in rw (key, value) port-IsPlain
]

value_of-upsert_example : value_of (some (upsert values body)) (codes "PORT") ≡ codes "853"
unfolding get same
value_of-upsert_example = value_of-upsert values values-IsPlain body (codes "PORT")
