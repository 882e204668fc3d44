-- ===== src/Config/Upserted.antt =====
-- internal/config: what `Value` reads from a file that `Upsert` has changed.
use dns_stack.Prelude.{
  ◌≡◌, ◌≢◌, refl, sym, ap, ◌∙◌, Option, none, some, List, [], ◌∷◌, ◌++◌, ◌&&◌, not, arith, ◌==◌,
  All, All-append, if◌then◌else◌,
}
use dns_stack.Prelude.Sort.{sort_slice}
use dns_stack.Text.{Bytes, trim_right, trim_space}
use dns_stack.Text.Match.{is_some, bytes_less, has_key, cut, split_on}
use dns_stack.Text.Maps.{get, get_else}
use dns_stack.Config.{
  newline, each_line, each, value_of, wanted, upsert_lines, missing_keys, added_lines, upsert,
}
use dns_stack.Config.Lines.{IsPlain}
use dns_stack.Config.Values.{last_value, value_of-last_value, last_value-others, last_value-done}
use dns_stack.Config.Lines.{get-wanted}
use dns_stack.Text.Solid.{IsOneLine}
use dns_stack.Config.Added.{
  get_else-some, split_on-IsOneLine, split_on-join_lines, last_value-missing, written-IsOneLine,
  missing-IsOneLine,
}
use dns_stack.Config.Breaks.{
  last_value-append, blank_lines, last_value-blank_lines, split_on-ne-nil, last_value-trim_right,
}

module _ (values : List (Bytes × Bytes))
    (plain : (k v : Bytes) → get k values ≡ some v → IsPlain (k, v)) where
  upsert_lines-IsOneLine :
      (lines : List Bytes) → All IsOneLine lines → All IsOneLine (upsert_lines values lines).0
  unfolding upsert_lines
  upsert_lines-IsOneLine [] h = tt
  upsert_lines-IsOneLine (text ∷ lines) h =
      go (upsert_lines-IsOneLine lines h.1) (wanted values (cut b'=' (trim_space text))) refl
    where
      go :
          All IsOneLine (upsert_lines values lines).0
          → (o : Option (Bytes × Bytes)) → wanted values (cut b'=' (trim_space text)) ≡ o
          → All IsOneLine (upsert_lines values (text ∷ lines)).0
      go rest none q = rw (q, upsert_lines) (h.0, rest)
      go rest (some (k, v)) q =
          rw (q, upsert_lines)
            (
              written-IsOneLine values plain k v
                  (plain k v (get-wanted values (cut b'=' (trim_space text)) k v q)),
              rest,
            )

  upsert_lines-ne-nil :
      (lines : List Bytes)
      → lines ≢ []
      → (more : List Bytes) → (upsert_lines values lines).0 ++ more ≢ []
  unfolding upsert_lines
  upsert_lines-ne-nil [] n more = absurd (n refl)
  upsert_lines-ne-nil (text ∷ lines) n more = go (wanted values (cut b'=' (trim_space text))) refl
    where
      go :
          (o : Option (Bytes × Bytes))
          → wanted values (cut b'=' (trim_space text)) ≡ o
          → (upsert_lines values (text ∷ lines)).0 ++ more ≢ []
      go none q = rw (q, upsert_lines) (λ f. cc)
      go (some e) q = rw (q, upsert_lines) (λ f. cc)

  -- The lines that are written.
  changed : Bytes → List Bytes × List Bytes
  changed body = upsert_lines values (split_on newline (trim_right (λ c. c == newline) body))

  added : Bytes → List Bytes
  added body = added_lines values (sort_slice bytes_less (missing_keys values (changed body).1))

  each-upsert :
      (body : Bytes)
      → each (some (upsert values body)) ≡ each_line (((changed body).0 ++ added body) ++ [] ∷ [])
  unfolding upsert each changed added
  each-upsert body = ap each_line (
      split_on-join_lines _
        (upsert_lines-ne-nil (split_on newline (trim_right (λ c. c == newline) body))
          (split_on-ne-nil _) _)
        (All-append IsOneLine _ _ (upsert_lines-IsOneLine _ (split_on-IsOneLine _))
          (missing-IsOneLine values plain _)))

  value_of-written :
      (body key : Bytes)
      → value_of (some (upsert values body)) key ≡ (
          if is_some (get key values) && not (has_key key (changed body).1)
          then get_else key [] values
          else last_value key [] (each_line (changed body).0))
  unfolding added
  value_of-written body key =
      value_of-last_value (some (upsert values body)) key
      ∙ ap (last_value key []) (each-upsert body)
      ∙ last_value-append key [] ((changed body).0 ++ added body) ([] ∷ [])
      ∙ unfold blank_lines in
        last_value-blank_lines key (last_value key [] (each_line ((changed body).0 ++ added body)))
          (0 ∷ [])
        ∙ last_value-append key [] (changed body).0 (added body)
        ∙ last_value-missing values plain key (last_value key [] (each_line (changed body).0))
            (changed body).1

  kept :
      (body key : Bytes)
      → get key values ≡ none
      → last_value key [] (each_line (changed body).0) ≡ value_of (some body) key
  unfolding changed each
  kept body key h =
      last_value-others values plain key [] (split_on newline (trim_right (λ c. c == newline) body))
        h
      ∙ last_value-trim_right key body
      ∙ sym (value_of-last_value (some body) key)

  given :
      (body key v : Bytes)
      → get key values ≡ some v
      → last_value key [] (each_line (changed body).0)
        ≡ (if has_key key (changed body).1 then v else [])
  unfolding changed
  given body key v h =
      last_value-done values plain key v [] (split_on newline (trim_right (λ c. c == newline) body))
        h

  -- `Value` on a file that `Upsert` has written: a key of the map has its new value, and every other key the value that
  -- it had, where the keys and the values of the map are ASCII without white space, no key is empty, has
  -- an equals sign or begins a comment, and no value is in quotes.
  pub value_of-upsert :
      (body key : Bytes)
      → value_of (some (upsert values body)) key
        ≡ (elim (get key values) [ none ↦ value_of (some body) key | some v ↦ v ])
  value_of-upsert body key = value_of-written body key ∙ go (get key values) refl
    where
      go :
          (o : Option Bytes)
          → get key values ≡ o
          → (if is_some (get key values) && not (has_key key (changed body).1)
              then get_else key [] values
              else last_value key [] (each_line (changed body).0))
            ≡ (elim o [ none ↦ value_of (some body) key | some v ↦ v ])
      go none q = rw q (kept body key q)
      go (some v) q = rw (q, get_else-some key v values q) (ground (arith, given body key v q))
