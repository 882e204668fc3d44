-- ===== src/Config/Values.antt =====
-- internal/config: the value that a list of lines gives a key, before and after `Upsert`.
use dns_stack.Prelude.{
  ◌≡◌, refl, sym, ap, ◌∙◌, false, Option, none, some, List, [], ◌∷◌, ◌++◌, inl, inr, arith,
  Bool-cases, if◌then◌else◌,
}
use dns_stack.Text.{Bytes, trim_space}
use dns_stack.Text.Match.{same, same_iff, same_comm, has_key, cut}
use dns_stack.Text.Maps.{get, get_else, put, get-put}
use dns_stack.Config.{
  entry_of, each_line, each, put_wanted, read_keys, value_of, wanted, upsert_lines,
}
use dns_stack.Config.Lines.{IsPlain, entry_of-written, entry_of-wanted, get-wanted, wanted-entry_of}

-- The value of the last entry with the key.
unfoldable pub last_value : Bytes → Bytes → List (Bytes × Bytes) → Bytes
last_value key old [] = old
last_value key old ((k, v) ∷ es) = last_value key (if same key k then v else old) es

get_else-put :
    (k j : Bytes) (a : Bytes) (m : List (Bytes × Bytes))
    → get_else k [] (put j a m) ≡ (if same k j then a else get_else k [] m)
unfolding get_else
get_else-put k j a m = elim (Bool-cases (same k j)) [
  | inl e ↦ rw (get-put k j a m, get_else) (rw e refl)
  | inr e ↦ rw (get-put k j a m, get_else) (rw e refl)
]

get_else-put_wanted :
    (key : Bytes) (es out : List (Bytes × Bytes))
    → get_else key [] (put_wanted (key ∷ []) es out) ≡ last_value key (get_else key [] out) es
unfolding put_wanted last_value has_key
get_else-put_wanted key [] out = refl
get_else-put_wanted key ((k, v) ∷ es) out = elim (Bool-cases (same key k)) [
  | inl e ↦
      rw (same_comm k key, e)
        (get_else-put_wanted key es (put k v out)
          ∙ ap (λ old. last_value key old es) (get_else-put key k v out ∙ rw e refl))
  | inr e ↦ rw (same_comm k key, e) (get_else-put_wanted key es out)
]

-- `Value` gives the last assignment of the key, and the empty string if there is none.
pub value_of-last_value :
    (file : Option Bytes) (key : Bytes) → value_of file key ≡ last_value key [] (each file)
unfolding value_of read_keys get_else get
value_of-last_value file key = get_else-put_wanted key (each file) []

-- One line more.
unfoldable pub after_line : Bytes → Bytes → Option (Bytes × Bytes) → Bytes
after_line key old none = old
after_line key old (some (k, v)) = if same key k then v else old

pub each_line-∷ :
    (key old text : Bytes) (lines : List Bytes)
    → last_value key old (each_line (text ∷ lines))
      ≡ last_value key (after_line key old (entry_of text)) (each_line lines)
unfolding each_line after_line
each_line-∷ key old text lines = go (entry_of text) refl
  where
    go :
        (o : Option (Bytes × Bytes))
        → entry_of text ≡ o
        → last_value key old (each_line (text ∷ lines))
          ≡ last_value key (after_line key old o) (each_line lines)
    go none q = rw (q, each_line) refl
    go (some (k, v)) q = rw (q, each_line) (unfold last_value in refl)

module _ (values : List (Bytes × Bytes))
    (plain : (k v : Bytes) → get k values ≡ some v → IsPlain (k, v)) where
  -- A line that is replaced: what it said, and what it says.
  replaced_line :
      (text k v : Bytes)
      → wanted values (cut b'=' (trim_space text)) ≡ some (k, v)
      → (old : Bytes) × (entry_of text ≡ some (k, old))
        × (entry_of (k ++ b'=' ∷ v) ≡ some (k, v))
        × (get k values ≡ some v)
  replaced_line text k v q =
      let found = get-wanted values (cut b'=' (trim_space text)) k v q in
      let p = plain k v found in
      let before = entry_of-wanted values text k v q p.not_empty in
      (before.0, before.1, entry_of-written k v p, found)

  -- One step of the loop on a key that the map does not have.
  others-step :
      (key old text : Bytes) (lines : List Bytes)
      → get key values ≡ none
      → ((old : Bytes)
          → last_value key old (each_line (upsert_lines values lines).0)
            ≡ last_value key old (each_line lines))
      → (o : Option (Bytes × Bytes)) → wanted values (cut b'=' (trim_space text)) ≡ o
      → last_value key old (each_line (upsert_lines values (text ∷ lines)).0)
        ≡ last_value key old (each_line (text ∷ lines))
  unfolding upsert_lines after_line
  others-step key old text lines h next none q =
      rw (q, upsert_lines)
        (each_line-∷ key old text (upsert_lines values lines).0
          ∙ next (after_line key old (entry_of text))
          ∙ sym (each_line-∷ key old text lines))
  others-step key old text lines h next (some (k, v)) q =
      let (was, before, after, found) = replaced_line text k v q in
      let apart : same key k ≡ false = elim (Bool-cases (same key k)) [
        | inr e ↦ e
        | inl e ↦ let here = (same_iff key k).0 e in cc (h, found, ap (λ n. get n values) here)
      ] in
      let kept : (o : Bytes) → after_line key old (some (k, o)) ≡ old = λ o. rw apart refl in
      rw (q, upsert_lines)
        (each_line-∷ key old (k ++ b'=' ∷ v) (upsert_lines values lines).0
          ∙ next (after_line key old (entry_of (k ++ b'=' ∷ v)))
          ∙ ap (λ o. last_value key o (each_line lines))
              (ap (after_line key old) after
                ∙ kept v
                ∙ sym (kept was)
                ∙ sym (ap (after_line key old) before))
          ∙ sym (each_line-∷ key old text lines))

  -- The other keys are left as they were.
  pub last_value-others :
      (key old : Bytes) (lines : List Bytes)
      → get key values ≡ none
      → last_value key old (each_line (upsert_lines values lines).0)
        ≡ last_value key old (each_line lines)
  unfolding upsert_lines
  last_value-others key old [] h = refl
  last_value-others key old (text ∷ lines) h =
      others-step key old text lines h (λ o. last_value-others key o lines h)
        (wanted values (cut b'=' (trim_space text))) refl

  -- One step of the loop on a key that the map has.
  done-step :
      (key value old text : Bytes) (lines : List Bytes)
      → get key values ≡ some value
      → ((old : Bytes)
          → last_value key old (each_line (upsert_lines values lines).0)
            ≡ (if has_key key (upsert_lines values lines).1 then value else old))
      → (o : Option (Bytes × Bytes)) → wanted values (cut b'=' (trim_space text)) ≡ o
      → last_value key old (each_line (upsert_lines values (text ∷ lines)).0)
        ≡ (if has_key key (upsert_lines values (text ∷ lines)).1 then value else old)
  unfolding upsert_lines after_line has_key
  done-step key value old text lines h next none q =
      let other : after_line key old (entry_of text) ≡ old = unchanged (entry_of text) refl in
      rw (q, upsert_lines)
        (each_line-∷ key old text (upsert_lines values lines).0 ∙ rw other (next old))
    where
      unchanged : (o : Option (Bytes × Bytes)) → entry_of text ≡ o → after_line key old o ≡ old
      unchanged none e = refl
      unchanged (some (k, v)) e = elim (Bool-cases (same key k)) [
        | inr f ↦ rw f refl
        | inl f ↦
            let here = (same_iff key k).0 f in
            let again =
              wanted-entry_of values text key value v
                (e ∙ ap (λ (n : Bytes). some (n, v)) (sym here)) h (plain key value h).no_comment in
            cc (again, q)
      ]
  done-step key value old text lines h next (some (k, v)) q =
      let (was, before, after, found) = replaced_line text k v q in
      rw (q, upsert_lines)
        (each_line-∷ key old (k ++ b'=' ∷ v) (upsert_lines values lines).0
          ∙ rw after (elim (Bool-cases (same key k)) [
            | inr e ↦ rw e (next old)
            | inl e ↦
                let here = (same_iff key k).0 e in
                let same_value : v ≡ value =
                  ground (arith, found, h, ap (λ n. get n values) here) in
                rw e (rw same_value (next value ∙ ground arith))
          ]))

  -- A key of the map that is done has its new value; one that is not has no line.
  pub last_value-done :
      (key value old : Bytes) (lines : List Bytes)
      → get key values ≡ some value
      → last_value key old (each_line (upsert_lines values lines).0)
        ≡ (if has_key key (upsert_lines values lines).1 then value else old)
  unfolding upsert_lines has_key
  last_value-done key value old [] h = unfold last_value each_line in refl
  last_value-done key value old (text ∷ lines) h =
      done-step key value old text lines h (λ o. last_value-done key value o lines h)
        (wanted values (cut b'=' (trim_space text))) refl
