-- ===== src/Config/Added.antt =====
-- internal/config/upsert.go: the lines that `Upsert` adds, and the lines of the text that it writes.
use dns_stack.Prelude.{
  ℕ, ◌≡◌, ◌≢◌, refl, sym, ap, ◌∙◌, false, some, List, [], ◌∷◌, ◌++◌, ◌&&◌, not, inl, inr, arith,
  ◌==◌, All, All-append, All-mono, Bool-cases, if◌then◌else◌,
}
use mathlib.Core.List.{append_assoc}
use dns_stack.Prelude.Sort.{sort_slice, any-sort_slice, All-sort_slice}
use dns_stack.Text.{Bytes, first_with}
use dns_stack.Text.Match.{is_some, same, same_iff, bytes_less, has_key, split_on}
use dns_stack.Text.Below.{has_key-any}
use dns_stack.Text.Solid.{IsOneLine, split_on-part, IsSolid-IsOneLine}
use dns_stack.Text.Maps.{get, get_else}
use dns_stack.Config.{newline, entry_of, each_line, missing_keys, added_lines, join_lines}
use dns_stack.Config.Lines.{IsPlain, entry_of-written}
use dns_stack.Config.Values.{last_value, after_line, each_line-∷}

-- The map has the key.
abbrev pub IsKey : List (Bytes × Bytes) → Bytes → Type 0
IsKey values key = (v : Bytes) × (get key values ≡ some v)

IsKey-∷ :
    (e : Bytes × Bytes) (m : List (Bytes × Bytes)) (key : Bytes) → IsKey m key → IsKey (e ∷ m) key
unfolding get
IsKey-∷ (j, a) m key h = elim (Bool-cases (same key j)) [
  | inl e ↦ (a, rw e refl)
  | inr e ↦ (h.0, rw e h.1)
]

keys-IsKey : (m : List (Bytes × Bytes)) → All (λ (e : Bytes × Bytes). IsKey m e.0) m
unfolding get
keys-IsKey [] = tt
keys-IsKey ((k, v) ∷ m) = (
  (v, rw ((same_iff k k).1 refl) refl),
  All-mono (λ (e : Bytes × Bytes). IsKey m e.0) (λ (e : Bytes × Bytes). IsKey ((k, v) ∷ m) e.0) m
      (λ e h. IsKey-∷ (k, v) m e.0 h) (keys-IsKey m),
)

missing_keys-All :
    (P : Bytes → Type 0) (m : List (Bytes × Bytes)) (done : List Bytes)
    → All (λ (e : Bytes × Bytes). P e.0) m
    → All P (missing_keys m done)
unfolding missing_keys
missing_keys-All P [] done h = tt
missing_keys-All P ((k, v) ∷ m) done h = elim (Bool-cases (has_key k done)) [
  | inl e ↦ rw e (missing_keys-All P m done h.1)
  | inr e ↦ rw e (h.0, missing_keys-All P m done h.1)
]

-- A key is missing if the map has it and it is not done.
has_key-missing_keys :
    (key : Bytes) (m : List (Bytes × Bytes)) (done : List Bytes)
    → has_key key (missing_keys m done) ≡ (is_some (get key m) && not (has_key key done))
unfolding missing_keys has_key get
has_key-missing_keys key [] done = refl
has_key-missing_keys key ((k, v) ∷ m) done = elim (Bool-cases (same key k)) [
  | inl e ↦
      let here : key ≡ k = (same_iff key k).0 e in
      elim (Bool-cases (has_key key done)) [
        | inl f ↦ rw (← here) (
            rw (f, (same_iff key key).1 refl)
              (has_key-missing_keys key m done ∙ rw f (ground arith)))
        | inr f ↦ rw (← here) (rw (f, (same_iff key key).1 refl) refl)
      ]
  | inr e ↦ elim (Bool-cases (has_key k done)) [
    | inl f ↦ rw (e, f) (has_key-missing_keys key m done)
    | inr f ↦ rw (e, f) (rw e (has_key-missing_keys key m done))
  ]
]

pub has_key-sorted :
    (key : Bytes) (ks : List Bytes) → has_key key (sort_slice bytes_less ks) ≡ has_key key ks
has_key-sorted key ks =
    has_key-any key (sort_slice bytes_less ks)
    ∙ any-sort_slice bytes_less (λ k. same key k) ks
    ∙ sym (has_key-any key ks)

pub get_else-some :
    (k v : Bytes) (m : List (Bytes × Bytes)) → get k m ≡ some v → get_else k [] m ≡ v
unfolding get_else
get_else-some k v m h = rw (h, get_else) refl

module _ (values : List (Bytes × Bytes))
    (plain : (k v : Bytes) → get k values ≡ some v → IsPlain (k, v)) where
  after_written :
      (key old k v : Bytes)
      → get_else k [] values ≡ v
      → after_line key old (some (k, v)) ≡ (if same key k then get_else key [] values else old)
  unfolding after_line
  after_written key old k v value = elim (Bool-cases (same key k)) [
    | inr e ↦ rw e refl
    | inl e ↦
        let here = (same_iff key k).0 e in rw e (sym (ap (λ n. get_else n [] values) here ∙ value))
  ]

  last_value-added_lines :
      (key old : Bytes) (ks : List Bytes)
      → All (IsKey values) ks
      → last_value key old (each_line (added_lines values ks))
        ≡ (if has_key key ks then get_else key [] values else old)
  unfolding added_lines has_key
  last_value-added_lines key old [] h = unfold last_value each_line in refl
  last_value-added_lines key old (k ∷ ks) h =
      let (v, found) = h.0 in
      let value : get_else k [] values ≡ v = get_else-some k v values found in
      let written : entry_of (k ++ b'=' ∷ get_else k [] values) ≡ some (k, v) =
        rw value (entry_of-written k v (plain k v found)) in
      each_line-∷ key old (k ++ b'=' ∷ get_else k [] values) (added_lines values ks)
      ∙ last_value-added_lines key
          (after_line key old (entry_of (k ++ b'=' ∷ get_else k [] values))) ks h.1
      ∙ rw (ap (after_line key old) written ∙ after_written key old k v value) (ground arith)

  -- A key that is not done gets its value.
  pub last_value-missing :
      (key old : Bytes) (done : List Bytes)
      → last_value key old
          (each_line (added_lines values (sort_slice bytes_less (missing_keys values done))))
        ≡ (if is_some (get key values) && not (has_key key done)
            then get_else key [] values
            else old)
  last_value-missing key old done =
      last_value-added_lines key old (sort_slice bytes_less (missing_keys values done)) (
        All-sort_slice bytes_less (IsKey values) _
          (missing_keys-All (IsKey values) values done (keys-IsKey values)))
      ∙ rw (has_key-sorted key (missing_keys values done), has_key-missing_keys key values done)
          refl

-- The lines of a text that is written line by line.
pub split_on-join_lines :
    (ls : List Bytes)
    → ls ≢ []
    → All IsOneLine ls
    → split_on newline (join_lines ls ++ newline ∷ []) ≡ ls ++ [] ∷ []
unfolding join_lines
split_on-join_lines [] n h = absurd (n refl)
split_on-join_lines (l ∷ []) n h = split_on-part newline l [] h.0 ∙ unfold split_on in refl
split_on-join_lines (l ∷ m ∷ ls) n h =
    rw (append_assoc l (newline ∷ join_lines (m ∷ ls)) (newline ∷ [])) (
      split_on-part newline l (join_lines (m ∷ ls) ++ newline ∷ []) h.0
      ∙ ap (λ r. l ∷ r) (split_on-join_lines (m ∷ ls) (λ e. cc) h.1))

pub split_on-IsOneLine : (s : Bytes) → All IsOneLine (split_on newline s)
unfolding split_on
split_on-IsOneLine [] = (tt, tt)
split_on-IsOneLine (c ∷ s) = elim (Bool-cases (c == newline)) [
  | inl e ↦ rw e (tt, split_on-IsOneLine s)
  | inr e ↦ rw e (first_with-IsOneLine c (split_on newline s) e (split_on-IsOneLine s))
]
  where
    first_with-IsOneLine :
        (c : ℕ) (ls : List Bytes)
        → (c == newline) ≡ false
        → All IsOneLine ls
        → All IsOneLine (first_with c ls)
    first_with-IsOneLine c [] e h = unfold first_with in ((e, tt), tt)
    first_with-IsOneLine c (l ∷ ls) e h = unfold first_with in ((e, h.0), h.1)

module _ (values : List (Bytes × Bytes))
    (plain : (k v : Bytes) → get k values ≡ some v → IsPlain (k, v)) where
  pub written-IsOneLine : (k v : Bytes) → IsPlain (k, v) → IsOneLine (k ++ b'=' ∷ v)
  written-IsOneLine k v p =
      All-append _ k (b'=' ∷ v) (IsSolid-IsOneLine k p.solid_key)
        (refl, IsSolid-IsOneLine v p.solid_value)

  pub added_lines-IsOneLine :
      (ks : List Bytes) → All (IsKey values) ks → All IsOneLine (added_lines values ks)
  unfolding added_lines
  added_lines-IsOneLine [] h = tt
  added_lines-IsOneLine (k ∷ ks) h =
      let (v, found) = h.0 in
      (
        rw (get_else-some k v values found) (written-IsOneLine k v (plain k v found)),
        added_lines-IsOneLine ks h.1,
      )

  pub missing-IsOneLine :
      (done : List Bytes)
      → All IsOneLine (added_lines values (sort_slice bytes_less (missing_keys values done)))
  missing-IsOneLine done = added_lines-IsOneLine _ (
      All-sort_slice bytes_less (IsKey values) _
        (missing_keys-All (IsKey values) values done (keys-IsKey values)))
