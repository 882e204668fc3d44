-- ===== src/Config/Lines.antt =====
-- internal/config: what one line of the file says, and what a written line says.
use dns_stack.Prelude.{
  ℕ, ◌<◌, ◌≡◌, refl, sym, ap, ◌∙◌, false, Option, none, some, List, [], ◌∷◌, ◌++◌, inl, inr, arith,
  ◌==◌, length, length-append, All, All-append, Bool-cases,
}
use mathlib.Core.List.{reverse, reverse-append}
use dns_stack.Text.{Bytes, is_space, drop_while, trim_right, trim_space}
use dns_stack.Text.Match.{codes, cut, has_prefix, cut_prefix}
use dns_stack.Text.Maps.{get}
use dns_stack.Text.Solid.{IsSolid, trim_space-IsSolid}
use dns_stack.Config.{unquote, entry_of, assignment, wanted}

-- White space at the end does not take a byte in front.
drop_while-snoc :
    (c : ℕ) (s : Bytes)
    → is_space c ≡ false
    → drop_while is_space (s ++ c ∷ []) ≡ drop_while is_space s ++ c ∷ []
unfolding drop_while
drop_while-snoc c [] h = rw h refl
drop_while-snoc c (b ∷ s) h = elim (Bool-cases (is_space b)) [
  | inl e ↦ rw e (drop_while-snoc c s h)
  | inr e ↦ rw e refl
]

trim_space-head :
    (c : ℕ) (s : Bytes)
    → is_space c ≡ false
    → trim_space (c ∷ s) ≡ c ∷ reverse (drop_while is_space (reverse s))
unfolding trim_space trim_right drop_while
trim_space-head c s h = rw h (
    rw (reverse-append (c ∷ []) s) (
      rw (drop_while-snoc c (reverse s) h)
        (reverse-append (drop_while is_space (reverse s)) (c ∷ []))))

cut-written :
    (k v : Bytes) → All (λ c. (c == b'=') ≡ false) k → cut b'=' (k ++ b'=' ∷ v) ≡ some (k, v)
unfolding cut
cut-written [] v h = refl
cut-written (c ∷ k) v h = rw (h.0, cut-written k v h.1) refl

-- A key and a value in ASCII, without white space, the key not empty, without an equals sign and no comment, the value not
-- in quotes. Go also trims white space past ASCII, which `trim_space` does not.
pub record IsPlain (e : Bytes × Bytes) : Type 0 where
  pub ascii_key : All (λ c. c < 128) e.0
  pub ascii_value : All (λ c. c < 128) e.1
  pub solid_key : IsSolid e.0
  pub no_equals : All (λ c. (c == b'=') ≡ false) e.0
  pub not_empty : (length e.0 == 0) ≡ false
  pub no_comment : has_prefix e.0 (codes "#") ≡ false
  pub solid_value : IsSolid e.1
  pub no_quotes : unquote e.1 ≡ e.1

has_prefix-written :
    (k v : Bytes)
    → (length k == 0) ≡ false
    → has_prefix (k ++ v) (codes "#") ≡ has_prefix k (codes "#")
unfolding has_prefix cut_prefix
has_prefix-written [] v h = cc
has_prefix-written (c ∷ k) v h = ground arith

-- A written line says what was written.
pub entry_of-written : (k v : Bytes) → IsPlain (k, v) → entry_of (k ++ b'=' ∷ v) ≡ some (k, v)
unfolding entry_of assignment is_space
entry_of-written k v p =
    let whole : trim_space (k ++ b'=' ∷ v) ≡ k ++ b'=' ∷ v =
      trim_space-IsSolid _ (All-append _ k (b'=' ∷ v) p.solid_key (refl, p.solid_value)) in
    let some_byte : (length (k ++ b'=' ∷ v) == 0) ≡ false =
      ground (arith, length-append k (b'=' ∷ v)) in
    let no_comment : has_prefix (k ++ b'=' ∷ v) (codes "#") ≡ false =
      has_prefix-written k (b'=' ∷ v) p.not_empty ∙ p.no_comment in
    rw (whole, some_byte, no_comment, cut-written k v p.no_equals, assignment)
      (rw
        (
          trim_space-IsSolid k p.solid_key,
          p.not_empty,
          trim_space-IsSolid v p.solid_value,
          p.no_quotes,
        )
        refl)

-- The name of an assignment begins as its line does.
cut_head :
    (c : ℕ) (s name old : Bytes)
    → (c == b'=') ≡ false
    → cut b'=' (c ∷ s) ≡ some (name, old)
    → (rest : Bytes) × (name ≡ c ∷ rest)
unfolding cut
cut_head c s name old h e = go (cut b'=' s) refl
  where
    go : (o : Option (Bytes × Bytes)) → cut b'=' s ≡ o → (rest : Bytes) × (name ≡ c ∷ rest)
    go none q = ground (arith, h, e, q)
    go (some (before, after)) q = (before, ground (arith, h, e, q))

comment_name :
    (line name old : Bytes)
    → cut b'=' line ≡ some (name, old)
    → has_prefix (trim_space name) (codes "#") ≡ false
    → has_prefix line (codes "#") ≡ false
unfolding has_prefix cut_prefix
comment_name [] name old e h = refl
comment_name (c ∷ s) name old e h = elim (Bool-cases (c == b'#')) [
  | inr n ↦ rw n refl
  | inl y ↦
      let hash : c ≡ b'#' = ground (arith, y) in
      let begins = cut_head c s name old (ground (arith, y)) e in
      let kept : trim_space name ≡ b'#' ∷ reverse (drop_while is_space (reverse begins.0)) =
        ap trim_space begins.1
        ∙ rw hash (trim_space-head b'#' begins.0 (unfold is_space in refl)) in
      ground (arith, ap (λ s. has_prefix s (codes "#")) kept, h)
]

wanted-some :
    (values : List (Bytes × Bytes)) (name old k v : Bytes)
    → wanted values (some (name, old)) ≡ some (k, v)
    → (trim_space name ≡ k)
      × (get (trim_space name) values ≡ some v)
      × (has_prefix (trim_space name) (codes "#") ≡ false)
unfolding wanted
wanted-some values name old k v e = go (get (trim_space name) values) refl
  where
    go :
        (o : Option Bytes)
        → get (trim_space name) values ≡ o
        → (trim_space name ≡ k)
          × (get (trim_space name) values ≡ some v)
          × (has_prefix (trim_space name) (codes "#") ≡ false)
    go none q = ground (arith, e, q)
    go (some value) q = (ground (arith, e, q), ground (arith, e, q), ground (arith, e, q))

pub get-wanted :
    (values : List (Bytes × Bytes)) (o : Option (Bytes × Bytes)) (k v : Bytes)
    → wanted values o ≡ some (k, v)
    → get k values ≡ some v
unfolding wanted
get-wanted values none k v e = cc
get-wanted values (some (name, old)) k v e =
    let (same_key, found, no_comment) = wanted-some values name old k v e in
    sym (ap (λ n. get n values) same_key) ∙ found

length-cut :
    (line : Bytes) (p : Bytes × Bytes) → cut b'=' line ≡ some p → (length line == 0) ≡ false
unfolding cut
length-cut [] p e = cc
length-cut (c ∷ line) p e = ground arith

-- A line that `Upsert` replaces was an assignment of the same key.
pub entry_of-wanted :
    (values : List (Bytes × Bytes)) (text k v : Bytes)
    → wanted values (cut b'=' (trim_space text)) ≡ some (k, v)
    → (length k == 0) ≡ false
    → (old : Bytes) × (entry_of text ≡ some (k, old))
unfolding wanted entry_of assignment
entry_of-wanted values text k v e h = go (cut b'=' (trim_space text)) refl
  where
    go :
        (o : Option (Bytes × Bytes))
        → cut b'=' (trim_space text) ≡ o
        → (old : Bytes) × (entry_of text ≡ some (k, old))
    go none q = ground (arith, e, q)
    go (some (name, old)) q =
        let (same_key, found, no_comment) =
          wanted-some values name old k v (sym (ap (wanted values) q) ∙ e) in
        let some_byte = length-cut (trim_space text) (name, old) q in
        let no_hash = comment_name (trim_space text) name old q no_comment in
        (unquote (trim_space old), rw (some_byte, no_hash, q, assignment) (rw same_key (rw h refl)))

-- An assignment of a key of the map is replaced.
pub wanted-entry_of :
    (values : List (Bytes × Bytes)) (text k v old : Bytes)
    → entry_of text ≡ some (k, old)
    → get k values ≡ some v
    → has_prefix k (codes "#") ≡ false
    → wanted values (cut b'=' (trim_space text)) ≡ some (k, v)
unfolding wanted entry_of assignment
wanted-entry_of values text k v old e f h = go (cut b'=' (trim_space text)) refl
  where
    go :
        (o : Option (Bytes × Bytes))
        → cut b'=' (trim_space text) ≡ o
        → wanted values (cut b'=' (trim_space text)) ≡ some (k, v)
    go none q = ground (arith, e, q)
    go (some (name, value)) q =
        let same_key : trim_space name ≡ k = ground (arith, e, q) in
        rw (q, wanted) (rw same_key (rw f (rw same_key (rw h refl))))
