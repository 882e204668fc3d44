-- ===== src/Config/Breaks.antt =====
-- internal/config/upsert.go: the line breaks at the end of a file, which `Upsert` takes away, do not matter.
use mathlib.Core.List.{reverse, reverse-append, reverse-reverse}
use dns_stack.Prelude.{
  ℕ, ◌≡◌, ◌≢◌, refl, sym, ap, ◌∙◌, true, List, [], ◌∷◌, ◌++◌, inl, inr, ◌==◌, All, Bool-cases,
  if◌then◌else◌,
}
use dns_stack.Text.{Bytes, first_with, drop_while, trim_right, trim_space}
use dns_stack.Text.Match.{split_on}
use dns_stack.Config.{newline, entry_of, each_line}
use dns_stack.Text.Solid.{All-reverse}
use dns_stack.Config.Values.{last_value, after_line, each_line-∷}

pub last_value-append :
    (key old : Bytes) (xs ys : List Bytes)
    → last_value key old (each_line (xs ++ ys))
      ≡ last_value key (last_value key old (each_line xs)) (each_line ys)
last_value-append key old [] ys = unfold last_value each_line in refl
last_value-append key old (x ∷ xs) ys =
    each_line-∷ key old x (xs ++ ys)
    ∙ last_value-append key (after_line key old (entry_of x)) xs ys
    ∙ ap (λ o. last_value key o (each_line ys)) (sym (each_line-∷ key old x xs))

-- An empty line says nothing.
after_line-empty : (key old : Bytes) → after_line key old (entry_of []) ≡ old
unfolding after_line entry_of trim_space trim_right drop_while
after_line-empty key old = refl

-- As many empty lines as bytes.
unfoldable pub blank_lines : Bytes → List Bytes
blank_lines [] = []
blank_lines (c ∷ s) = [] ∷ blank_lines s

pub last_value-blank_lines :
    (key old s : Bytes) → last_value key old (each_line (blank_lines s)) ≡ old
unfolding blank_lines
last_value-blank_lines key old [] = unfold last_value each_line in refl
last_value-blank_lines key old (c ∷ s) =
    each_line-∷ key old [] (blank_lines s)
    ∙ ap (λ o. last_value key o (each_line (blank_lines s))) (after_line-empty key old)
    ∙ last_value-blank_lines key old s

IsBreak : ℕ → Type 0
IsBreak c = (c == newline) ≡ true

first_with-append :
    (c : ℕ) (xs ys : List Bytes) → xs ≢ [] → first_with c (xs ++ ys) ≡ first_with c xs ++ ys
unfolding first_with
first_with-append c [] ys n = absurd (n refl)
first_with-append c (x ∷ xs) ys n = refl

pub split_on-ne-nil : (s : Bytes) → split_on newline s ≢ []
unfolding split_on
split_on-ne-nil [] = λ e. cc
split_on-ne-nil (c ∷ s) = elim (Bool-cases (c == newline)) [
  | inl e ↦ rw e (λ f. cc)
  | inr e ↦ rw e (first_with-ne-nil (split_on newline s))
]
  where
    first_with-ne-nil : (ls : List Bytes) → first_with c ls ≢ []
    first_with-ne-nil [] = unfold first_with in λ f. cc
    first_with-ne-nil (l ∷ ls) = unfold first_with in λ f. cc

split_on-breaks : (s : Bytes) → All IsBreak s → split_on newline s ≡ [] ∷ blank_lines s
unfolding split_on blank_lines IsBreak
split_on-breaks [] h = refl
split_on-breaks (c ∷ s) h = rw h.0 (ap (λ r. [] ∷ r) (split_on-breaks s h.1))

split_on-append-breaks :
    (s t : Bytes) → All IsBreak t → split_on newline (s ++ t) ≡ split_on newline s ++ blank_lines t
unfolding split_on
split_on-append-breaks [] t h = split_on-breaks t h
split_on-append-breaks (c ∷ s) t h = elim (Bool-cases (c == newline)) [
  | inl e ↦ rw e (ap (λ r. [] ∷ r) (split_on-append-breaks s t h))
  | inr e ↦ rw e (
      ap (first_with c) (split_on-append-breaks s t h)
      ∙ first_with-append c (split_on newline s) (blank_lines t) (split_on-ne-nil s))
]

-- What `TrimRight` takes away.
taken : Bytes → Bytes
taken [] = []
taken (c ∷ s) = let rest = taken s in if c == newline then c ∷ rest else []

taken-drop_while : (s : Bytes) → taken s ++ drop_while (λ c. c == newline) s ≡ s
unfolding taken drop_while
taken-drop_while [] = refl
taken-drop_while (c ∷ s) = elim (Bool-cases (c == newline)) [
  | inl e ↦ rw e (ap (λ r. c ∷ r) (taken-drop_while s))
  | inr e ↦ rw e refl
]

taken-IsBreak : (s : Bytes) → All IsBreak (taken s)
unfolding taken IsBreak
taken-IsBreak [] = tt
taken-IsBreak (c ∷ s) = elim (Bool-cases (c == newline)) [
  | inl e ↦ rw e (rw e refl, taken-IsBreak s)
  | inr e ↦ rw e tt
]

-- The line breaks at the end of the file do not matter.
trim_right-parts :
    (s : Bytes) → (t : Bytes) × All IsBreak t × (trim_right (λ c. c == newline) s ++ t ≡ s)
unfolding trim_right
trim_right-parts s =
    let back = reverse s in
    (
      reverse (taken back),
      All-reverse IsBreak (taken back) (taken-IsBreak back),
      sym (reverse-append (taken back) (drop_while (λ c. c == newline) back))
          ∙ ap reverse (taken-drop_while back)
          ∙ reverse-reverse s,
    )

pub last_value-trim_right :
    (key : Bytes) (s : Bytes)
    → last_value key [] (each_line (split_on newline (trim_right (λ c. c == newline) s)))
      ≡ last_value key [] (each_line (split_on newline s))
last_value-trim_right key s =
    let (t, breaks, whole) = trim_right-parts s in
    let body = trim_right (λ c. c == newline) s in
    sym (
      ap (λ b. last_value key [] (each_line (split_on newline b))) (sym whole)
      ∙ ap (λ ls. last_value key [] (each_line ls)) (split_on-append-breaks body t breaks)
      ∙ last_value-append key [] (split_on newline body) (blank_lines t)
      ∙ last_value-blank_lines key (last_value key [] (each_line (split_on newline body))) t)
