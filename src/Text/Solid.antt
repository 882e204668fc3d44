-- ===== src/Text/Solid.antt =====
-- Texts without white space, and texts of one line.
use dns_stack.Prelude.{ℕ, ◌≡◌, refl, false, [], ◌∷◌, ◌++◌, arith, ◌==◌, All, All-append, Bool, any}
use mathlib.Core.List.{reverse, reverse-append, reverse-reverse}
use dns_stack.Text.{Bytes, is_space, drop_while, trim_right, trim_space, first_with}
use dns_stack.Text.Match.{split_on}

-- No byte is white space.
abbrev pub IsSolid : Bytes → Type 0
IsSolid s = All (λ c. is_space c ≡ false) s

drop_while-IsSolid : (s : Bytes) → IsSolid s → drop_while is_space s ≡ s
unfolding drop_while
drop_while-IsSolid [] h = refl
drop_while-IsSolid (c ∷ s) h = rw h.0 refl

pub All-reverse : (P : ℕ → Type 0) (s : Bytes) → All P s → All P (reverse s)
All-reverse P [] h = h
All-reverse P (c ∷ s) h =
    rw (reverse-append (c ∷ []) s)
      (All-append P (reverse s) (c ∷ []) (All-reverse P s h.1) (h.0, tt))

pub trim_space-IsSolid : (s : Bytes) → IsSolid s → trim_space s ≡ s
unfolding trim_space trim_right
trim_space-IsSolid s h =
    rw (drop_while-IsSolid s h)
      (rw (drop_while-IsSolid (reverse s) (All-reverse _ s h)) (reverse-reverse s))

-- No line break.
abbrev pub IsOneLine : Bytes → Type 0
IsOneLine s = All (λ c. (c == 10) ≡ false) s

-- The part before the first separator.
pub split_on-part :
    (sep : ℕ) (s rest : Bytes)
    → All (λ c. (c == sep) ≡ false) s
    → split_on sep (s ++ sep ∷ rest) ≡ s ∷ split_on sep rest
unfolding split_on first_with
split_on-part sep [] rest h = ground arith
split_on-part sep (c ∷ s) rest h = rw (h.0, split_on-part sep s rest h.1) refl

pub split_on-whole :
    (sep : ℕ) (s : Bytes) → All (λ c. (c == sep) ≡ false) s → split_on sep s ≡ s ∷ []
unfolding split_on first_with
split_on-whole sep [] h = refl
split_on-whole sep (c ∷ s) h = rw (h.0, split_on-whole sep s h.1) refl

pub IsSolid-IsOneLine : (s : Bytes) → IsSolid s → IsOneLine s
unfolding is_space
IsSolid-IsOneLine [] h = tt
IsSolid-IsOneLine (c ∷ s) h = (ground (arith, h.0), IsSolid-IsOneLine s h.1)

-- To check the bytes of a text by evaluation.
pub All-not-any : (p : ℕ → Bool) (s : Bytes) → any p s ≡ false → All (λ c. p c ≡ false) s
unfolding any
All-not-any p [] h = tt
All-not-any p (c ∷ s) h = (ground (arith, h), All-not-any p s (ground (arith, h)))
