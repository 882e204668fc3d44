-- ===== src/Dnswire/Reads.antt =====
-- A parser reads what was written: the rules by which round trips are proved.
use dns_stack.Prelude.{
  ℕ, ◌+◌, ◌/◌, ◌%◌, ◌≤◌, ◌<◌, ◌≡◌, ap, ◌∙◌, false, [], ◌∷◌, ◌++◌, arith, ltb, length, length-append,
  drop, drop_head, drop_past,
}
use mathlib.Core.List.{append_assoc}
use dns_stack.Text.{Bytes}
use dns_stack.Dnswire.Reader.{ok, Parser, ◌>>=◌, pure, uint16, uint32}

-- Wherever the bytes stand in a buffer, the parser takes all of them and returns the value. The
-- value may name the offset.
pub record Reads {A : Type 0} (p : Parser A) (xs : Bytes) (value : ℕ → A) : Type 0 where
  pub at :
      (buf : Bytes) (off : ℕ) (rest : Bytes)
      → off ≤ length buf
      → drop off buf ≡ xs ++ rest
      → p buf off ≡ ok (value off, off + length xs)

-- What a chain returns once its first parser has returned.
pub >>=-ok :
    {A B : Type 0} (p : Parser A) (f : A → Parser B) (buf : Bytes) (off : ℕ) {off' : ℕ} {a : A}
    → p buf off ≡ ok (a, off')
    → (p >>= f) buf off ≡ f a buf off'
>>=-ok p f buf off e = rw (e, ◌>>=◌)

pub Reads-pure : {A : Type 0} (a : A) → Reads (pure a) [] (λ off. a)
Reads-pure a = record { at = λ buf off rest h e. ap (λ (n : ℕ). ok (a, n)) (omega arith) }

-- The bytes of a uint16 and of a uint32, most significant first.
abbrev pub bytes16 : ℕ → Bytes
bytes16 v = v / 256 % 256 ∷ v % 256 ∷ []

abbrev pub bytes32 : ℕ → Bytes
bytes32 v = v / 16777216 % 256 ∷ v / 65536 % 256 ∷ v / 256 % 256 ∷ v % 256 ∷ []

pub Reads-uint16 : (v : ℕ) → v < 65536 → Reads uint16 (bytes16 v) (λ off. v)
unfolding uint16
Reads-uint16 v w = record {
  at = λ buf off rest h e.
      let (p, first, more) = drop_head 0 buf off _ _ e in
      let (q, second, _) = drop_head 0 buf (off + 1) _ _ more in
      let fits : ltb (length buf) (off + 2) ≡ false = ground arith in
      rw fits (rw (first, second) (ap (λ (n : ℕ). ok (n, off + 2)) (omega arith)));
}

-- The parser that goes on after a constant value may name the offset where it starts.
pub Reads-then :
    {A B : Type 0} (p : Parser A) (f : A → Parser B) {xs ys : Bytes} {a : A} (g : ℕ → B)
    → Reads p xs (λ off. a)
    → Reads (f a) ys g
    → Reads (p >>= f) (xs ++ ys) (λ off. g (off + length xs))
Reads-then p f {xs = xs} {ys = ys} g r s = record {
  at = λ buf off rest h e.
      let split = append_assoc xs ys rest in
      let past = drop_past buf off xs (ys ++ rest) h (e ∙ split) in
      let total : off + length xs + length ys ≡ off + length (xs ++ ys) =
        omega (arith, length-append xs ys) in
      >>=-ok p f buf off (r.at buf off (ys ++ rest) h (e ∙ split))
      ∙ s.at buf (off + length xs) rest past.0 past.1
      ∙ ap (λ (n : ℕ). ok (g (off + length xs), n)) total;
}

pub Reads-value :
    {A : Type 0} {p : Parser A} {xs : Bytes} {g h : ℕ → A}
    → Reads p xs g
    → ((off : ℕ) → g off ≡ h off)
    → Reads p xs h
Reads-value {xs = xs} r e = record {
  at = λ buf off rest b d. r.at buf off rest b d ∙ ap (λ v. ok (v, off + length xs)) (e off);
}

pub Reads-uint32 : (v : ℕ) → v < 4294967296 → Reads uint32 (bytes32 v) (λ off. v)
unfolding uint32
Reads-uint32 v w = record {
  at = λ buf off rest h e.
      let (p, first, more) = drop_head 0 buf off _ _ e in
      let (q, second, more2) = drop_head 0 buf (off + 1) _ _ more in
      let (s, third, more3) = drop_head 0 buf (off + 1 + 1) _ _ more2 in
      let (t, fourth, _) = drop_head 0 buf (off + 1 + 1 + 1) _ _ more3 in
      let fits : ltb (length buf) (off + 4) ≡ false = ground arith in
      let two : off + 1 + 1 ≡ off + 2 = omega arith in
      let three : off + 1 + 1 + 1 ≡ off + 2 + 1 = omega arith in
      rw fits (
        rw (first, second, rw two at third, rw three at fourth)
          (ap (λ (n : ℕ). ok (n, off + 4)) (omega arith)));
}

pub Reads-map :
    {A B : Type 0} (p : Parser A) (f : A → B) {xs : Bytes} {g : ℕ → A}
    → Reads p xs g
    → Reads (p >>= λ a. pure (f a)) (xs ++ []) (λ off. f (g off))
Reads-map p f {xs = xs} {g = g} r = record {
  at = λ buf off rest h e.
      let total : off + length xs ≡ off + length (xs ++ []) = omega (arith, length-append xs []) in
      >>=-ok p (λ a. pure (f a)) buf off (r.at buf off rest h (e ∙ append_assoc xs [] rest))
      ∙ ap (λ (n : ℕ). ok (f (g off), n)) total;
}
