-- ===== src/Dnswire/Gives.antt =====
-- What the parsers of a message give on a buffer, at any offset; they end within the model's fuel.
use dns_stack.Prelude.{
  ℕ, ◌+◌, ◌≤◌, ◌≡◌, refl, ◌≢◌, inl, inr, arith, ltb, none, length, length-take, Bool-cases, drop,
  length-drop,
}
use dns_stack.Text.{Bytes}
use dns_stack.Dnswire.Reader.{Result, ok, err, no_fuel, Parser, ◌>>=◌, pure, slice, uint16, uint32}
use dns_stack.Dnswire.Name.{name}
use dns_stack.Dnswire.Name.Total.{IsShort, Sound, name-Sound}
use dns_stack.Dnswire.Message.{Rr, question, rr, rdata_of}

abbrev pub Post : {A : Type 0} → (A → Type 0) → Result (A × ℕ) → Type 0
Post Q (ok (a, off)) = Q a
Post Q (err e) = e ≢ no_fuel

pub record Gives {A : Type 0} (buf : Bytes) (p : Parser A) (Q : A → Type 0) : Type 0 where
  pub at : (off : ℕ) → Post Q (p buf off)

abbrev Anything : {A : Type 0} → A → Type 0
Anything a = Unit

Gives-pure : {A : Type 0} (buf : Bytes) (a : A) (Q : A → Type 0) → Q a → Gives buf (pure a) Q
Gives-pure buf a Q h = record { at = λ off. h }

elim-Post :
    {A B : Type 0} (buf : Bytes) (f : A → Parser B) (P : A → Type 0) (Q : B → Type 0)
    (r : Result (A × ℕ))
    → Post P r
    → ((a : A) → P a → Gives buf (f a) Q)
    → Post Q (elim r [ err e ↦ err e | ok (a, off) ↦ f a buf off ])
elim-Post buf f P Q (ok (a, off)) h k = (k a h).at off
elim-Post buf f P Q (err e) h k = h

Gives-then :
    {A B : Type 0} (buf : Bytes) (m : Parser A) (f : A → Parser B) (P : A → Type 0) (Q : B → Type 0)
    → Gives buf m P
    → ((a : A) → P a → Gives buf (f a) Q)
    → Gives buf (m >>= f) Q
Gives-then buf m f P Q h k = record { at = λ off. elim-Post buf f P Q (m buf off) (h.at off) k }

Post-Sound :
    (buf : Bytes) (off : ℕ) (r : Result (Bytes × ℕ)) → Sound buf off none r → Post IsShort r
Post-Sound buf off (ok (n, last)) h = h.0
Post-Sound buf off (err e) h = λ same. rw same at h

Gives-name : (buf : Bytes) → Gives buf name IsShort
Gives-name buf = record { at = λ off. Post-Sound buf off (name buf off) (name-Sound buf off) }

Gives-uint16 : (buf : Bytes) → Gives buf uint16 Anything
unfolding uint16
Gives-uint16 buf = record {
  at = λ off. elim (Bool-cases (ltb (length buf) (off + 2))) [
    | inl e ↦ rw e (λ h. cc)
    | inr e ↦ rw e tt
  ];
}

Gives-uint32 : (buf : Bytes) → Gives buf uint32 Anything
unfolding uint32
Gives-uint32 buf = record {
  at = λ off. elim (Bool-cases (ltb (length buf) (off + 4))) [
    | inl e ↦ rw e (λ h. cc)
    | inr e ↦ rw e tt
  ];
}

-- Data that are the message's bytes at the place recorded.
abbrev IsSlice : Bytes → Bytes × ℕ → Type 0
IsSlice buf d = (d.1 + length d.0 ≤ length buf) × (d.0 ≡ slice buf d.1 (length d.0))

slice-IsSlice :
    (buf : Bytes) (off n : ℕ) → off + n ≤ length buf → IsSlice buf (slice buf off n, off)
slice-IsSlice buf off n h =
    let size : length (slice buf off n) ≡ n =
      length-take n (drop off buf) (omega (arith, length-drop off buf, h)) in
    (omega (arith, size), rw size refl)

Gives-rdata_of : (buf : Bytes) (n : ℕ) → Gives buf (rdata_of n) (IsSlice buf)
unfolding rdata_of
Gives-rdata_of buf n = record {
  at = λ off. elim (Bool-cases (ltb (length buf) (off + n))) [
    | inl e ↦ rw e (λ h. cc)
    | inr e ↦ rw e (slice-IsSlice buf off n (ground (arith, e)))
  ];
}

pub Gives-question : (buf : Bytes) → Gives buf question Anything
unfolding question
Gives-question buf = Gives-then buf name _ IsShort Anything (Gives-name buf) (λ n h.
    Gives-then buf uint16 _ Anything Anything (Gives-uint16 buf) (λ t u.
      Gives-then buf uint16 _ Anything Anything (Gives-uint16 buf)
        (λ c v. Gives-pure buf _ Anything tt)))

-- The name has a byte past ASCII or at most 254 bytes, and the data are the message's bytes at the place recorded.
abbrev pub StandsIn : Bytes → Rr → Type 0
StandsIn buf r =
    IsShort r.name
    × (r.rdata_at + length r.rdata ≤ length buf)
    × (r.rdata ≡ slice buf r.rdata_at (length r.rdata))

pub Gives-rr : (buf : Bytes) → Gives buf rr (StandsIn buf)
unfolding rr
Gives-rr buf = Gives-then buf name _ IsShort (StandsIn buf) (Gives-name buf) (λ n short.
    Gives-then buf uint16 _ Anything (StandsIn buf) (Gives-uint16 buf) (λ t _.
      Gives-then buf uint16 _ Anything (StandsIn buf) (Gives-uint16 buf) (λ c _.
        Gives-then buf uint32 _ Anything (StandsIn buf) (Gives-uint32 buf) (λ ttl _.
          Gives-then buf uint16 _ Anything (StandsIn buf) (Gives-uint16 buf) (λ len _.
            Gives-then buf (rdata_of len) _ (IsSlice buf) (StandsIn buf) (Gives-rdata_of buf len)
              (λ d h. Gives-pure buf _ (StandsIn buf) (short, h.0, h.1)))))))
