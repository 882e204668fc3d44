-- ===== src/Dnswire/Name/Total.antt =====
-- `parser.name` ends on every buffer and at every offset; what it then returns is bounded.
use dns_stack.Prelude.{
  ℕ, ◌⊎◌, any, true, zero, suc, ◌+◌, ◌-◌, ◌/◌, ◌%◌, ◌≤◌, ◌<◌, ◌≡◌, refl, Option, some, none, List,
  [], ◌∷◌, ◌++◌, ◌||◌, inl, inr, ltb, leb, ◌==◌, arith, length, length-take_le, length-map,
  Bool-cases, drop,
}
use dns_stack.Text.{Bytes, lower, to_lower, join_dots}
use dns_stack.Text.Split.{wire_size, length-join_dots}
use dns_stack.Dnswire.Reader.{
  truncated, bad_name, pointer_loop, bad_subnet, no_fuel, Result, ok, err, byte_at, be16, slice,
}
use dns_stack.Dnswire.Name.{end_or, name_loop, name}

-- Where the caller goes on reading: past the name, or where the first pointer fixed it.
abbrev pub EndsAt : Bytes → ℕ → Option ℕ → ℕ → Type 0
EndsAt buf off none e = (off < e) × (e ≤ length buf)
EndsAt buf off (some end) e = e ≡ end

-- A name of ASCII bytes has at most 254 of them. Lower-casing keeps the length of such a name only.
abbrev pub IsShort : Bytes → Type 0
IsShort s = (any (leb 128) s ≡ true) ⊎ (length s ≤ 254)

-- A short name and the offset after it, or an error of the package.
abbrev pub Sound : Bytes → ℕ → Option ℕ → Result (Bytes × ℕ) → Type 0
Sound buf off end (ok (s, e)) = IsShort s × EndsAt buf off end e
Sound buf off end (err truncated) = Unit
Sound buf off end (err bad_name) = Unit
Sound buf off end (err pointer_loop) = Unit
Sound buf off end (err bad_subnet) = ⊥
Sound buf off end (err no_fuel) = ⊥

-- After a pointer the end is fixed.
Sound-jump :
    (buf : Bytes) (off target : ℕ) (end : Option ℕ) (r : Result (Bytes × ℕ))
    → off + 2 ≤ length buf
    → Sound buf target (some (end_or end (off + 2))) r
    → Sound buf off end r
Sound-jump buf off target none (ok (s, e)) h k = (k.0, omega (arith, k.1))
Sound-jump buf off target (some end) (ok (s, e)) h k = k
Sound-jump buf off target end (err truncated) h k = k
Sound-jump buf off target end (err bad_name) h k = k
Sound-jump buf off target end (err pointer_loop) h k = k
Sound-jump buf off target end (err bad_subnet) h k = k
Sound-jump buf off target end (err no_fuel) h k = k

Sound-later :
    (buf : Bytes) (off later : ℕ) (end : Option ℕ) (r : Result (Bytes × ℕ))
    → off ≤ later
    → Sound buf later end r
    → Sound buf off end r
Sound-later buf off later none (ok (s, e)) h k = (k.0, omega (arith, k.1))
Sound-later buf off later (some end) (ok (s, e)) h k = k
Sound-later buf off later end (err truncated) h k = k
Sound-later buf off later end (err bad_name) h k = k
Sound-later buf off later end (err pointer_loop) h k = k
Sound-later buf off later end (err bad_subnet) h k = k
Sound-later buf off later end (err no_fuel) h k = k

length-to_lower-join_dots :
    (labels : List Bytes) → wire_size labels ≤ 255 → length (to_lower (join_dots labels)) ≤ 254
unfolding to_lower
length-to_lower-join_dots [] h = unfold join_dots in omega arith
length-to_lower-join_dots (l ∷ ls) h =
    omega (arith, length-map lower (join_dots (l ∷ ls)), length-join_dots (l ∷ ls) (λ e. cc))

Sound-done :
    (buf : Bytes) (off : ℕ) (end : Option ℕ) (labels : List Bytes)
    → off < length buf
    → wire_size labels ≤ 255
    → Sound buf off end (ok (to_lower (join_dots labels), end_or end (off + 1)))
Sound-done buf off none labels h w = (inr (length-to_lower-join_dots labels w), omega arith)
Sound-done buf off (some end) labels h w = (inr (length-to_lower-join_dots labels w), refl)

wire_size-append :
    (labels : List Bytes) (l : Bytes)
    → wire_size (labels ++ l ∷ []) ≡ wire_size labels + length l + 1
unfolding wire_size
wire_size-append [] l = omega arith
wire_size-append (m ∷ ms) l = omega (arith, wire_size-append ms l)

name_loop-Sound :
    (fuel : ℕ) (buf : Bytes) (off : ℕ) (end : Option ℕ) (pointers total : ℕ) (labels : List Bytes)
    → wire_size labels ≤ total
    → total ≤ 255
    → pointers ≤ 32
    → (255 - total) + (32 - pointers) < fuel
    → Sound buf off end (name_loop fuel buf off end pointers total labels)
unfolding name_loop
name_loop-Sound zero buf off end pointers total labels w t p f = absurd (omega arith)
name_loop-Sound (suc fuel) buf off end pointers total labels w t p f =
    elim (Bool-cases (leb (length buf) off)) [
      | inl a ↦ rw a tt
      | inr a ↦ rw a (elim (Bool-cases (byte_at buf off == 0)) [
        | inl b ↦ rw b (Sound-done buf off end labels (ground arith) (omega arith))
        | inr b ↦ rw b (elim (Bool-cases (byte_at buf off / 64 == 3)) [
          | inl c ↦ rw c (elim (Bool-cases (ltb (length buf) (off + 2))) [
            | inl d ↦ rw d tt
            | inr d ↦
                rw d (elim (Bool-cases (ltb 32 (pointers + 1) || leb off (be16 buf off % 0x4000))) [
                  | inl e ↦ rw e tt
                  | inr e ↦ rw e (
                      Sound-jump buf off (be16 buf off % 0x4000) end _ (ground arith) (
                        name_loop-Sound fuel buf (be16 buf off % 0x4000)
                          (some (end_or end (off + 2))) (pointers + 1) total labels w t
                          (ground arith) (ground arith)))
                ])
          ])
          | inr c ↦ rw c (elim (Bool-cases (byte_at buf off / 64 == 0)) [
            | inr d ↦ rw d tt
            | inl d ↦ rw d (elim (Bool-cases (ltb (length buf) (off + 1 + byte_at buf off))) [
              | inl e ↦ rw e tt
              | inr e ↦ rw e (elim (Bool-cases (ltb 255 (total + byte_at buf off + 1))) [
                | inl g ↦ rw g tt
                | inr g ↦ rw g (
                    Sound-later buf off (off + 1 + byte_at buf off) end _ (omega arith) (
                      name_loop-Sound fuel buf (off + 1 + byte_at buf off) end pointers
                        (total + byte_at buf off + 1)
                        (labels ++ slice buf (off + 1) (byte_at buf off) ∷ [])
                        (omega (
                          arith,
                          wire_size-append labels (slice buf (off + 1) (byte_at buf off)),
                          length-take_le (byte_at buf off) (drop (off + 1) buf),
                        ))
                        (ground arith) p (ground arith)))
              ])
            ])
          ])
        ])
      ])
    ]

-- `parser.name` returns on every buffer, of any bytes with any pointers, and at every offset: its
-- loop ends within the model's fuel. If it returns a name, that has a byte past ASCII or at most 254
-- bytes, and the parser then stands after the place it started from and inside the buffer or at its end.
pub name-Sound : (buf : Bytes) (off : ℕ) → Sound buf off none (name buf off)
unfolding name
name-Sound buf off =
    name_loop-Sound 300 buf off none 0 0 [] (unfold wire_size in omega arith) (omega arith)
      (omega arith) (omega arith)
