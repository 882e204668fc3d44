-- ===== src/Dnswire/Reader.antt =====
-- internal/dnswire/message.go: the errors, and `parser` with its reads of fixed width. A parser is
-- a function of the buffer and the offset; a read past the end is an error, never a panic.
use dns_stack.Prelude.{
  ℕ, ◌+◌, ◌*◌, ◌/◌, ◌%◌, [], ◌∷◌, ◌++◌, ltb, if◌then◌else◌, length, get_or, take, drop,
}
use dns_stack.Text.{Bytes}

-- The errors of the package. `no_fuel` is the model's own: it marks a loop that has used up its fuel.
pub data Error : Type 0 where
  truncated bad_name pointer_loop bad_subnet no_fuel : Error

pub data Result {ℓ} (A : Type ℓ) : Type ℓ where
  ok : A → Result A
  err : Error → Result A

-- The method's value with `p.off` after it.
abbrev pub Parser : Type 0 → Type 0
Parser A = Bytes → ℕ → Result (A × ℕ)

infixl 5 ◌>>=◌
abbrev pub ◌>>=◌ : {A B : Type 0} → Parser A → (A → Parser B) → Parser B
◌>>=◌ m f buf off = elim (m buf off) [ err e ↦ err e | ok (a, off') ↦ f a buf off' ]

abbrev pub pure : {A : Type 0} → A → Parser A
pure a buf off = ok (a, off)

abbrev pub byte_at : Bytes → ℕ → ℕ
byte_at buf i = get_or buf i 0

-- `binary.BigEndian.Uint16(buf[i:])`
abbrev pub be16 : Bytes → ℕ → ℕ
be16 buf i = 256 * byte_at buf i + byte_at buf (i + 1)

abbrev pub be32 : Bytes → ℕ → ℕ
be32 buf i = 65536 * be16 buf i + be16 buf (i + 2)

-- `buf[from : from+n]`
abbrev pub slice : Bytes → ℕ → ℕ → Bytes
slice buf from n = take n (drop from buf)

unfoldable pub uint16 : Parser ℕ
uint16 buf off = if ltb (length buf) (off + 2) then err truncated else ok (be16 buf off, off + 2)

unfoldable pub uint32 : Parser ℕ
uint32 buf off = if ltb (length buf) (off + 4) then err truncated else ok (be32 buf off, off + 4)

-- `binary.BigEndian.AppendUint16(b, v)`
unfoldable pub put16 : Bytes → ℕ → Bytes
put16 b v = b ++ (v / 256 % 256 ∷ v % 256 ∷ [])

unfoldable pub put32 : Bytes → ℕ → Bytes
put32 b v = b ++ (v / 16777216 % 256 ∷ v / 65536 % 256 ∷ v / 256 % 256 ∷ v % 256 ∷ [])
