-- ===== src/Netip/Octets.antt =====
-- `Addr.AsSlice` and `AddrFromSlice`: an address as its bytes, the highest first.
use dns_stack.Prelude.{
  ℕ, zero, suc, ◌+◌, ◌*◌, ◌/◌, ◌%◌, ◌^◌, ◌≤◌, ◌<◌, ◌≡◌, refl, sym, ap, ◌∙◌, List, [], ◌∷◌, ◌++◌,
  arith, ◌==◌, if◌then◌else◌, length, take, take-append,
}
use mathlib.Core.List.{append_assoc, append-nil}
use native.Mathlib.Nat.{zero-add}
use dns_stack.Prelude.Powers.{pow_add}
use dns_stack.Netip.{Addr, invalid, v4, v6}

-- The low `n` bytes of a number.
unfoldable pub octets : ℕ → ℕ → List ℕ
octets zero v = []
octets (suc n) v = octets n (v / 256) ++ v % 256 ∷ []

unfoldable pub value_from : ℕ → List ℕ → ℕ
value_from acc [] = acc
value_from acc (b ∷ bs) = value_from (256 * acc + b) bs

unfoldable pub zeros : ℕ → List ℕ
zeros zero = []
zeros (suc n) = 0 ∷ zeros n

unfoldable pub as_slice : Addr → List ℕ
unfolding octets
as_slice invalid = []
as_slice (v4 a) = octets 4 a
as_slice (v6 a) = octets 16 a

unfoldable pub from_slice : List ℕ → Addr
unfolding value_from
from_slice bs =
    if length bs == 4
    then v4 (value_from 0 bs)
    else if length bs == 16
    then v6 (value_from 0 bs)
    else invalid

length-append_one : (xs : List ℕ) (b : ℕ) → length (xs ++ b ∷ []) ≡ length xs + 1
length-append_one [] b = refl
length-append_one (x ∷ xs) b = omega (arith, length-append_one xs b)

pub length-octets : (n v : ℕ) → length (octets n v) ≡ n
unfolding octets
length-octets zero v = refl
length-octets (suc n) v =
    omega (arith, length-append_one (octets n (v / 256)) (v % 256), length-octets n (v / 256))

value_from-append_one :
    (acc : ℕ) (xs : List ℕ) (b : ℕ) → value_from acc (xs ++ b ∷ []) ≡ 256 * value_from acc xs + b
unfolding value_from
value_from-append_one acc [] b = refl
value_from-append_one acc (x ∷ xs) b = value_from-append_one (256 * acc + x) xs b

pow_octet : (n : ℕ) → 2 ^ (8 * suc n) ≡ 2 ^ (8 * n) * 256
pow_octet n = let e : 8 * suc n ≡ 8 * n + 8 = omega arith in rw e (pow_add (8 * n) 8)

-- The bytes of a number that fits give the number.
pub value_from-octets : (n v : ℕ) → v < 2 ^ (8 * n) → value_from 0 (octets n v) ≡ v
unfolding octets
value_from-octets zero v h = unfold value_from in omega (arith, h)
value_from-octets (suc n) v h =
    let low : v / 256 < 2 ^ (8 * n) = omega (arith, h, pow_octet n) in
    value_from-append_one 0 (octets n (v / 256)) (v % 256)
    ∙ rw (value_from-octets n (v / 256) low) (omega arith)

zeros-append_one : (n : ℕ) → zeros n ++ 0 ∷ [] ≡ zeros (suc n)
unfolding zeros
zeros-append_one zero = refl
zeros-append_one (suc n) = ap (λ (xs : List ℕ). 0 ∷ xs) (zeros-append_one n)

-- The bytes of a multiple of 256 ^ m end in m zeros.
octets-shift : (s m u : ℕ) → octets (m + s) (u * 2 ^ (8 * m)) ≡ octets s u ++ zeros m
unfolding zeros octets
octets-shift s zero u =
    let e : u * 2 ^ (8 * 0) ≡ u = omega arith in
    rw (zero-add s) (rw e (sym (append-nil (octets s u))))
octets-shift s (suc m) u =
    let shift : suc m + s ≡ suc (m + s) = omega arith in
    let whole : u * 2 ^ (8 * suc m) ≡ 256 * (u * 2 ^ (8 * m)) =
      ap (λ (p : ℕ). u * p) (pow_octet m) ∙ split u (2 ^ (8 * m)) in
    let high : u * 2 ^ (8 * suc m) / 256 ≡ u * 2 ^ (8 * m) = omega (arith, whole) in
    let low : u * 2 ^ (8 * suc m) % 256 ≡ 0 = omega (arith, whole) in
    rw shift (
      rw (high, low, octets-shift s m u)
        (append_assoc (octets s u) (zeros m) (0 ∷ [])
          ∙ ap (λ xs. octets s u ++ xs) (zeros-append_one m)))
  where
    split : (u p : ℕ) → u * (p * 256) ≡ 256 * (u * p)
    split u p = omega arith

take-zeros : (n m : ℕ) → n ≤ m → take n (zeros m) ≡ zeros n
unfolding zeros
take-zeros zero m h = refl
take-zeros (suc n) zero h = absurd (omega arith)
take-zeros (suc n) (suc m) h = ap (λ (xs : List ℕ). 0 ∷ xs) (take-zeros n m (omega arith))

take-past : (xs ys : List ℕ) (m : ℕ) → take (m + length xs) (xs ++ ys) ≡ xs ++ take m ys
take-past [] ys m = let e : m + 0 ≡ m = omega arith in rw e refl
take-past (x ∷ xs) ys m =
    let e : m + suc (length xs) ≡ suc (m + length xs) = omega arith in
    rw e (ap (λ (r : List ℕ). x ∷ r) (take-past xs ys m))

-- A number with its low bits clear is known from its first `s` bytes, when those hold all the
-- other bits.
pub take-octets :
    (s m u : ℕ)
    → take (m + s) (take s (octets (m + s) (u * 2 ^ (8 * m))) ++ zeros (m + s))
      ≡ octets (m + s) (u * 2 ^ (8 * m))
take-octets s m u =
    rw (octets-shift s m u, first)
      (ap (λ (k : ℕ). take (m + k) (octets s u ++ zeros (m + s))) (sym size)
        ∙ take-past (octets s u) (zeros (m + s)) m
        ∙ ap (λ xs. octets s u ++ xs) (take-zeros m (m + s) (omega arith)))
  where
    size : length (octets s u) ≡ s
    size = length-octets s u

    first : take s (octets s u ++ zeros m) ≡ octets s u
    first =
        ap (λ (k : ℕ). take k (octets s u ++ zeros m)) (sym size)
        ∙ take-append (octets s u) (zeros m)
