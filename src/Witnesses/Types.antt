-- ===== src/Witnesses/Types.antt =====
-- The types of DNS records with numbers in decimal.
use dns_stack.Prelude.{
  ℕ, ◌+◌, ◌-◌, ◌*◌, ◌/◌, ◌%◌, ◌<◌, ◌≤◌, ◌≡◌, Option, none, some, [], ◌∷◌, ◌&&◌, ltb, leb,
  if◌then◌else◌, arith, All,
}
use dns_stack.Text.{Bytes}
use dns_stack.Dnswire.Types.{type_name, type_code}
use dns_stack.Dnswire.Types.Codes.{IsDecimal, type_code-type_name}

abbrev digit : ℕ → ℕ
digit n = b'0' + n % 10

unfoldable print_number : ℕ → Bytes
print_number n =
    if ltb n 10
    then digit n ∷ []
    else if ltb n 100
    then digit (n / 10) ∷ digit n ∷ []
    else if ltb n 1000
    then digit (n / 100) ∷ digit (n / 10) ∷ digit n ∷ []
    else if ltb n 10000
    then digit (n / 1000) ∷ digit (n / 100) ∷ digit (n / 10) ∷ digit n ∷ []
    else digit (n / 10000) ∷ digit (n / 1000) ∷ digit (n / 100) ∷ digit (n / 10) ∷ digit n ∷ []

unfoldable digits_from : ℕ → Bytes → Option ℕ
digits_from n [] = if ltb n 65536 then some n else none
digits_from n (c ∷ s) =
    let rest = digits_from (n * 10 + (c - b'0')) s in
    if leb b'0' c && leb c b'9' then rest else none

unfoldable parse_number : Bytes → Option ℕ
parse_number [] = none
parse_number (c ∷ s) = digits_from 0 (c ∷ s)

print_number-digits : (t : ℕ) → t < 65536 → All (λ c. (b'0' ≤ c) × (c ≤ b'9')) (print_number t)
unfolding print_number
print_number-digits t w = ground arith

parse_number-print_number : (t : ℕ) → t < 65536 → parse_number (print_number t) ≡ some t
unfolding parse_number print_number digits_from
parse_number-print_number t w = ground arith

decimal : IsDecimal parse_number print_number
decimal = record { reads = parse_number-print_number; digits = print_number-digits }

type_code-type_name_example : type_code parse_number (type_name print_number 65280) ≡ some 65280
type_code-type_name_example =
    type_code-type_name parse_number print_number decimal 65280 (omega arith)
