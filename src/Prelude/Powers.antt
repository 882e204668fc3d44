-- ===== src/Prelude/Powers.antt =====
-- Powers of two, and numbers whose low bits are clear.
use dns_stack.Prelude.Tests.{u32_mod}
use Prim.Native.Nat.{ℕ, zero, suc, ◌+◌, ◌-◌, ◌*◌, ◌/◌, ◌^◌, ◌≤◌, ◌<◌}
use mathlib.Core.Path.{◌≡◌, sym, ap, ◌∙◌}
use native.Mathlib.Omega.{arith}
use native.Mathlib.Nat.{two-pow-succ, zero-add, pow-le-pow_right, mul-le-mul_right}
use native.Mathlib.Decide.{dec_le}

pub pow_suc : (k : ℕ) → 2 ^ suc k ≡ 2 * 2 ^ k
pow_suc k = omega (arith, two-pow-succ k)

pub pow_add : (a b : ℕ) → 2 ^ (a + b) ≡ 2 ^ a * 2 ^ b
pow_add zero b = rw zero-add (omega arith)
pow_add (suc a) b =
    let shift : suc a + b ≡ suc (a + b) = omega arith in
    rw shift (grind (arith, pow_suc (a + b), pow_suc a, pow_add a b))

pub pow_pos : (k : ℕ) → 0 < 2 ^ k
pow_pos zero = omega arith
pow_pos (suc k) = omega (arith, pow_suc k, pow_pos k)

pub pow_mono : (a b : ℕ) → a ≤ b → 2 ^ a ≤ 2 ^ b
pow_mono a b h = pow-le-pow_right (omega arith) h

-- A number below 2 ^ 32 with its low `k` bits clear has room for 2 ^ k.
pub aligned_room :
    (k lo : ℕ) → k ≤ 32 → lo < u32_mod → lo / 2 ^ k * 2 ^ k ≡ lo → lo + 2 ^ k ≤ u32_mod
aligned_room k lo h w e =
    let split : k + (32 - k) ≡ 32 = omega arith in
    let total : 2 ^ k * 2 ^ (32 - k) ≡ u32_mod =
      sym (pow_add k (32 - k)) ∙ ap (λ (n : ℕ). 2 ^ n) split in
    room (lo / 2 ^ k) (2 ^ (32 - k)) (2 ^ k) lo e total w
  where
    room : (q p b n : ℕ) → q * b ≡ n → b * p ≡ u32_mod → n < u32_mod → n + b ≤ u32_mod
    room q p b n e t w = elim (dec_le p q) [
      | yes h ↦ absurd (omega (arith, mul-le-mul_right b h))
      | no h ↦ let next : suc q ≤ p = omega arith in omega (arith, mul-le-mul_right b next)
    ]
