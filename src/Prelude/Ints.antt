-- ===== src/Prelude/Ints.antt =====
-- Whole numbers with a sign, as Go's int where no size matters.
use dns_stack.Prelude.Tests.{ltb}
use Prim.Native.Nat.{ℕ, ◌+◌}
use mathlib.Core.Bool.{Bool, true}

pub data ℤ : Type 0 where
  pos : ℕ → ℤ
  negsuc : ℕ → ℤ

-- `z < 0 || z > n`
unfoldable pub outside : ℤ → ℕ → Bool
outside (pos z) n = ltb n z
outside (negsuc z) n = true

-- The number, for one that is not below 0.
unfoldable pub magnitude : ℤ → ℕ
magnitude (pos z) = z
magnitude (negsuc z) = z + 1
