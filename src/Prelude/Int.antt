-- ===== src/Prelude/Int.antt =====
-- Signed integers over the native numbers.
use Prim.Native.Nat.{ℕ}
use mathlib.Core.Bool.{Bool, false}
use tapio.Prelude.Tests.{◌==◌}

-- `negsuc n` is -(n + 1).
pub data ℤ : Type 0 where
  pos : ℕ → ℤ
  negsuc : ℕ → ℤ

abbrev pub is_zero : ℤ → Bool
is_zero (pos n) = n == 0
is_zero (negsuc n) = false
