-- ===== src/Prelude/Words.antt =====
-- Fixed-width unsigned arithmetic: `+` and `*` of a release build wrap, `saturating_add` does not.
use Prim.Native.Nat.{ℕ, ◌+◌, ◌-◌, ◌*◌, ◌%◌, ◌^◌, ◌≤◌, min}
use native.Mathlib.Omega.{arith}

abbrev pub u32 : ℕ → ℕ
u32 n = n % 2 ^ 32

abbrev pub u64 : ℕ → ℕ
u64 n = n % 2 ^ 64

abbrev pub u64_max : ℕ
u64_max = 2 ^ 64 - 1

abbrev pub saturating_add : ℕ → ℕ → ℕ
saturating_add a b = min (a + b) u64_max

abbrev pub saturating_mul : ℕ → ℕ → ℕ
saturating_mul a b = min (a * b) u64_max

pub saturating_add-le : (a b : ℕ) → saturating_add a b ≤ u64_max
saturating_add-le a b = omega arith
