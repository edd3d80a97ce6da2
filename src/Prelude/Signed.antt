-- ===== src/Prelude/Signed.antt =====
-- `i64` as a word in two's complement: a number below 2 ^ 64, negative from 2 ^ 63 on. The operations
-- wrap, as in a release build, and a division by a positive number rounds towards zero.
use Prim.Native.Nat.{ℕ, ◌+◌, ◌-◌, ◌*◌, ◌/◌, ◌^◌, ◌<◌, ◌≤◌}
use native.Mathlib.Omega.{arith}
use mathlib.Core.Path.{◌≡◌}
use mathlib.Core.Bool.{Bool, false}
use tapio.Prelude.Tests.{leb, if◌then◌else◌}
use tapio.Prelude.Words.{u64}

unfoldable pub is_negative : ℕ → Bool
is_negative a = leb (2 ^ 63) a

unfoldable pub add_i64 : ℕ → ℕ → ℕ
add_i64 a b = u64 (a + b)

unfoldable pub sub_i64 : ℕ → ℕ → ℕ
sub_i64 a b = u64 (a + 2 ^ 64 - b)

unfoldable pub mul_i64 : ℕ → ℕ → ℕ
mul_i64 a b = u64 (a * b)

unfoldable pub div_i64 : ℕ → ℕ → ℕ
unfolding is_negative
div_i64 a k = if is_negative a then u64 (2 ^ 64 - (2 ^ 64 - a) / k) else a / k

-- `a <= b`: the sign bits are exchanged before the words are compared.
unfoldable pub le_i64 : ℕ → ℕ → Bool
le_i64 a b = leb (u64 (a + 2 ^ 63)) (u64 (b + 2 ^ 63))

pub is_negative-plain : (a : ℕ) → a < 2 ^ 63 → is_negative a ≡ false
unfolding is_negative
is_negative-plain a h = ground arith

pub add_i64-plain : (a b : ℕ) → a + b < 2 ^ 63 → add_i64 a b ≡ a + b
unfolding add_i64
add_i64-plain a b h = omega arith

pub sub_i64-plain : (a b : ℕ) → b ≤ a → a < 2 ^ 63 → sub_i64 a b ≡ a - b
unfolding sub_i64
sub_i64-plain a b h k = omega arith

pub mul_i64-plain : (a b : ℕ) → a * b < 2 ^ 63 → mul_i64 a b ≡ a * b
unfolding mul_i64
mul_i64-plain a b h = omega arith

pub div_i64-plain : (a k : ℕ) → a < 2 ^ 63 → div_i64 a k ≡ a / k
unfolding div_i64
div_i64-plain a k h = ground arith

pub le_i64-plain : (a b : ℕ) → a < 2 ^ 63 → b < 2 ^ 63 → le_i64 a b ≡ leb a b
unfolding le_i64
le_i64-plain a b h k = ground arith
