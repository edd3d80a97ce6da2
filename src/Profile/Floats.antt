-- ===== src/Profile/Floats.antt =====
-- `f64`, which the proof checker does not have: its operations are a parameter, and what the
-- theorems need of IEEE 754 is stated as laws of finite numbers.
use tapio.Prelude.{
  ℕ, ◌*◌, ◌^◌, ◌≤◌, ◌<◌, ◌≡◌, Bool, true, false, String, arith, refl, ltb, leb, ◌/◌, ◌-◌,
}
use tapio.Prelude.Decimal.{to_string}
use Prim.Native.Nat.{min}

pub record FloatOps (F : Type 0) : Type 0 where
  pub is_finite : F → Bool
  pub lt : F → F → Bool
  pub le : F → F → Bool
  pub mul : F → F → F
  pub div : F → F → F
  pub round : F → F
  -- `as u32`, which saturates
  pub as_u32 : F → ℕ
  -- a whole literal, and `as f64`
  pub of_ℕ : ℕ → F
  pub show : F → String

pub record FloatLaws {F : Type 0} (f : FloatOps F) : Type 0 where
  pub le_of_not_lt :
      (a b : F) → f.is_finite a ≡ true → f.is_finite b ≡ true → f.lt b a ≡ false → f.le a b ≡ true
  pub finite-of_ℕ : (n : ℕ) → n < 2 ^ 53 → f.is_finite (f.of_ℕ n) ≡ true
  pub lt-of_ℕ : (a b : ℕ) → a < 2 ^ 53 → b < 2 ^ 53 → f.lt (f.of_ℕ a) (f.of_ℕ b) ≡ ltb a b
  pub mul_mono :
      (a b : F) (k : ℕ)
      → 0 < k
      → k < 2 ^ 53
      → f.le a b ≡ true
      → f.le (f.mul a (f.of_ℕ k)) (f.mul b (f.of_ℕ k)) ≡ true
  pub round_mono : (a b : F) → f.le a b ≡ true → f.le (f.round a) (f.round b) ≡ true
  pub as_u32_mono : (a b : F) → f.le a b ≡ true → f.as_u32 a ≤ f.as_u32 b
  pub mul-of_ℕ : (a b : ℕ) → a * b < 2 ^ 53 → f.mul (f.of_ℕ a) (f.of_ℕ b) ≡ f.of_ℕ (a * b)
  pub round-of_ℕ : (n : ℕ) → n < 2 ^ 53 → f.round (f.of_ℕ n) ≡ f.of_ℕ n
  pub as_u32-of_ℕ : (n : ℕ) → n < 2 ^ 32 → f.as_u32 (f.of_ℕ n) ≡ n

-- Whole numbers meet the laws.
instance abbrev pub whole : FloatOps ℕ
whole = record {
  is_finite = λ a. true;
  lt = ltb;
  le = leb;
  mul = λ a b. a * b;
  div = λ a b. a / b;
  round = λ a. a;
  as_u32 = λ a. min a (2 ^ 32 - 1);
  of_ℕ = λ n. n;
  show = to_string;
}

le_mul : (a b k : ℕ) → a ≤ b → a * k ≤ b * k
le_mul a b k h = grind arith

pub whole-laws : FloatLaws whole
whole-laws = record {
  le_of_not_lt = λ a b p q h. ground arith;
  finite-of_ℕ = λ n h. refl;
  lt-of_ℕ = λ a b p q. refl;
  mul_mono = λ a b k p q h. ground (arith, le_mul a b k);
  round_mono = λ a b h. h;
  as_u32_mono = λ a b h. ground arith;
  mul-of_ℕ = λ a b h. refl;
  round-of_ℕ = λ n h. refl;
  as_u32-of_ℕ = λ n h. omega arith;
}
