-- ===== src/Prelude/Padded.antt =====
-- `{n:0w}`: a decimal with zeros before it, and what the parsers make of it.
use Prim.Native.Nat.{ℕ, zero, suc, ◌+◌, ◌-◌, ◌*◌, ◌/◌, ◌%◌, ◌<◌, ◌≤◌, ◌^◌}
use mathlib.Core.Path.{◌≡◌, refl, ◌∙◌}
use mathlib.Core.Bool.{Bool, true, false, ◌&&◌}
use mathlib.Core.Option.{some}
use mathlib.Core.List.{List, [], ◌∷◌}
use native.Mathlib.Omega.{arith}
use tapio.Prelude.Tests.{leb, ltb, Bool-cases}
use tapio.Prelude.Lists.{length, length-append, is_empty}
use tapio.Prelude.Text.{codes}
use tapio.Prelude.Decimal.{to_string, decimal, digit}
use mathlib.Core.Logic.{inl, inr}
use tapio.Prelude.Parse.{
  parse_digits, push_digit, parse_u64, parse_i64, parse_codes-digits, parse_i64-digits,
  parse_digits-to_string, is_empty-to_string, bound, decimal-small, decimal-large, codes-digit,
  codes-append,
}
use tapio.Prelude.Split.{free}

abbrev zeros : ℕ → List ℕ → List ℕ
zeros zero cs = cs
zeros (suc n) cs = b'0' ∷ zeros n cs

unfoldable pub padded : ℕ → ℕ → List ℕ
padded width n = let ds = codes (to_string n) in zeros (width - length ds) ds

unfoldable pub is_digit : ℕ → Bool
is_digit c = leb b'0' c && leb c b'9'

zeros-value :
    (limit k : ℕ) (cs : List ℕ)
    → 0 < limit
    → parse_digits limit 0 (zeros k cs) ≡ parse_digits limit 0 cs
unfolding parse_digits push_digit
zeros-value limit zero cs h = refl
zeros-value limit (suc k) cs h = ground (arith, zeros-value limit k cs)

zeros_filled : (k : ℕ) (cs : List ℕ) → is_empty cs ≡ false → is_empty (zeros k cs) ≡ false
zeros_filled zero cs h = h
zeros_filled (suc k) cs h = refl

pub parse_digits-padded :
    (limit width n : ℕ) → n < limit → n < 2 ^ 64 → parse_digits limit 0 (padded width n) ≡ some n
unfolding padded
parse_digits-padded limit width n h k =
    zeros-value limit (width - length (codes (to_string n))) (codes (to_string n)) (omega arith)
    ∙ parse_digits-to_string limit n h k

is_empty-padded : (width n : ℕ) → is_empty (padded width n) ≡ false
unfolding padded
is_empty-padded width n =
    zeros_filled (width - length (codes (to_string n))) (codes (to_string n)) (is_empty-to_string n)

pub parse_u64-padded : (width n : ℕ) → n < 2 ^ 64 → parse_u64 (padded width n) ≡ some n
unfolding parse_u64
parse_u64-padded width n h =
    parse_codes-digits (2 ^ 64) (padded width n) n (is_empty-padded width n)
      (parse_digits-padded (2 ^ 64) width n h h)

pub parse_i64-padded : (width n : ℕ) → n < 2 ^ 63 → parse_i64 (padded width n) ≡ some n
parse_i64-padded width n h =
    parse_i64-digits (padded width n) n (is_empty-padded width n)
      (parse_digits-padded (2 ^ 63) width n h (omega arith))

-- What is read as digits is digits.
free-digits :
    (limit m n mark : ℕ) (cs : List ℕ)
    → is_digit mark ≡ false
    → parse_digits limit m cs ≡ some n
    → free mark cs ≡ true
unfolding parse_digits push_digit is_digit
free-digits limit m n mark [] h k = refl
free-digits limit m n mark (c ∷ cs) h k =
    ground (arith, free-digits limit (10 * m + (c - b'0')) n mark cs)

pub free-padded :
    (mark width n : ℕ) → is_digit mark ≡ false → n < 2 ^ 64 → free mark (padded width n) ≡ true
free-padded mark width n h k =
    free-digits (2 ^ 64) 0 n mark (padded width n) h (parse_digits-padded (2 ^ 64) width n k k)

pub free-to_string :
    (mark n : ℕ) → is_digit mark ≡ false → n < 2 ^ 64 → free mark (codes (to_string n)) ≡ true
free-to_string mark n h k =
    free-digits (2 ^ 64) 0 n mark (codes (to_string n)) h (parse_digits-to_string (2 ^ 64) n k k)

-- A number below 10 ^ k has at most k digits.
length-decimal : (fuel k n : ℕ) → n < bound (suc k) → length (codes (decimal fuel n)) ≤ suc k
length-decimal zero k n h = unfold decimal in omega arith
length-decimal (suc fuel) zero n h =
    rw (decimal-small fuel n (ground arith), codes-digit n (omega arith)) (omega arith)
length-decimal (suc fuel) (suc k) n h = elim (Bool-cases (ltb n 10)) [
  | inl small ↦ rw (decimal-small fuel n small, codes-digit n (ground arith)) (omega arith)
  | inr large ↦
      let front = length-decimal fuel k (n / 10) (omega arith) in
      rw
        (
          decimal-large fuel n large,
          codes-append (decimal fuel (n / 10)) (digit (n % 10)),
          codes-digit (n % 10) (omega arith),
          length-append (codes (decimal fuel (n / 10))) ((b'0' + n % 10) ∷ []),
        )
        (omega arith)
]

length-zeros : (k : ℕ) (cs : List ℕ) → length (zeros k cs) ≡ k + length cs
length-zeros zero cs = omega arith
length-zeros (suc k) cs = omega (arith, length-zeros k cs)

-- A number that fits its field fills it.
pub length-padded :
    (width n : ℕ) → n < bound (suc width) → length (padded (suc width) n) ≡ suc width
unfolding padded to_string
length-padded width n h =
    let digits = length-decimal 20 width n h in
    length-zeros (suc width - length (codes (decimal 20 n))) (codes (decimal 20 n)) ∙ (omega arith)
