-- ===== src/Prelude/Parse.antt =====
-- `str::parse` of an integer: an optional sign, then at least one digit, without overflow.
use Prim.Native.Nat.{ℕ, zero, suc, ◌+◌, ◌-◌, ◌*◌, ◌/◌, ◌%◌, ◌<◌, ◌^◌}
use Prim.Native.String.{String, ◌++◌ as append}
use mathlib.Core.Path.{◌≡◌, refl, ap, ◌∙◌}
use mathlib.Core.Bool.{true, false, ◌&&◌}
use mathlib.Core.Logic.{inl, inr}
use mathlib.Core.Option.{Option, none, some}
use mathlib.Core.List.{List, [], ◌∷◌, ◌++◌}
use native.Mathlib.Omega.{arith}
use text.Mathlib.TextLemmas.{nil-append, cons-append}
use tapio.Prelude.Tests.{ltb, leb, ◌==◌, if◌then◌else◌, and_then, Bool-cases}
use tapio.Prelude.Lists.{is_empty}
use tapio.Prelude.Words.{u64}
use tapio.Prelude.Text.{codes, is_blank-all}
use tapio.Prelude.Decimal.{digit, decimal, to_string, is_blank-to_string}

-- One more digit, if it is one and the number stays below the limit of the type.
unfoldable pub push_digit : ℕ → ℕ → ℕ → Option ℕ
push_digit limit n c =
    if leb b'0' c && leb c b'9' && ltb (10 * n + (c - b'0')) limit
    then some (10 * n + (c - b'0'))
    else none

unfoldable pub parse_digits : ℕ → ℕ → List ℕ → Option ℕ
unfolding push_digit
parse_digits limit n [] = some n
parse_digits limit n (c ∷ cs) = and_then (push_digit limit n c) (λ m. parse_digits limit m cs)

unfoldable pub parse_codes : ℕ → List ℕ → Option ℕ
unfolding parse_digits
parse_codes limit [] = none
parse_codes limit (c ∷ cs) =
    if c == b'+'
    then (if is_empty cs then none else parse_digits limit 0 cs)
    else parse_digits limit 0 (c ∷ cs)

unfoldable pub parse_u32 : String → Option ℕ
unfolding parse_codes
parse_u32 s = parse_codes (2 ^ 32) (codes s)

unfoldable pub parse_u64 : List ℕ → Option ℕ
unfolding parse_codes
parse_u64 cs = parse_codes (2 ^ 64) cs

-- `str::parse::<i64>`: a minus sign as well, and the result is a word in two's complement.
unfoldable pub parse_i64 : List ℕ → Option ℕ
unfolding parse_codes parse_digits
parse_i64 [] = none
parse_i64 (c ∷ cs) =
    if c == b'-'
    then (if is_empty cs
        then none
        else and_then (parse_digits (2 ^ 63 + 1) 0 cs) (λ n. some (u64 (2 ^ 64 - n))))
    else parse_codes (2 ^ 63) (c ∷ cs)

pub codes-append : (s t : String) → codes (append s t) ≡ codes s ++ codes t
codes-append String.[] t = rw (nil-append t)
codes-append (String.◌∷◌ c s) t = rw (cons-append c s t, codes-append s t)

parse_digits-append :
    (limit n : ℕ) (cs : List ℕ) (c : ℕ)
    → parse_digits limit n (cs ++ c ∷ [])
      ≡ and_then (parse_digits limit n cs) (λ m. push_digit limit m c)
unfolding parse_digits
parse_digits-append limit n [] c = ground arith
parse_digits-append limit n (d ∷ cs) c =
    ground (arith, parse_digits-append limit (10 * n + (d - b'0')) cs c)

pub codes-digit : (d : ℕ) → d < 10 → codes (digit d) ≡ (b'0' + d) ∷ []
codes-digit zero h = refl
codes-digit (suc zero) h = refl
codes-digit (suc (suc zero)) h = refl
codes-digit (suc (suc (suc zero))) h = refl
codes-digit (suc (suc (suc (suc zero)))) h = refl
codes-digit (suc (suc (suc (suc (suc zero))))) h = refl
codes-digit (suc (suc (suc (suc (suc (suc zero)))))) h = refl
codes-digit (suc (suc (suc (suc (suc (suc (suc zero))))))) h = refl
codes-digit (suc (suc (suc (suc (suc (suc (suc (suc zero)))))))) h = refl
codes-digit (suc (suc (suc (suc (suc (suc (suc (suc (suc zero))))))))) h = refl
codes-digit (suc (suc (suc (suc (suc (suc (suc (suc (suc (suc n)))))))))) h = ground arith

-- What so many digits can print.
abbrev pub bound : ℕ → ℕ
bound zero = 1
bound (suc fuel) = 10 * bound fuel

pub push-digit :
    (limit m d : ℕ)
    → d < 10
    → 10 * m + d < limit
    → push_digit limit m (b'0' + d) ≡ some (10 * m + d)
unfolding push_digit
push-digit limit m d h k = ground arith

pub decimal-small : (fuel n : ℕ) → ltb n 10 ≡ true → decimal (suc fuel) n ≡ digit n
decimal-small fuel n small = unfold decimal in rw small refl

pub decimal-large :
    (fuel n : ℕ)
    → ltb n 10 ≡ false
    → decimal (suc fuel) n ≡ append (decimal fuel (n / 10)) (digit (n % 10))
decimal-large fuel n large = unfold decimal in rw large refl

parse_digits-one :
    (limit n : ℕ) → n < 10 → n < limit → parse_digits limit 0 ((b'0' + n) ∷ []) ≡ some n
unfolding parse_digits
parse_digits-one limit n h k = ground (arith, push-digit limit 0 n h)

parse_digits-decimal :
    (limit fuel n : ℕ)
    → n < bound (suc fuel)
    → n < limit
    → parse_digits limit 0 (codes (decimal (suc fuel) n)) ≡ some n
parse_digits-decimal limit zero n b h =
    rw (decimal-small 0 n (ground arith), codes-digit n (ground arith))
      (parse_digits-one limit n (ground arith) h)
parse_digits-decimal limit (suc fuel) n b h =
    let back : 10 * (n / 10) + n % 10 ≡ n = omega arith in
    elim (Bool-cases (ltb n 10)) [
      | inl small ↦
          rw (decimal-small (suc fuel) n small, codes-digit n (ground arith))
            (parse_digits-one limit n (ground arith) h)
      | inr large ↦
          rw
            (
              decimal-large (suc fuel) n large,
              codes-append (decimal (suc fuel) (n / 10)) (digit (n % 10)),
              codes-digit (n % 10) (omega arith),
              parse_digits-append limit 0 (codes (decimal (suc fuel) (n / 10))) (b'0' + n % 10),
              parse_digits-decimal limit fuel (n / 10) (omega arith) (omega arith),
            )
            (push-digit limit (n / 10) (n % 10) (omega arith) (omega arith) ∙ ap some back)
    ]

pub parse_codes-digits :
    (limit : ℕ) (cs : List ℕ) (n : ℕ)
    → is_empty cs ≡ false
    → parse_digits limit 0 cs ≡ some n
    → parse_codes limit cs ≡ some n
unfolding parse_codes
parse_codes-digits limit [] n e p = cc
parse_codes-digits limit (c ∷ cs) n e p = ground arith

pub is_empty-to_string : (n : ℕ) → is_empty (codes (to_string n)) ≡ false
is_empty-to_string n = ground (arith, is_blank-all (to_string n), is_blank-to_string n)

-- The decimal of a number below the limit of its type has no digit too many.
pub parse_digits-to_string :
    (limit n : ℕ) → n < limit → n < 2 ^ 64 → parse_digits limit 0 (codes (to_string n)) ≡ some n
unfolding to_string
parse_digits-to_string limit n h k = parse_digits-decimal limit 19 n (omega arith) h

-- A number below 2 ^ 32 is read back from its decimal.
pub parse_u32-to_string : (n : ℕ) → n < 2 ^ 32 → parse_u32 (to_string n) ≡ some n
unfolding parse_u32
parse_u32-to_string n h =
    parse_codes-digits (2 ^ 32) (codes (to_string n)) n (is_empty-to_string n)
      (parse_digits-to_string (2 ^ 32) n h (omega arith))

-- Digits alone are read by the signed parser too, below 2 ^ 63.
pub parse_i64-digits :
    (cs : List ℕ) (n : ℕ)
    → is_empty cs ≡ false
    → parse_digits (2 ^ 63) 0 cs ≡ some n
    → parse_i64 cs ≡ some n
unfolding parse_i64 parse_digits push_digit parse_codes
parse_i64-digits [] n e p = cc
parse_i64-digits (c ∷ cs) n e p = ground arith
