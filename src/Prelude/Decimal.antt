-- ===== src/Prelude/Decimal.antt =====
-- `to_string` of an integer.
use Prim.Native.Nat.{ℕ, zero, suc, ◌+◌, ◌/◌, ◌%◌}
use Prim.Native.String.{String, ◌++◌}
use mathlib.Core.Path.{◌≡◌, refl}
use mathlib.Core.Logic.{inl, inr}
use mathlib.Core.Bool.{false}
use native.Mathlib.Omega.{arith}
use text.Mathlib.TextLemmas.{nil-append, cons-append}
use tapio.Prelude.Lists.{all}
use tapio.Prelude.Text.{codes, is_whitespace, is_blank, is_blank-all}
use tapio.Prelude.Tests.{Bool-cases, ltb, if◌then◌else◌}
use tapio.Prelude.Int.{ℤ, pos, negsuc}

abbrev pub digit : ℕ → String
digit zero = "0"
digit (suc zero) = "1"
digit (suc (suc zero)) = "2"
digit (suc (suc (suc zero))) = "3"
digit (suc (suc (suc (suc zero)))) = "4"
digit (suc (suc (suc (suc (suc zero))))) = "5"
digit (suc (suc (suc (suc (suc (suc zero)))))) = "6"
digit (suc (suc (suc (suc (suc (suc (suc zero))))))) = "7"
digit (suc (suc (suc (suc (suc (suc (suc (suc zero)))))))) = "8"
digit (suc (suc (suc (suc (suc (suc (suc (suc (suc n))))))))) = "9"

-- At most as many digits as the fuel: twenty print every number below 10 ^ 20, so every u64.
unfoldable pub decimal : ℕ → ℕ → String
decimal zero n = ""
decimal (suc fuel) n =
    let front = decimal fuel (n / 10) in if ltb n 10 then digit n else front ++ digit (n % 10)

unfoldable pub to_string : ℕ → String
unfolding decimal
to_string n = decimal 20 n

unfoldable pub to_string_i32 : ℤ → String
unfolding to_string
to_string_i32 (pos n) = to_string n
to_string_i32 (negsuc n) = "-" ++ to_string (n + 1)

digit_solid : (d : ℕ) → all is_whitespace (codes (digit d)) ≡ false
unfolding is_whitespace
digit_solid zero = refl
digit_solid (suc zero) = refl
digit_solid (suc (suc zero)) = refl
digit_solid (suc (suc (suc zero))) = refl
digit_solid (suc (suc (suc (suc zero)))) = refl
digit_solid (suc (suc (suc (suc (suc zero))))) = refl
digit_solid (suc (suc (suc (suc (suc (suc zero)))))) = refl
digit_solid (suc (suc (suc (suc (suc (suc (suc zero))))))) = refl
digit_solid (suc (suc (suc (suc (suc (suc (suc (suc zero)))))))) = refl
digit_solid (suc (suc (suc (suc (suc (suc (suc (suc (suc n))))))))) = refl

all-append :
    (s t : String)
    → all is_whitespace (codes t) ≡ false
    → all is_whitespace (codes (s ++ t)) ≡ false
all-append String.[] t h = rw (nil-append t) h
all-append (String.◌∷◌ c s) t h = rw (cons-append c s t) (ground (arith, all-append s t h))

decimal_solid : (fuel n : ℕ) → all is_whitespace (codes (decimal (suc fuel) n)) ≡ false
decimal_solid fuel n = elim (Bool-cases (ltb n 10)) [
  | inl small ↦ unfold decimal in rw small (digit_solid n)
  | inr large ↦
      unfold decimal in
      rw large (all-append (decimal fuel (n / 10)) (digit (n % 10)) (digit_solid (n % 10)))
]

-- No decimal is blank.
pub is_blank-to_string : (n : ℕ) → is_blank (to_string n) ≡ false
is_blank-to_string n = rw (is_blank-all (to_string n)) (unfold to_string in decimal_solid 19 n)
