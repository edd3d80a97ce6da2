-- ===== src/Prelude/Utf8.antt =====
-- `std::str::from_utf8`: a text of well-formed UTF-8, without overlong forms and surrogates.
use Prim.Native.Nat.{ℕ, zero, suc, ◌+◌, ◌-◌, ◌*◌, ◌<◌, compare, Ordering}
use Prim.Native.Char.{Char, char, code, IsLt}
use Prim.Native.String.{String}
use mathlib.Core.Bool.{Bool, true, false, ◌&&◌}
use mathlib.Core.Option.{Option, none, some}
use mathlib.Core.List.{List, [], ◌∷◌}
use tapio.Prelude.Tests.{ltb, leb, if◌then◌else◌, and_then}
use tapio.Prelude.Lists.{length, all}
use tapio.Prelude.Text.{codes}
use mathlib.Core.Path.{◌≡◌, refl}
use native.Mathlib.Omega.{arith}

-- The condition on a character's number, for the three comparisons that decide it.
abbrev BothLt : Ordering → Ordering → Type 0
BothLt Ordering.lt o = IsLt o
BothLt Ordering.eq o = ⊥
BothLt Ordering.gt o = ⊥

abbrev LtOrBothLt : Ordering → Ordering → Ordering → Type 0
LtOrBothLt Ordering.lt o p = Unit
LtOrBothLt Ordering.eq o p = BothLt o p
LtOrBothLt Ordering.gt o p = BothLt o p

abbrev decide_both : (o p : Ordering) → Option (BothLt o p)
decide_both Ordering.lt Ordering.lt = some tt
decide_both o p = none

abbrev decide : (o p q : Ordering) → Option (LtOrBothLt o p q)
decide Ordering.lt p q = some tt
decide Ordering.eq p q = decide_both p q
decide Ordering.gt p q = decide_both p q

-- `char::from_u32`.
unfoldable pub from_u32 : ℕ → Option Char
from_u32 n =
    and_then (decide (compare n 55296) (compare 57343 n) (compare n 1114112)) (λ p. some (char n p))

abbrev continues : ℕ → Bool
continues b = leb 0x80 b && leb b 0xbf

-- A character of at least the least number for its length, and the bytes after it.
abbrev accept : Bool → ℕ → ℕ → List ℕ → Option (Char × List ℕ)
accept false least n rest = none
accept true least n rest = if ltb n least then none else and_then (from_u32 n) (λ c. some (c, rest))

abbrev second : ℕ → List ℕ → Option (Char × List ℕ)
second a [] = none
second a (b ∷ rest) = accept (continues b) 0x80 ((a - 0xc0) * 64 + (b - 0x80)) rest

abbrev third : ℕ → List ℕ → Option (Char × List ℕ)
third a (b ∷ c ∷ rest) =
    accept (continues b && continues c) 0x800 (((a - 0xe0) * 64 + (b - 0x80)) * 64 + (c - 0x80))
      rest
third a rest = none

abbrev fourth : ℕ → List ℕ → Option (Char × List ℕ)
fourth a (b ∷ c ∷ d ∷ rest) =
    accept (continues b && continues c && continues d) 0x10000
      ((((a - 0xf0) * 64 + (b - 0x80)) * 64 + (c - 0x80)) * 64 + (d - 0x80)) rest
fourth a rest = none

unfoldable pub first_char : List ℕ → Option (Char × List ℕ)
unfolding from_u32
first_char [] = none
first_char (a ∷ rest) =
    if ltb a 0x80
    then accept true 0 a rest
    else if leb 0xc0 a && leb a 0xdf
    then second a rest
    else if leb 0xe0 a && leb a 0xef
    then third a rest
    else if leb 0xf0 a && leb a 0xf7
    then fourth a rest
    else none

-- At most as many characters as bytes.
unfoldable pub decode_utf8 : ℕ → List ℕ → Option String
unfolding first_char
decode_utf8 fuel [] = some String.[]
decode_utf8 zero (b ∷ bs) = none
decode_utf8 (suc fuel) (b ∷ bs) =
    and_then (first_char (b ∷ bs))
      (λ (c, rest). and_then (decode_utf8 fuel rest) (λ s. some (String.◌∷◌ c s)))

unfoldable pub from_utf8 : List ℕ → Option String
unfolding decode_utf8
from_utf8 bytes = decode_utf8 (length bytes) bytes

abbrev pub is_ascii : ℕ → Bool
is_ascii b = ltb b 0x80

decide-lt : (o p q : Ordering) → o ≡ Ordering.lt → (w : LtOrBothLt o p q) × (decide o p q ≡ some w)
decide-lt Ordering.lt p q h = (tt, refl)
decide-lt Ordering.eq p q h = cc
decide-lt Ordering.gt p q h = cc

from_u32-small : (n : ℕ) → n < 55296 → (c : Char) × (from_u32 n ≡ some c) × (code c ≡ n)
unfolding from_u32
from_u32-small n h =
    let (w, decided) =
      decide-lt (compare n 55296) (compare 57343 n) (compare n 1114112) (ground arith) in
    (char n w, rw decided refl, refl)

first_char-ascii :
    (b : ℕ) (bs : List ℕ)
    → is_ascii b ≡ true
    → (c : Char) × (first_char (b ∷ bs) ≡ some (c, bs)) × (code c ≡ b)
unfolding first_char
first_char-ascii b bs h =
    let (c, found, same) = from_u32-small b (ground arith) in (c, ground (arith, found), same)

decode_utf8-ascii :
    (bs : List ℕ)
    → all is_ascii bs ≡ true
    → (s : String) × (decode_utf8 (length bs) bs ≡ some s) × (codes s ≡ bs)
unfolding decode_utf8
decode_utf8-ascii [] h = ("", refl, refl)
decode_utf8-ascii (b ∷ bs) h =
    let (c, first, same) = first_char-ascii b bs (ground arith) in
    let (s, rest, copy) = decode_utf8-ascii bs (ground arith) in
    (String.◌∷◌ c s, rw (first, rest) refl, rw (same, copy) refl)

-- Bytes of ASCII are the text of these characters.
pub from_utf8-ascii :
    (bs : List ℕ) → all is_ascii bs ≡ true → (s : String) × (from_utf8 bs ≡ some s) × (codes s ≡ bs)
unfolding from_utf8
from_utf8-ascii bs h = decode_utf8-ascii bs h
