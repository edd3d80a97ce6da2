-- ===== src/Prelude/Text.antt =====
-- Texts: whole ones are compared, walked ones are read as code points or as UTF-8 bytes.
use Prim.Native.Char.{code}
use Prim.Native.Nat.{ℕ, ◌+◌, ◌/◌, ◌%◌}
use Prim.Native.String.{String}
use mathlib.Core.Bool.{Bool, ◌&&◌, ◌||◌}
use mathlib.Core.List.{List, [], ◌∷◌, ◌++◌, reverse}
use tapio.Prelude.Tests.{ltb, leb, ◌==◌, if◌then◌else◌}
use tapio.Prelude.Lists.{is_empty, all}
use native.Mathlib.Omega.{arith}
use mathlib.Core.Path.{◌≡◌, refl}
use mathlib.Core.List.{reverse-cons}

abbrev pub codes : String → List ℕ
codes String.[] = []
codes (String.◌∷◌ c s) = code c ∷ codes s

-- The UTF-8 bytes of one code point.
abbrev pub encode_utf8 : ℕ → List ℕ
encode_utf8 c =
    if ltb c 0x80
    then c ∷ []
    else if ltb c 0x800
    then (0xc0 + c / 64) ∷ (0x80 + c % 64) ∷ []
    else if ltb c 0x10000
    then (0xe0 + c / 4096) ∷ (0x80 + c / 64 % 64) ∷ (0x80 + c % 64) ∷ []
    else (0xf0 + c / 262144) ∷ (0x80 + c / 4096 % 64) ∷ (0x80 + c / 64 % 64) ∷ (0x80 + c % 64) ∷ []

abbrev pub bytes_of : List ℕ → List ℕ
bytes_of [] = []
bytes_of (c ∷ cs) = encode_utf8 c ++ bytes_of cs

-- `str::as_bytes`.
abbrev pub as_bytes : String → List ℕ
as_bytes s = bytes_of (codes s)

-- `char::is_whitespace`: the Unicode property White_Space.
unfoldable pub is_whitespace : ℕ → Bool
is_whitespace c =
    leb 9 c && leb c 13
    || c == 0x20
    || c == 0x85
    || c == 0xa0
    || c == 0x1680
    || leb 0x2000 c && leb c 0x200a
    || c == 0x2028
    || c == 0x2029
    || c == 0x202f
    || c == 0x205f
    || c == 0x3000

unfoldable pub trim_start : List ℕ → List ℕ
trim_start [] = []
trim_start (c ∷ cs) = if is_whitespace c then trim_start cs else c ∷ cs

-- `str::trim`, on the code points.
unfoldable pub trim : List ℕ → List ℕ
trim cs = reverse (trim_start (reverse (trim_start cs)))

-- `value.trim().is_empty()`.
unfoldable pub is_blank : String → Bool
is_blank s = is_empty (trim (codes s))

is_empty-append : (cs ds : List ℕ) → is_empty (cs ++ ds) ≡ (is_empty cs && is_empty ds)
is_empty-append [] ds = refl
is_empty-append (c ∷ cs) ds = refl

is_empty-reverse : (cs : List ℕ) → is_empty (reverse cs) ≡ is_empty cs
is_empty-reverse [] = refl
is_empty-reverse (c ∷ cs) = rw reverse-cons (ground (arith, is_empty-append (reverse cs) (c ∷ [])))

trim_start-append :
    (cs ds : List ℕ)
    → is_empty (trim_start (cs ++ ds)) ≡ (is_empty (trim_start cs) && is_empty (trim_start ds))
unfolding trim_start
trim_start-append [] ds = refl
trim_start-append (c ∷ cs) ds = ground (arith, trim_start-append cs ds)

trim_start-reverse : (cs : List ℕ) → is_empty (trim_start (reverse cs)) ≡ all is_whitespace cs
trim_start-reverse [] = unfold trim_start in refl
trim_start-reverse (c ∷ cs) =
    rw (reverse-cons, trim_start-append, trim_start-reverse cs) (unfold trim_start in ground arith)

all-trim_start : (cs : List ℕ) → all is_whitespace (trim_start cs) ≡ all is_whitespace cs
unfolding trim_start
all-trim_start [] = refl
all-trim_start (c ∷ cs) = ground (arith, all-trim_start cs)

-- A text is blank when all its characters are white space.
pub is_blank-all : (s : String) → is_blank s ≡ all is_whitespace (codes s)
is_blank-all s =
    unfold is_blank trim in rw (is_empty-reverse, trim_start-reverse) (all-trim_start (codes s))
