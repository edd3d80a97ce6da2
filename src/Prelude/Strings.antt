-- ===== src/Prelude/Strings.antt =====
-- `str::split`, `str::split_once` and `str::trim` on texts, and the comparison of walked texts.
use Prim.Native.Char.{code}
use Prim.Native.Nat.{ℕ}
use Prim.Native.String.{String}
use mathlib.Core.Bool.{Bool, true, false, ◌&&◌}
use mathlib.Core.Option.{Option, none, some}
use mathlib.Core.List.{List, [], ◌∷◌}
use tapio.Prelude.Tests.{and_then, ◌==◌, if◌then◌else◌}
use tapio.Prelude.Text.{codes, trim}

abbrev in_front : String → List String → List String
in_front c [] = c ∷ []
in_front c (word ∷ words) = Prim.Native.String.◌++◌ c word ∷ words

abbrev one_char : Prim.Native.Char.Char → String
one_char c = String.◌∷◌ c String.[]

-- The parts between the separators; one part if there is none.
unfoldable pub split : ℕ → String → List String
split separator String.[] = "" ∷ []
split separator (String.◌∷◌ c s) =
    let rest = split separator s in
    if code c == separator then "" ∷ rest else in_front (one_char c) rest

-- Before and after the first separator.
unfoldable pub split_once : ℕ → String → Option (String × String)
split_once separator String.[] = none
split_once separator (String.◌∷◌ c s) =
    let rest = split_once separator s in
    if code c == separator
    then some ("", s)
    else and_then rest
        (λ (before, after). some (Prim.Native.String.◌++◌ (one_char c) before, after))

abbrev pub codes_eq : List ℕ → List ℕ → Bool
codes_eq [] [] = true
codes_eq [] (d ∷ ds) = false
codes_eq (c ∷ cs) [] = false
codes_eq (c ∷ cs) (d ∷ ds) = c == d && codes_eq cs ds

-- `value.trim() == text`.
unfoldable pub trimmed_eq : String → String → Bool
trimmed_eq value text = codes_eq (trim (codes value)) (codes text)
