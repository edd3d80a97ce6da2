-- ===== src/Prelude/Split.antt =====
-- `str::split_once`, `str::split` and `str::strip_suffix`, on code points.
use Prim.Native.Nat.{ℕ}
use mathlib.Core.Path.{◌≡◌, refl}
use mathlib.Core.Bool.{Bool, true, not}
use mathlib.Core.Option.{Option, none, some}
use mathlib.Core.List.{List, [], ◌∷◌, ◌++◌, reverse, reverse-append, reverse-reverse}
use native.Mathlib.Omega.{arith}
use tapio.Prelude.Tests.{◌==◌, if◌then◌else◌, and_then}
use tapio.Prelude.Lists.{all}

-- Puts a character before the first part.
abbrev push_front : ℕ → Option (List ℕ × List ℕ) → Option (List ℕ × List ℕ)
push_front c none = none
push_front c (some (front, back)) = some (c ∷ front, back)

unfoldable pub split_once : ℕ → List ℕ → Option (List ℕ × List ℕ)
split_once mark [] = none
split_once mark (c ∷ cs) =
    let rest = split_once mark cs in if c == mark then some ([], cs) else push_front c rest

abbrev pub extend_first : ℕ → List (List ℕ) → List (List ℕ)
extend_first c [] = (c ∷ []) ∷ []
extend_first c (part ∷ parts) = (c ∷ part) ∷ parts

unfoldable pub split : ℕ → List ℕ → List (List ℕ)
split mark [] = [] ∷ []
split mark (c ∷ cs) =
    let parts = split mark cs in if c == mark then [] ∷ parts else extend_first c parts

unfoldable pub strip_prefix : List ℕ → List ℕ → Option (List ℕ)
strip_prefix [] cs = some cs
strip_prefix (p ∷ ps) [] = none
strip_prefix (p ∷ ps) (c ∷ cs) = let rest = strip_prefix ps cs in if p == c then rest else none

unfoldable pub strip_suffix : List ℕ → List ℕ → Option (List ℕ)
unfolding strip_prefix
strip_suffix suffix cs =
    and_then (strip_prefix (reverse suffix) (reverse cs)) (λ rest. some (reverse rest))

-- No character of the text is the mark.
abbrev pub free : ℕ → List ℕ → Bool
free mark cs = all (λ c. not (c == mark)) cs

pub free-append :
    (mark : ℕ) (xs ys : List ℕ)
    → free mark xs ≡ true
    → free mark ys ≡ true
    → free mark (xs ++ ys) ≡ true
free-append mark [] ys h k = k
free-append mark (x ∷ xs) ys h k = ground (arith, free-append mark xs ys)

pub split_once-append :
    (mark : ℕ) (xs ys : List ℕ)
    → free mark xs ≡ true
    → split_once mark (xs ++ mark ∷ ys) ≡ some (xs, ys)
unfolding split_once
split_once-append mark [] ys h = ground arith
split_once-append mark (x ∷ xs) ys h = ground (arith, split_once-append mark xs ys)

pub split_once-free : (mark : ℕ) (xs : List ℕ) → free mark xs ≡ true → split_once mark xs ≡ none
unfolding split_once
split_once-free mark [] h = refl
split_once-free mark (x ∷ xs) h = ground (arith, split_once-free mark xs)

pub split-append :
    (mark : ℕ) (xs ys : List ℕ)
    → free mark xs ≡ true
    → split mark (xs ++ mark ∷ ys) ≡ xs ∷ split mark ys
unfolding split
split-append mark [] ys h = ground arith
split-append mark (x ∷ xs) ys h = ground (arith, split-append mark xs ys)

pub split-free : (mark : ℕ) (xs : List ℕ) → free mark xs ≡ true → split mark xs ≡ xs ∷ []
unfolding split
split-free mark [] h = refl
split-free mark (x ∷ xs) h = ground (arith, split-free mark xs)

strip_prefix-append : (ps cs : List ℕ) → strip_prefix ps (ps ++ cs) ≡ some cs
unfolding strip_prefix
strip_prefix-append [] cs = refl
strip_prefix-append (p ∷ ps) cs = ground (arith, strip_prefix-append ps cs)

pub strip_suffix-append : (suffix cs : List ℕ) → strip_suffix suffix (cs ++ suffix) ≡ some cs
unfolding strip_suffix
strip_suffix-append suffix cs =
    rw
      (
        reverse-append cs suffix,
        strip_prefix-append (reverse suffix) (reverse cs),
        reverse-reverse cs,
      )
      refl
