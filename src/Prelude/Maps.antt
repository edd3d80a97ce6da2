-- ===== src/Prelude/Maps.antt =====
-- `BTreeMap<String, V>`: an association list in the order of its keys.
use Prim.Native.String.{String, compare}
use mathlib.Core.Path.{◌≡◌, refl}
use mathlib.Core.Option.{Option, none, some}
use mathlib.Core.List.{List, [], ◌∷◌}
use native.Mathlib.Omega.{arith}
use text.Mathlib.Text.{◌==◌, is_lt}
use text.Mathlib.TextEquality.{eq_iff}
use text.Mathlib.TextPositions.{eq_refl}
use tapio.Prelude.Tests.{if◌then◌else◌}

abbrev pub Map {ℓ} : Type ℓ → Type ℓ
Map V = List (String × V)

abbrev pub keys {ℓ} : {V : Type ℓ} → Map V → List String
keys [] = []
keys ((k, v) ∷ m) = k ∷ keys m

module _ {ℓ} {V : Type ℓ} where
  unfoldable pub lookup : String → Map V → Option V
  lookup key [] = none
  lookup key ((found, value) ∷ rest) = if found == key then some value else lookup key rest

  -- An entry under the key is replaced; a new one goes before the first greater key.
  unfoldable pub insert : String → V → Map V → Map V
  insert key value [] = (key, value) ∷ []
  insert key value ((found, old) ∷ rest) =
      if found == key
      then (key, value) ∷ rest
      else if is_lt (compare key found)
      then (key, value) ∷ (found, old) ∷ rest
      else (found, old) ∷ insert key value rest

  pub lookup-insert :
      (key wanted : String) (value : V) (entries : Map V)
      → lookup wanted (insert key value entries)
        ≡ (if key == wanted then some value else lookup wanted entries)
  unfolding insert lookup
  lookup-insert key wanted value [] = refl
  lookup-insert key wanted value ((found, old) ∷ rest) = ground (
    arith,
    lookup-insert key wanted value rest,
    eq_iff key wanted,
    eq_iff found key,
    eq_iff found wanted,
  )

  pub lookup-insert_self :
      (key : String) (value : V) (entries : Map V)
      → lookup key (insert key value entries) ≡ some value
  lookup-insert_self key value entries = simp (eq_refl, lookup-insert)
