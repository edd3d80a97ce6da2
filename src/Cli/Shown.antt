-- ===== src/Cli/Shown.antt =====
-- What `recent` shows: the newest occurrences of the window, each as often as it was there.
use mathlib.Core.List.{Perm}
use mathlib.Core.List.Perm
use mathlib.Core.Path.{subst}
use Prim.Native.Nat.{min}
use mathlib.Core.List.{append-nil, perm_middle}
use tapio.Prelude.{
  ℕ, zero, suc, ◌+◌, ◌≡◌, refl, ap, sym, All, none, some, true, false, List, [], ◌∷◌, ◌++◌, Option,
  length, arith, Bool-cases, inl, inr,
}
use tapio.Observer.Occurrence.{Occurrence}
use tapio.Cli.Health.{is_greater}
use tapio.Cli.Recent.{place, sort_descending, take, shown, within_window, recent}

is_greater_asymm : (a b : List ℕ) → is_greater a b ≡ true → is_greater b a ≡ false
unfolding is_greater
is_greater_asymm [] b h = cc
is_greater_asymm (x ∷ a) [] h = refl
is_greater_asymm (x ∷ a) (y ∷ b) h = ground (arith, is_greater_asymm a b)

place-perm : (occ : Occurrence) (occs : List Occurrence) → Perm (place occ occs) (occ ∷ occs)
unfolding place
place-perm occ [] = Perm.refl _
place-perm occ (o ∷ occs) =
    elim (Bool-cases (is_greater (Occurrence.timestamp o) (Occurrence.timestamp occ))) [
      | inl newer ↦ rw newer (Perm.trans (Perm.cons o (place-perm occ occs)) (Perm.swap occ o occs))
      | inr older ↦ rw older (Perm.refl _)
    ]

sort_descending-perm : (occs : List Occurrence) → Perm (sort_descending occs) occs
unfolding sort_descending
sort_descending-perm [] = Perm.refl _
sort_descending-perm (occ ∷ occs) =
    Perm.trans (place-perm occ _) (Perm.cons occ (sort_descending-perm occs))

is_greater_trans :
    (a b c : List ℕ) → is_greater b a ≡ false → is_greater c b ≡ false → is_greater c a ≡ false
unfolding is_greater
is_greater_trans a b [] h k = refl
is_greater_trans a [] (z ∷ c) h k = cc
is_greater_trans [] (y ∷ b) (z ∷ c) h k = cc
is_greater_trans (x ∷ a) (y ∷ b) (z ∷ c) h k = ground (arith, is_greater_trans a b c)

abbrev AreNotNewer : Occurrence → List Occurrence → Type 0
AreNotNewer occ occs =
    All (λ o. is_greater (Occurrence.timestamp o) (Occurrence.timestamp occ) ≡ false) occs

-- No occurrence is newer than one before it.
abbrev pub IsDescending : List Occurrence → Type 0
IsDescending [] = Unit
IsDescending (occ ∷ occs) = AreNotNewer occ occs × IsDescending occs

AreNotNewer-trans :
    (a b : Occurrence) (occs : List Occurrence)
    → is_greater b.timestamp a.timestamp ≡ false
    → AreNotNewer b occs
    → AreNotNewer a occs
AreNotNewer-trans a b [] h k = tt
AreNotNewer-trans a b (o ∷ occs) h k =
    (is_greater_trans a.timestamp b.timestamp o.timestamp h k.0, AreNotNewer-trans a b occs h k.1)

AreNotNewer-place :
    (a occ : Occurrence) (occs : List Occurrence)
    → is_greater occ.timestamp a.timestamp ≡ false
    → AreNotNewer a occs
    → AreNotNewer a (place occ occs)
unfolding place
AreNotNewer-place a occ [] h k = (h, tt)
AreNotNewer-place a occ (o ∷ occs) h k =
    elim (Bool-cases (is_greater (Occurrence.timestamp o) (Occurrence.timestamp occ))) [
      | inl newer ↦ rw newer (k.0, AreNotNewer-place a occ occs h k.1)
      | inr older ↦ rw older (h, k)
    ]

place-IsDescending :
    (occ : Occurrence) (occs : List Occurrence) → IsDescending occs → IsDescending (place occ occs)
unfolding place
place-IsDescending occ [] d = (tt, tt)
place-IsDescending occ (o ∷ occs) d =
    elim (Bool-cases (is_greater (Occurrence.timestamp o) (Occurrence.timestamp occ))) [
      | inl newer ↦ rw newer (
        AreNotNewer-place o occ occs (is_greater_asymm o.timestamp occ.timestamp newer) d.0,
        place-IsDescending occ occs d.1,
      )
      | inr older ↦ rw older ((older, AreNotNewer-trans occ o occs older d.0), d)
    ]

sort_descending-IsDescending : (occs : List Occurrence) → IsDescending (sort_descending occs)
unfolding sort_descending
sort_descending-IsDescending [] = tt
sort_descending-IsDescending (occ ∷ occs) =
    place-IsDescending occ _ (sort_descending-IsDescending occs)

length-place :
    (occ : Occurrence) (occs : List Occurrence) → length (place occ occs) ≡ length occs + 1
unfolding place
length-place occ [] = omega arith
length-place occ (o ∷ occs) = ground (arith, length-place occ occs)

length-sort_descending : (occs : List Occurrence) → length (sort_descending occs) ≡ length occs
unfolding sort_descending
length-sort_descending [] = refl
length-sort_descending (occ ∷ occs) =
    omega (arith, length-place occ (sort_descending occs), length-sort_descending occs)

abbrev drop : ℕ → List Occurrence → List Occurrence
drop zero occs = occs
drop (suc n) [] = []
drop (suc n) (occ ∷ occs) = drop n occs

take-drop : (n : ℕ) (occs : List Occurrence) → take n occs ++ drop n occs ≡ occs
take-drop zero occs = refl
take-drop (suc n) [] = refl
take-drop (suc n) (occ ∷ occs) = ap (λ rest. occ ∷ rest) (take-drop n occs)

length-take : (n : ℕ) (occs : List Occurrence) → length (take n occs) ≡ min n (length occs)
length-take zero occs = omega arith
length-take (suc n) [] = omega arith
length-take (suc n) (occ ∷ occs) = omega (arith, length-take n occs)

-- An occurrence within the window, and one before it, by the order of the texts.
abbrev pub IsWithin : Option (List ℕ) → Occurrence → Type 0
IsWithin none o = Unit
IsWithin (some cutoff) o = is_greater cutoff o.timestamp ≡ false

abbrev pub IsBefore : Option (List ℕ) → Occurrence → Type 0
IsBefore none o = ⊥
IsBefore (some cutoff) o = is_greater cutoff o.timestamp ≡ true

-- What the window leaves out, and what it keeps.
abbrev Windowed : Option (List ℕ) → List Occurrence → List Occurrence → Type 0
Windowed cutoff kept occs =
    (older : List Occurrence) × Perm (kept ++ older) occs
    × All (IsBefore cutoff) older
    × All (IsWithin cutoff) kept

all-IsWithin : (occs : List Occurrence) → All (IsWithin none) occs
all-IsWithin [] = tt
all-IsWithin (o ∷ occs) = (tt, all-IsWithin occs)

within_window-Windowed :
    (cutoff : Option (List ℕ)) (occs : List Occurrence)
    → Windowed cutoff (within_window cutoff occs) occs
within_window-Windowed none occs =
    ([], subst (λ l. Perm l occs) (sym (append-nil occs)) (Perm.refl _), tt, all-IsWithin occs)
within_window-Windowed (some cutoff) [] = ([], Perm.refl _, tt, tt)
within_window-Windowed (some cutoff) (o ∷ occs) =
    let (older, perm, before, within) = within_window-Windowed (some cutoff) occs in
    elim (Bool-cases (is_greater cutoff (Occurrence.timestamp o))) [
      | inl out ↦
          rw out
            (o ∷ older, Perm.trans (perm_middle _ older) (Perm.cons o perm), (out, before), within)
      | inr inside ↦ rw inside (older, Perm.cons o perm, before, (inside, within))
    ]

module _ (P : Occurrence → Type 0) where
  All-place :
      (occ : Occurrence) (occs : List Occurrence) → P occ → All P occs → All P (place occ occs)
  unfolding place
  All-place occ [] p all_occs = (p, tt)
  All-place occ (o ∷ occs) p all_occs =
      elim (Bool-cases (is_greater (Occurrence.timestamp o) (Occurrence.timestamp occ))) [
        | inl newer ↦ rw newer (all_occs.0, All-place occ occs p all_occs.1)
        | inr older ↦ rw older (p, all_occs)
      ]

  All-sort_descending : (occs : List Occurrence) → All P occs → All P (sort_descending occs)
  unfolding sort_descending
  All-sort_descending [] all_occs = tt
  All-sort_descending (occ ∷ occs) all_occs =
      All-place occ _ all_occs.0 (All-sort_descending occs all_occs.1)

-- The command recent shows the first occurrences of its window by descending timestamp text: with
-- some left out they are exactly the occurrences whose timestamp is not before the cutoff, all of
-- them if there is none, no timestamp's text is before one after it, those left out come last, and
-- twenty are shown, or all if there are fewer.
pub recent-newest :
    (cutoff : Option (List ℕ)) (occs : List Occurrence)
    → (left_out older : List Occurrence) × Perm ((recent cutoff occs ++ left_out) ++ older) occs
      × All (IsBefore cutoff) older
      × All (IsWithin cutoff) (recent cutoff occs ++ left_out)
      × IsDescending (recent cutoff occs ++ left_out)
      × (length (recent cutoff occs) ≡ min 20 (length (recent cutoff occs ++ left_out)))
unfolding recent
recent-newest cutoff occs =
    let window = within_window cutoff occs in
    let sorted = sort_descending window in
    let whole : take shown sorted ++ drop shown sorted ≡ sorted = take-drop shown sorted in
    let (older, perm, before, within) = within_window-Windowed cutoff occs in
    (
      drop shown sorted,
      older,
      subst (λ l. Perm (l ++ older) occs) (sym whole)
          (Perm.trans (Perm.append_right older (sort_descending-perm window)) perm),
      before,
      subst (All (IsWithin cutoff)) (sym whole)
          (All-sort_descending (IsWithin cutoff) window within),
      subst IsDescending (sym whole) (sort_descending-IsDescending window),
      omega (arith, length-take shown sorted, ap length whole),
    )
