-- ===== src/Cli/Watch.antt =====
-- The rounds of `cmd_watch` of tapio-cli/src/main.rs, and what a file that was listed once can still do.
-- What a round finds is a parameter: the directory's entries, and what reading each of the files gives.
use text.Mathlib.Text.{◌==◌ as str_eq}
use text.Mathlib.TextEquality.{eq_iff}
use mathlib.Core.Path.{subst}
use tapio.Prelude.{
  ◌≡◌, refl, ap, sym, String, Bool, true, false, ◌||◌, List, [], ◌∷◌, ◌++◌, Option, none, some,
  if◌then◌else◌, any, map, keep, arith, Bool-cases, inl, inr,
}
use tapio.Observer.Occurrence.{Occurrence}
use tapio.Cli.Health.{matches_filter}
use tapio.Cli.Recent.{sort_ascending}

-- An entry of the directory: its name, whether that ends in .json, and what reading it gives now.
pub record Entry : Type 0 where
  pub file_name : String
  pub is_json : Bool
  pub occurrence : Option Occurrence

abbrev pub has_seen : String → List String → Bool
has_seen name seen = any (λ n. str_eq n name) seen

-- `HashSet::insert`: a name that is there is not put there again.
abbrev mark : String → List String → List String
mark name seen = if has_seen name seen then seen else name ∷ seen

abbrev read_new : Bool → Option Occurrence → List Occurrence
read_new true (some occ) = occ ∷ []
read_new true none = []
read_new false occ = []

abbrev found_in : Entry → List String → List Occurrence
found_in entry seen =
    if has_seen entry.file_name seen then [] else read_new entry.is_json entry.occurrence

-- The loop over the entries, where one that cannot be listed is left out: the names seen, and the new
-- occurrences.
unfoldable pub watch_entries : List String → List (Option Entry) → List String × List Occurrence
watch_entries seen [] = (seen, [])
watch_entries seen (none ∷ entries) = watch_entries seen entries
watch_entries seen (some entry ∷ entries) =
    let rest = watch_entries (mark entry.file_name seen) entries in
    (rest.0, found_in entry seen ++ rest.1)

-- A round, if the directory can be listed: the names seen, and what is shown.
unfoldable pub watch_round :
    List String → List String → Option (List (Option Entry)) → List String × List Occurrence
unfolding watch_entries sort_ascending matches_filter
watch_round filters seen none = (seen, [])
watch_round filters seen (some entries) =
    let (after, new_occs) = watch_entries seen entries in
    (after, keep (λ occ. matches_filter occ filters) (sort_ascending new_occs))

unfoldable pub watch_rounds :
    List String → List String → List (Option (List (Option Entry))) → List (List Occurrence)
unfolding watch_round
watch_rounds filters seen [] = []
watch_rounds filters seen (listing ∷ listings) =
    let (after, shown) = watch_round filters seen listing in
    shown ∷ watch_rounds filters after listings

-- A listing without the entries of a name.
abbrev pub without : String → List (Option Entry) → List (Option Entry)
without name [] = []
without name (none ∷ entries) = none ∷ without name entries
without name (some entry ∷ entries) =
    if str_eq entry.file_name name then without name entries else some entry ∷ without name entries

abbrev pub listing_without : String → Option (List (Option Entry)) → Option (List (Option Entry))
listing_without name none = none
listing_without name (some entries) = some (without name entries)

abbrev pub lists : String → List (Option Entry) → Bool
lists name [] = false
lists name (none ∷ entries) = lists name entries
lists name (some entry ∷ entries) = str_eq entry.file_name name || lists name entries

mark-has_seen :
    (name n : String) (seen : List String)
    → has_seen name seen ≡ true
    → has_seen name (mark n seen) ≡ true
mark-has_seen name n seen known = ground arith

mark-own : (name : String) (seen : List String) → has_seen name (mark name seen) ≡ true
mark-own name seen = elim (Bool-cases (has_seen name seen)) [
  | inl known ↦ rw (known, known) refl
  | inr new ↦ rw (new, (eq_iff name name).1 refl) refl
]

watch_entries-kept :
    (name : String) (seen : List String) (entries : List (Option Entry))
    → has_seen name seen ≡ true
    → has_seen name (watch_entries seen entries).0 ≡ true
unfolding watch_entries
watch_entries-kept name seen [] known = known
watch_entries-kept name seen (none ∷ entries) known = watch_entries-kept name seen entries known
watch_entries-kept name seen (some entry ∷ entries) known =
    watch_entries-kept name (mark entry.file_name seen) entries
      (mark-has_seen name entry.file_name seen known)

watch_entries-listed :
    (name : String) (seen : List String) (entries : List (Option Entry))
    → lists name entries ≡ true
    → has_seen name (watch_entries seen entries).0 ≡ true
unfolding watch_entries
watch_entries-listed name seen [] listed = cc
watch_entries-listed name seen (none ∷ entries) listed =
    watch_entries-listed name seen entries listed
watch_entries-listed name seen (some entry ∷ entries) listed =
    elim (Bool-cases (str_eq entry.file_name name)) [
      | inl same ↦ watch_entries-kept name (mark entry.file_name seen) entries (
          subst (λ n. has_seen n (mark entry.file_name seen) ≡ true)
            ((eq_iff entry.file_name name).0 same) (mark-own entry.file_name seen))
      | inr other ↦ watch_entries-listed name (mark entry.file_name seen) entries (ground arith)
    ]

watch_entries-without :
    (name : String) (seen : List String) (entries : List (Option Entry))
    → has_seen name seen ≡ true
    → watch_entries seen (without name entries) ≡ watch_entries seen entries
unfolding watch_entries
watch_entries-without name seen [] known = refl
watch_entries-without name seen (none ∷ entries) known =
    watch_entries-without name seen entries known
watch_entries-without name seen (some entry ∷ entries) known =
    elim (Bool-cases (str_eq entry.file_name name)) [
      | inl same ↦
          let old : has_seen entry.file_name seen ≡ true =
            subst (λ n. has_seen n seen ≡ true) (sym ((eq_iff entry.file_name name).0 same))
              known in
          rw (same, old) (watch_entries-without name seen entries known)
      | inr other ↦ rw other (
          ap (λ rest. (rest.0, found_in entry seen ++ rest.1))
            (watch_entries-without name (mark entry.file_name seen) entries
              (mark-has_seen name entry.file_name seen known)))
    ]

watch_round-without :
    (filters : List String) (name : String) (seen : List String)
    (listing : Option (List (Option Entry)))
    → has_seen name seen ≡ true
    → watch_round filters seen (listing_without name listing) ≡ watch_round filters seen listing
unfolding watch_round
watch_round-without filters name seen none known = refl
watch_round-without filters name seen (some entries) known =
    rw (watch_entries-without name seen entries known) refl

watch_round-kept :
    (filters : List String) (name : String) (seen : List String)
    (listing : Option (List (Option Entry)))
    → has_seen name seen ≡ true
    → has_seen name (watch_round filters seen listing).0 ≡ true
unfolding watch_round
watch_round-kept filters name seen none known = known
watch_round-kept filters name seen (some entries) known = watch_entries-kept name seen entries known

watch_rounds-without :
    (filters : List String) (name : String) (seen : List String)
    (listings : List (Option (List (Option Entry))))
    → has_seen name seen ≡ true
    → watch_rounds filters seen (map (listing_without name) listings)
      ≡ watch_rounds filters seen listings
unfolding watch_rounds
watch_rounds-without filters name seen [] known = refl
watch_rounds-without filters name seen (listing ∷ listings) known =
    rw (watch_round-without filters name seen listing known) (
      ap (λ rest. (watch_round filters seen listing).1 ∷ rest)
        (watch_rounds-without filters name (watch_round filters seen listing).0 listings
          (watch_round-kept filters name seen listing known)))

-- Once the command watch has listed a file, what it shows is the same as if the file were in no
-- later listing, whatever reading the file gave then or gives later.
pub watch_rounds-once :
    (filters : List String) (name : String) (seen : List String) (entries : List (Option Entry))
    (listings : List (Option (List (Option Entry))))
    → lists name entries ≡ true
    → watch_rounds filters seen (some entries ∷ listings)
      ≡ watch_rounds filters seen (some entries ∷ map (listing_without name) listings)
unfolding watch_rounds watch_round
watch_rounds-once filters name seen entries listings listed =
    ap (λ rest. (watch_round filters seen (some entries)).1 ∷ rest)
      (sym (
        watch_rounds-without filters name (watch_entries seen entries).0 listings
          (watch_entries-listed name seen entries listed)))
