-- ===== src/Cli/Totals.antt =====
-- The summary counts every recent occurrence of the four observers once.
use text.Mathlib.Text.{◌==◌ as str_eq}
use text.Mathlib.TextEquality.{eq_iff}
use tapio.Prelude.{
  ℕ, ◌+◌, String, Bool, true, false, ◌&&◌, List, [], ◌∷◌, if◌then◌else◌, keep, length, unwrap_or,
  ◌≡◌, refl, ap, ◌∙◌, arith, Bool-cases, inl, inr,
}
use tapio.Prelude.Maps.{Map, lookup, insert, lookup-insert}
use tapio.Observer.Occurrence.{Occurrence}
use tapio.Cli.Health.{
  ObserverStats, no_stats, is_critical, observer_category, bump, collect_stats, categories, totals,
  overall, verdict, health_status,
}

-- The occurrences of an observer.
abbrev pub is_of : String → Occurrence → Bool
is_of cat occ = str_eq (observer_category (Occurrence.occurrence_type occ)) cat

abbrev pub is_critical_of : String → Occurrence → Bool
is_critical_of cat occ = is_of cat occ && is_critical occ

abbrev one_if : Bool → ℕ
one_if true = 1
one_if false = 0

-- What one occurrence adds to the statistics of an observer.
entry-counts :
    (cat name : String) (occ : Occurrence) (stats : Map ObserverStats)
    → let s =
        unwrap_or
          (lookup cat (insert name (bump occ (unwrap_or (lookup name stats) no_stats)) stats))
          no_stats in
      (s.count ≡ (unwrap_or (lookup cat stats) no_stats).count + one_if (str_eq name cat))
      × (s.critical_count
          ≡ (unwrap_or (lookup cat stats) no_stats).critical_count
            + one_if (str_eq name cat && is_critical occ))
entry-counts cat name occ stats = elim (Bool-cases (str_eq name cat)) [
  | inl same ↦
      let base = unwrap_or (lookup name stats) no_stats in
      let there : lookup name stats ≡ lookup cat stats =
        ap (λ k. lookup k stats) ((eq_iff name cat).0 same) in
      let critical : (bump occ base).critical_count
          ≡ base.critical_count + one_if (is_critical occ) =
        unfold bump in bumped (is_critical occ) base.critical_count in
      rw (lookup-insert name cat (bump occ base) stats, same, ← there)
        (unfold bump in refl, critical)
  | inr other ↦
      rw (lookup-insert name cat (bump occ (unwrap_or (lookup name stats) no_stats)) stats, other)
        (omega arith, omega arith)
]
  where
    bumped : (b : Bool) (n : ℕ) → (if b then n + 1 else n) ≡ n + one_if b
    bumped true n = refl
    bumped false n = omega arith

length-keep :
    (p : Occurrence → Bool) (occ : Occurrence) (rest : List Occurrence)
    → length (keep p (occ ∷ rest)) ≡ one_if (p occ) + length (keep p rest)
length-keep p occ rest = elim (Bool-cases (p occ)) [
  | inl counted ↦ rw counted (omega arith)
  | inr passed_over ↦ rw passed_over (omega arith)
]

collect_stats-counts :
    (cat : String) (recent : List Occurrence) (stats : Map ObserverStats)
    → let s = unwrap_or (lookup cat (collect_stats recent stats)) no_stats in
      (s.count ≡ (unwrap_or (lookup cat stats) no_stats).count + length (keep (is_of cat) recent))
      × (s.critical_count
          ≡ (unwrap_or (lookup cat stats) no_stats).critical_count
            + length (keep (is_critical_of cat) recent))
unfolding collect_stats
collect_stats-counts cat [] stats = (omega arith, omega arith)
collect_stats-counts cat (occ ∷ recent) stats =
    let name = observer_category occ.occurrence_type in
    let added = insert name (bump occ (unwrap_or (lookup name stats) no_stats)) stats in
    let (a, b) = entry-counts cat name occ stats in
    let (c, d) = collect_stats-counts cat recent added in
    let e = length-keep (is_of cat) occ recent in
    let f = length-keep (is_critical_of cat) occ recent in (c ∙ (omega arith), d ∙ (omega arith))

-- The occurrences of the four observers, and the critical ones of them, observer by observer.
abbrev pub counted : (String → Occurrence → Bool) → List Occurrence → ℕ
counted p recent =
    length (keep (p "network") recent)
    + (length (keep (p "container") recent)
        + (length (keep (p "storage") recent) + length (keep (p "node") recent)))

totals-counts :
    (recent : List Occurrence)
    → totals categories (collect_stats recent [])
      ≡ (counted is_of recent, counted is_critical_of recent)
unfolding totals lookup
totals-counts recent =
    let (a, a') = collect_stats-counts "network" recent [] in
    let (b, b') = collect_stats-counts "container" recent [] in
    let (c, c') = collect_stats-counts "storage" recent [] in
    let (d, d') = collect_stats-counts "node" recent [] in pair (omega arith) (omega arith)
  where
    pair : {a b c d : ℕ} → a ≡ c → b ≡ d → ◌≡◌ {A = ℕ × ℕ} (a, b) (c, d)
    pair p q = λ i. (p i, q i)

-- The summary of a node's health counts each recent occurrence of the four observers once, and the
-- critical ones of them, and its verdict is that of these two counts.
pub overall-counts :
    (is_recent : Occurrence → Bool) (occurrences : List Occurrence)
    → let recent = keep is_recent occurrences in
      overall is_recent occurrences ≡ (
        health_status (counted is_of recent) (counted is_critical_of recent),
        counted is_of recent,
        counted is_critical_of recent,
      )
unfolding overall verdict
overall-counts is_recent occurrences = ap verdict (totals-counts (keep is_recent occurrences))
