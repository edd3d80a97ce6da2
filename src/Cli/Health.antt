-- ===== src/Cli/Health.antt =====
-- `cmd_health` of tapio-cli/src/main.rs, without its output: the statistics of the occurrences of the last
-- hour, and the totals and the verdict of the summary. Which occurrences are recent is a parameter.
use text.Mathlib.Text.{◌==◌ as str_eq}
use tapio.Prelude.{
  ℕ, ◌+◌, String, Bool, true, false, ◌||◌, List, [], ◌∷◌, Option, none, some, Result, ok, err, leb,
  ltb, if◌then◌else◌, is_empty, any, keep, unwrap_or,
}
use tapio.Prelude.Maps.{Map, lookup, insert}
use tapio.Prelude.Strings.{split}
use tapio.Observer.Occurrence.{Occurrence, Severity, validate}

unfoldable pub health_status : ℕ → ℕ → String
health_status total_count total_critical =
    if leb 3 total_critical || leb 20 total_count
    then "critical"
    else if ltb 0 total_count
    then "degraded"
    else "healthy"

abbrev second_of : List String → String
second_of (kernel ∷ observer ∷ rest) = observer
second_of parts = "unknown"

unfoldable pub observer_category : String → String
observer_category occurrence_type = second_of (split b'.' occurrence_type)

unfoldable pub matches_filter : Occurrence → List String → Bool
unfolding observer_category
matches_filter occ filters =
    if is_empty filters
    then true
    else any (λ f. str_eq f (observer_category occ.occurrence_type)) filters

unfoldable pub severity_label : Severity → String
severity_label Severity.debug = "DEBUG"
severity_label Severity.info = "INFO"
severity_label Severity.warning = "WARNING"
severity_label Severity.error = "ERROR"
severity_label Severity.critical = "CRITICAL"

abbrev pub is_critical : Occurrence → Bool
is_critical occ = elim (Occurrence.severity occ) [ Severity.critical ↦ true | _ ↦ false ]

-- The order of two texts, by their code points.
unfoldable pub is_greater : List ℕ → List ℕ → Bool
is_greater [] b = false
is_greater (x ∷ a) [] = true
is_greater (x ∷ a) (y ∷ b) =
    let rest = is_greater a b in if ltb y x then true else if ltb x y then false else rest

pub record ObserverStats : Type 0 where
  pub count : ℕ
  pub critical_count : ℕ
  pub last_seen : List ℕ
  pub type_counts : Map ℕ

abbrev pub no_stats : ObserverStats
no_stats = record { count = 0; critical_count = 0; last_seen = []; type_counts = [] }

-- What an occurrence adds to the statistics of its observer.
unfoldable pub bump : Occurrence → ObserverStats → ObserverStats
unfolding is_greater
bump occ entry = record {
  count = entry.count + 1;
  critical_count = if is_critical occ then entry.critical_count + 1 else entry.critical_count;
  last_seen = if is_greater occ.timestamp entry.last_seen then occ.timestamp else entry.last_seen;
  type_counts =
      insert occ.occurrence_type (unwrap_or (lookup occ.occurrence_type entry.type_counts) 0 + 1)
        entry.type_counts;
}

unfoldable pub collect_stats : List Occurrence → Map ObserverStats → Map ObserverStats
unfolding bump observer_category
collect_stats [] stats = stats
collect_stats (occ ∷ recent) stats =
    let cat = observer_category occ.occurrence_type in
    collect_stats recent (insert cat (bump occ (unwrap_or (lookup cat stats) no_stats)) stats)

abbrev pub categories : List String
categories = "network" ∷ "container" ∷ "storage" ∷ "node" ∷ []

-- The loop over the categories: the two totals.
unfoldable pub totals : List String → Map ObserverStats → ℕ × ℕ
totals [] stats = (0, 0)
totals (cat ∷ cats) stats =
    let (count, critical) = totals cats stats in
    let s = unwrap_or (lookup cat stats) no_stats in (s.count + count, s.critical_count + critical)

-- The line `overall`: the verdict and the totals.
unfoldable pub verdict : ℕ × ℕ → String × ℕ × ℕ
unfolding health_status
verdict (total_count, total_critical) =
    (health_status total_count total_critical, total_count, total_critical)

unfoldable pub overall : (Occurrence → Bool) → List Occurrence → String × ℕ × ℕ
unfolding verdict collect_stats totals
overall is_recent occurrences =
    verdict (totals categories (collect_stats (keep is_recent occurrences) []))

-- `load_occurrences`: of the directory's JSON files, those that are read, parsed and valid.
module _ (read_to_string : String → Option String) (from_str : String → Option Occurrence) where
  abbrev valid_only : Occurrence → Result (List String) (Unit {0}) → Option Occurrence
  valid_only occ (ok done) = some occ
  valid_only occ (err errors) = none

  abbrev parsed : Option Occurrence → Option Occurrence
  parsed none = none
  parsed (some occ) = valid_only occ (validate occ)

  abbrev loaded : Option String → Option Occurrence
  loaded none = none
  loaded (some text) = parsed (from_str text)

  unfoldable pub read_occurrence_file : String → Option Occurrence
  read_occurrence_file path = loaded (read_to_string path)

  abbrev pushed : Option Occurrence → List Occurrence → List Occurrence
  pushed none occurrences = occurrences
  pushed (some occ) occurrences = occ ∷ occurrences

  unfoldable pub load_occurrences : List String → List Occurrence
  unfolding read_occurrence_file
  load_occurrences [] = []
  load_occurrences (path ∷ paths) = pushed (read_occurrence_file path) (load_occurrences paths)
