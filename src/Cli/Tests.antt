-- ===== src/Cli/Tests.antt =====
-- A node with a killed container and a refused connection: tests of the verdict, and the theorem at work.
use tapio.Prelude.Strings.{split}
use tapio.Prelude.Maps.{lookup, insert}
use tapio.Prelude.Strings.{split}
use tapio.Prelude.{Bool, true, ◌≡◌, refl, [], ◌∷◌, keep}
use tapio.Observer.Occurrence.{Occurrence, Severity, Outcome, new_at}
use tapio.Cli.Health.{health_status, observer_category, overall}
use tapio.Cli.Totals.{is_of, is_critical_of, counted, overall-counts}

abbrev killed : Occurrence
killed = new_at "01" "kernel.container.oom_kill" Severity.critical Outcome.failure 5

abbrev refused : Occurrence
refused = new_at "02" "kernel.network.connection_refused" Severity.warning Outcome.failure 6

abbrev always : Occurrence → Bool
always occ = true

two_anomalies : overall always (killed ∷ refused ∷ []) ≡ ("degraded", 2, 1)
unfolding overall new_at lookup insert split
two_anomalies = refl

no_observer : observer_category "boot" ≡ "unknown"
unfolding observer_category split
no_observer = refl

overall-counts_example :
    let recent = keep always (killed ∷ refused ∷ []) in
    overall always (killed ∷ refused ∷ []) ≡ (
      health_status (counted is_of recent) (counted is_critical_of recent),
      counted is_of recent,
      counted is_critical_of recent,
    )
overall-counts_example = overall-counts always (killed ∷ refused ∷ [])
