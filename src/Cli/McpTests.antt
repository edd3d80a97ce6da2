-- ===== src/Cli/McpTests.antt =====
-- Requests to the MCP server, rounds of the command watch, and durations of the command line: tests, and the theorems at work.
use tapio.Prelude.{
  All, if◌then◌else◌, map, true, ℕ, ◌≡◌, refl, String, List, [], ◌∷◌, ◌++◌, Option, none, some,
  Result, ok, err, length,
}
use mathlib.Core.List.{Perm}
use Prim.Native.Nat.{min}
use tapio.Prelude.Text.{codes, trim, trim_start, is_whitespace}
use tapio.Prelude.Parse.{parse_i64}
use tapio.Wire.Types.{Value, str, number}
use tapio.Observer.Occurrence.{Occurrence, Severity, Outcome, new_at}
use tapio.Cli.JsonRpc.{field_of, json}
use tapio.Cli.Recent.{parse_duration, minutes, not_positive, inside_character, recent}
use tapio.Cli.Shown.{IsBefore, IsWithin, recent-newest, IsDescending}
use tapio.Cli.Watch.{Entry, watch_rounds, listing_without, watch_rounds-once}
use tapio.Cli.Mcp.{Handled, panics, mcp_handle_request}
use text.Mathlib.Text.{◌==◌}

abbrev killed : Occurrence
killed = new_at "01" "kernel.container.oom_kill" Severity.critical Outcome.failure 5

abbrev refused : Occurrence
refused = new_at "02" "kernel.network.connection_refused" Severity.warning Outcome.failure 6

five_minutes : parse_duration (codes " 5m ") ≡ ok (5, minutes)
unfolding parse_duration trim trim_start is_whitespace parse_i64
five_minutes = refl

no_time : parse_duration (codes "0s") ≡ err not_positive
unfolding parse_duration trim trim_start is_whitespace parse_i64
no_time = refl

inside_unit : parse_duration (codes "5é") ≡ err inside_character
unfolding parse_duration trim trim_start is_whitespace parse_i64
inside_unit = refl

-- An occurrence before the window, and one within it.
abbrev earlier : Occurrence
earlier = record killed { timestamp = codes "2025-12-31T23:59:59Z" }

abbrev within : Occurrence
within = record refused { timestamp = codes "2026-01-01T00:00:01Z" }

abbrev since : Option (List ℕ)
since = some (codes "2026-01-01T00:00:00Z")

abbrev listed : List Occurrence
listed = earlier ∷ within ∷ []

since_shown : recent since listed ≡ within ∷ []
unfolding recent
since_shown = refl

recent-newest_example :
    (left_out older : List Occurrence) × Perm ((recent since listed ++ left_out) ++ older) listed
    × All (IsBefore since) older
    × All (IsWithin since) (recent since listed ++ left_out)
    × IsDescending (recent since listed ++ left_out)
    × (length (recent since listed) ≡ min 20 (length (recent since listed ++ left_out)))
recent-newest_example = recent-newest since listed

abbrev to_json : List Occurrence → Result String String
to_json occs = ok "[]"

abbrev to_string_pretty : Value → Result String String
to_string_pretty v = err "not printed"

-- Any number of minutes but one is in the range.
abbrev cutoff : Option Value → Option (List ℕ)
cutoff none = some (codes "2026")
cutoff (some (number text)) = if text == "1e18" then none else some (codes "2026")
cutoff (some other) = some (codes "2026")

abbrev as_u64 : Value → Option ℕ
as_u64 v = none

abbrev call : Value
call = json (
    ("id", number "1")
    ∷ ("method", str "tools/call")
    ∷ (
      "params",
      json (
          ("name", str "tapio_recent_anomalies")
          ∷ ("arguments", json (("minutes", number "1e18") ∷ []))
          ∷ []),
    )
    ∷ [])

abbrev handled : Handled
handled =
    mcp_handle_request (ok (killed ∷ [])) to_json to_string_pretty cutoff [] as_u64 "0.1.0" call

ends_server : handled ≡ panics
unfolding mcp_handle_request field_of
ends_server = refl

-- A file that is still being written, and the same file when it is complete.
abbrev partial : Option Entry
partial = some (record { file_name = "02.json"; is_json = true; occurrence = none })

abbrev complete : Option Entry
complete = some (record { file_name = "02.json"; is_json = true; occurrence = some refused })

abbrev other_file : Option Entry
other_file = some (record { file_name = "01.json"; is_json = true; occurrence = some killed })

never_shown :
    watch_rounds [] [] (some (partial ∷ []) ∷ some (complete ∷ other_file ∷ []) ∷ [])
    ≡ [] ∷ (killed ∷ []) ∷ []
unfolding watch_rounds
never_shown = refl

watch_rounds-once_example :
    watch_rounds [] [] (some (partial ∷ []) ∷ some (complete ∷ other_file ∷ []) ∷ [])
    ≡ watch_rounds [] [] (
        some (partial ∷ [])
        ∷ map (listing_without "02.json") (some (complete ∷ other_file ∷ []) ∷ []))
watch_rounds-once_example =
    watch_rounds-once [] "02.json" [] (partial ∷ []) (some (complete ∷ other_file ∷ []) ∷ []) refl
