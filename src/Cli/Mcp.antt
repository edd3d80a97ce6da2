-- ===== src/Cli/Mcp.antt =====
-- The MCP server of tapio-cli/src/main.rs: `mcp_handle_line`, `mcp_handle_request` and `mcp_call_tool`. The
-- JSON reader and printer, the directory's occurrences and the clock are parameters; `cutoff` is what the
-- clock and f64 make of a window in minutes, and has no value where the library's duration panics.
use Prim.Native.String.{◌++◌ as append}
use text.Mathlib.Text.{◌==◌ as str_eq}
use tapio.Prelude.{
  ℕ, ◌+◌, String, true, List, [], ◌∷◌, Option, none, some, Result, ok, err, if◌then◌else◌, keep,
  unwrap_or, and_then,
}
use tapio.Prelude.Decimal.{to_string}
use tapio.Prelude.Maps.{Map, lookup, insert}
use tapio.Wire.Types.{Value, boolean, number, str}
use tapio.Observer.Occurrence.{Occurrence, Severity}
use tapio.Cli.Health.{observer_category, health_status, is_critical}
use tapio.Cli.Recent.{is_at_least, sort_descending, take}
use tapio.Cli.JsonRpc.{
  get, as_str, json, list, mcp_result_response, mcp_error_response, initialize_result, tools_list,
  content,
}

-- How a call of a tool ends: with a result, an error, or a panic of the process.
pub data Called : Type 0 where
  result : Value → Called
  failed : String → Called
  panicked : Called

abbrev pub text_result : Result String String → Called
text_result (ok text) = result (json (content text))
text_result (err e) = failed e

-- The severity's name in a filter.
unfoldable pub severity_name : Severity → String
severity_name Severity.warning = "warning"
severity_name Severity.error = "error"
severity_name Severity.critical = "critical"
severity_name s = "other"

abbrev by_observer : String → List Occurrence → List Occurrence
by_observer observer occs =
    keep (λ o. str_eq (observer_category (Occurrence.occurrence_type o)) observer) occs

unfoldable pub filter_observer : String → List Occurrence → List Occurrence
filter_observer observer occs = if str_eq observer "all" then occs else by_observer observer occs

unfoldable pub filter_severity : String → List Occurrence → List Occurrence
unfolding severity_name
filter_severity severity occs =
    if str_eq severity "all"
    then occs
    else keep (λ o. str_eq (severity_name (Occurrence.severity o)) severity) occs

abbrev pub text_arg : String → Value → Option String
text_arg key args = and_then (get key args) as_str

-- The answer of `tapio_recent_anomalies`.
unfoldable pub recent_anomalies : List ℕ → String → String → List Occurrence → List Occurrence
unfolding filter_observer filter_severity sort_descending
recent_anomalies cutoff observer severity occs = sort_descending (
    filter_severity severity
      (filter_observer observer (keep (λ o. is_at_least (Occurrence.timestamp o) cutoff) occs)))

abbrev watched : Option String → List Occurrence → List Occurrence
watched none occs = occs
watched (some observer) occs = by_observer observer occs

-- The answer of `tapio_watch_stream`.
unfoldable pub watch_stream : Option String → ℕ → List Occurrence → List Occurrence
unfolding sort_descending
watch_stream observer max_events occs = take max_events (sort_descending (watched observer occs))

-- The two counts of each observer, for `tapio_node_health`.
abbrev bump : Occurrence → ℕ × ℕ → ℕ × ℕ
bump occ (count, critical) = (count + 1, if is_critical occ then critical + 1 else critical)

unfoldable pub count_by_observer : List Occurrence → Map (ℕ × ℕ) → Map (ℕ × ℕ)
unfolding observer_category
count_by_observer [] counts = counts
count_by_observer (occ ∷ occs) counts =
    let category = observer_category occ.occurrence_type in
    count_by_observer occs
      (insert category (bump occ (unwrap_or (lookup category counts) (0, 0))) counts)

abbrev pub totals : Map (ℕ × ℕ) → ℕ × ℕ
totals [] = (0, 0)
totals ((name, (count, critical)) ∷ counts) =
    let rest = totals counts in (count + rest.0, critical + rest.1)

abbrev observer_rows : Map (ℕ × ℕ) → List Value
observer_rows [] = []
observer_rows ((name, (count, critical)) ∷ counts) =
    json (
      ("name", str name)
      ∷ ("anomalies", number (to_string count))
      ∷ ("critical", number (to_string critical))
      ∷ [])
    ∷ observer_rows counts

abbrev health_json : Map (ℕ × ℕ) → Value
health_json counts = json (
    ("status", str (health_status (totals counts).0 (totals counts).1))
    ∷ ("total_anomalies_1h", number (to_string (totals counts).0))
    ∷ ("total_critical_1h", number (to_string (totals counts).1))
    ∷ ("observers", list (observer_rows counts))
    ∷ [])

unfoldable pub node_health : List ℕ → List Occurrence → Value
unfolding count_by_observer health_status
node_health one_hour_ago occs =
    health_json
      (count_by_observer (keep (λ o. is_at_least (Occurrence.timestamp o) one_hour_ago) occs) [])

-- What the server does with a request: nothing, a response, or a panic.
pub data Handled : Type 0 where
  silent : Handled
  responds : Value → Handled
  panics : Handled

module _ (occurrences : Result String (List Occurrence))
    (to_json : List Occurrence → Result String String)
    (to_string_pretty : Value → Result String String) (cutoff : Option Value → Option (List ℕ))
    (one_hour_ago : List ℕ) (as_u64 : Value → Option ℕ) where
  abbrev pub with_cutoff : Option (List ℕ) → Value → List Occurrence → Called
  with_cutoff none args occs = panicked
  with_cutoff (some window) args occs = text_result (
      to_json (
        recent_anomalies window (unwrap_or (text_arg "observer" args) "all")
          (unwrap_or (text_arg "severity" args) "all") occs))

  abbrev pub with_occurrences :
      (List Occurrence → Called) → Result String (List Occurrence) → Called
  with_occurrences f (ok occs) = f occs
  with_occurrences f (err e) = failed e

  unfoldable pub mcp_call_tool : String → Value → Called
  unfolding recent_anomalies node_health watch_stream
  mcp_call_tool name args =
      if str_eq name "tapio_recent_anomalies"
      then with_occurrences (with_cutoff (cutoff (get "minutes" args)) args) occurrences
      else if str_eq name "tapio_node_health"
      then with_occurrences (λ occs. text_result (to_string_pretty (node_health one_hour_ago occs)))
          occurrences
      else if str_eq name "tapio_watch_stream"
      then with_occurrences
          (λ occs. text_result (
            to_json (
              watch_stream (text_arg "observer" args)
                (unwrap_or (and_then (get "max_events" args) as_u64) 50) occs)))
          occurrences
      else result (
          json (
            (
              "content",
              list (
                  json (("type", str "text") ∷ ("text", str (append "Unknown tool: " name)) ∷ [])
                  ∷ []),
            )
            ∷ ("isError", boolean true)
            ∷ []))

  abbrev pub tool_response : Option Value → String → Called → Handled
  tool_response id name (result v) = responds (mcp_result_response id v)
  tool_response id name (failed e) =
      responds (
        mcp_error_response id 32603
          (append "Tool call failed for '" (append name (append "': " e))))
  tool_response id name panicked = panics

  abbrev pub answer : String → Option Value → String → Value → Handled
  answer package_version id method params =
      if str_eq method "initialize"
      then responds (mcp_result_response id (initialize_result package_version))
      else if str_eq method "tools/list"
      then responds (mcp_result_response id tools_list)
      else if str_eq method "tools/call"
      then (let name = unwrap_or (text_arg "name" params) "" in
          tool_response id name (mcp_call_tool name (unwrap_or (get "arguments" params) (json []))))
      else responds (mcp_error_response id 32601 (append "Method not found: " method))

  -- A request without an identifier is a notification.
  abbrev pub with_id : String → Option Value → Value → Handled
  with_id package_version none request = silent
  with_id package_version (some id) request =
      answer package_version (some id) (unwrap_or (text_arg "method" request) "")
        (unwrap_or (get "params" request) (json []))

  unfoldable pub mcp_handle_request : String → Value → Handled
  unfolding mcp_result_response mcp_error_response mcp_call_tool tools_list
  mcp_handle_request package_version request = with_id package_version (get "id" request) request

  -- The line as it is parsed.
  unfoldable pub mcp_handle_line : String → Option Value → Handled
  unfolding mcp_handle_request
  mcp_handle_line package_version none = responds (mcp_error_response none 32700 "Parse error")
  mcp_handle_line package_version (some request) = mcp_handle_request package_version request
