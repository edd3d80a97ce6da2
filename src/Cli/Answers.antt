-- ===== src/Cli/Answers.antt =====
-- Which requests the MCP server answers, and how.
use text.Mathlib.Text.{◌==◌ as str_eq}
use tapio.Prelude.{ℕ, ◌≡◌, ◌⊎◌, String, List, [], Option, none, some, Result, ok, unwrap_or}
use tapio.Wire.Types.{Value, str}
use tapio.Observer.Occurrence.{Occurrence}
use tapio.Cli.JsonRpc.{get, json}
use tapio.Cli.Mcp.{
  Called, result, failed, panicked, Handled, silent, responds, panics, answer, mcp_call_tool,
  mcp_handle_request, text_arg,
}

-- A response under JSON-RPC 2.0: the request's identifier, and a result or an error, never both.
pub record IsResponse (id v : Value) : Type 0 where
  pub version : get "jsonrpc" v ≡ some (str "2.0")
  pub echoed : get "id" v ≡ some id
  pub either :
      (((r : Value) × (get "result" v ≡ some r)) × (get "error" v ≡ none))
      ⊎ (((e : Value) × (get "error" v ≡ some e)) × (get "result" v ≡ none))

module _ (occurrences : Result String (List Occurrence))
    (to_json : List Occurrence → Result String String)
    (to_string_pretty : Value → Result String String) (cutoff : Option Value → Option (List ℕ))
    (one_hour_ago : List ℕ) (as_u64 : Value → Option ℕ) where
  abbrev calls_tool : String → Value → Called
  calls_tool = mcp_call_tool occurrences to_json to_string_pretty cutoff one_hour_ago as_u64

  abbrev answers : String → Option Value → String → Value → Handled
  answers = answer occurrences to_json to_string_pretty cutoff one_hour_ago as_u64

  abbrev handles : String → Value → Handled
  handles = mcp_handle_request occurrences to_json to_string_pretty cutoff one_hour_ago as_u64

  -- The one call that ends the server: of `tapio_recent_anomalies`, where the occurrences are read and
  -- the window is out of the range of the library's durations.
  abbrev pub Overflows : String → Value → Type 0
  Overflows name args =
      (name ≡ "tapio_recent_anomalies")
      × ((occs : List Occurrence) × (occurrences ≡ ok occs))
      × (cutoff (get "minutes" args) ≡ none)

  abbrev pub ParamsOverflow : String → Value → Type 0
  ParamsOverflow method params =
      (method ≡ "tools/call")
      × Overflows (unwrap_or (text_arg "name" params) "")
          (unwrap_or (get "arguments" params) (json []))

  abbrev pub RequestOverflows : Value → Type 0
  RequestOverflows request =
      ParamsOverflow (unwrap_or (text_arg "method" request) "")
        (unwrap_or (get "params" request) (json []))

  -- How a call may end: in a panic only under a condition.
  abbrev Returns : Type 0 → Called → Type 0
  Returns P (result v) = Unit
  Returns P (failed e) = Unit
  Returns P panicked = P

  -- How a request may be handled: in a panic only under a condition.
  abbrev Answered : Type 0 → Value → Handled → Type 0
  Answered P id silent = ⊥
  Answered P id (responds v) = IsResponse id v
  Answered P id panics = P
