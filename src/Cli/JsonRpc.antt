-- ===== src/Cli/JsonRpc.antt =====
-- The JSON of the MCP server of tapio-cli/src/main.rs: what it reads of a request, its two responses, and
-- what it says of itself and of its tools.
use Prim.Native.String.{◌++◌ as append}
use text.Mathlib.Text.{◌==◌ as str_eq}
use tapio.Prelude.{ℕ, String, List, [], ◌∷◌, Option, none, some, if◌then◌else◌}
use tapio.Prelude.Decimal.{to_string}
use tapio.Wire.Types.{Value, null, number, str, array, object, Items, nil, item, Fields, end, field}

-- `Value::get` of a key, `as_str`, and the objects and arrays of `json!`.
unfoldable pub field_of : String → Fields → Option Value
field_of key end = none
field_of key (field k v fields) = if str_eq k key then some v else field_of key fields

abbrev pub get : String → Value → Option Value
get key (object fields) = field_of key fields
get key v = none

abbrev pub as_str : Value → Option String
as_str (str s) = some s
as_str v = none

abbrev pub obj : List (String × Value) → Fields
obj [] = end
obj ((key, value) ∷ entries) = field key value (obj entries)

abbrev pub items : List Value → Items
items [] = nil
items (v ∷ values) = item v (items values)

abbrev pub json : List (String × Value) → Value
json entries = object (obj entries)

abbrev pub list : List Value → Value
list values = array (items values)

abbrev pub or_null : Option Value → Value
or_null none = null
or_null (some v) = v

unfoldable pub mcp_result_response : Option Value → Value → Value
mcp_result_response id result =
    json (("jsonrpc", str "2.0") ∷ ("id", or_null id) ∷ ("result", result) ∷ [])

-- The code of an error is negative.
unfoldable pub mcp_error_response : Option Value → ℕ → String → Value
mcp_error_response id code message = json (
    ("jsonrpc", str "2.0")
    ∷ ("id", or_null id)
    ∷ (
      "error",
      json (("code", number (append "-" (to_string code))) ∷ ("message", str message) ∷ []),
    )
    ∷ [])

abbrev pub initialize_result : String → Value
initialize_result package_version = json (
    ("protocolVersion", str "2024-11-05")
    ∷ ("capabilities", json (("tools", json []) ∷ []))
    ∷ ("serverInfo", json (("name", str "tapio") ∷ ("version", str package_version) ∷ []))
    ∷ [])

abbrev pub schema : List (String × Value) → Value
schema properties = json (("type", str "object") ∷ ("properties", json properties) ∷ [])

abbrev pub choice : List Value → Value
choice values = json (("type", str "string") ∷ ("enum", list values) ∷ ("default", str "all") ∷ [])

abbrev pub amount : String → String → Value
amount value description =
    json
      (("type", str "number") ∷ ("default", number value) ∷ ("description", str description) ∷ [])

abbrev pub tool : String → String → Value → Value
tool name description input =
    json (("name", str name) ∷ ("description", str description) ∷ ("inputSchema", input) ∷ [])

unfoldable pub tools_list : Value
tools_list = json (
    (
      "tools",
      list (
          tool "tapio_recent_anomalies" "Get recent kernel anomalies from the last N minutes" (
            schema (
              ("minutes", amount "5" "Time window in minutes")
              ∷ (
                "observer",
                choice
                    (str "network" ∷ str "container" ∷ str "storage" ∷ str "node" ∷ str "all" ∷ []),
              )
              ∷ ("severity", choice (str "warning" ∷ str "error" ∷ str "critical" ∷ str "all" ∷ []))
              ∷ []))
          ∷ tool "tapio_node_health" "Get current node health summary across all observers"
              (schema [])
          ∷ tool "tapio_watch_stream" "Get the most recent anomalies (snapshot, not streaming)" (
              schema (
                (
                  "observer",
                  json (("type", str "string") ∷ ("description", str "Filter by observer") ∷ []),
                )
                ∷ ("max_events", amount "50" "Maximum events to return")
                ∷ []))
          ∷ []),
    )
    ∷ [])

abbrev pub content : String → List (String × Value)
content text = ("content", list (json (("type", str "text") ∷ ("text", str text) ∷ []) ∷ [])) ∷ []
