-- ===== src/Controller/Http.antt =====
-- The HTTP handlers of tapio-controller/src/lib.rs. Routing and the JSON extractor are axum's: a handler
-- is given the extractor's result, and the route of the events the length of the body with it, since
-- axum refuses a body over the limit that the router sets. Which texts may stand in a header is a
-- parameter, and so is the header's value as text.
use Prim.Native.String.{◌++◌}
use text.Mathlib.Text.{◌==◌ as str_eq}
use tapio.Prelude.{
  true, leb, ℕ, String, Bool, false, Option, none, some, List, [], ◌∷◌, Result, ok, err, ◌>>=◌,
  if◌then◌else◌, and_then,
}
use tapio.Prelude.Strings.{split, split_once, trimmed_eq}
use tapio.Wire.Types.{
  WireError, unsupported_version, missing_field, invalid_field, reasoning_field, HelloRequest,
  HelloResponse, ConfigResponse, HeartbeatRequest, HeartbeatResponse, EventBatchRequest,
  EventBatchResponse, StatusResponse,
}
use tapio.Controller.Clock.{SystemTime}
use tapio.Controller.State.{
  InnerState, Reply, register_agent, record_heartbeat, record_event_batch, config_for,
}
use tapio.Controller.Queries

-- What axum's `Json` extractor hands over: its own status is 413 or another.
pub record JsonRejection : Type 0 where
  pub too_large : Bool
  pub message : String

abbrev pub Json : Type 0 → Type 0
Json A = Result JsonRejection A

pub data ApiError : Type 0 where
  wire : WireError → ApiError
  malformed_json : String → ApiError
  payload_too_large : String → ApiError

pub record ErrorBody : Type 0 where
  pub code : String
  pub message : String

pub data Body : Type 0 where
  hello_body : HelloResponse → Body
  config_body : ConfigResponse → Body
  heartbeat_body : HeartbeatResponse → Body
  events_body : EventBatchResponse → Body
  status_body : StatusResponse → Body
  error_body : ErrorBody → Body
  no_body : Body

pub record Response : Type 0 where
  pub status : ℕ
  pub etag : Option String
  pub body : Body

abbrev pub reply_with : ℕ → Body → Response
reply_with code content = record { status = code; etag = none; body = content }

unfoldable pub wire_status : WireError → ℕ
wire_status (unsupported_version v) = 400
wire_status (missing_field f) = 400
wire_status (invalid_field f r) = 400
wire_status (reasoning_field f) = 422

unfoldable pub error_envelope : WireError → ErrorBody
error_envelope (unsupported_version version) = record {
  code = "UNSUPPORTED_VERSION";
  message = "unsupported wire version " ++ version;
}
error_envelope (missing_field field) = record {
  code = "MISSING_FIELD";
  message = field ++ " is required";
}
error_envelope (invalid_field field reason) = record {
  code = "INVALID_FIELD";
  message = field ++ ": " ++ reason;
}
error_envelope (reasoning_field field) = record {
  code = "REASONING_FIELD";
  message = "event facts contain reasoning field " ++ field;
}

-- `ApiError::into_response`.
unfoldable pub into_response : ApiError → Response
unfolding wire_status error_envelope
into_response (wire e) = reply_with (wire_status e) (error_body (error_envelope e))
into_response (malformed_json message) =
    reply_with 400 (error_body (record { code = "MALFORMED_JSON"; message = message }))
into_response (payload_too_large message) =
    reply_with 413 (error_body (record { code = "PAYLOAD_TOO_LARGE"; message = message }))

unfoldable pub json_payload : {A : Type 0} → Json A → Result ApiError A
json_payload (ok a) = ok a
json_payload (err e) =
    err (if e.too_large then payload_too_large e.message else malformed_json e.message)

-- The answer of a handler from the reply of an operation.
abbrev pub answer : {A : Type 0} → (A → Body) → Reply A → InnerState × Response
answer body (inner, ok a) = (inner, reply_with 200 (body a))
answer body (inner, err e) = (inner, into_response (wire e))

abbrev pub Handler : Type 0
Handler = InnerState × Response

-- A payload that the extractor refuses is answered before the state is touched.
unfoldable pub with_payload :
    {A B : Type 0} → (B → Body) → Json A → (A → InnerState → Reply B) → InnerState → Handler
unfolding json_payload into_response
with_payload body req op inner = elim (json_payload req) [
  | ok a ↦ answer body (op a inner)
  | err e ↦ (inner, into_response e)
]

unfoldable pub hello : SystemTime → Json HelloRequest → InnerState → Handler
unfolding with_payload
hello now req inner = with_payload hello_body req (register_agent now) inner

unfoldable pub heartbeat : SystemTime → Json HeartbeatRequest → InnerState → Handler
unfolding with_payload
heartbeat now req inner = with_payload heartbeat_body req (record_heartbeat now) inner

unfoldable pub events : Json EventBatchRequest → InnerState → Handler
unfolding with_payload
events req inner = with_payload events_body req record_event_batch inner

abbrev pub max_request_body_bytes : ℕ
max_request_body_bytes = 262_144

-- `DefaultBodyLimit`: a longer body does not reach the reader, whose rejection then says so.
unfoldable pub within_limit : {A : Type 0} → String → ℕ → Json A → Json A
within_limit message body_len req =
    if leb body_len max_request_body_bytes
    then req
    else err (record { too_large = true; message = message })

-- The route of the events: the body's length, and what the reader makes of the body.
unfoldable pub post_events : String → ℕ → Json EventBatchRequest → InnerState → Handler
unfolding within_limit events
post_events message body_len req = events (within_limit message body_len req)

unfoldable pub status : SystemTime → SystemTime → InnerState → Response
status unix_epoch now inner = reply_with 200 (status_body (Queries.status unix_epoch now inner))

unfoldable pub not_found : Response
not_found = reply_with 404 (
    error_body
      (record { code = "UNKNOWN_ENDPOINT"; message = "unknown tapio-controller endpoint" }))

-- The value of the first pair `name=value`; a pair with no `=` is passed over.
unfoldable pub find_pair : String → List String → Option String
unfolding split_once
find_pair name [] = none
find_pair name (pair ∷ pairs) =
    let rest = find_pair name pairs in
    elim (split_once b'=' pair) [
      | none ↦ rest
      | some (key, value) ↦ if str_eq key name then some value else rest
    ]

unfoldable pub query_param : Option String → String → Option String
unfolding find_pair split
query_param query name = and_then query (λ q. find_pair name (split b'&' q))

unfoldable pub quoted_etag : String → String
quoted_etag config_hash = "\"" ++ (config_hash ++ "\"")

unfoldable pub if_none_match_matches : Option String → String → Bool
if_none_match_matches none etag = false
if_none_match_matches (some value) etag = trimmed_eq value etag

abbrev or_missing : Option String → String → Result WireError String
or_missing none field = err (missing_field field)
or_missing (some value) field = ok value

unfoldable pub wanted_config : Option String → InnerState → Result WireError ConfigResponse
unfolding query_param
wanted_config query inner = do
  agent_id ← or_missing (query_param query "agent_id") "agent_id"
  node_name ← or_missing (query_param query "node_name") "node_name"
  config_for agent_id node_name inner

module _ (valid_header : String → Bool) where
  -- `insert_etag`: a value that is no header value is left out.
  unfoldable pub insert_etag : String → Response → Response
  insert_etag etag response =
      if valid_header etag then record response { etag = some etag } else response

  unfoldable pub config_reply : Option String → ConfigResponse → Response
  config_reply if_none_match config =
      let etag = quoted_etag config.config_hash in
      if if_none_match_matches if_none_match etag
      then insert_etag etag (reply_with 304 no_body)
      else insert_etag etag (reply_with 200 (config_body config))

  unfoldable pub config : Option String → Option String → InnerState → Response
  unfolding into_response
  config query if_none_match inner = elim (wanted_config query inner) [
    | ok found ↦ config_reply if_none_match found
    | err e ↦ into_response (wire e)
  ]
