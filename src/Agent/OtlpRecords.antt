-- ===== src/Agent/OtlpRecords.antt =====
-- The records that `OtlpSink` of tapio-agent/src/sink/otlp.rs makes of occurrences, its endpoint, and the
-- request and the status line of its HTTP client. A text of the client is its code points. The encoding of
-- the records is the protobuf library's; the RFC 3339 reader of their time is a parameter.
use text.Mathlib.Text.{◌==◌ as str_eq}
use tapio.Prelude.{
  ℕ, ◌^◌, String, Bool, true, false, not, keep, List, [], ◌∷◌, ◌++◌, map, Option, none, some,
  Result, ok, err, ◌==◌, if◌then◌else◌, is_empty, unwrap_or, and_then, any, length,
}
use tapio.Prelude.Text.{codes, trim, is_whitespace}
use tapio.Prelude.Decimal.{to_string}
use tapio.Prelude.Parse.{parse_codes}
use tapio.Prelude.Split.{extend_first, split_once, strip_prefix}
use tapio.Observer.Occurrence.{Occurrence, OccurrenceError, Context, Entity, Severity}
use tapio.Agent.Poll.{trim_end_slashes}

pub record AnyValue : Type 0 where
  pub string_value : String

pub record KeyValue : Type 0 where
  pub key : String
  pub value : Option AnyValue

pub record LogRecord : Type 0 where
  pub time_unix_nano : ℕ
  pub severity_number : ℕ
  pub body : Option AnyValue
  pub attributes : List KeyValue

pub record Resource : Type 0 where
  pub attributes : List KeyValue

pub record ScopeLogs : Type 0 where
  pub log_records : List LogRecord

pub record ResourceLogs : Type 0 where
  pub resource : Option Resource
  pub scope_logs : List ScopeLogs

pub record ExportLogsServiceRequest : Type 0 where
  pub resource_logs : List ResourceLogs

pub data SeverityNumber : Type 0 where
  info warn error fatal : SeverityNumber

abbrev pub number : SeverityNumber → ℕ
number info = 9
number warn = 13
number error = 17
number fatal = 21

unfoldable pub severity_to_otlp : Severity → ℕ
severity_to_otlp Severity.debug = number info
severity_to_otlp Severity.info = number info
severity_to_otlp Severity.warning = number warn
severity_to_otlp Severity.error = number error
severity_to_otlp Severity.critical = number fatal

abbrev pub kv : String → String → KeyValue
kv key val = record { key = key; value = some (record { string_value = val }) }

abbrev attribute : String → Option String → List KeyValue
attribute key none = []
attribute key (some val) = kv key val ∷ []

-- The names of the pods among the entities.
unfoldable pub pod_attributes : List Entity → List KeyValue
pod_attributes [] = []
pod_attributes (entity ∷ entities) =
    let rest = pod_attributes entities in
    if str_eq entity.kind "pod" then attribute "k8s.pod.name" entity.name ++ rest else rest

abbrev context_attributes : Option Context → List KeyValue
context_attributes none = []
context_attributes (some ctx) =
    attribute "k8s.node.name" ctx.node
    ++ (attribute "k8s.namespace.name" ctx.namespace ++ pod_attributes ctx.entities)

abbrev body_text : Option OccurrenceError → String
body_text none = ""
body_text (some e) = e.message

-- The reader gives the nanoseconds as a word of 64 bits, if the timestamp is one.
unfoldable pub occurrence_to_log_record : (List ℕ → Option ℕ) → Occurrence → LogRecord
unfolding severity_to_otlp pod_attributes
occurrence_to_log_record parse_from_rfc3339 occ = record {
  time_unix_nano = unwrap_or (parse_from_rfc3339 occ.timestamp) 0;
  severity_number = severity_to_otlp occ.severity;
  body = some (record { string_value = body_text occ.error });
  attributes =
      (kv "occurrence.id" occ.id
        ∷ kv "anomaly.type" occ.occurrence_type
        ∷ kv "tapio.source" occ.source
        ∷ [])
      ++ context_attributes occ.context;
}

-- The request of `export_batch`.
unfoldable pub export_request :
    String → (List ℕ → Option ℕ) → List Occurrence → ExportLogsServiceRequest
unfolding occurrence_to_log_record
export_request package_version parse_from_rfc3339 batch = record {
  resource_logs =
      record {
        resource = some (record {
          attributes = kv "service.name" "tapio" ∷ kv "service.version" package_version ∷ [];
        });
        scope_logs =
            record { log_records = map (occurrence_to_log_record parse_from_rfc3339) batch } ∷ [];
      }
      ∷ [];
}

-- Why an endpoint is refused.
pub data EndpointError : Type 0 where
  empty https not_http missing_host : EndpointError

abbrev pub has_prefix : List ℕ → List ℕ → Bool
has_prefix prefix cs = elim (strip_prefix prefix cs) [ some rest ↦ true | none ↦ false ]

-- The part before the first slash, and the one after it.
abbrev pub at_slash : List ℕ → List ℕ × Option (List ℕ)
at_slash url = elim (split_once b'/' url) [
  | none ↦ (url, none)
  | some (host, path) ↦ (host, some path)
]

abbrev pub normalized : List ℕ → Option (List ℕ) → Result EndpointError (List ℕ)
normalized trimmed none = err not_http
normalized trimmed (some rest) = if is_empty (at_slash rest).0 then err missing_host else ok trimmed

unfoldable pub normalize_http_endpoint : List ℕ → Result EndpointError (List ℕ)
unfolding trim trim_end_slashes strip_prefix split_once
normalize_http_endpoint endpoint =
    let trimmed = trim_end_slashes (trim endpoint) in
    if is_empty trimmed
    then err empty
    else if has_prefix (codes "https://") trimmed
    then err https
    else normalized trimmed (strip_prefix (codes "http://") trimmed)

-- `self.endpoint` with the path of the logs.
unfoldable pub logs_url : List ℕ → List ℕ
logs_url endpoint = endpoint ++ codes "/v1/logs"

-- Where `http_post` connects to, and the host and the path that it writes.
pub record Destination : Type 0 where
  pub addr : List ℕ
  pub host : List ℕ
  pub path : List ℕ

abbrev addr_of : List ℕ → List ℕ
addr_of host = if any (λ c. c == b':') host then host else host ++ codes ":80"

abbrev pub path_of : Option (List ℕ) → List ℕ
path_of none = codes "/"
path_of (some rest) = b'/' ∷ rest

abbrev pub located : List ℕ × Option (List ℕ) → Destination
located (host, rest) = record { addr = addr_of host; host = host; path = path_of rest }

unfoldable pub destination : List ℕ → Option Destination
unfolding strip_prefix split_once
destination url = elim (strip_prefix (codes "http://") url) [
  | none ↦ none
  | some rest ↦ some (located (at_slash rest))
]

abbrev crlf : List ℕ
crlf = 13 ∷ 10 ∷ []

abbrev authorization : Option (List ℕ) → List ℕ
authorization none = []
authorization (some auth) = codes "Authorization: " ++ (auth ++ crlf)

unfoldable pub post_head : Option (List ℕ) → Destination → List ℕ → List ℕ
post_head auth_header to body =
    (codes "POST " ++ (to.path ++ (codes " HTTP/1.1" ++ crlf)))
    ++ ((codes "Host: " ++ (to.host ++ crlf))
        ++ ((codes "Content-Type: application/x-protobuf" ++ crlf)
            ++ ((codes "Content-Encoding: gzip" ++ crlf)
                ++ ((codes "Content-Length: " ++ (codes (to_string (length body)) ++ crlf))
                    ++ (authorization auth_header
                        ++ (codes "Connection: close" ++ (crlf ++ crlf)))))))

-- The parts between white space; `split_whitespace` leaves the empty ones out.
unfoldable pub between_whitespace : List ℕ → List (List ℕ)
unfolding is_whitespace
between_whitespace [] = [] ∷ []
between_whitespace (c ∷ cs) =
    let parts = between_whitespace cs in
    if is_whitespace c then [] ∷ parts else extend_first c parts

abbrev second : List (List ℕ) → Option (List ℕ)
second (first ∷ word ∷ words) = some word
second words = none

-- The status that `http_post` reads from the first line; 0 if it reads none.
unfoldable pub status_of : List ℕ → ℕ
unfolding between_whitespace parse_codes
status_of status_line =
    let words = keep (λ word. not (is_empty word)) (between_whitespace status_line) in
    unwrap_or (and_then (second words) (λ word. parse_codes (2 ^ 16) word)) 0
