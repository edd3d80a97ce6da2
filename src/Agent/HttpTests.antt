-- ===== src/Agent/HttpTests.antt =====
-- A response in three parts, an endpoint with a secret in its header, two sinks of which one fails, and a
-- page of counters: tests, and the theorems at work.
use tapio.Prelude.{
  ℕ, ◌+◌, ◌≡◌, refl, String, List, [], ◌∷◌, ◌++◌, none, some, Result, ok, err, false, is_empty,
  arith, map,
}
use tapio.Prelude.Text.{codes, trim_start, is_whitespace}
use tapio.Profile.Floats.{whole}
use tapio.Observer.Occurrence.{Occurrence, Severity, Outcome, new_at}
use tapio.Observer.Convert.{SinkError, send}
use tapio.Agent.Httpc.{read_response, chunk}
use tapio.Agent.HttpParsed.{read_response-served}
use tapio.Agent.Toml.{Config, load, default, default_otlp, validate_auth_header}
use tapio.Agent.OtlpRecords.{Destination, normalize_http_endpoint, logs_url, destination, post_head}
use tapio.Agent.Endpoint.{line_ends, destination-logs_url, post_head-line_ends}
use tapio.Agent.Sinks.{Writes, multi_send}
use tapio.Agent.FannedOut.{EndsWith, Reached, result_of, multi_send-Reached}
use tapio.Agent.Metrics.{TapioMetrics, CounterVec, new, inc_by, encode, push_escaped_label}
use tapio.Agent.Exposed.{
  IsExposable, lines_of, line_feeds, read_label, inc_by-IsExposable, line_feeds-encode,
  read_label-escaped,
}

abbrev parts : List (List ℕ)
parts =
    codes "HTTP/1.1 200"
    ∷ (codes " OK" ++ (13 ∷ 10 ∷ (codes "Server: c" ++ (13 ∷ 10 ∷ 13 ∷ []))))
    ∷ (10 ∷ codes "{}")
    ∷ []

read_response-served_example :
    read_response 100 (map chunk parts) ≡ ok (record { status = 200; body = codes "{}" })
read_response-served_example =
    read_response-served 100 200 (codes "OK") (codes "Server: c" ∷ []) (codes "{}") parts
      (omega arith) refl ((refl, omega arith), tt) (omega arith, (omega arith, (omega arith, tt)))
      refl (omega arith)

abbrev collector : List ℕ
collector = codes "http://collector:4318"

collector_normal : normalize_http_endpoint (codes " http://collector:4318/ ") ≡ ok collector
unfolding normalize_http_endpoint trim_start is_whitespace
collector_normal = refl

destination-logs_url_example :
    (to : Destination) × (destination (logs_url collector) ≡ some to) × (is_empty to.host ≡ false)
destination-logs_url_example =
    destination-logs_url (codes " http://collector:4318/ ") collector_normal

abbrev secured : Config ℕ
secured = record (default {F = ℕ}) { otlp = record default_otlp { auth_header = some "Bearer x" } }

abbrev from_str : String → Result String (Config ℕ)
from_str text = ok secured

abbrev to : Destination
to = record { addr = codes "c:80"; host = codes "c"; path = codes "/v1/logs" }

secured_loaded : load from_str (some (ok "")) ≡ ok secured
unfolding load validate_auth_header
secured_loaded = refl

post_head-line_ends_example :
    line_ends (post_head (some (codes "Bearer x")) to (codes "{}"))
    ≡ line_ends (post_head none to (codes "{}")) + 2
post_head-line_ends_example =
    post_head-line_ends from_str (some (ok "")) "Bearer x" to (codes "{}") secured_loaded refl

abbrev refusal : Occurrence
refusal = new_at "01" "kernel.network.connection_refused" Severity.warning Outcome.failure 5

-- A sink that fails, and one that does not.
abbrev answers :
    Occurrence
    → Result SinkError (Unit {0})
    → Result SinkError (Unit {0}) × Result SinkError (Unit {0})
answers occurrence s = (s, s)

abbrev named : Result SinkError (Unit {0}) → String
named (ok done) = "stdout"
named (err e) = "file"

abbrev flushes :
    Result SinkError (Unit {0}) → Result SinkError (Unit {0}) × Result SinkError (Unit {0})
flushes s = (s, s)

abbrev sinks : List (Result SinkError (Unit {0}))
sinks = err (send "disk full") ∷ ok tt ∷ []

abbrev no_writes : Writes
no_writes = record { written = []; failed = [] }

multi_send-Reached_example :
    let done = multi_send named answers flushes refusal sinks (some no_writes) in
    Reached named answers flushes refusal sinks (some no_writes) done.0
    × EndsWith (map (result_of named answers flushes refusal) sinks) done.1
multi_send-Reached_example = multi_send-Reached named answers flushes refusal sinks (some no_writes)

abbrev two_lines : List ℕ
two_lines = b'a' ∷ 10 ∷ b'"' ∷ []

read_label-escaped_example :
    read_label (push_escaped_label two_lines ++ b'"' ∷ codes "} 1") ≡ some (two_lines, codes "} 1")
read_label-escaped_example = read_label-escaped two_lines (codes "} 1")

abbrev events_total : CounterVec
events_total = new "tapio_events_total" "Total events" ("observer" ∷ [])

exposable : IsExposable events_total
unfolding new
exposable = record { named = record { name = refl; help = refl; labels = (refl, tt) }; small = tt }

abbrev page : TapioMetrics
page = inc_by (two_lines ∷ []) 3 events_total ∷ []

line_feeds-encode_example : line_feeds (encode page) ≡ lines_of page
line_feeds-encode_example =
    line_feeds-encode page (inc_by-IsExposable (two_lines ∷ []) 3 events_total exposable, tt)
