-- ===== src/Agent/Metrics.antt =====
-- The counters of tapio-agent/src/metrics.rs and the page that the endpoint serves. A text is its code
-- points; the values of a counter are in the order of their labels, as in a `BTreeMap`.
use tapio.Prelude.{
  ℕ, ◌+◌, String, Bool, true, false, ◌&&◌, List, [], ◌∷◌, ◌++◌, map, Option, none, some, ◌==◌,
  if◌then◌else◌, length, is_empty, u64, unwrap_or,
}
use tapio.Prelude.Text.{codes, bytes_of}
use tapio.Prelude.Decimal.{to_string}
use tapio.Prelude.Strings.{codes_eq}
use tapio.Prelude.Utf8.{from_utf8}
use tapio.Prelude.Split.{strip_prefix}
use tapio.Cli.Health.{is_greater}
use tapio.Agent.Httpc.{first_line}

-- The values of the labels.
abbrev pub Labels : Type 0
Labels = List (List ℕ)

pub record CounterVec : Type 0 where
  pub name : List ℕ
  pub help : List ℕ
  pub labels : Labels
  pub values : List (Labels × ℕ)

unfoldable pub new : String → String → List String → CounterVec
new name help labels = record {
  name = codes name;
  help = codes help;
  labels = map codes labels;
  values = [];
}

abbrev pub same : Labels → Labels → Bool
same [] [] = true
same [] (b ∷ bs) = false
same (a ∷ as_) [] = false
same (a ∷ as_) (b ∷ bs) = codes_eq a b && same as_ bs

abbrev pub before : Labels → Labels → Bool
before [] [] = false
before [] (b ∷ bs) = true
before (a ∷ as_) [] = false
before (a ∷ as_) (b ∷ bs) =
    let rest = before as_ bs in
    if is_greater b a then true else if is_greater a b then false else rest

-- `entry(..).or_insert(0) += value`.
unfoldable pub add_value : Labels → ℕ → List (Labels × ℕ) → List (Labels × ℕ)
add_value key value [] = (key, u64 value) ∷ []
add_value key value ((found, count) ∷ values) =
    if same found key
    then (found, u64 (count + value)) ∷ values
    else if before key found
    then (key, u64 value) ∷ (found, count) ∷ values
    else (found, count) ∷ add_value key value values

unfoldable pub inc_by : Labels → ℕ → CounterVec → CounterVec
unfolding add_value
inc_by label_values value counter = record counter {
  values = add_value label_values value counter.values;
}

unfoldable pub inc : Labels → CounterVec → CounterVec
unfolding inc_by
inc label_values counter = inc_by label_values 1 counter

abbrev sum_values : List (Labels × ℕ) → ℕ
sum_values [] = 0
sum_values ((key, count) ∷ values) = count + sum_values values

unfoldable pub sum : CounterVec → ℕ
sum counter = u64 (sum_values counter.values)

unfoldable pub push_escaped_label : List ℕ → List ℕ
push_escaped_label [] = []
push_escaped_label (ch ∷ value) =
    if ch == b'\\'
    then b'\\' ∷ b'\\' ∷ push_escaped_label value
    else if ch == b'"'
    then b'\\' ∷ b'"' ∷ push_escaped_label value
    else if ch == 10
    then b'\\' ∷ b'n' ∷ push_escaped_label value
    else ch ∷ push_escaped_label value

-- The pairs of a zip, with a comma before each but the first.
unfoldable pub label_pairs : Bool → Labels → Labels → List ℕ
unfolding push_escaped_label
label_pairs first [] values = []
label_pairs first (label ∷ labels) [] = []
label_pairs first (label ∷ labels) (value ∷ values) =
    (if first then [] else b',' ∷ [])
    ++ (label
        ++ (b'=' ∷ b'"' ∷ (push_escaped_label value ++ b'"' ∷ label_pairs false labels values)))

unfoldable pub value_line : CounterVec → Labels → ℕ → List ℕ
unfolding label_pairs
value_line counter label_values count =
    counter.name
    ++ ((if is_empty counter.labels
          then []
          else b'{' ∷ (label_pairs true counter.labels label_values ++ b'}' ∷ []))
        ++ (b' ' ∷ (codes (to_string count) ++ 10 ∷ [])))

unfoldable pub value_lines : CounterVec → List (Labels × ℕ) → List ℕ
unfolding value_line
value_lines counter [] = []
value_lines counter ((label_values, count) ∷ values) =
    value_line counter label_values count ++ value_lines counter values

-- `CounterVec::encode`.
unfoldable pub encode_one : CounterVec → List ℕ
unfolding value_lines
encode_one counter =
    (codes "# HELP " ++ (counter.name ++ b' ' ∷ (counter.help ++ 10 ∷ [])))
    ++ ((codes "# TYPE " ++ (counter.name ++ (codes " counter" ++ 10 ∷ [])))
        ++ value_lines counter counter.values)

-- The ten counters, in the order in which they are encoded.
abbrev pub TapioMetrics : Type 0
TapioMetrics = List CounterVec

unfoldable pub fresh : TapioMetrics
unfolding new
fresh =
    new "tapio_events_total" "Total events drained from ring buffer" ("observer" ∷ [])
    ∷ new "tapio_anomalies_total" "Total anomalies detected and emitted"
        ("observer" ∷ "anomaly_type" ∷ [])
    ∷ new "tapio_lost_events_total" "Ring buffer reserve failures in eBPF (events dropped)"
        ("observer" ∷ [])
    ∷ new "tapio_malformed_events_total" "Malformed or truncated eBPF records dropped by userspace"
        ("observer" ∷ [])
    ∷ new "tapio_correlation_drops_total"
        "Events intentionally dropped because kernel correlation was ambiguous"
        ("observer" ∷ "reason" ∷ [])
    ∷ new "tapio_drain_cap_total" "Times ring buffer drain hit the per-tick cap" ("observer" ∷ [])
    ∷ new "tapio_sink_writes_total" "Total sink write attempts by result" ("sink" ∷ "result" ∷ [])
    ∷ new "tapio_sink_drops_total" "Total sink events dropped by sink and reason"
        ("sink" ∷ "reason" ∷ [])
    ∷ new "tapio_controller_send_failures_total" "Controller send failures by request kind"
        ("kind" ∷ [])
    ∷ new "tapio_config_fetch_total" "Controller config poll attempts by result" ("result" ∷ [])
    ∷ []

unfoldable pub encode : TapioMetrics → List ℕ
unfolding encode_one
encode [] = []
encode (counter ∷ counters) = encode_one counter ++ encode counters

abbrev crlf : List ℕ
crlf = 13 ∷ 10 ∷ []

abbrev requested : Option String → List ℕ
requested none = []
requested (some text) = unwrap_or (first_line (codes text)) []

abbrev not_found : List ℕ
not_found =
    codes "HTTP/1.1 404 Not Found"
    ++ (crlf
        ++ (codes "Content-Length: 9"
            ++ (crlf ++ (codes "Connection: close" ++ (crlf ++ (crlf ++ codes "not found"))))))

abbrev page : List ℕ → List ℕ
page body =
    codes "HTTP/1.1 200 OK"
    ++ (crlf
        ++ (codes "Content-Type: text/plain; version=0.0.4"
            ++ (crlf
                ++ (codes "Content-Length: "
                    ++ (codes (to_string (length (bytes_of body)))
                        ++ (crlf ++ (codes "Connection: close" ++ (crlf ++ (crlf ++ body)))))))))

-- What `serve_blocking` answers to the bytes that it has read of a request.
unfoldable pub respond : TapioMetrics → List ℕ → List ℕ
unfolding encode
respond metrics request =
    elim (strip_prefix (codes "GET /metrics ") (requested (from_utf8 request))) [
      | none ↦ not_found
      | some rest ↦ page (encode metrics)
    ]
