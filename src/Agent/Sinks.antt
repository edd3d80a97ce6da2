-- ===== src/Agent/Sinks.antt =====
-- The sinks of an agent: `create_sinks` and `MultiSink` of tapio-agent/src/main.rs, `FileSink` of
-- tapio-agent/src/sink/file.rs and `StdoutSink` of tapio-agent/src/sink/stdout.rs. The serializer, the file
-- system, the output, the environment and the build's features are parameters.
use Prim.Native.String.{◌++◌ as append}
use text.Mathlib.Text.{◌==◌ as str_eq}
use tapio.Prelude.{
  u64, ℕ, ◌+◌, String, Bool, List, [], ◌∷◌, Option, none, some, Result, ok, err, ◌>>=◌,
  if◌then◌else◌, is_empty, unwrap_or, map, leb, ◌&&◌,
}
use tapio.Prelude.Text.{codes, trim}
use tapio.Prelude.Strings.{codes_eq}
use tapio.Prelude.Split.{split_once, split}
use tapio.Prelude.Maps.{Map, lookup, insert}
use mathlib.Core.List.{reverse}
use tapio.Observer.Occurrence.{Occurrence}
use tapio.Observer.Convert.{SinkError, serialization, io}
use tapio.Agent.Args.{Args}
use tapio.Agent.Toml.{Otlp}
use tapio.Agent.OtlpRecords.{EndpointError, normalize_http_endpoint}

unfoldable pub node_name : (String → Option String) → String
node_name var = unwrap_or (var "TAPIO_NODE_NAME") (unwrap_or (var "HOSTNAME") "unknown-node")

unfoldable pub agent_id : (String → Option String) → String
unfolding node_name
agent_id var = unwrap_or (var "TAPIO_AGENT_ID") (append "node/" (node_name var))

-- What the controller sink is told of its controller.
pub record ControllerConfig : Type 0 where
  pub endpoint : String
  pub agent_id : String
  pub node_name : String
  pub poll_interval : ℕ
  pub heartbeat_interval : ℕ

-- A sink as it is created: its kind with what it is given.
pub data Created : Type 0 where
  stdout : Created
  file : String → Created
  http : String → ℕ → ℕ → Created
  controller : ControllerConfig → Created
  otlp : List ℕ → Option String → ℕ → ℕ → Created

pub data CreateError : Type 0 where
  needs_controller_endpoint needs_otlp_feature no_sink : CreateError
  unknown_sink : String → CreateError
  endpoint_refused : EndpointError → CreateError

abbrev with_endpoint : (String → Option String) → Args → Option String → Result CreateError Created
with_endpoint var args none = err needs_controller_endpoint
with_endpoint var args (some endpoint) = ok (
    controller (record {
      endpoint = endpoint;
      agent_id = agent_id var;
      node_name = node_name var;
      poll_interval = args.config_poll_interval;
      heartbeat_interval = args.heartbeat_interval;
    }))

abbrev otlp_sink : Otlp → Result EndpointError (List ℕ) → Result CreateError Created
otlp_sink cfg (err e) = err (endpoint_refused e)
otlp_sink cfg (ok endpoint) =
    ok (otlp endpoint cfg.auth_header cfg.batch_size cfg.flush_interval_secs)

-- The times of the HTTP sink are in seconds.
unfoldable pub create_sink :
    Bool → (String → Option String) → Args → Otlp → String → Result CreateError Created
unfolding agent_id
create_sink with_otlp var args cfg name =
    if str_eq name "stdout"
    then ok stdout
    else if str_eq name "file"
    then ok (file args.data_dir)
    else if str_eq name "http"
    then ok (http args.http_endpoint 100 1)
    else if str_eq name "controller"
    then with_endpoint var args args.controller_endpoint
    else if str_eq name "otlp"
    then (if with_otlp
        then otlp_sink cfg (normalize_http_endpoint (codes cfg.endpoint))
        else err needs_otlp_feature)
    else err (unknown_sink name)

unfoldable pub create_all :
    Bool → (String → Option String) → Args → Otlp → List String → Result CreateError (List Created)
unfolding create_sink
create_all with_otlp var args cfg [] = ok []
create_all with_otlp var args cfg (name ∷ names) = do
  created ← create_sink with_otlp var args cfg name
  rest ← create_all with_otlp var args cfg names
  ok (created ∷ rest)

abbrev some_sink : List Created → Result CreateError (List Created)
some_sink sinks = if is_empty sinks then err no_sink else ok sinks

unfoldable pub create_sinks :
    Bool → (String → Option String) → Args → Otlp → Result CreateError (List Created)
unfolding create_all
create_sinks with_otlp var args cfg = create_all with_otlp var args cfg args.sinks >>= some_sink

-- The two counters of `sink_writes_total`, by the sink's name.
pub record Writes : Type 0 where
  pub written : Map ℕ
  pub failed : Map ℕ

abbrev inc : String → Map ℕ → Map ℕ
inc name counter = insert name (u64 (unwrap_or (lookup name counter) 0 + 1)) counter

abbrev pub count_write : String → Result SinkError (Unit {0}) → Writes → Writes
count_write name (ok done) writes = record writes { written = inc name writes.written }
count_write name (err e) writes = record writes { failed = inc name writes.failed }

-- Without metrics nothing is counted.
abbrev pub count_if : String → Result SinkError (Unit {0}) → Option Writes → Option Writes
count_if name r none = none
count_if name r (some writes) = some (count_write name r writes)

abbrev pub last_error : Option SinkError → Result SinkError (Unit {0}) → Option SinkError
last_error last (ok done) = last
last_error last (err e) = some e

abbrev pub fan_out_result : Option SinkError → Result SinkError (Unit {0})
fan_out_result none = ok tt
fan_out_result (some e) = err e

-- What a fan-out leaves: the sinks, the counters, and the last error.
pub record FanOut (S : Type 0) : Type 0 where
  pub sinks : List S
  pub writes : Option Writes
  pub last_err : Option SinkError

module _ {S : Type 0} (name : S → String) (send : Occurrence → S → S × Result SinkError (Unit {0}))
    (flush : S → S × Result SinkError (Unit {0})) where
  -- The loop of `MultiSink::send`.
  unfoldable pub send_to : Occurrence → List S → Option Writes → Option SinkError → FanOut S
  send_to occurrence [] writes last_err = record {
    sinks = [];
    writes = writes;
    last_err = last_err;
  }
  send_to occurrence (s ∷ sinks) writes last_err =
      let sent = send occurrence s in
      let rest =
        send_to occurrence sinks (count_if (name s) sent.1 writes) (last_error last_err sent.1) in
      record rest { sinks = sent.0 ∷ rest.sinks }

  unfoldable pub multi_send :
      Occurrence → List S → Option Writes → FanOut S × Result SinkError (Unit {0})
  unfolding send_to
  multi_send occurrence sinks writes =
      let done = send_to occurrence sinks writes none in (done, fan_out_result done.last_err)

  -- The loop of `MultiSink::flush`, which counts nothing.
  unfoldable pub flush_each : List S → Option SinkError → List S × Option SinkError
  flush_each [] last_err = ([], last_err)
  flush_each (s ∷ sinks) last_err =
      let flushed = flush s in
      let rest = flush_each sinks (last_error last_err flushed.1) in (flushed.0 ∷ rest.0, rest.1)

  unfoldable pub multi_flush : List S → List S × Result SinkError (Unit {0})
  unfolding flush_each
  multi_flush sinks = let done = flush_each sinks none in (done.0, fan_out_result done.1)

abbrev io_error : {A : Type 0} → Result String A → Result SinkError A
io_error (ok a) = ok a
io_error (err e) = err (io e)

abbrev serialized : {A : Type 0} → Result String A → Result SinkError A
serialized (ok a) = ok a
serialized (err e) = err (serialization e)

-- `FileSink::send`: the directory is made if it is missing, and the occurrence written under its
-- identifier. The three calls of the file system say how they end.
unfoldable pub file_send :
    Bool
    → Result String (Unit {0})
    → (Occurrence → Result String (List ℕ))
    → (String → List ℕ → Result String (Unit {0}))
    → (String → String → String)
    → String
    → Occurrence
    → Result SinkError (Unit {0})
file_send dir_exists create_dir_all to_vec_pretty write join dir occurrence = do
  _ ← if dir_exists then ok tt else io_error create_dir_all
  bytes ← serialized (to_vec_pretty occurrence)
  io_error (write (join dir (append occurrence.id ".json")) bytes)

-- `StdoutSink::send`: a line of JSON.
unfoldable pub stdout_send :
    (Occurrence → Result String (List ℕ))
    → (List ℕ → Result String (Unit {0}))
    → Occurrence
    → Result SinkError (Unit {0})
stdout_send to_vec write_all occurrence = do
  buf ← serialized (to_vec occurrence)
  _ ← io_error (write_all buf)
  io_error (write_all (10 ∷ []))

-- The level of the log: that of the first directive, after its last equals sign.
pub data LevelFilter : Type 0 where
  off error warn info debug trace : LevelFilter

abbrev after_mark : List ℕ → Option (List ℕ × List ℕ) → List ℕ
after_mark part none = part
after_mark part (some (level, target)) = reverse level

abbrev level_part : List ℕ → List ℕ
level_part part = after_mark part (split_once b'=' (reverse part))

abbrev first_of : List (List ℕ) → List ℕ
first_of [] = []
first_of (part ∷ parts) = level_part part

abbrev to_ascii_lowercase : ℕ → ℕ
to_ascii_lowercase c = if leb b'A' c && leb c b'Z' then c + 32 else c

abbrev level_of : List ℕ → LevelFilter
level_of directive =
    if codes_eq directive (codes "trace")
    then trace
    else if codes_eq directive (codes "debug")
    then debug
    else if codes_eq directive (codes "info")
    then info
    else if codes_eq directive (codes "warn")
    then warn
    else if codes_eq directive (codes "error")
    then error
    else if codes_eq directive (codes "off")
    then off
    else error

unfoldable pub log_level_from_rust_log : Option (List ℕ) → LevelFilter
unfolding split split_once trim
log_level_from_rust_log none = error
log_level_from_rust_log (some value) =
    level_of (map to_ascii_lowercase (trim (first_of (split b',' value))))
