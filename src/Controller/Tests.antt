-- ===== src/Controller/Tests.antt =====
-- A controller with one agent: tests of the operations and handlers, and the theorems at work.
use tapio.Prelude.{
  ℕ, ◌+◌, String, true, false, Option, some, none, List, [], ◌∷◌, ◌≡◌, refl, ◌↔◌, Result, ok, err,
  arith, is_ok, IsOk, u64_max,
}
use tapio.Prelude.Maps.{lookup}
use tapio.Prelude.Text.{is_blank, trim, trim_start, is_whitespace}
use tapio.Prelude.Strings.{split}
use tapio.Prelude.Decimal.{to_string}
use tapio.Wire.Types.{
  wire_version, HelloRequest, HelloResponse, HeartbeatRequest, EventBatchRequest, ConfigResponse,
  CompiledConfig, WireEvent, running, warning, object, field, end, str, missing_field,
}
use tapio.Wire.Facts.{reject_reasoning_fields, is_reasoning_key, join}
use tapio.Wire.Validate
use tapio.Wire.Validate.{required, each, validate_wire_version, bounded_nonzero}
use tapio.Wire.Accepted.{AcceptsBatch}
use tapio.Profile.Floats.{whole, whole-laws}
use tapio.Profile.Types.{EvidenceProfile}
use tapio.Profile.Validate.{
  validate, v0, validate_envelope, find_base, apply_network, apply_storage, apply_container,
  apply_codes, apply_node_pmc,
}
use tapio.Profile.Names.{valid_profile_name}
use tapio.Profile.Compile.{compile}
use tapio.Profile.Overrides.{plain}
use tapio.Controller.Sequence.{default, track, track_all}
use tapio.Controller.State.{
  InnerState, new, register_agent, record_event_batch, batch_limit, config_for,
}
use tapio.Controller.Queries.{zero_heartbeat_counters}
use tapio.Controller.Http.{config, wanted_config, query_param}
use tapio.Controller.Publish.{
  compile_profile_yaml, compile_profile_yaml-valid, config_response_from_compiled, config_hash,
}
use tapio.Controller.Startup.{initial_config}
use tapio.Controller.History.{
  Request, hello, heartbeat, events, step, run, total, accepts, refuses, events_in, one, Counted,
  run-new-Counted, tracked, lookup-run-tracked,
}
use tapio.Controller.Limits.{hello_limit-enforced, hello-restarts, batches, AllFrom}

abbrev compiled : CompiledConfig
compiled = record {
  network = record {
    enabled = true;
    rtt_spike_ratio = 2;
    rtt_spike_abs_us = 500_000;
    rtt_min_baseline_samples = 5;
    conn_refused_window_ns = 0;
    conn_refused_min_count = 0;
  };
  storage = record {
    enabled = true;
    slow_io_warning_ns = 50_000_000;
    slow_io_critical_ns = 200_000_000;
  };
  container = record { enabled = true; ignore_exit_codes = [] };
  node_pmc = record {
    enabled = true;
    stall_warning_permille = 200;
    stall_critical_permille = 400;
    ipc_degradation_milli = 1000;
  };
}

abbrev active : ConfigResponse
active = record {
  wire_version = wire_version;
  version = "7";
  config_hash = "sha256:0a";
  config = compiled;
  batching = record { send_interval_ms = 1000; max_batch_events = 2 };
}

abbrev agent_hello : HelloRequest
agent_hello = record {
  wire_version = wire_version;
  agent_id = "agent-a";
  node_name = "node-a";
  tapio_version = "0.1.0";
  kernel_release = "6.1";
  arch = "x86_64";
  capabilities = [];
  object_sizes = [];
  map_counts = [];
}

abbrev agent_heartbeat : HeartbeatRequest
agent_heartbeat = record {
  wire_version = wire_version;
  agent_id = "agent-a";
  node_name = "node-a";
  config_version = "7";
  config_hash = "sha256:0a";
  uptime_seconds = 9;
  observers = ("network", running) ∷ [];
  counters = zero_heartbeat_counters;
  degraded_reasons = [];
}

abbrev oom_kill : WireEvent
oom_kill = record {
  event_type = "kernel.container.oom_kill";
  timestamp_unix_nanos = 5;
  observer = "container";
  severity = warning;
  facts = object (field "pid" (str "7") end);
}

abbrev batch : ℕ → List WireEvent → EventBatchRequest
batch n es = record {
  wire_version = wire_version;
  agent_id = "agent-a";
  node_name = "node-a";
  sequence = n;
  sent_at_unix_nanos = 6;
  events = es;
}

abbrev single : ℕ → EventBatchRequest
single n = batch n (oom_kill ∷ [])

abbrev oversized : EventBatchRequest
oversized = batch 13 (oom_kill ∷ oom_kill ∷ oom_kill ∷ [])

abbrev fresh : InnerState
fresh = new 10 active

abbrev history : List Request
history =
    hello 20 agent_hello
    ∷ events (single 10)
    ∷ events (single 12)
    ∷ events oversized
    ∷ heartbeat 30 agent_heartbeat
    ∷ []

hello-IsOk : IsOk (Validate.hello_request agent_hello)
unfolding Validate.hello_request validate_wire_version required is_blank trim trim_start
    is_whitespace
hello-IsOk = refl

heartbeat-IsOk : IsOk (Validate.heartbeat_request agent_heartbeat)
unfolding Validate.heartbeat_request validate_wire_version required is_blank trim trim_start
    is_whitespace
heartbeat-IsOk = refl

single_accepted : accepts 2 (single 10) ≡ true
unfolding Validate.event_batch Validate.wire_event validate_wire_version required is_blank trim
    trim_start is_whitespace each reject_reasoning_fields is_reasoning_key join
single_accepted = refl

later_accepted : accepts 2 (single 12) ≡ true
unfolding Validate.event_batch Validate.wire_event validate_wire_version required is_blank trim
    trim_start is_whitespace each reject_reasoning_fields is_reasoning_key join
later_accepted = refl

oversized_refused : accepts 2 oversized ≡ false
unfolding Validate.event_batch Validate.wire_event validate_wire_version required is_blank trim
    trim_start is_whitespace each
oversized_refused = refl

abbrev welcome : HelloResponse
welcome = record {
  wire_version = wire_version;
  accepted = true;
  controller_id = "tapio-controller/default";
  config_version = "7";
  send_interval_ms = 1000;
  max_batch_events = 2;
}

hello_welcome : (register_agent 20 agent_hello fresh).1 ≡ ok welcome
unfolding new register_agent Validate.from_config Validate.hello_request validate_wire_version
    required is_blank trim trim_start is_whitespace
hello_welcome = refl

gap_counted :
    track_all default (10 ∷ 12 ∷ 11 ∷ [])
    ≡ record { last_seen = some 12; gaps_total = 1; regressions_total = 1 }
unfolding track_all track
gap_counted = refl

-- The last number of all counts as the next one when it comes again.
largest_repeated :
    track_all default (u64_max ∷ u64_max ∷ [])
    ≡ record { last_seen = some u64_max; gaps_total = 0; regressions_total = 0 }
unfolding track_all track
largest_repeated = refl

abbrev wanted : Option String
wanted = some "agent_id=agent-a&node_name=node-a"

wanted_found : wanted_config wanted fresh ≡ ok active
unfolding wanted_config query_param split is_blank trim trim_start is_whitespace config_for new
wanted_found = refl

no_node : wanted_config (some "agent_id=agent-a") fresh ≡ err (missing_field "node_name")
unfolding wanted_config query_param split is_blank trim trim_start is_whitespace config_for new
no_node = refl

hello_limit-enforced_example :
    (is_ok (record_event_batch (single 10) (run (step fresh (hello 20 agent_hello)) history)).1
      ≡ true)
    ↔ AcceptsBatch 2 (single 10)
hello_limit-enforced_example =
    hello_limit-enforced 20 agent_hello fresh welcome history (single 10) hello_welcome

abbrev sent : List EventBatchRequest
sent = single 12 ∷ single 15 ∷ []

sent_accepted : AllFrom (batch_limit fresh) "agent-a" (single 10 ∷ sent)
unfolding batch_limit new Validate.event_batch Validate.wire_event validate_wire_version required
    is_blank trim trim_start is_whitespace each reject_reasoning_fields is_reasoning_key join
sent_accepted = ((refl, refl), ((refl, refl), ((refl, refl), tt)))

hello-restarts_example :
    let t = track_all default (10 ∷ 12 ∷ 15 ∷ []) in
    (lookup "agent-a" (run fresh (hello 20 agent_hello ∷ batches (single 10 ∷ sent))).sequences
      ≡ some t)
    × (t.regressions_total ≡ 0)
    × (10 + 2 + t.gaps_total ≡ 15)
hello-restarts_example =
    hello-restarts 20 agent_hello fresh (single 10) sent hello-IsOk sent_accepted (omega arith)
      (omega arith, (omega arith, tt)) (omega arith, (omega arith, tt))

run-new-Counted_example :
    Counted
      (total (accepts 2) events_in history)
      (total (refuses 2) events_in history)
      (total (accepts 2) one history)
      (total (refuses 2) one history)
      (run (new 10 active) history)
run-new-Counted_example = run-new-Counted 10 active history

lookup-run-tracked_example :
    lookup "agent-a" (run fresh history).sequences
    ≡ tracked (batch_limit fresh) "agent-a" (lookup "agent-a" fresh.sequences) history
lookup-run-tracked_example = lookup-run-tracked history fresh "agent-a"

never_heard : lookup "agent-a" (step fresh (hello 20 agent_hello)).last_heartbeats ≡ none
unfolding step register_agent new lookup
never_heard = ground (arith, hello-IsOk)

-- A parser that knows one document, a serializer of the empty text and a digest of one byte.
abbrev from_str : String → Result String (EvidenceProfile ℕ)
from_str yaml = ok (plain "production-default")

abbrev to_vec : CompiledConfig → Result String (List ℕ)
to_vec config = ok []

abbrev sha256 : List ℕ → List ℕ
sha256 bytes = 10 ∷ []

abbrev published : ConfigResponse
published = record {
  wire_version = wire_version;
  version = "7";
  config_hash = "sha256:0a";
  config = compiled;
  batching = record { send_interval_ms = 1000; max_batch_events = 256 };
}

default_compiles : compile_profile_yaml from_str "" none ≡ ok compiled
unfolding compile_profile_yaml compile validate v0 validate_envelope find_base apply_network
    apply_storage apply_container apply_codes apply_node_pmc lookup valid_profile_name
default_compiles = refl

default_published : config_response_from_compiled to_vec sha256 compiled 7 ≡ ok published
unfolding config_response_from_compiled config_hash to_string
default_published = refl

compile_profile_yaml-valid_example : IsOk (Validate.config_response published)
compile_profile_yaml-valid_example =
    compile_profile_yaml-valid whole-laws from_str to_vec sha256 "" none compiled 7 published
      default_compiles default_published

abbrev read_to_string : String → Result String String
read_to_string path = ok ""

abbrev first_published : ConfigResponse
first_published = record published { version = "1" }

starts :
    initial_config from_str to_vec sha256 read_to_string (some "profile.yaml") ≡ ok first_published
unfolding initial_config compile_profile_yaml compile validate v0 validate_envelope find_base
    apply_network apply_storage apply_container apply_codes apply_node_pmc lookup valid_profile_name
    config_response_from_compiled config_hash to_string
starts = refl
