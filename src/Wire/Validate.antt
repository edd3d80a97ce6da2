-- ===== src/Wire/Validate.antt =====
-- The `validate` methods of tapio-wire/src/lib.rs, with the checks in their order.
use text.Mathlib.Text.{◌==◌ as str_eq, starts_with}
use tapio.Prelude.{
  ℕ, String, true, not, List, [], ◌∷◌, ok, err, ◌>>◌, if◌then◌else◌, ltb, ◌==◌, length, is_empty,
}
use tapio.Prelude.Text.{is_blank}
use tapio.Wire.Types.{
  unsupported_version, missing_field, invalid_field, WireResult, wire_version, HelloRequest,
  HelloResponse, ConfigResponse, HeartbeatRequest, HeartbeatResponse, WireEvent, EventBatchRequest,
  EventBatchResponse, StatusConfig, AgentStatus, StatusResponse,
}
use tapio.Wire.Facts.{reject_reasoning_fields}

unfoldable pub validate_wire_version : String → WireResult (Unit {0})
validate_wire_version version =
    if str_eq version wire_version then ok tt else err (unsupported_version version)

unfoldable pub required : String → String → WireResult (Unit {0})
required field value = if is_blank value then err (missing_field field) else ok tt

unfoldable pub bounded_nonzero : String → ℕ → WireResult (Unit {0})
bounded_nonzero field value =
    if value == 0 then err (invalid_field field "must be greater than zero") else ok tt

-- `event.validate()?` for each event of a batch.
unfoldable pub each {ℓ} :
    {A : Type ℓ} → (A → WireResult (Unit {0})) → List A → WireResult (Unit {0})
each check [] = ok tt
each check (x ∷ xs) = check x >> each check xs

unfoldable pub hello_request : HelloRequest → WireResult (Unit {0})
hello_request r = do
  validate_wire_version r.wire_version
  required "agent_id" r.agent_id
  required "node_name" r.node_name
  required "tapio_version" r.tapio_version
  required "kernel_release" r.kernel_release
  required "arch" r.arch

-- The accepted hello response, with the limits and the version of the active configuration.
unfoldable pub from_config : String → ConfigResponse → HelloResponse
from_config controller_id config = record {
  wire_version = wire_version;
  accepted = true;
  controller_id = controller_id;
  config_version = config.version;
  send_interval_ms = config.batching.send_interval_ms;
  max_batch_events = config.batching.max_batch_events;
}

unfoldable pub hello_response : HelloResponse → WireResult (Unit {0})
hello_response r = do
  validate_wire_version r.wire_version
  required "controller_id" r.controller_id
  required "config_version" r.config_version
  bounded_nonzero "send_interval_ms" r.send_interval_ms
  bounded_nonzero "max_batch_events" r.max_batch_events

-- `ConfigResponse::default_v1`.
unfoldable pub default_v1 : ConfigResponse
default_v1 = record {
  wire_version = wire_version;
  version = "1";
  config_hash = "";
  config = record {
    network = record {
      enabled = true;
      rtt_spike_ratio = 2;
      rtt_spike_abs_us = 500_000;
      rtt_min_baseline_samples = 5;
      conn_refused_window_ns = 0;
      conn_refused_min_count = 0;
    };
    storage = record {
      enabled = true;
      slow_io_warning_ns = 50_000_000;
      slow_io_critical_ns = 200_000_000;
    };
    container = record { enabled = true; ignore_exit_codes = [] };
    node_pmc = record {
      enabled = true;
      stall_warning_permille = 200;
      stall_critical_permille = 400;
      ipc_degradation_milli = 1000;
    };
  };
  batching = record { send_interval_ms = 1000; max_batch_events = 256 };
}

unfoldable pub config_response : ConfigResponse → WireResult (Unit {0})
config_response r = do
  validate_wire_version r.wire_version
  required "version" r.version
  bounded_nonzero "config.storage.slow_io_warning_ns" r.config.storage.slow_io_warning_ns
  bounded_nonzero "config.storage.slow_io_critical_ns" r.config.storage.slow_io_critical_ns
  bounded_nonzero "batching.send_interval_ms" r.batching.send_interval_ms
  bounded_nonzero "batching.max_batch_events" r.batching.max_batch_events

unfoldable pub heartbeat_request : HeartbeatRequest → WireResult (Unit {0})
heartbeat_request r = do
  validate_wire_version r.wire_version
  required "agent_id" r.agent_id
  required "node_name" r.node_name
  required "config_version" r.config_version
  if is_empty r.observers then err (missing_field "observers") else ok tt

-- `HeartbeatResponse::accepted`.
unfoldable pub heartbeat_accepted : String → HeartbeatResponse
heartbeat_accepted next_config_version = record {
  wire_version = wire_version;
  accepted = true;
  next_config_version = next_config_version;
}

unfoldable pub heartbeat_response : HeartbeatResponse → WireResult (Unit {0})
heartbeat_response r = do
  validate_wire_version r.wire_version
  required "next_config_version" r.next_config_version

unfoldable pub wire_event : WireEvent → WireResult (Unit {0})
wire_event e = do
  required "type" e.event_type
  required "observer" e.observer
  if not (starts_with e.event_type "kernel.")
      then err (invalid_field "type" "must be a kernel.* event")
      else reject_reasoning_fields "$" e.facts

unfoldable pub event_batch : ℕ → EventBatchRequest → WireResult (Unit {0})
event_batch max_batch_events r = do
  validate_wire_version r.wire_version
  required "agent_id" r.agent_id
  required "node_name" r.node_name
  if is_empty r.events then err (missing_field "events") else ok tt
  if ltb max_batch_events (length r.events)
      then err (invalid_field "events" "batch exceeds max_batch_events")
      else ok tt
  each wire_event r.events

unfoldable pub event_batch_response : EventBatchResponse → WireResult (Unit {0})
event_batch_response r = do
  validate_wire_version r.wire_version
  required "next_config_version" r.next_config_version

unfoldable pub status_config : StatusConfig → WireResult (Unit {0})
status_config c = required "config.version" c.version

unfoldable pub agent_status : AgentStatus → WireResult (Unit {0})
agent_status a = do
  required "agent_id" a.agent_id
  required "node_name" a.node_name
  required "tapio_version" a.tapio_version

unfoldable pub status_response : StatusResponse → WireResult (Unit {0})
status_response r = do
  validate_wire_version r.wire_version
  required "controller_id" r.controller_id
  status_config r.config
  each agent_status r.agents
