-- ===== src/Wire/Types.antt =====
-- The message structs of tapio-wire/src/lib.rs and tapio-wire/src/config.rs.
-- A JSON number, which no code here reads, is kept by its spelling.
use tapio.Prelude.{ℕ, String, Bool, List, Option, Result}
use tapio.Prelude.Maps.{Map}
use tapio.Prelude.Int.{ℤ}

abbrev pub wire_version : String
wire_version = "tapio-wire/v1"

pub data WireError : Type 0 where
  unsupported_version : String → WireError
  missing_field : String → WireError
  invalid_field : String → String → WireError
  reasoning_field : String → WireError

abbrev pub WireResult {ℓ} : Type ℓ → Type ℓ
WireResult A = Result WireError A

pub record HelloRequest : Type 0 where
  pub wire_version : String
  pub agent_id : String
  pub node_name : String
  pub tapio_version : String
  pub kernel_release : String
  pub arch : String
  pub capabilities : List String
  pub object_sizes : Map ℕ
  pub map_counts : Map ℕ

pub record HelloResponse : Type 0 where
  pub wire_version : String
  pub accepted : Bool
  pub controller_id : String
  pub config_version : String
  pub send_interval_ms : ℕ
  pub max_batch_events : ℕ

pub record CompiledNetwork : Type 0 where
  pub enabled : Bool
  pub rtt_spike_ratio : ℕ
  pub rtt_spike_abs_us : ℕ
  pub rtt_min_baseline_samples : ℕ
  pub conn_refused_window_ns : ℕ
  pub conn_refused_min_count : ℕ

pub record CompiledStorage : Type 0 where
  pub enabled : Bool
  pub slow_io_warning_ns : ℕ
  pub slow_io_critical_ns : ℕ

pub record CompiledContainer : Type 0 where
  pub enabled : Bool
  pub ignore_exit_codes : List ℤ

pub record CompiledNodePmc : Type 0 where
  pub enabled : Bool
  pub stall_warning_permille : ℕ
  pub stall_critical_permille : ℕ
  pub ipc_degradation_milli : ℕ

pub record CompiledConfig : Type 0 where
  pub network : CompiledNetwork
  pub storage : CompiledStorage
  pub container : CompiledContainer
  pub node_pmc : CompiledNodePmc

pub record BatchingConfig : Type 0 where
  pub send_interval_ms : ℕ
  pub max_batch_events : ℕ

pub record ConfigResponse : Type 0 where
  pub wire_version : String
  pub version : String
  pub config_hash : String
  pub config : CompiledConfig
  pub batching : BatchingConfig

pub data ObserverStatus : Type 0 where
  running disabled degraded failed : ObserverStatus

pub data DegradedReason : Type 0 where
  unconfigured unknown : DegradedReason

pub record HeartbeatCounters : Type 0 where
  pub events_total : ℕ
  pub malformed_events_total : ℕ
  pub lost_events_total : ℕ
  pub correlation_drops_total : ℕ
  pub sink_drops_total : ℕ
  pub controller_send_failures_total : ℕ

pub record HeartbeatRequest : Type 0 where
  pub wire_version : String
  pub agent_id : String
  pub node_name : String
  pub config_version : String
  pub config_hash : String
  pub uptime_seconds : ℕ
  pub observers : Map ObserverStatus
  pub counters : HeartbeatCounters
  pub degraded_reasons : List DegradedReason

pub record HeartbeatResponse : Type 0 where
  pub wire_version : String
  pub accepted : Bool
  pub next_config_version : String

pub data EventSeverity : Type 0 where
  debug info warning error critical : EventSeverity

-- `serde_json::Value`; an object lists its entries in the order of the map's iteration.
mutual
  pub data Value : Type 0 where
    null : Value
    boolean : Bool → Value
    number : String → Value
    str : String → Value
    array : Items → Value
    object : Fields → Value

  pub data Items : Type 0 where
    nil : Items
    item : Value → Items → Items

  pub data Fields : Type 0 where
    end : Fields
    field : String → Value → Fields → Fields

pub record WireEvent : Type 0 where
  pub event_type : String
  pub timestamp_unix_nanos : ℕ
  pub observer : String
  pub severity : EventSeverity
  pub facts : Value

pub record EventBatchRequest : Type 0 where
  pub wire_version : String
  pub agent_id : String
  pub node_name : String
  pub sequence : ℕ
  pub sent_at_unix_nanos : ℕ
  pub events : List WireEvent

pub record EventBatchResponse : Type 0 where
  pub wire_version : String
  pub accepted : ℕ
  pub rejected : ℕ
  pub next_config_version : String

pub record StatusConfig : Type 0 where
  pub version : String
  pub config_hash : String

pub record StatusTotals : Type 0 where
  pub accepted_events_total : ℕ
  pub rejected_events_total : ℕ
  pub batches_accepted_total : ℕ
  pub batches_rejected_total : ℕ

pub record SequenceStatus : Type 0 where
  pub last_seen : Option ℕ
  pub gaps_total : ℕ
  pub regressions_total : ℕ

pub record AgentStatus : Type 0 where
  pub agent_id : String
  pub node_name : String
  pub tapio_version : String
  pub registered_at_unix : ℕ
  pub last_heartbeat_age_seconds : Option ℕ
  pub reported_config_version : String
  pub reported_counters : HeartbeatCounters
  pub observers : Map ObserverStatus
  pub sequence : SequenceStatus

pub record StatusResponse : Type 0 where
  pub wire_version : String
  pub controller_id : String
  pub started_at_unix : ℕ
  pub config : StatusConfig
  pub totals : StatusTotals
  pub agents : List AgentStatus
