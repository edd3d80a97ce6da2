-- ===== src/Controller/Queries.antt =====
-- The read-only methods of `ControllerState` in tapio-controller/src/lib.rs.
use text.Mathlib.Text.{◌==◌ as str_eq}
use tapio.Prelude.{
  ℕ, String, Bool, not, Option, none, some, List, [], ◌∷◌, ltb, length, is_none_or, unwrap_or,
  and_then, keep,
}
use tapio.Prelude.Maps.{Map, lookup, keys}
use tapio.Wire.Types.{wire_version, HeartbeatCounters, AgentStatus, StatusResponse}
use tapio.Controller.Clock.{SystemTime, duration_since, seconds_or_zero, unix_seconds}
use tapio.Controller.Sequence.{default}
use tapio.Controller.State.{InnerState, RegisteredAgent, StoredHeartbeat, controller_id}

unfoldable pub agent_count : InnerState → ℕ
agent_count inner = length inner.agents

unfoldable pub last_heartbeat : String → InnerState → Option StoredHeartbeat
last_heartbeat agent_id inner = lookup agent_id inner.last_heartbeats

-- The age of a heartbeat; none if there is no heartbeat or it lies in the future.
unfoldable pub heartbeat_age : SystemTime → String → InnerState → Option ℕ
unfolding duration_since
heartbeat_age now agent_id inner =
    and_then (lookup agent_id inner.last_heartbeats)
      (λ heartbeat. duration_since now heartbeat.seen_at)

abbrev pub is_stale : SystemTime → ℕ → InnerState → String → Bool
is_stale now max_age inner agent_id =
    is_none_or (heartbeat_age now agent_id inner) (λ age. ltb max_age age)

unfoldable pub stale_agents : SystemTime → ℕ → InnerState → List String
stale_agents now max_age inner = keep (is_stale now max_age inner) (keys inner.agents)

abbrev pub is_unconverged : String → InnerState → String → Bool
is_unconverged target_hash inner agent_id =
    is_none_or (lookup agent_id inner.last_heartbeats)
      (λ stored. not (str_eq stored.heartbeat.config_hash target_hash))

unfoldable pub unconverged_agents : String → InnerState → List String
unconverged_agents target_hash inner = keep (is_unconverged target_hash inner) (keys inner.agents)

pub record EventBatchOutcome : Type 0 where
  pub accepted : ℕ
  pub rejected : ℕ

unfoldable pub event_totals : InnerState → EventBatchOutcome
event_totals inner = record {
  accepted = inner.accepted_events_total;
  rejected = inner.rejected_events_total;
}

abbrev pub zero_heartbeat_counters : HeartbeatCounters
zero_heartbeat_counters = record {
  events_total = 0;
  malformed_events_total = 0;
  lost_events_total = 0;
  correlation_drops_total = 0;
  sink_drops_total = 0;
  controller_send_failures_total = 0;
}

-- Seconds since the heartbeat, 0 if it lies in the future.
abbrev pub age_seconds : SystemTime → Option StoredHeartbeat → Option ℕ
age_seconds now none = none
age_seconds now (some stored) = some (seconds_or_zero (duration_since now stored.seen_at))

abbrev pub reported {ℓ} : {A : Type ℓ} → (StoredHeartbeat → A) → A → Option StoredHeartbeat → A
reported field d none = d
reported field d (some stored) = field stored

unfoldable pub agent_row :
    SystemTime → SystemTime → InnerState → String → RegisteredAgent → AgentStatus
unfolding unix_seconds duration_since
agent_row unix_epoch now inner agent_id registered =
    let heartbeat = lookup agent_id inner.last_heartbeats in
    let sequence = unwrap_or (lookup agent_id inner.sequences) default in
    record {
      agent_id = registered.hello.agent_id;
      node_name = registered.hello.node_name;
      tapio_version = registered.hello.tapio_version;
      registered_at_unix = unix_seconds unix_epoch registered.registered_at;
      last_heartbeat_age_seconds = age_seconds now heartbeat;
      reported_config_version = reported (λ s. s.heartbeat.config_version) "" heartbeat;
      reported_counters = reported (λ s. s.heartbeat.counters) zero_heartbeat_counters heartbeat;
      observers = reported (λ s. s.heartbeat.observers) [] heartbeat;
      sequence = record {
        last_seen = sequence.last_seen;
        gaps_total = sequence.gaps_total;
        regressions_total = sequence.regressions_total;
      };
    }

abbrev pub rows : SystemTime → SystemTime → InnerState → Map RegisteredAgent → List AgentStatus
rows unix_epoch now inner [] = []
rows unix_epoch now inner ((agent_id, registered) ∷ agents) =
    agent_row unix_epoch now inner agent_id registered ∷ rows unix_epoch now inner agents

unfoldable pub status : SystemTime → SystemTime → InnerState → StatusResponse
unfolding agent_row
status unix_epoch now inner = record {
  wire_version = wire_version;
  controller_id = controller_id;
  started_at_unix = unix_seconds unix_epoch inner.started_at;
  config = record { version = inner.config.version; config_hash = inner.config.config_hash };
  totals = record {
    accepted_events_total = inner.accepted_events_total;
    rejected_events_total = inner.rejected_events_total;
    batches_accepted_total = inner.batches_accepted_total;
    batches_rejected_total = inner.batches_rejected_total;
  };
  agents = rows unix_epoch now inner inner.agents;
}
