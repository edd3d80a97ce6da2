-- ===== src/Agent/Scenarios.antt =====
-- An agent that says hello to a controller, sends a buffer of events and reports a configuration.
use tapio.Prelude.{ℕ, List, ◌≡◌, refl, true, false, not, ◌&&◌, some, none, [], IsOk, is_empty}
use text.Mathlib.Text.{◌==◌ as str_eq}
use tapio.Prelude.Maps.{keys}
use tapio.Prelude.Text.{is_blank, trim, trim_start, is_whitespace}
use tapio.Wire.Types.{wire_version, HelloRequest, HelloResponse, CompiledConfig}
use tapio.Wire.Validate
use tapio.Wire.Validate.{default_v1}
use tapio.Wire.Types.{WireEvent}
use tapio.Agent.Posted.{posted_len}
use tapio.Agent.Sink.{Worker}
use tapio.Agent.Heartbeat.{HeartbeatSnapshot, build_heartbeat, observer_statuses}
use tapio.Agent.Tests.{event_to_vec, to_vec, worker, node_named, agent_named}
use tapio.Agent.Together.{build_heartbeat-converges}
use tapio.Controller.State.{InnerState, new, controller_id}
use tapio.Controller.Queries.{unconverged_agents, zero_heartbeat_counters}
use tapio.Controller.History.{heartbeat, step}
use tapio.Controller.Convergence.{has}

abbrev agent_hello : HelloRequest
agent_hello = record {
  wire_version = wire_version;
  agent_id = "agent-a";
  node_name = "node-a";
  tapio_version = "0.1.0";
  kernel_release = "6.1";
  arch = "x86_64";
  capabilities = [];
  object_sizes = [];
  map_counts = [];
}

abbrev welcome : HelloResponse
welcome = record {
  wire_version = wire_version;
  accepted = true;
  controller_id = controller_id;
  config_version = "1";
  send_interval_ms = 1000;
  max_batch_events = 256;
}

abbrev fresh : InnerState
fresh = new 10 default_v1

-- The worker leaves room for the names of its agent and its node.
abbrev careful : Worker
careful = record worker { max_request_bytes = 250_000 }

abbrev sent_len : List WireEvent → ℕ
sent_len batch = posted_len event_to_vec to_vec careful 7 9 batch

abbrev storage_off : CompiledConfig
storage_off = record default_v1.config {
  storage = record default_v1.config.storage { enabled = false };
}

abbrev snapshot : HeartbeatSnapshot
snapshot = record {
  agent_id = "agent-a";
  node_name = "node-a";
  uptime_seconds = 9;
  observers = observer_statuses none;
  counters = zero_heartbeat_counters;
  controller_mode = true;
  active_config = some (record { version = "7"; hash = "sha256:0a"; flags = 15 });
}

version_given : is_blank "7" ≡ false
unfolding is_blank trim trim_start is_whitespace
version_given = refl

observers_given : is_empty snapshot.observers ≡ false
unfolding observer_statuses
observers_given = refl

build_heartbeat-converges_example :
    IsOk (Validate.heartbeat_request (build_heartbeat snapshot))
    × (has
          (unconverged_agents "sha256:0a" (step fresh (heartbeat 30 (build_heartbeat snapshot))))
          "agent-a"
        ≡ (has (keys fresh.agents) "agent-a" && not (str_eq "sha256:0a" "sha256:0a")))
build_heartbeat-converges_example =
    build_heartbeat-converges 30 "sha256:0a" snapshot fresh agent_named node_named version_given
      observers_given
