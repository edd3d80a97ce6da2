-- ===== src/Agent/Heartbeat.antt =====
-- What an agent keeps of its controller and what it reports: `ControllerState` of
-- tapio-agent/src/controller.rs, an accepted hello in tapio-agent/src/registration.rs, and
-- `build_heartbeat` and `observer_statuses` of tapio-agent/src/heartbeat.rs.
use Prim.Native.Nat.{max}
use tapio.Prelude.{
  ℕ, String, Bool, true, false, ◌&&◌, Option, none, some, List, [], ◌∷◌, if◌then◌else◌,
}
use tapio.Prelude.Maps.{Map, insert}
use tapio.Wire.Types.{
  wire_version, HelloResponse, HeartbeatRequest, HeartbeatCounters, ObserverStatus, running,
  disabled, unconfigured,
}
use tapio.Agent.Config.{
  tapio_f_network, tapio_f_storage, tapio_f_container, tapio_f_node_pmc, has_flag,
}

pub record ControllerState : Type 0 where
  pub config_version : String
  pub send_interval_ms : ℕ
  pub max_batch_events : ℕ

-- `ControllerState::new`.
unfoldable pub initial : String → ControllerState
initial config_version = record {
  config_version = config_version;
  send_interval_ms = 1000;
  max_batch_events = 256;
}

unfoldable pub set_config_version : String → ControllerState → ControllerState
set_config_version version state = record state { config_version = version }

unfoldable pub set_batching : ℕ → ℕ → ControllerState → ControllerState
set_batching send_interval_ms max_batch_events state = record state {
  send_interval_ms = max send_interval_ms 1;
  max_batch_events = max max_batch_events 1;
}

-- A hello response in the registration loop: one that is not accepted changes nothing.
unfoldable pub take_hello : HelloResponse → ControllerState → ControllerState
unfolding set_config_version set_batching
take_hello response state =
    if response.accepted
    then set_config_version response.config_version
        (set_batching response.send_interval_ms response.max_batch_events state)
    else state

pub record AppliedConfigIdentity : Type 0 where
  pub version : String
  pub hash : String
  pub flags : ℕ

abbrev pub observers : List (String × ℕ)
observers =
    ("network", tapio_f_network)
    ∷ ("storage", tapio_f_storage)
    ∷ ("container", tapio_f_container)
    ∷ ("node", tapio_f_node_pmc)
    ∷ []

abbrev pub status_of : Option AppliedConfigIdentity → ℕ → ObserverStatus
status_of none flag = disabled
status_of (some config) flag = if has_flag config.flags flag then running else disabled

abbrev collect :
    Option AppliedConfigIdentity → List (String × ℕ) → Map ObserverStatus → Map ObserverStatus
collect active_config [] statuses = statuses
collect active_config ((observer, flag) ∷ rest) statuses =
    collect active_config rest (insert observer (status_of active_config flag) statuses)

unfoldable pub observer_statuses : Option AppliedConfigIdentity → Map ObserverStatus
unfolding insert
observer_statuses active_config = collect active_config observers []

pub record HeartbeatSnapshot : Type 0 where
  pub agent_id : String
  pub node_name : String
  pub uptime_seconds : ℕ
  pub observers : Map ObserverStatus
  pub counters : HeartbeatCounters
  pub controller_mode : Bool
  pub active_config : Option AppliedConfigIdentity

abbrev pub is_none : Option AppliedConfigIdentity → Bool
is_none none = true
is_none (some config) = false

abbrev pub version_of : Option AppliedConfigIdentity → String
version_of none = "0"
version_of (some config) = config.version

abbrev pub hash_of : Option AppliedConfigIdentity → String
hash_of none = ""
hash_of (some config) = config.hash

unfoldable pub build_heartbeat : HeartbeatSnapshot → HeartbeatRequest
build_heartbeat snapshot = record {
  wire_version = wire_version;
  agent_id = snapshot.agent_id;
  node_name = snapshot.node_name;
  config_version = version_of snapshot.active_config;
  config_hash = hash_of snapshot.active_config;
  uptime_seconds = snapshot.uptime_seconds;
  observers = snapshot.observers;
  counters = snapshot.counters;
  degraded_reasons =
      if snapshot.controller_mode && is_none snapshot.active_config then unconfigured ∷ [] else [];
}
