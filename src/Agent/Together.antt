-- ===== src/Agent/Together.antt =====
-- An agent and its controller together: what tapio-agent/src/registration.rs takes from a hello is
-- enough for tapio-controller/src/lib.rs to accept what tapio-agent/src/sink/controller.rs sends, and
-- what tapio-agent/src/heartbeat.rs reports is what the controller lists.
use tapio.Prelude.{
  ℕ, ◌≡◌, refl, String, Bool, false, not, ◌&&◌, some, IsOk, arith, is_empty, if◌then◌else◌,
}
use text.Mathlib.Text.{◌==◌ as str_eq}
use tapio.Prelude.Maps.{lookup, keys}
use tapio.Prelude.Text.{is_blank}
use tapio.Wire.Types.{ObserverStatus, running, disabled, CompiledConfig}
use tapio.Wire.Validate
use tapio.Wire.Accepted.{heartbeat_request-IsOk}
use tapio.Agent.Heartbeat.{
  HeartbeatSnapshot, build_heartbeat, observer_statuses, hash_of, version_of,
}
use tapio.Agent.Config.{carried}
use tapio.Controller.State.{InnerState}
use tapio.Controller.Queries.{unconverged_agents}
use tapio.Controller.History.{heartbeat, step}
use tapio.Controller.Convergence.{has, unconverged_agents-heartbeat}

abbrev pub expected_status : Bool → ObserverStatus
expected_status enabled = if enabled then running else disabled

-- An agent that applied a configuration reports each observer as running exactly where the
-- configuration switches it on.
pub observer_statuses-carried :
    (c : CompiledConfig) (generation : ℕ) (version hash : String)
    → let statuses =
        observer_statuses (
          some (record { version = version; hash = hash; flags = (carried c generation).flags })) in
      (lookup "network" statuses ≡ some (expected_status c.network.enabled))
      × (lookup "storage" statuses ≡ some (expected_status c.storage.enabled))
      × (lookup "container" statuses ≡ some (expected_status c.container.enabled))
      × (lookup "node" statuses ≡ some (expected_status c.node_pmc.enabled))
unfolding observer_statuses lookup carried
observer_statuses-carried c generation version hash =
    (ground arith, ground arith, ground arith, ground arith)

-- A heartbeat that an agent builds, for an agent and a node that are not blank, any applied
-- version that is not blank and at least one observer, is accepted; right after it, the agent is
-- listed as unconverged exactly when it is registered and the hash that it applied is not the
-- target.
pub build_heartbeat-converges :
    (seen : ℕ) (target_hash : String) (s : HeartbeatSnapshot) (inner : InnerState)
    → is_blank s.agent_id ≡ false
    → is_blank s.node_name ≡ false
    → is_blank (version_of s.active_config) ≡ false
    → is_empty s.observers ≡ false
    → IsOk (Validate.heartbeat_request (build_heartbeat s))
      × (has
            (unconverged_agents target_hash (step inner (heartbeat seen (build_heartbeat s))))
            s.agent_id
          ≡ (has (keys inner.agents) s.agent_id
              && not (str_eq (hash_of s.active_config) target_hash)))
unfolding build_heartbeat
build_heartbeat-converges seen target_hash s inner a n v o =
    let valid : IsOk (Validate.heartbeat_request (build_heartbeat s)) =
      heartbeat_request-IsOk (build_heartbeat s) refl a n v o in
    (valid, unconverged_agents-heartbeat seen target_hash (build_heartbeat s) inner valid)
