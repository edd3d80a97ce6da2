-- ===== src/Observer/Anomaly.antt =====
-- The `ClassifiedAnomaly` of the four observers, the anomaly types of tapio-common/src/events.rs, and the
-- JSON objects of the facts.
use Prim.Native.Nat.{Ordering}
use Prim.Native.String.{compare, ◌++◌}
use tapio.Prelude.{ℕ, String, List, [], ◌∷◌, if◌then◌else◌}
use tapio.Prelude.Decimal.{to_string}
use tapio.Wire.Types.{Value, number, null, Fields, end, field}
use tapio.Profile.Floats.{FloatOps}
use tapio.Observer.Occurrence.{Severity, Outcome}

abbrev pub network_connection_refused : String
network_connection_refused = "kernel.network.connection_refused"

abbrev pub network_connection_timeout : String
network_connection_timeout = "kernel.network.connection_timeout"

abbrev pub network_retransmit_spike : String
network_retransmit_spike = "kernel.network.retransmit_spike"

abbrev pub network_rtt_degradation : String
network_rtt_degradation = "kernel.network.rtt_degradation"

abbrev pub container_oom_kill : String
container_oom_kill = "kernel.container.oom_kill"

abbrev pub container_abnormal_exit : String
container_abnormal_exit = "kernel.container.abnormal_exit"

abbrev pub storage_io_error : String
storage_io_error = "kernel.storage.io_error"

abbrev pub storage_latency_spike : String
storage_latency_spike = "kernel.storage.latency_spike"

abbrev pub node_cpu_stall : String
node_cpu_stall = "kernel.node.cpu_stall"

abbrev pub node_memory_pressure : String
node_memory_pressure = "kernel.node.memory_pressure"

abbrev pub node_ipc_degradation : String
node_ipc_degradation = "kernel.node.ipc_degradation"

-- That of the storage, the container and the node observer.
pub record ClassifiedAnomaly : Type 0 where
  pub event_type : String
  pub severity : Severity
  pub outcome : Outcome
  pub error_code : String
  pub error_message : String

-- `map.insert` on the sorted map of a JSON object.
unfoldable pub insert : String → Value → Fields → Fields
insert key value end = field key value end
insert key value (field k v map) =
    let rest = insert key value map in
    elim (compare key k) [
      | Ordering.lt ↦ field key value (field k v map)
      | Ordering.eq ↦ field k value map
      | Ordering.gt ↦ field k v rest
    ]

-- `json!` of an object, its entries inserted in their order.
unfoldable pub entries : List (String × Value) → Fields → Fields
unfolding insert
entries [] map = map
entries ((key, value) ∷ rest) map = entries rest (insert key value map)

-- A number of the facts.
abbrev pub num : ℕ → Value
num n = number (to_string n)

-- The printed forms of an `f64`: `{:.1}`, `{:.2}`, and the shortest spelling, for JSON.
pub record FloatText (F : Type 0) : Type 0 where
  pub fixed_1 : F → String
  pub fixed_2 : F → String
  pub shortest : F → String

-- A JSON number from an `f64`, null when it is not finite.
abbrev pub float : {F : Type 0} → FloatOps F → FloatText F → F → Value
float f t x = if f.is_finite x then number (t.shortest x) else null

-- The parts of a message, one after the other.
abbrev pub text : List String → String
text [] = ""
text (part ∷ parts) = part ++ text parts
