-- ===== src/Controller/State.antt =====
-- `InnerState` and the operations of `ControllerState` in tapio-controller/src/lib.rs that change it.
-- The mutex is held through each critical section, so an operation is a function of the state; the
-- time of the clock is an argument. Sums of `u64` counters wrap, as in a release build.
use tapio.Prelude.{ℕ, ◌+◌, String, [], Result, ok, err, u64, length, if◌then◌else◌, unwrap_or}
use tapio.Prelude.Maps.{Map, lookup, insert}
use tapio.Prelude.Text.{is_blank}
use tapio.Wire.Types.{
  WireError, missing_field, wire_version, HelloRequest, HelloResponse, ConfigResponse,
  HeartbeatRequest, HeartbeatResponse, EventBatchRequest, EventBatchResponse,
}
use tapio.Wire.Validate
use tapio.Controller.Clock.{SystemTime}
use tapio.Controller.Sequence.{SequenceTracking, default, track}

abbrev pub controller_id : String
controller_id = "tapio-controller/default"

pub record RegisteredAgent : Type 0 where
  pub hello : HelloRequest
  pub registered_at : SystemTime

pub record StoredHeartbeat : Type 0 where
  pub heartbeat : HeartbeatRequest
  pub seen_at : SystemTime

pub record InnerState : Type 0 where
  pub config : ConfigResponse
  pub started_at : SystemTime
  pub agents : Map RegisteredAgent
  pub last_heartbeats : Map StoredHeartbeat
  pub sequences : Map SequenceTracking
  pub accepted_events_total : ℕ
  pub rejected_events_total : ℕ
  pub batches_accepted_total : ℕ
  pub batches_rejected_total : ℕ

unfoldable pub new : SystemTime → ConfigResponse → InnerState
new now config = record {
  config = config;
  started_at = now;
  agents = [];
  last_heartbeats = [];
  sequences = [];
  accepted_events_total = 0;
  rejected_events_total = 0;
  batches_accepted_total = 0;
  batches_rejected_total = 0;
}

-- What an operation leaves and answers.
abbrev pub Reply : Type 0 → Type 0
Reply A = InnerState × Result WireError A

-- The `?` on a failed validation returns before the lock is taken.
abbrev pub guarded {ℓ} :
    {A : Type ℓ}
    → Result WireError (Unit {0})
    → InnerState
    → InnerState × A
    → InnerState × Result WireError A
guarded (ok _) inner (inner', a) = (inner', ok a)
guarded (err e) inner _ = (inner, err e)

unfoldable pub register_agent : SystemTime → HelloRequest → InnerState → Reply HelloResponse
register_agent now hello inner = guarded (Validate.hello_request hello) inner (
  record inner {
    agents = insert hello.agent_id (record { hello = hello; registered_at = now }) inner.agents;
    sequences = insert hello.agent_id default inner.sequences;
  },
  Validate.from_config controller_id inner.config,
)

unfoldable pub config_for : String → String → InnerState → Result WireError ConfigResponse
config_for agent_id node_name inner =
    if is_blank agent_id
    then err (missing_field "agent_id")
    else if is_blank node_name
    then err (missing_field "node_name")
    else ok inner.config

unfoldable pub record_heartbeat :
    SystemTime → HeartbeatRequest → InnerState → Reply HeartbeatResponse
record_heartbeat now heartbeat inner = guarded (Validate.heartbeat_request heartbeat) inner (
  record inner {
    last_heartbeats =
        insert heartbeat.agent_id (record { heartbeat = heartbeat; seen_at = now })
          inner.last_heartbeats;
  },
  Validate.heartbeat_accepted inner.config.version,
)

-- `entry(agent_id).or_default()`, then the tracking in place.
unfoldable pub update_sequence_tracking : String → ℕ → Map SequenceTracking → Map SequenceTracking
update_sequence_tracking agent_id sequence sequences =
    insert agent_id (track (unwrap_or (lookup agent_id sequences) default) sequence) sequences

unfoldable pub accept_batch : EventBatchRequest → InnerState → InnerState
accept_batch batch inner = record inner {
  accepted_events_total = u64 (inner.accepted_events_total + length batch.events);
  batches_accepted_total = u64 (inner.batches_accepted_total + 1);
  sequences = update_sequence_tracking batch.agent_id batch.sequence inner.sequences;
}

unfoldable pub reject_batch : EventBatchRequest → InnerState → InnerState
reject_batch batch inner = record inner {
  rejected_events_total = u64 (inner.rejected_events_total + length batch.events);
  batches_rejected_total = u64 (inner.batches_rejected_total + 1);
}

abbrev settle_batch :
    Result WireError (Unit {0}) → EventBatchRequest → InnerState → Reply EventBatchResponse
settle_batch (ok _) batch inner = (
  accept_batch batch inner,
  ok (record {
    wire_version = wire_version;
    accepted = length batch.events;
    rejected = 0;
    next_config_version = inner.config.version;
  }),
)
settle_batch (err e) batch inner = (reject_batch batch inner, err e)

-- The limit is read in a critical section of its own, before the one that settles the batch.
unfoldable pub batch_limit : InnerState → ℕ
batch_limit inner = inner.config.batching.max_batch_events

unfoldable pub finish_batch : ℕ → EventBatchRequest → InnerState → Reply EventBatchResponse
unfolding accept_batch reject_batch
finish_batch max_batch_events batch inner =
    settle_batch (Validate.event_batch max_batch_events batch) batch inner

unfoldable pub record_event_batch : EventBatchRequest → InnerState → Reply EventBatchResponse
unfolding batch_limit finish_batch
record_event_batch batch inner = finish_batch (batch_limit inner) batch inner
