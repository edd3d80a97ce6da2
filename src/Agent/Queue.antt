-- ===== src/Agent/Queue.antt =====
-- `ControllerSink` of tapio-agent/src/sink/controller.rs: the bounded queue between its `send`, `flush` and
-- `drop` and its worker. A capacity is not 0.
use Prim.Native.String.{◌++◌ as append}
use tapio.Prelude.{
  ℕ, ◌+◌, String, Bool, true, false, List, [], ◌∷◌, ◌++◌, Result, ok, err, ltb, length,
  if◌then◌else◌,
}
use tapio.Wire.Types.{WireEvent}
use tapio.Observer.Occurrence.{Occurrence}
use tapio.Observer.Convert.{SinkError, send, occurrence_to_wire_event}
use tapio.Agent.Sink.{Worker, default_max_request_bytes}

abbrev pub default_queue_capacity : ℕ
default_queue_capacity = 4096

-- In milliseconds.
abbrev pub flush_deadline : ℕ
flush_deadline = 2000

-- The channel of an acknowledgement is a number.
pub data WorkerMessage : Type 0 where
  event : WireEvent → WorkerMessage
  flush : ℕ → WorkerMessage

-- The sink and its worker. Without a sender the queue is closed; `alive` is the worker's receiver.
pub record ControllerSink : Type 0 where
  pub capacity : ℕ
  pub has_sender : Bool
  pub queue : List WorkerMessage
  pub alive : Bool
  pub worker : Worker
  pub next_flush_at : ℕ
  pub dropped_queue_full : ℕ
  pub dropped_worker_stopped : ℕ

-- `with_limits`, at the start of the worker's loop.
unfoldable pub with_limits : String → String → ℕ → ℕ → ℕ → ControllerSink
with_limits agent_id node_name queue_capacity max_request_bytes next_flush_at = record {
  capacity = queue_capacity;
  has_sender = true;
  queue = [];
  alive = true;
  worker = record {
    agent_id = agent_id;
    node_name = node_name;
    sequence = 1;
    max_request_bytes = max_request_bytes;
    buffer = [];
    controller_send_failures_total = 0;
    sink_drops_total = 0;
  };
  next_flush_at = next_flush_at;
  dropped_queue_full = 0;
  dropped_worker_stopped = 0;
}

unfoldable pub new : String → String → ℕ → ControllerSink
unfolding with_limits
new agent_id node_name next_flush_at =
    with_limits agent_id node_name default_queue_capacity default_max_request_bytes next_flush_at

-- `SyncSender::try_send`: the queue with the message, or why not.
pub data TrySend : Type 0 where
  sent : List WorkerMessage → TrySend
  full disconnected : TrySend

unfoldable pub try_send : WorkerMessage → ControllerSink → TrySend
try_send message sink =
    if sink.alive
    then (if ltb (length sink.queue) sink.capacity then sent (sink.queue ++ message ∷ []) else full)
    else disconnected

unfoldable pub enqueued : TrySend → ControllerSink → ControllerSink
enqueued (sent queue) sink = record sink { queue = queue }
enqueued full sink = record sink { dropped_queue_full = sink.dropped_queue_full + 1 }
enqueued disconnected sink = record sink {
  dropped_worker_stopped = sink.dropped_worker_stopped + 1;
}

unfoldable pub try_enqueue_controller_event : WireEvent → ControllerSink → ControllerSink
unfolding try_send enqueued
try_enqueue_controller_event wire_event sink = enqueued (try_send (event wire_event) sink) sink

-- What `send` does with a converted event.
unfoldable pub offer : WireEvent → ControllerSink → ControllerSink
unfolding try_enqueue_controller_event
offer wire_event sink =
    if sink.has_sender
    then try_enqueue_controller_event wire_event sink
    else record sink { dropped_worker_stopped = sink.dropped_worker_stopped + 1 }

abbrev offered :
    Result SinkError WireEvent → ControllerSink → ControllerSink × Result SinkError (Unit {0})
offered (err e) sink = (sink, err e)
offered (ok wire_event) sink = (offer wire_event sink, ok tt)

unfoldable pub send_occurrence :
    Occurrence → ControllerSink → ControllerSink × Result SinkError (Unit {0})
unfolding offer
send_occurrence occurrence sink = offered (occurrence_to_wire_event occurrence) sink

-- A round of the loop of `flush`, so long after it began: the request is queued, the loop sleeps and
-- tries again, or it gives up.
pub data FlushRound : Type 0 where
  queued : ControllerSink → FlushRound
  try_again : FlushRound
  gives_up : SinkError → FlushRound

unfoldable pub flush_round : ℕ → ℕ → ControllerSink → FlushRound
unfolding try_send
flush_round elapsed ack sink =
    if sink.has_sender
    then (elim (try_send (flush ack) sink) [
      | sent queue ↦ queued (record sink { queue = queue })
      | full ↦
          if ltb elapsed flush_deadline
          then try_again
          else gives_up (send "controller sink flush deadline")
      | disconnected ↦ gives_up (send "controller sink worker stopped")
    ])
    else gives_up (send "controller sink worker stopped")

-- What `flush` makes of the acknowledgement, or of its wait that ended without one.
pub data RecvTimeoutError : Type 0 where
  timeout disconnected : RecvTimeoutError

abbrev recv_error_text : RecvTimeoutError → String
recv_error_text timeout = "timed out waiting on channel"
recv_error_text RecvTimeoutError.disconnected = "channel is empty and sending half is closed"

unfoldable pub flush_reply :
    Result RecvTimeoutError (Result String (Unit {0})) → Result SinkError (Unit {0})
flush_reply (ok (ok done)) = ok tt
flush_reply (ok (err error)) = err (send error)
flush_reply (err error) = err (send (append "controller sink flush: " (recv_error_text error)))

-- `drop`: the sender is taken.
unfoldable pub take_sender : ControllerSink → ControllerSink
take_sender sink = record sink { has_sender = false }
