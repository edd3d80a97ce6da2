-- ===== src/Agent/Turns.antt =====
-- The loop of the worker, `Worker::run` of tapio-agent/src/sink/controller.rs, and the steps that it and the
-- sink's callers take in any order. What a turn reads of `batching` and of the clock, and when a wait ends,
-- is the environment's choice.
use tapio.Prelude.{
  ◌+◌, ◌≤◌, length, ℕ, ◌≡◌, String, Bool, true, false, List, [], ◌∷◌, ◌++◌, Option, none, some,
  Result, leb, if◌then◌else◌,
}
use tapio.Wire.Types.{WireEvent, EventBatchRequest, EventBatchResponse}
use tapio.Agent.Sink.{Worker, HttpResponse, flush_buffer}
use tapio.Agent.Queue.{
  WorkerMessage, event, flush, ControllerSink, sent, try_send, offer, queued, flush_round,
  take_sender,
}

-- The events passed to `send`, those of them that were queued, and those that a flush took from the
-- buffer, each in order.
pub record Log : Type 0 where
  pub offers : List WireEvent
  pub accepts : List WireEvent
  pub takes : List WireEvent

abbrev pub no_log : Log
no_log = record { offers = []; accepts = []; takes = [] }

-- The sends so far, with one more.
unfoldable pub log_send : WireEvent → ControllerSink → Log → Log
unfolding try_send
log_send wire_event sink log = record log {
  offers = log.offers ++ wire_event ∷ [];
  accepts =
      if sink.has_sender
      then (elim (try_send (event wire_event) sink) [
        | sent queue ↦ log.accepts ++ wire_event ∷ []
        | _ ↦ log.accepts
      ])
      else log.accepts;
}

abbrev pub log_flush : List WireEvent → Log → Log
log_flush buffer log = record log { takes = log.takes ++ buffer }

-- A turn with a message flushes if it asks for it or if the buffer is full.
unfoldable pub log_turn : ℕ → WorkerMessage → Worker → Log → Log
log_turn max_batch_events (event wire_event) worker log =
    let buffer = worker.buffer ++ wire_event ∷ [] in
    if leb max_batch_events (length buffer) then log_flush buffer log else log
log_turn max_batch_events (flush ack) worker log = log_flush worker.buffer log

abbrev pub with_event : WireEvent → Worker → Worker
with_event wire_event worker = record worker { buffer = worker.buffer ++ wire_event ∷ [] }

module _ (from_slice : List ℕ → Result String EventBatchResponse)
    (post : List ℕ → ℕ → Result String HttpResponse)
    (to_vec : EventBatchRequest → Result String (List ℕ)) (now : ℕ → ℕ)
    (event_to_vec : WireEvent → Result String (List ℕ)) where
  abbrev pub flushed_by : Bool → ℕ → Worker → Worker × Result String (Unit {0})
  flushed_by retry max_batch_events worker =
      flush_buffer from_slice post to_vec now event_to_vec retry max_batch_events worker

  -- A turn of `run` with a message: what it leaves, and the acknowledgement that it sends. `next` is when
  -- the next flush is due, if the turn flushes.
  unfoldable pub handle :
      ℕ
      → ℕ
      → WorkerMessage
      → ControllerSink
      → ControllerSink × Option (ℕ × Result String (Unit {0}))
  handle max_batch_events next (event wire_event) sink =
      let worker = with_event wire_event sink.worker in
      if leb max_batch_events (length worker.buffer)
      then (
        record sink { worker = (flushed_by true max_batch_events worker).0; next_flush_at = next },
        none,
      )
      else (record sink { worker = worker }, none)
  handle max_batch_events next (flush ack) sink =
      let done = flushed_by true max_batch_events sink.worker in
      (record sink { worker = done.0; next_flush_at = next }, some (ack, done.1))

  -- A turn whose wait ended.
  unfoldable pub handle_timeout : ℕ → ℕ → ControllerSink → ControllerSink
  handle_timeout max_batch_events next sink = record sink {
    worker = (flushed_by true max_batch_events sink.worker).0;
    next_flush_at = next;
  }

  -- The last turn: each batch is sent at most once, and the receiver is gone.
  unfoldable pub handle_disconnected : ℕ → ControllerSink → ControllerSink
  handle_disconnected max_batch_events sink = record sink {
    worker = (flushed_by false max_batch_events sink.worker).0;
    alive = false;
  }

  -- The turns of a worker that has no sender left, over the queue: `batching` and `next` are what a turn
  -- reads of its limit and of the clock, by how many messages wait.
  unfoldable pub run_down : (ℕ → ℕ) → (ℕ → ℕ) → List WorkerMessage → ControllerSink → ControllerSink
  unfolding handle handle_disconnected
  run_down batching next [] sink = handle_disconnected (batching 0) sink
  run_down batching next (message ∷ rest) sink =
      let waiting = length rest + 1 in
      run_down batching next rest
        (handle (batching waiting) (next waiting) message (record sink { queue = rest })).0

  -- What can happen next, if the limits that `batching` gives are from 1 to `largest`.
  pub data Step (largest : ℕ) (s : ControllerSink) (log : Log) : ControllerSink → Log → Type 0 where
    sends :
        (wire_event : WireEvent)
        → Step largest s log (offer wire_event s) (log_send wire_event s log)
    asks :
        (elapsed ack : ℕ) (t : ControllerSink)
        → flush_round elapsed ack s ≡ queued t
        → Step largest s log t log
    drops : Step largest s log (take_sender s) log
    receives :
        (max_batch_events next : ℕ) (message : WorkerMessage) (rest : List WorkerMessage)
        → 1 ≤ max_batch_events
        → max_batch_events ≤ largest
        → s.alive ≡ true
        → s.queue ≡ message ∷ rest
        → Step largest s log
            (handle max_batch_events next message (record s { queue = rest })).0
            (log_turn max_batch_events message s.worker log)
    times_out :
        (max_batch_events next : ℕ)
        → s.alive ≡ true
        → s.has_sender ≡ true
        → s.queue ≡ []
        → Step largest s log
            (handle_timeout max_batch_events next s)
            (log_flush s.worker.buffer log)
    ends :
        (max_batch_events : ℕ)
        → s.alive ≡ true
        → s.has_sender ≡ false
        → s.queue ≡ []
        → Step largest s log
            (handle_disconnected max_batch_events s)
            (log_flush s.worker.buffer log)

  pub data Reach (largest : ℕ) (s : ControllerSink) : ControllerSink → Log → Type 0 where
    here : Reach largest s s no_log
    step :
        {t u : ControllerSink} {log more : Log}
        → Reach largest s t log
        → Step largest t log u more
        → Reach largest s u more
