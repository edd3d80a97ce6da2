-- ===== src/Agent/RunDown.antt =====
-- How the worker of the controller sink ends once the sender is taken.
use mathlib.Core.List.{append-nil}
use tapio.Prelude.{
  ◌+◌, ◌≤◌, length, ℕ, ◌≡◌, refl, sym, ◌∙◌, String, true, false, List, [], ◌∷◌, ◌++◌, Result, leb,
  arith, Bool-cases, inl, inr,
}
use tapio.Wire.Types.{WireEvent, EventBatchRequest, EventBatchResponse}
use tapio.Agent.Sink.{HttpResponse}
use tapio.Agent.Queue.{ControllerSink, WorkerMessage, event, flush, with_limits}
use tapio.Agent.Turns.{Log, log_turn, handle, handle_disconnected, receives, ends, Reach, step}
use tapio.Agent.Turns.{run_down}
use tapio.Agent.Delivered.{Reach-IsKept}

module _ (from_slice : List ℕ → Result String EventBatchResponse)
    (post : List ℕ → ℕ → Result String HttpResponse)
    (to_vec : EventBatchRequest → Result String (List ℕ)) (now : ℕ → ℕ)
    (event_to_vec : WireEvent → Result String (List ℕ)) where
  handle_rest :
      (max_batch_events due : ℕ) (message : WorkerMessage) (rest : List WorkerMessage)
      (s : ControllerSink) (log : Log)
      → let left =
          (handle from_slice post to_vec now event_to_vec max_batch_events due message
            (record s { queue = rest })).0 in
        (left.queue ≡ rest)
        × (left.alive ≡ s.alive)
        × (left.has_sender ≡ s.has_sender)
        × ((log_turn max_batch_events message s.worker log).accepts ≡ log.accepts)
  unfolding handle log_turn
  handle_rest max_batch_events due (flush ack) rest s log = (refl, refl, refl, refl)
  handle_rest max_batch_events due (event x) rest s log =
      elim (Bool-cases (leb max_batch_events (length (s.worker.buffer ++ x ∷ [])))) [
        | inl filled ↦ rw filled (refl, refl, refl, refl)
        | inr room ↦ rw room (refl, refl, refl, refl)
      ]

  module _ (largest : ℕ) (batching next : ℕ → ℕ)
      (within : (n : ℕ) → (1 ≤ batching n) × (batching n ≤ largest)) where
    -- What is left of a sink once its worker has run down, with no further event accepted.
    abbrev Ends : ControllerSink → ControllerSink → Log → Type 0
    Ends from t log =
        (more : Log) × Reach from_slice post to_vec now event_to_vec largest from t more
        × (t.alive ≡ false)
        × (more.accepts ≡ log.accepts)

    run_down-Ends :
        (queue : List WorkerMessage) (from s : ControllerSink) (log : Log)
        → s.queue ≡ queue
        → s.alive ≡ true
        → s.has_sender ≡ false
        → Reach from_slice post to_vec now event_to_vec largest from s log
        → Ends from (run_down from_slice post to_vec now event_to_vec batching next queue s) log
    unfolding run_down handle_disconnected
    run_down-Ends [] from s log idle live gone reached =
        (_, step reached (ends (batching 0) live gone idle), refl, refl)
    run_down-Ends (message ∷ rest) from s log first live gone reached =
        let waiting = length rest + 1 in
        let (low, high) = within waiting in
        let (queue, alive, sender, same) =
          handle_rest (batching waiting) (next waiting) message rest s log in
        let (more, end, dead, kept) =
          run_down-Ends rest from _ _ queue (alive ∙ live) (sender ∙ gone) (
            step reached
              (receives (batching waiting) (next waiting) message rest low high live first)) in
        (more, end, dead, kept ∙ same)

    -- However sends, requests to flush, turns of the worker and the end of the sender followed
    -- each other on a new sink, if the sender is taken and the worker still runs, its further
    -- turns, one for each message of the queue and a last one, whatever limits from one to the
    -- largest and whatever times they read, stop the worker with every accepted event taken out of
    -- the buffer by a flush, in the order in which it was accepted.
    pub run_down-delivers :
        (agent_id node_name : String) (capacity max_request_bytes due : ℕ) {s : ControllerSink}
        {log : Log}
        → Reach from_slice post to_vec now event_to_vec largest
            (with_limits agent_id node_name capacity max_request_bytes due)
            s
            log
        → s.has_sender ≡ false
        → s.alive ≡ true
        → let t = run_down from_slice post to_vec now event_to_vec batching next s.queue s in
          (more : Log) × Reach from_slice post to_vec now event_to_vec largest
            (with_limits agent_id node_name capacity max_request_bytes due)
            t
            more
          × (t.alive ≡ false)
          × (more.accepts ≡ log.accepts)
          × (more.takes ≡ log.accepts)
    run_down-delivers agent_id node_name capacity max_request_bytes due {s} {log} reached gone
          live =
        let (more, end, dead, kept) = run_down-Ends s.queue _ s log refl live gone reached in
        let (low, high) = within 0 in
        let k =
          Reach-IsKept from_slice post to_vec now event_to_vec agent_id node_name capacity
            max_request_bytes due largest (omega arith) end in
        let all_taken : more.accepts ≡ more.takes =
          k.in_order ∙ rw (k.stopped dead) (append-nil more.takes) in
        (more, end, dead, kept, sym all_taken ∙ kept)
