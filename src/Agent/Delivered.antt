-- ===== src/Agent/Delivered.antt =====
-- What the controller sink and its worker keep, however their steps follow each other, and how they end.
use mathlib.Core.List.{append_assoc}
use tapio.Prelude.{
  ℕ, suc, ◌≤◌, ◌<◌, ◌≡◌, refl, String, Bool, true, false, List, [], ◌∷◌, ◌++◌, Result, leb, length,
  length-append, arith, Bool-cases, inl, inr,
}
use tapio.Wire.Types.{WireEvent, EventBatchRequest, EventBatchResponse}
use tapio.Agent.Sink.{HttpResponse}
use tapio.Agent.Flush.{flush_buffer-Advanced}
use tapio.Agent.Queue.{ControllerSink, WorkerMessage, event, flush, take_sender, with_limits}
use tapio.Agent.Turns.{
  Log, log_flush, log_turn, flushed_by, with_event, handle, handle_timeout, handle_disconnected,
  Step, sends, asks, drops, receives, times_out, ends, Reach, here, step,
}
use tapio.Agent.Queued.{
  IsKept, offer-IsKept, asks-IsKept, weaken-IsKept, buffered-IsKept, asked-IsKept,
}

module _ (from_slice : List ℕ → Result String EventBatchResponse)
    (post : List ℕ → ℕ → Result String HttpResponse)
    (to_vec : EventBatchRequest → Result String (List ℕ)) (now : ℕ → ℕ)
    (event_to_vec : WireEvent → Result String (List ℕ)) where
  -- A flush takes the whole buffer.
  flushed-IsKept :
      (larger largest capacity : ℕ) (retry : Bool) (max_batch_events due : ℕ) (live : Bool)
      (s : ControllerSink) (log : Log)
      → 0 < largest
      → (live ≡ false → s.queue ≡ [])
      → IsKept larger capacity s log
      → IsKept largest capacity
          (record s {
            worker =
                (flushed_by from_slice post to_vec now event_to_vec retry max_batch_events
                  s.worker).0;
            next_flush_at = due;
            alive = live;
          })
          (log_flush s.worker.buffer log)
  flushed-IsKept larger largest capacity retry max_batch_events due live s log has_room idle k =
      let done =
        flush_buffer-Advanced from_slice post to_vec now event_to_vec max_batch_events retry
          s.worker k.sequence k.drops in
      record {
        in_order = rw (done.buffer) (rw k.in_order (simp append_assoc));
        counted = k.counted;
        fixed = k.fixed;
        within = k.within;
        small = rw (done.buffer) has_room;
        stopped = λ dead. rw (done.buffer, idle dead) refl;
        sequence = omega (arith, done.sequence);
        drops = omega (arith, done.drops);
      }

  handle-IsKept :
      (largest capacity max_batch_events due : ℕ) (message : WorkerMessage)
      (rest : List WorkerMessage) (s : ControllerSink) (log : Log)
      → 1 ≤ max_batch_events
      → max_batch_events ≤ largest
      → s.alive ≡ true
      → s.queue ≡ message ∷ rest
      → IsKept largest capacity s log
      → IsKept largest capacity
          (handle from_slice post to_vec now event_to_vec max_batch_events due message
            (record s { queue = rest })).0
          (log_turn max_batch_events message s.worker log)
  unfolding handle log_turn
  handle-IsKept largest capacity max_batch_events due (flush ack) rest s log some_room fits live
        first k =
      flushed-IsKept largest largest capacity true max_batch_events due s.alive
        (record s { queue = rest }) log (omega arith) (λ dead. cc)
        (asked-IsKept largest capacity ack rest s log live first k)
  handle-IsKept largest capacity max_batch_events due (event x) rest s log some_room fits live first
        k =
      elim (Bool-cases (leb max_batch_events (length (s.worker.buffer ++ x ∷ [])))) [
        | inl filled ↦ rw filled (
            flushed-IsKept (suc largest) largest capacity true max_batch_events due s.alive
              (record s { queue = rest; worker = with_event x s.worker }) log (omega arith)
              (λ dead. cc)
              (buffered-IsKept (suc largest) capacity x rest s log (omega (arith, k.small)) live
                first (weaken-IsKept largest capacity s log k)))
        | inr room ↦ rw room (
            buffered-IsKept largest capacity x rest s log
              (ground (arith, length-append s.worker.buffer (x ∷ []))) live first k)
      ]

  Step-IsKept :
      (largest capacity : ℕ) {s t : ControllerSink} {log more : Log}
      → 0 < largest
      → Step from_slice post to_vec now event_to_vec largest s log t more
      → IsKept largest capacity s log
      → IsKept largest capacity t more
  unfolding handle_timeout handle_disconnected take_sender
  Step-IsKept largest capacity has_room (sends x) k = offer-IsKept largest capacity x _ _ k
  Step-IsKept largest capacity has_room (asks elapsed ack t asked) k =
      asks-IsKept largest capacity elapsed ack _ t _ asked k
  Step-IsKept largest capacity has_room drops k = record {
    in_order = k.in_order;
    counted = k.counted;
    fixed = k.fixed;
    within = k.within;
    small = k.small;
    stopped = k.stopped;
    sequence = k.sequence;
    drops = k.drops;
  }
  Step-IsKept largest capacity has_room
        (receives max_batch_events due message rest low high live first) k =
      handle-IsKept largest capacity max_batch_events due message rest _ _ low high live first k
  Step-IsKept largest capacity {s} {t} {log} {more} has_room
        (times_out max_batch_events due live held idle) k =
      flushed-IsKept largest largest capacity true max_batch_events due s.alive s log has_room
        (λ dead. idle) k
  Step-IsKept largest capacity {s} {t} {log} {more} has_room (ends max_batch_events live gone idle)
        k =
      flushed-IsKept largest largest capacity false max_batch_events s.next_flush_at false s log
        has_room (λ dead. idle) k

  -- However sends, requests to flush, turns of the worker and the end of the sender follow each
  -- other on a new sink, the events accepted are those that flushes took, then those of the
  -- buffer, then those of the queue, in order; every event offered is accepted or counted by one
  -- of the two drop counters; the queue stays within its capacity and the buffer below the largest
  -- limit, if that is at least one; and nothing waits once the worker has stopped.
  pub Reach-IsKept :
      (agent_id node_name : String) (capacity max_request_bytes due largest : ℕ)
      {s : ControllerSink} {log : Log}
      → 0 < largest
      → Reach from_slice post to_vec now event_to_vec largest
          (with_limits agent_id node_name capacity max_request_bytes due)
          s
          log
      → IsKept largest capacity s log
  unfolding with_limits
  Reach-IsKept agent_id node_name capacity max_request_bytes due largest has_room here = record {
    in_order = refl;
    counted = refl;
    fixed = refl;
    within = omega arith;
    small = has_room;
    stopped = λ dead. refl;
    sequence = omega arith;
    drops = omega arith;
  }
  Reach-IsKept agent_id node_name capacity max_request_bytes due largest has_room
        (step reached taken) =
      Step-IsKept largest capacity has_room taken
        (Reach-IsKept agent_id node_name capacity max_request_bytes due largest has_room reached)
