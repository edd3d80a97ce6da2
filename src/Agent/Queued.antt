-- ===== src/Agent/Queued.antt =====
-- What the queue of the controller sink keeps when an event or a request is put in or taken out.
use mathlib.Core.List.{append_assoc, append-nil}
use mathlib.Core.Path.{subst}
use tapio.Prelude.{
  ℕ, suc, ◌+◌, ◌≤◌, ◌<◌, ◌^◌, ◌≡◌, refl, ap, true, false, List, [], ◌∷◌, ◌++◌, ltb, length,
  length-append, arith, Bool-cases, inl, inr, ◌⊎◌, u64_max,
}
use tapio.Wire.Types.{WireEvent}
use tapio.Agent.Queue.{
  ControllerSink, WorkerMessage, event, flush, try_send, enqueued, offer, flush_round, queued,
}
use tapio.Agent.Turns.{Log, log_send, with_event}

-- The events that wait in the queue.
abbrev pub events_of : List WorkerMessage → List WireEvent
events_of [] = []
events_of (event wire_event ∷ rest) = wire_event ∷ events_of rest
events_of (flush ack ∷ rest) = events_of rest

events_of-append :
    (xs ys : List WorkerMessage) → events_of (xs ++ ys) ≡ events_of xs ++ events_of ys
events_of-append [] ys = refl
events_of-append (event wire_event ∷ xs) ys =
    ap (λ rest. wire_event ∷ rest) (events_of-append xs ys)
events_of-append (flush ack ∷ xs) ys = events_of-append xs ys

-- The events that were accepted and are not yet taken: those of the buffer, then those of the queue.
abbrev pub waiting : ControllerSink → List WireEvent
waiting s = s.worker.buffer ++ events_of s.queue

pub record IsKept (largest capacity : ℕ) (s : ControllerSink) (log : Log) : Type 0 where
  pub in_order : log.accepts ≡ log.takes ++ waiting s
  pub counted :
      length log.offers ≡ length log.accepts + s.dropped_queue_full + s.dropped_worker_stopped
  pub fixed : s.capacity ≡ capacity
  pub within : length s.queue ≤ capacity
  pub small : length s.worker.buffer < largest
  pub stopped : s.alive ≡ false → waiting s ≡ []
  pub sequence : s.worker.sequence ≤ u64_max
  pub drops : s.worker.sink_drops_total < 2 ^ 64

module _ (largest capacity : ℕ) where
  length-push : (xs : List WireEvent) (x : WireEvent) → length (xs ++ x ∷ []) ≡ length xs + 1
  length-push xs x = length-append xs (x ∷ [])

  -- An event that is turned down is counted by one of the two counters.
  refused-IsKept :
      (x : WireEvent) (s : ControllerSink) (log : Log) (by_full by_stopped : ℕ)
      → by_full + by_stopped ≡ 1
      → IsKept largest capacity s log
      → IsKept largest capacity
          (record s {
            dropped_queue_full = s.dropped_queue_full + by_full;
            dropped_worker_stopped = s.dropped_worker_stopped + by_stopped;
          })
          (record log { offers = log.offers ++ x ∷ [] })
  refused-IsKept x s log by_full by_stopped one k = record {
    in_order = k.in_order;
    counted = omega (arith, k.counted, length-push log.offers x);
    fixed = k.fixed;
    within = k.within;
    small = k.small;
    stopped = k.stopped;
    sequence = k.sequence;
    drops = k.drops;
  }

  -- A message that fits is queued behind the others.
  pushed-IsKept :
      (m : WorkerMessage) (offered : List WireEvent) (s : ControllerSink) (log : Log)
      → s.alive ≡ true
      → ltb (length s.queue) s.capacity ≡ true
      → length offered ≡ length (events_of (m ∷ []))
      → IsKept largest capacity s log
      → IsKept largest capacity
          (record s { queue = s.queue ++ m ∷ [] })
          (record log {
            offers = log.offers ++ offered;
            accepts = log.accepts ++ events_of (m ∷ []);
          })
  pushed-IsKept m offered s log live room same k = record {
    in_order = rw (events_of-append, k.in_order) (simp append_assoc);
    counted = omega (
      arith,
      k.counted,
      length-append log.offers offered,
      length-append log.accepts (events_of (m ∷ [])),
    );
    fixed = k.fixed;
    within = ground (arith, k.fixed, length-append s.queue (m ∷ []));
    small = k.small;
    stopped = λ dead. cc;
    sequence = k.sequence;
    drops = k.drops;
  }

  -- The three ways in which an offer ends.
  abbrev queueing : WireEvent → ControllerSink → ControllerSink
  queueing x s = record s { queue = s.queue ++ event x ∷ [] }

  abbrev refusing : ℕ → ℕ → ControllerSink → ControllerSink
  refusing by_full by_stopped s = record s {
    dropped_queue_full = s.dropped_queue_full + by_full;
    dropped_worker_stopped = s.dropped_worker_stopped + by_stopped;
  }

  abbrev logged : WireEvent → List WireEvent → Log → Log
  logged x accepted log = record log {
    offers = log.offers ++ x ∷ [];
    accepts = log.accepts ++ accepted;
  }

  offer-cases :
      (x : WireEvent) (s : ControllerSink) (log : Log)
      → ((s.alive ≡ true)
          × (ltb (length s.queue) s.capacity ≡ true)
          × (offer x s ≡ queueing x s)
          × (log_send x s log ≡ logged x (x ∷ []) log))
        ⊎ ((by_full : ℕ) × (by_stopped : ℕ) × (by_full + by_stopped ≡ 1)
            × (offer x s ≡ refusing by_full by_stopped s)
            × (log_send x s log ≡ logged x [] log))
  unfolding offer log_send try_send enqueued
  offer-cases x s log = elim (Bool-cases s.has_sender) [
    | inr gone ↦ inr (0, 1, omega arith, ground arith, rw append-nil (ground arith))
    | inl held ↦ elim (Bool-cases s.alive) [
      | inr dead ↦ inr (0, 1, omega arith, ground arith, rw append-nil (ground arith))
      | inl live ↦ elim (Bool-cases (ltb (length s.queue) s.capacity)) [
        | inl room ↦ inl (live, room, ground arith, ground arith)
        | inr packed ↦ inr (1, 0, omega arith, ground arith, rw append-nil (ground arith))
      ]
    ]
  ]

  pub offer-IsKept :
      (x : WireEvent) (s : ControllerSink) (log : Log)
      → IsKept largest capacity s log
      → IsKept largest capacity (offer x s) (log_send x s log)
  offer-IsKept x s log k = elim (offer-cases x s log) [
    | inl (live, room, left, noted) ↦
        rw (left, noted) (pushed-IsKept (event x) (x ∷ []) s log live room refl k)
    | inr (by_full, by_stopped, one, left, noted) ↦
        rw (left, noted, append-nil) (refused-IsKept x s log by_full by_stopped one k)
  ]

  queued-inj : {s t : ControllerSink} → queued s ≡ queued t → s ≡ t
  queued-inj e = cc

  flush_round-cases :
      (elapsed ack : ℕ) (s t : ControllerSink)
      → flush_round elapsed ack s ≡ queued t
      → (s.alive ≡ true)
        × (ltb (length s.queue) s.capacity ≡ true)
        × (record s { queue = s.queue ++ flush ack ∷ [] } ≡ t)
  unfolding flush_round try_send
  flush_round-cases elapsed ack s t asked = elim (Bool-cases s.has_sender) [
    | inr gone ↦ ground arith
    | inl held ↦ elim (Bool-cases s.alive) [
      | inr dead ↦ ground arith
      | inl live ↦ elim (Bool-cases (ltb (length s.queue) s.capacity)) [
        | inl room ↦ (live, room, ground arith)
        | inr packed ↦ ground arith
      ]
    ]
  ]

  -- A request for a flush is queued like an event, and is none.
  pub asks-IsKept :
      (elapsed ack : ℕ) (s t : ControllerSink) (log : Log)
      → flush_round elapsed ack s ≡ queued t
      → IsKept largest capacity s log
      → IsKept largest capacity t log
  asks-IsKept elapsed ack s t log asked k =
      let (live, room, left) = flush_round-cases elapsed ack s t asked in
      let same : record log { offers = log.offers ++ []; accepts = log.accepts ++ [] } ≡ log =
        rw (append-nil log.offers, append-nil log.accepts) refl in
      subst (λ u. IsKept largest capacity u log) left
        (subst (λ l. IsKept largest capacity (record s { queue = s.queue ++ flush ack ∷ [] }) l)
          same (pushed-IsKept (flush ack) [] s log live room refl k))

pub weaken-IsKept :
    (largest capacity : ℕ) (s : ControllerSink) (log : Log)
    → IsKept largest capacity s log
    → IsKept (suc largest) capacity s log
weaken-IsKept largest capacity s log k = record {
  in_order = k.in_order;
  counted = k.counted;
  fixed = k.fixed;
  within = k.within;
  small = omega (arith, k.small);
  stopped = k.stopped;
  sequence = k.sequence;
  drops = k.drops;
}

-- The worker moves an event from the queue to its buffer.
pub buffered-IsKept :
    (largest capacity : ℕ) (x : WireEvent) (rest : List WorkerMessage) (s : ControllerSink)
    (log : Log)
    → length s.worker.buffer + 1 < largest
    → s.alive ≡ true
    → s.queue ≡ event x ∷ rest
    → IsKept largest capacity s log
    → IsKept largest capacity (record s { queue = rest; worker = with_event x s.worker }) log
buffered-IsKept largest capacity x rest s log room live first k = record {
  in_order = rw (k.in_order, first) (simp append_assoc);
  counted = k.counted;
  fixed = k.fixed;
  within = omega (arith, k.within, ap length first);
  small = omega (arith, length-append s.worker.buffer (x ∷ []));
  stopped = λ dead. cc;
  sequence = k.sequence;
  drops = k.drops;
}

pub asked-IsKept :
    (largest capacity ack : ℕ) (rest : List WorkerMessage) (s : ControllerSink) (log : Log)
    → s.alive ≡ true
    → s.queue ≡ flush ack ∷ rest
    → IsKept largest capacity s log
    → IsKept largest capacity (record s { queue = rest }) log
asked-IsKept largest capacity ack rest s log live first k = record {
  in_order = rw (k.in_order, first) refl;
  counted = k.counted;
  fixed = k.fixed;
  within = omega (arith, k.within, ap length first);
  small = k.small;
  stopped = λ dead. cc;
  sequence = k.sequence;
  drops = k.drops;
}
