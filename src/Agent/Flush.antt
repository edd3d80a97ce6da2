-- ===== src/Agent/Flush.antt =====
-- What a flush of the worker of tapio-agent/src/sink/controller.rs leaves behind.
use tapio.Prelude.{
  ℕ, ◌+◌, ◌<◌, ◌≤◌, ◌≡◌, refl, inl, inr, String, Bool, true, Option, none, List, [], ◌∷◌, ok, err,
  Result, length, is_empty, saturating_add, u64, u64_max, arith, Bool-cases, if◌then◌else◌, ◌^◌,
  ◌∙◌, ap,
}
use tapio.Wire.Types.{WireEvent, EventBatchRequest, EventBatchResponse}
use tapio.Agent.Split.{split_events_by_size}
use tapio.Agent.Sink.{
  Worker, HttpResponse, Outcome, answered, dropped, attempts, max_retries, initial_retry_backoff,
  encode, request_for, send_event_batch_with_retries, send_all, flush_buffer, drop_failed_batch,
  settle, send_body, last_of,
}

-- What sending some batches did: the sequence went on by their number and the drops by `lost`.
pub record Advanced (w w' : Worker) (batches lost : ℕ) : Type 0 where
  pub agent : w'.agent_id ≡ w.agent_id
  pub node : w'.node_name ≡ w.node_name
  pub buffer : w'.buffer ≡ w.buffer
  pub sequence : w'.sequence ≡ saturating_add w.sequence batches
  pub drops : w'.sink_drops_total ≡ u64 (w.sink_drops_total + lost)

empty_eq : (events : List WireEvent) → is_empty events ≡ true → events ≡ []
empty_eq [] e = refl
empty_eq (x ∷ xs) e = cc

request_for-same :
    (w w' : Worker) (sequence sent_at : ℕ) (batch : List WireEvent)
    → w'.agent_id ≡ w.agent_id
    → w'.node_name ≡ w.node_name
    → request_for w' sequence sent_at batch ≡ request_for w sequence sent_at batch
unfolding request_for
request_for-same w w' sequence sent_at batch a n = cc

module _ (from_slice : List ℕ → Result String EventBatchResponse)
    (post : List ℕ → ℕ → Result String HttpResponse)
    (to_vec : EventBatchRequest → Result String (List ℕ)) (now : ℕ → ℕ) where
  abbrev lost_by : Outcome → ℕ → ℕ
  lost_by (answered result) n = 0
  lost_by (dropped e) n = n

  -- How many events of a batch are dropped when it is sent under a sequence number.
  unfoldable pub lost_of : Bool → List WireEvent → Result String (List ℕ) → ℕ
  lost_of retry batch (err e) = 0
  lost_of retry batch (ok body) =
      let made =
        attempts from_slice post (if retry then max_retries else 0) 0 initial_retry_backoff body in
      lost_by made.outcome (length batch)

  unfoldable pub lost : Bool → Worker → ℕ → List WireEvent → ℕ
  lost retry worker sequence batch =
      lost_of retry batch
        (encode from_slice post to_vec now (request_for worker sequence (now sequence) batch))

  -- The batches take consecutive sequence numbers.
  abbrev pub lost_in : Bool → Worker → ℕ → List (List WireEvent) → ℕ
  lost_in retry worker sequence [] = 0
  lost_in retry worker sequence (batch ∷ batches) =
      lost retry worker sequence batch + lost_in retry worker (saturating_add sequence 1) batches

  lost_in-same :
      (retry : Bool) (w w' : Worker) (sequence : ℕ) (batches : List (List WireEvent))
      → w'.agent_id ≡ w.agent_id
      → w'.node_name ≡ w.node_name
      → lost_in retry w' sequence batches ≡ lost_in retry w sequence batches
  lost_in-same retry w w' sequence [] a n = refl
  lost_in-same retry w w' sequence (batch ∷ batches) a n =
      let same : lost retry w' sequence batch ≡ lost retry w sequence batch =
        unfold lost in
        ap (λ r. lost_of retry batch (encode from_slice post to_vec now r))
          (request_for-same w w' sequence (now sequence) batch a n) in
      omega (arith, same, lost_in-same retry w w' (saturating_add sequence 1) batches a n)

  settle-Advanced :
      (w : Worker) (outcome : Outcome) (n : ℕ)
      → w.sink_drops_total < 2 ^ 64
      → Advanced w
          (settle n (record w { sequence = saturating_add w.sequence 1 }) outcome).0
          1
          (lost_by outcome n)
  unfolding drop_failed_batch
  settle-Advanced w (answered result) n d = record {
    agent = refl;
    node = refl;
    buffer = refl;
    sequence = refl;
    drops = omega arith;
  }
  settle-Advanced w (dropped e) n d = record {
    agent = refl;
    node = refl;
    buffer = refl;
    sequence = refl;
    drops = refl;
  }

  send_body-Advanced :
      (retry : Bool) (batch : List WireEvent) (w : Worker) (body : Result String (List ℕ))
      → w.sink_drops_total < 2 ^ 64
      → Advanced w
          (send_body from_slice post retry batch
            (record w { sequence = saturating_add w.sequence 1 })
            body).0
          1
          (lost_of retry batch body)
  unfolding send_body lost_of
  send_body-Advanced retry batch w (ok body) d = settle-Advanced w _ (length batch) d
  send_body-Advanced retry batch w (err e) d = record {
    agent = refl;
    node = refl;
    buffer = refl;
    sequence = refl;
    drops = omega arith;
  }

  send-Advanced :
      (retry : Bool) (batch : List WireEvent) (w : Worker)
      → w.sink_drops_total < 2 ^ 64
      → Advanced w
          (send_event_batch_with_retries from_slice post to_vec now retry batch w).0
          1
          (lost retry w w.sequence batch)
  unfolding send_event_batch_with_retries lost
  send-Advanced retry batch w d = send_body-Advanced retry batch w _ d

  send_all-Advanced :
      (retry : Bool) (batches : List (List WireEvent)) (last : Option String) (w : Worker)
      → w.sequence ≤ u64_max
      → w.sink_drops_total < 2 ^ 64
      → Advanced w
          (send_all from_slice post to_vec now retry batches last w).0
          (length batches)
          (lost_in retry w w.sequence batches)
  unfolding send_all
  send_all-Advanced retry [] last w q d = record {
    agent = refl;
    node = refl;
    buffer = refl;
    sequence = omega arith;
    drops = omega arith;
  }
  send_all-Advanced retry (batch ∷ batches) last w q d =
      let sent = send_event_batch_with_retries from_slice post to_vec now retry batch w in
      let one = send-Advanced retry batch w d in
      let rest =
        send_all-Advanced retry batches (last_of last sent.1) sent.0 (omega (arith, one.sequence))
          (omega (arith, one.drops)) in
      let same : lost_in retry sent.0 sent.0.sequence batches
          ≡ lost_in retry w (saturating_add w.sequence 1) batches =
        lost_in-same retry w sent.0 sent.0.sequence batches one.agent one.node
        ∙ ap (λ n. lost_in retry w n batches) one.sequence in
      record {
        agent = rest.agent ∙ one.agent;
        node = rest.node ∙ one.node;
        buffer = rest.buffer ∙ one.buffer;
        sequence = omega (arith, one.sequence, rest.sequence);
        drops = omega (arith, one.drops, rest.drops, same);
      }

  -- A flush, with retries or without, from a sequence number and a drop counter that are u64,
  -- empties the buffer, gives each batch the next sequence number, and counts as dropped exactly
  -- the events of the batches whose attempts all failed.
  pub flush_buffer-Advanced :
      (event_to_vec : WireEvent → Result String (List ℕ)) (max_batch_events : ℕ) (retry : Bool)
      (w : Worker)
      → w.sequence ≤ u64_max
      → w.sink_drops_total < 2 ^ 64
      → let batches =
          split_events_by_size event_to_vec to_vec max_batch_events w.max_request_bytes w.buffer in
        Advanced
          (record w { buffer = [] })
          (flush_buffer from_slice post to_vec now event_to_vec retry max_batch_events w).0
          (length batches)
          (lost_in retry w w.sequence batches)
  flush_buffer-Advanced event_to_vec max_batch_events retry w q d =
      elim (Bool-cases (is_empty w.buffer)) [
        | inl none_left ↦
            let nothing = empty_eq w.buffer none_left in
            rw nothing (
              unfold split_events_by_size flush_buffer in
              record {
                agent = refl;
                node = refl;
                buffer = refl;
                sequence = omega arith;
                drops = omega arith;
              })
        | inr some_left ↦
            let emptied : Worker = record w { buffer = [] } in
            let batches =
              split_events_by_size event_to_vec to_vec max_batch_events w.max_request_bytes
                w.buffer in
            let sent = send_all-Advanced retry batches none emptied q d in
            unfold flush_buffer in
            rw (some_left, ← lost_in-same retry w emptied w.sequence batches refl refl) sent
      ]
