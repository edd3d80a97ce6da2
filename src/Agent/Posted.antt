-- ===== src/Agent/Posted.antt =====
-- How long the requests are that the batches of a buffer are sent in, where the splitter measures with
-- another request's head: `split_events_by_size` of tapio-agent/src/sink/controller.rs.
use Prim.Native.Nat.{max}
use tapio.Prelude.{
  ℕ, ◌+◌, ◌≤◌, ◌<◌, ◌≡◌, ◌⊎◌, inl, inr, String, List, [], Result, All, concat, length, u64_max,
  arith,
}
use tapio.Wire.Types.{WireEvent, EventBatchRequest}
use tapio.Agent.Split.{
  serialized_len, serialized_empty_batch_len, serialized_event_len, split_events_by_size,
}
use tapio.Agent.Fits.{Fits, listed, split_events_by_size-Splits}
use tapio.Agent.Sink.{Worker, request_for}
use tapio.Agent.Sent.{All-map}

module _ (event_to_vec : WireEvent → Result String (List ℕ))
    (to_vec : EventBatchRequest → Result String (List ℕ)) where
  -- The length of a list of events in JSON, without its brackets.
  abbrev pub events_len : List WireEvent → ℕ
  events_len = listed (serialized_event_len event_to_vec)

  -- A request in JSON is the request without events, with its events between the brackets.
  abbrev pub IsFramed : Type 0
  IsFramed =
      (r : EventBatchRequest)
      → serialized_len (to_vec r)
        ≡ serialized_len (to_vec (record r { events = [] })) + events_len r.events

  abbrev pub posted_len : Worker → ℕ → ℕ → List WireEvent → ℕ
  posted_len worker sequence sent_at batch =
      serialized_len (to_vec (request_for worker sequence sent_at batch))

  -- A batch, and the request that it is sent in: that is longer than the maximum by at most as much as
  -- its head is longer than the placeholder's, or has a single event.
  pub record IsPosted (max_batch_events max_request_bytes sequence sent_at : ℕ) (worker : Worker)
      (batch : List WireEvent) : Type 0 where
    pub nonempty : 0 < length batch
    pub counted : length batch ≤ max 1 max_batch_events
    pub sized :
        (posted_len worker sequence sent_at batch + serialized_empty_batch_len to_vec
          ≤ max_request_bytes + posted_len worker sequence sent_at [])
        ⊎ (length batch ≡ 1)

  Fits-IsPosted :
      (max_batch_events max_request_bytes sequence sent_at : ℕ) (worker : Worker)
      (batch : List WireEvent)
      → IsFramed
      → Fits
          (serialized_event_len event_to_vec)
          (serialized_empty_batch_len to_vec)
          max_batch_events
          max_request_bytes
          batch
      → IsPosted max_batch_events max_request_bytes sequence sent_at worker batch
  unfolding request_for
  Fits-IsPosted max_batch_events max_request_bytes sequence sent_at worker batch framed f = record {
    nonempty = f.nonempty;
    counted = f.counted;
    sized = elim f.sized [
      | inr single ↦ inr single
      | inl small ↦ inl (omega (arith, small, framed (request_for worker sequence sent_at batch)))
    ];
  }

  -- A buffer is split whole and in order: the batches together are its events, none is empty, none
  -- has more than the maximal number of events (or one, if that number is zero), and the request
  -- that a batch is sent in, whatever its sender, sequence number and time, is longer than the
  -- maximal request by at most as much as its head is longer than the placeholder's, unless the
  -- batch is a single event; if a request in JSON is its head with its events, the placeholder's
  -- length is a u64 and the maximal request is below the largest u64.
  pub split_events_by_size-IsPosted :
      (max_batch_events max_request_bytes sequence sent_at : ℕ) (worker : Worker)
      (events : List WireEvent)
      → IsFramed
      → serialized_empty_batch_len to_vec ≤ u64_max
      → max_request_bytes < u64_max
      → let batches =
          split_events_by_size event_to_vec to_vec max_batch_events max_request_bytes events in
        (concat batches ≡ events)
        × All (IsPosted max_batch_events max_request_bytes sequence sent_at worker) batches
  split_events_by_size-IsPosted max_batch_events max_request_bytes sequence sent_at worker events
        framed z m =
      let s =
        split_events_by_size-Splits event_to_vec to_vec max_batch_events max_request_bytes events z
          m in
      (
        s.whole,
        All-map
            (λ batch f.
              Fits-IsPosted max_batch_events max_request_bytes sequence sent_at worker batch framed
                f)
            _ s.each,
      )
