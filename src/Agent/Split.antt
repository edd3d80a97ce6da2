-- ===== src/Agent/Split.antt =====
-- `split_events_by_size` of tapio-agent/src/sink/controller.rs, with the lengths that it estimates by. The
-- serializers of an event and of a request are parameters.
use tapio.Prelude.{
  ℕ, Bool, not, ◌&&◌, ◌||◌, List, [], ◌∷◌, ◌++◌, leb, ltb, is_empty, length, if◌then◌else◌,
  saturating_add, String, Result, ok, err, u64_max,
}
use tapio.Wire.Types.{WireEvent, EventBatchRequest, wire_version}

module _ (event_len : WireEvent → ℕ) (empty_batch_len : ℕ) where
  -- `usize::from(!current.is_empty())`.
  abbrev pub separator_len : List WireEvent → ℕ
  separator_len [] = 0
  separator_len (e ∷ es) = 1

  unfoldable pub candidate_len : List WireEvent → ℕ → WireEvent → ℕ
  candidate_len current current_len event =
      saturating_add (saturating_add current_len (separator_len current)) (event_len event)

  module _ (max_batch_events max_request_bytes : ℕ) where
    -- Whether the batch so far is closed before the event.
    unfoldable pub closes : List WireEvent → ℕ → WireEvent → Bool
    unfolding candidate_len
    closes current current_len event =
        not (is_empty current)
        && (leb max_batch_events (length current)
            || ltb max_request_bytes (candidate_len current current_len event))

    -- The loop with its `current` and `current_len`; it gives the batches pushed from here on.
    unfoldable pub split_loop : List WireEvent → ℕ → List WireEvent → List (List WireEvent)
    unfolding closes candidate_len
    split_loop current current_len [] = if is_empty current then [] else current ∷ []
    split_loop current current_len (event ∷ events) =
        let full = closes current current_len event in
        let kept = if full then [] else current in
        let kept_len = if full then empty_batch_len else current_len in
        let rest = split_loop (kept ++ event ∷ []) (candidate_len kept kept_len event) events in
        if full then current ∷ rest else rest

-- `unwrap_or(usize::MAX)` of the length.
abbrev pub serialized_len : Result String (List ℕ) → ℕ
serialized_len (ok bytes) = length bytes
serialized_len (err e) = u64_max

-- The request that an empty batch is measured by, whoever sends.
abbrev pub placeholder : EventBatchRequest
placeholder = record {
  wire_version = wire_version;
  agent_id = "agent";
  node_name = "node";
  sequence = 1;
  sent_at_unix_nanos = 0;
  events = [];
}

unfoldable pub serialized_empty_batch_len : (EventBatchRequest → Result String (List ℕ)) → ℕ
serialized_empty_batch_len to_vec = serialized_len (to_vec placeholder)

unfoldable pub serialized_event_len : (WireEvent → Result String (List ℕ)) → WireEvent → ℕ
serialized_event_len event_to_vec event = serialized_len (event_to_vec event)

unfoldable pub split_events_by_size :
    (WireEvent → Result String (List ℕ))
    → (EventBatchRequest → Result String (List ℕ))
    → ℕ
    → ℕ
    → List WireEvent
    → List (List WireEvent)
unfolding split_loop serialized_empty_batch_len serialized_event_len
split_events_by_size event_to_vec to_vec max_batch_events max_request_bytes events =
    let empty_batch_len = serialized_empty_batch_len to_vec in
    split_loop (serialized_event_len event_to_vec) empty_batch_len max_batch_events
      max_request_bytes [] empty_batch_len events
