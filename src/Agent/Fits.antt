-- ===== src/Agent/Fits.antt =====
-- What `split_events_by_size` of tapio-agent/src/sink/controller.rs makes of a buffer.
use Prim.Native.Nat.{max, min}
use mathlib.Core.List.{append_assoc}
use tapio.Prelude.{
  ℕ, ◌+◌, ◌≤◌, ◌<◌, ◌≡◌, refl, ◌⊎◌, inl, inr, false, List, [], ◌∷◌, ◌++◌, length, length-append,
  All, concat, String, Result, u64_max, arith, Bool-cases, ap, ◌∙◌,
}
use tapio.Wire.Types.{WireEvent, EventBatchRequest}
use tapio.Agent.Split.{
  separator_len, candidate_len, closes, split_loop, split_events_by_size,
  serialized_empty_batch_len, serialized_event_len,
}

module _ (event_len : WireEvent → ℕ) where
  -- The events in JSON, each with a comma before it but the first.
  abbrev commas : List WireEvent → ℕ
  commas [] = 0
  commas (e ∷ es) = 1 + event_len e + commas es

  abbrev pub listed : List WireEvent → ℕ
  listed [] = 0
  listed (e ∷ es) = event_len e + commas es

  commas-append :
      (es : List WireEvent) (e : WireEvent) → commas (es ++ e ∷ []) ≡ commas es + 1 + event_len e
  commas-append [] e = omega arith
  commas-append (x ∷ es) e = omega (arith, commas-append es e)

module _ (event_len : WireEvent → ℕ) (empty_len : ℕ) where
  -- The length of a request with these events, as the splitter estimates it.
  abbrev pub request_len : List WireEvent → ℕ
  request_len events = empty_len + listed event_len events

  request_len-append :
      (es : List WireEvent) (e : WireEvent)
      → request_len (es ++ e ∷ [])
        ≡ request_len es + separator_len event_len empty_len es + event_len e
  request_len-append [] e = omega arith
  request_len-append (x ∷ es) e = omega (arith, commas-append event_len es e)

  module _ (max_batch_events max_request_bytes : ℕ) where
    -- A batch that may be sent: not empty, within the number of events, and within the bytes unless a
    -- single event is longer by itself.
    pub record Fits (batch : List WireEvent) : Type 0 where
      pub nonempty : 0 < length batch
      pub counted : length batch ≤ max 1 max_batch_events
      pub sized : (request_len batch ≤ max_request_bytes) ⊎ (length batch ≡ 1)

    -- What holds of the batch under way and of its length.
    record Current (current : List WireEvent) (current_len : ℕ) : Type 0 where
      exact : current_len ≡ min (request_len current) u64_max
      fits : (current ≡ []) ⊎ Fits current

    pub record Splits (events : List WireEvent) (batches : List (List WireEvent)) : Type 0 where
      pub whole : concat batches ≡ events
      pub each : All Fits batches

    fresh-Current :
        (e : WireEvent)
        → empty_len ≤ u64_max
        → Current (e ∷ []) (candidate_len event_len empty_len [] empty_len e)
    unfolding candidate_len
    fresh-Current e h = record {
      exact = omega arith;
      fits = inr (record { nonempty = omega arith; counted = omega arith; sized = inr refl });
    }

    grown-Current :
        (current : List WireEvent) (current_len : ℕ) (e : WireEvent)
        → max_request_bytes < u64_max
        → Current current current_len
        → closes event_len empty_len max_batch_events max_request_bytes current current_len e
          ≡ false
        → Current (current ++ e ∷ []) (candidate_len event_len empty_len current current_len e)
    unfolding candidate_len closes
    grown-Current [] n e m c h = record {
      exact = omega (arith, c.exact);
      fits = inr (record { nonempty = omega arith; counted = omega arith; sized = inr refl });
    }
    grown-Current (x ∷ es) n e m c h = record {
      exact = omega (arith, c.exact, request_len-append (x ∷ es) e);
      fits = inr (record {
        nonempty = omega arith;
        counted = ground (arith, length-append (x ∷ es) (e ∷ []));
        sized = inl (ground (arith, c.exact, request_len-append (x ∷ es) e));
      });
    }

    split_loop-Splits :
        (events current : List WireEvent) (current_len : ℕ)
        → empty_len ≤ u64_max
        → max_request_bytes < u64_max
        → Current current current_len
        → Splits (current ++ events) (
            split_loop event_len empty_len max_batch_events max_request_bytes current current_len
              events)
    unfolding split_loop
    split_loop-Splits [] [] n z m c = record { whole = refl; each = tt }
    split_loop-Splits [] (x ∷ es) n z m c = record {
      whole = refl;
      each = (elim c.fits [ inl e ↦ cc | inr f ↦ f ], tt);
    }
    split_loop-Splits (e ∷ events) current n z m c =
        elim (Bool-cases
          (closes event_len empty_len max_batch_events max_request_bytes current n e)) [
            | inl full ↦
                let ih =
                  split_loop-Splits events (e ∷ [])
                    (candidate_len event_len empty_len [] empty_len e) z m (fresh-Current e z) in
                rw full (record {
                  whole = ap (λ es. current ++ es) ih.whole;
                  each = (
                    elim c.fits [ inl empty ↦ unfold closes in ground arith | inr f ↦ f ],
                    ih.each,
                  );
                })
            | inr open_batch ↦
                let ih =
                  split_loop-Splits events (current ++ e ∷ [])
                    (candidate_len event_len empty_len current n e) z m
                    (grown-Current current n e m c open_batch) in
                rw open_batch (record {
                  whole = ih.whole ∙ append_assoc current (e ∷ []) events;
                  each = ih.each;
                })
          ]

-- For a placeholder whose length is a u64 and a maximal request below the largest u64, a buffer is split
-- whole and in order, into batches that fit by the estimate.
pub split_events_by_size-Splits :
    (event_to_vec : WireEvent → Result String (List ℕ))
    (to_vec : EventBatchRequest → Result String (List ℕ)) (max_batch_events max_request_bytes : ℕ)
    (events : List WireEvent)
    → serialized_empty_batch_len to_vec ≤ u64_max
    → max_request_bytes < u64_max
    → Splits
        (serialized_event_len event_to_vec)
        (serialized_empty_batch_len to_vec)
        max_batch_events
        max_request_bytes
        events
        (split_events_by_size event_to_vec to_vec max_batch_events max_request_bytes events)
unfolding split_events_by_size
split_events_by_size-Splits event_to_vec to_vec max_batch_events max_request_bytes events z m =
    split_loop-Splits (serialized_event_len event_to_vec) (serialized_empty_batch_len to_vec)
      max_batch_events max_request_bytes events [] (serialized_empty_batch_len to_vec) z m
      (record { exact = omega arith; fits = inl refl })
