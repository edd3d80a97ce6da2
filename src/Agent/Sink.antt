-- ===== src/Agent/Sink.antt =====
-- The worker of the controller sink in tapio-agent/src/sink/controller.rs: `flush_buffer`,
-- `flush_buffer_once` and `send_event_batch_with_retries`. The serializer, the clock and the HTTP
-- exchange are parameters; an exchange may answer each attempt of each body differently.
use Prim.Native.Nat.{min}
use Prim.Native.String.{◌++◌}
use tapio.Prelude.{
  ℕ, zero, suc, ◌+◌, ◌*◌, String, Bool, ◌&&◌, Option, none, some, List, [], ◌∷◌, Result, ok, err,
  ◌>>=◌, leb, is_empty, length, if◌then◌else◌, saturating_add, u64, u64_max,
}
use tapio.Prelude.Decimal.{to_string}
use tapio.Wire.Types.{
  WireError, unsupported_version, missing_field, invalid_field, reasoning_field, wire_version,
  WireEvent, EventBatchRequest, EventBatchResponse,
}
use tapio.Wire.Validate
use tapio.Agent.Split.{split_events_by_size}

abbrev pub default_max_request_bytes : ℕ
default_max_request_bytes = 256 * 1024

-- In milliseconds.
abbrev pub initial_retry_backoff : ℕ
initial_retry_backoff = 100

abbrev pub max_retry_backoff : ℕ
max_retry_backoff = 2000

abbrev pub max_retries : ℕ
max_retries = 3

-- The worker's fields, its controller's identity, and the two counters that it moves: the failed
-- sends of event batches, and the events dropped as `send_failed`.
pub record Worker : Type 0 where
  pub agent_id : String
  pub node_name : String
  pub sequence : ℕ
  pub max_request_bytes : ℕ
  pub buffer : List WireEvent
  pub controller_send_failures_total : ℕ
  pub sink_drops_total : ℕ

pub record HttpResponse : Type 0 where
  pub status : ℕ
  pub body : List ℕ

-- `WireError` as it is displayed.
unfoldable pub error_text : WireError → String
error_text (unsupported_version version) = "unsupported wire version: " ++ version
error_text (missing_field field) = "missing required field: " ++ field
error_text (invalid_field field reason) = "invalid field " ++ (field ++ (": " ++ reason))
error_text (reasoning_field field) = "event facts contain reasoning field: " ++ field

abbrev pub map_err {ℓ κ μ} :
    {E : Type ℓ} {E' : Type κ} {A : Type μ} → (E → E') → Result E A → Result E' A
map_err f (ok a) = ok a
map_err f (err e) = err (f e)

-- How the attempts end: with an answer of the controller, or with the batch dropped.
pub data Outcome : Type 0 where
  answered : Result String (Unit {0}) → Outcome
  dropped : String → Outcome

pub record Attempts : Type 0 where
  pub outcome : Outcome
  pub posts : ℕ
  pub slept : List ℕ

abbrev pub last_attempt : Outcome → Attempts
last_attempt outcome = record { outcome = outcome; posts = 1; slept = [] }

-- An attempt that failed, a sleep, and the attempts after it.
abbrev pub retried : ℕ → Attempts → Attempts
retried backoff later = record {
  outcome = later.outcome;
  posts = suc later.posts;
  slept = backoff ∷ later.slept;
}

abbrev pub is_success : ℕ → Bool
is_success status = leb 200 status && leb status 299

unfoldable pub request_for : Worker → ℕ → ℕ → List WireEvent → EventBatchRequest
request_for worker sequence sent_at events = record {
  wire_version = wire_version;
  agent_id = worker.agent_id;
  node_name = worker.node_name;
  sequence = sequence;
  sent_at_unix_nanos = sent_at;
  events = events;
}

unfoldable pub drop_failed_batch : ℕ → Worker → Worker
drop_failed_batch event_count worker = record worker {
  controller_send_failures_total = u64 (worker.controller_send_failures_total + 1);
  sink_drops_total = u64 (worker.sink_drops_total + event_count);
}

-- What a failed attempt says: its status, or the error of the transport.
abbrev pub failure : Result String HttpResponse → String
failure (ok response) = "HTTP " ++ to_string response.status
failure (err e) = e

abbrev pub success : Result String HttpResponse → Option HttpResponse
success (ok response) = if is_success response.status then some response else none
success (err e) = none

abbrev pub settle : ℕ → Worker → Outcome → Worker × Result String (Unit {0})
settle event_count worker (answered result) = (worker, result)
settle event_count worker (dropped error) = (drop_failed_batch event_count worker, err error)

abbrev pub last_of : Option String → Result String (Unit {0}) → Option String
last_of last (ok _) = last
last_of last (err e) = some e

abbrev pub or_ok : Option String → Result String (Unit {0})
or_ok none = ok tt
or_ok (some e) = err e

module _ (from_slice : List ℕ → Result String EventBatchResponse)
    (post : List ℕ → ℕ → Result String HttpResponse) where
  -- The body of a response with a success status.
  unfoldable pub answer : HttpResponse → Result String (Unit {0})
  unfolding error_text
  answer response = do
    decoded ← map_err (λ e. "decode EventBatchResponse: " ++ e) (from_slice response.body)
    map_err error_text (Validate.event_batch_response decoded)

  -- The loop from the given attempt on, with so many retries left.
  unfoldable pub attempts : ℕ → ℕ → ℕ → List ℕ → Attempts
  unfolding answer
  attempts zero attempt backoff body = elim (success (post body attempt)) [
    | some response ↦ last_attempt (answered (answer response))
    | none ↦ last_attempt (dropped (failure (post body attempt)))
  ]
  attempts (suc left) attempt backoff body =
      let later = attempts left (attempt + 1) (min (backoff * 2) max_retry_backoff) body in
      elim (success (post body attempt)) [
        | some response ↦ last_attempt (answered (answer response))
        | none ↦ retried backoff later
      ]

  -- The attempts with a body, or the error if there is none; only the attempts count drops.
  unfoldable pub send_body :
      Bool → List WireEvent → Worker → Result String (List ℕ) → Worker × Result String (Unit {0})
  unfolding attempts drop_failed_batch
  send_body retry events worker (err e) = (worker, err e)
  send_body retry events worker (ok body) =
      let made = attempts (if retry then max_retries else 0) 0 initial_retry_backoff body in
      settle (length events) worker made.outcome

  module _ (to_vec : EventBatchRequest → Result String (List ℕ)) (now : ℕ → ℕ) where
    -- The body of a request, or why none is sent.
    unfoldable pub encode : EventBatchRequest → Result String (List ℕ)
    unfolding error_text
    encode request = do
      _ ← map_err error_text (Validate.event_batch u64_max request)
      map_err (λ e. "encode EventBatchRequest: " ++ e) (to_vec request)

    unfoldable pub send_event_batch_with_retries :
        Bool → List WireEvent → Worker → Worker × Result String (Unit {0})
    unfolding encode request_for send_body
    send_event_batch_with_retries retry events worker =
        let sequence = worker.sequence in
        let advanced : Worker = record worker { sequence = saturating_add sequence 1 } in
        send_body retry events advanced (encode (request_for worker sequence (now sequence) events))

    -- The loop over the batches; it keeps the last error.
    unfoldable pub send_all :
        Bool → List (List WireEvent) → Option String → Worker → Worker × Option String
    unfolding send_event_batch_with_retries
    send_all retry [] last worker = (worker, last)
    send_all retry (batch ∷ batches) last worker =
        let sent = send_event_batch_with_retries retry batch worker in
        send_all retry batches (last_of last sent.1) sent.0

    module _ (event_to_vec : WireEvent → Result String (List ℕ)) where
      -- `flush_buffer` if `retry` is set, else `flush_buffer_once`.
      unfoldable pub flush_buffer : Bool → ℕ → Worker → Worker × Result String (Unit {0})
      unfolding send_all
      flush_buffer retry max_batch_events worker =
          let batches =
            split_events_by_size event_to_vec to_vec max_batch_events worker.max_request_bytes
              worker.buffer in
          let sent = send_all retry batches none (record worker { buffer = [] }) in
          if is_empty worker.buffer then (worker, ok tt) else (sent.0, or_ok sent.1)
