-- ===== src/Agent/OtlpSink.antt =====
-- `OtlpSink` of tapio-agent/src/sink/otlp.rs: its buffer and its attempts. The encoding and the
-- compression of a batch and the HTTP exchange are parameters.
use Prim.Native.String.{◌++◌ as append}
use mathlib.Core.List.{◌++◌}
use tapio.Prelude.{
  ℕ, ◌+◌, ◌*◌, Bool, ◌&&◌, ◌||◌, List, [], ◌∷◌, Option, none, some, Result, ok, err, leb, ltb, ◌==◌,
  if◌then◌else◌, length, is_empty,
}
use tapio.Prelude.Decimal.{to_string}
use tapio.Observer.Occurrence.{Occurrence}
use tapio.Observer.Convert.{SinkError, send}
use tapio.Agent.Buffered.{make_room}

abbrev pub max_buffer_multiplier : ℕ
max_buffer_multiplier = 10

abbrev pub retry_backoff_ms : List ℕ
retry_backoff_ms = 500 ∷ 1000 ∷ 2000 ∷ []

pub record SinkInner : Type 0 where
  pub buffer : List Occurrence
  pub last_flush : ℕ

-- The critical section of `send`.
unfoldable pub enqueue :
    ℕ → ℕ → ℕ → ℕ → Occurrence → SinkInner → SinkInner × Option (List Occurrence)
enqueue batch_size flush_interval now elapsed occurrence inner =
    let buffer =
      make_room batch_size (batch_size * max_buffer_multiplier) inner.buffer ++ occurrence ∷ [] in
    if leb batch_size (length buffer) || leb flush_interval elapsed
    then (record { buffer = []; last_flush = now }, some buffer)
    else (record inner { buffer = buffer }, none)

-- How an export ends, how many posts it made, and how long it slept before each but the first.
pub record Export : Type 0 where
  pub result : Result SinkError (Unit {0})
  pub posts : ℕ
  pub slept : List ℕ

abbrev pub ended : Result SinkError (Unit {0}) → Export
ended result = record { result = result; posts = 1; slept = [] }

abbrev pub after_sleep : ℕ → Export → Export
after_sleep backoff later = record {
  result = later.result;
  posts = later.posts + 1;
  slept = backoff ∷ later.slept;
}

abbrev pub is_success : ℕ → Bool
is_success status = leb 200 status && ltb status 300

abbrev pub is_retryable : ℕ → Bool
is_retryable status = status == 429 || leb 500 status

module _ (http_post : ℕ → Result SinkError ℕ) where
  -- What an attempt says, with the attempts after it, if there are any.
  abbrev pub attempt_with : Result SinkError ℕ → Option (ℕ × Export) → Export
  attempt_with (ok status) none =
      if is_success status
      then ended (ok tt)
      else if is_retryable status
      then ended (err (send "OTLP export: retries exhausted"))
      else ended (err (send (append "OTLP export failed: HTTP " (to_string status))))
  attempt_with (ok status) (some (backoff, later)) =
      if is_success status
      then ended (ok tt)
      else if is_retryable status
      then after_sleep backoff later
      else ended (err (send (append "OTLP export failed: HTTP " (to_string status))))
  attempt_with (err e) none = ended (err e)
  attempt_with (err e) (some (backoff, later)) = after_sleep backoff later

  -- The loop of `export_batch`, from an attempt on, with the backoffs that are left.
  unfoldable pub export_from : ℕ → List ℕ → Export
  export_from attempt [] = attempt_with (http_post attempt) none
  export_from attempt (backoff ∷ backoffs) =
      let later = export_from (attempt + 1) backoffs in
      attempt_with (http_post attempt) (some (backoff, later))

  unfoldable pub export_batch : List Occurrence → Export
  unfolding export_from
  export_batch batch =
      if is_empty batch
      then record { result = ok tt; posts = 0; slept = [] }
      else export_from 0 retry_backoff_ms
