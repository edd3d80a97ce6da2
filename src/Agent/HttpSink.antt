-- ===== src/Agent/HttpSink.antt =====
-- `HttpSink` of tapio-agent/src/sink/http.rs. A time is a number of nanoseconds; `now` and the elapsed
-- time are what the clock says in the critical section. The batch is posted after the lock is released;
-- the encoder and the exchange are parameters.
use Prim.Native.Nat.{min}
use Prim.Native.String.{◌++◌ as append}
use mathlib.Core.List.{◌++◌}
use tapio.Prelude.{
  ℕ, ◌+◌, ◌*◌, String, ◌&&◌, ◌||◌, List, [], ◌∷◌, Option, none, some, Result, ok, err, leb,
  if◌then◌else◌, length, is_empty,
}
use tapio.Prelude.Decimal.{to_string}
use tapio.Observer.Occurrence.{Occurrence}
use tapio.Observer.Convert.{SinkError, send, serialization}
use tapio.Agent.Buffered.{make_room}

abbrev pub initial_backoff : ℕ
initial_backoff = 1_000_000_000

abbrev pub max_backoff : ℕ
max_backoff = 60_000_000_000

pub record HttpInner : Type 0 where
  pub buffer : List Occurrence
  pub flush_interval : ℕ
  pub last_flush : ℕ
  pub next_retry : ℕ
  pub backoff : ℕ
  pub max_buffer : ℕ

-- `HttpSink::new`.
unfoldable pub http_inner : ℕ → ℕ → ℕ → HttpInner
http_inner now buffer_size flush_interval = record {
  buffer = [];
  flush_interval = flush_interval;
  last_flush = now;
  next_retry = now;
  backoff = initial_backoff;
  max_buffer = buffer_size * 10;
}

-- The critical section of `send`: the batch to post, if it is time.
unfoldable pub enqueue : ℕ → ℕ → ℕ → Occurrence → HttpInner → HttpInner × Option (List Occurrence)
enqueue buffer_size now elapsed occurrence inner =
    let buffer = make_room buffer_size inner.max_buffer inner.buffer ++ occurrence ∷ [] in
    if leb inner.next_retry now
      && (leb buffer_size (length buffer) || leb inner.flush_interval elapsed)
    then (record inner { buffer = []; last_flush = now }, some buffer)
    else (record inner { buffer = buffer }, none)

-- The critical section of `flush`.
unfoldable pub take_buffer : ℕ → HttpInner → HttpInner × Option (List Occurrence)
take_buffer now inner =
    if is_empty inner.buffer
    then (inner, none)
    else (record inner { buffer = []; last_flush = now }, some inner.buffer)

-- After a post that failed, at this time.
unfoldable pub back_off : ℕ → HttpInner → HttpInner
back_off now inner = record inner {
  next_retry = now + inner.backoff;
  backoff = min (inner.backoff * 2) max_backoff;
}

module _ (to_vec : List Occurrence → Result String (List ℕ))
    (post_json : List ℕ → Result String (Unit {0})) where
  unfoldable pub settled :
      ℕ → ℕ → HttpInner → Result String (Unit {0}) → HttpInner × Result SinkError (Unit {0})
  settled now count inner (ok done) = (record inner { backoff = initial_backoff }, ok tt)
  settled now count inner (err e) = (
    back_off now inner,
    err (
        send (
          append "http sink: send failed, dropped "
            (append (to_string count) (append " events: " e)))),
  )

  unfoldable pub posted :
      ℕ → ℕ → HttpInner → Result String (List ℕ) → HttpInner × Result SinkError (Unit {0})
  posted now count inner (ok payload) = settled now count inner (post_json payload)
  posted now count inner (err e) = (inner, err (serialization e))

  unfoldable pub post_batch :
      ℕ → List Occurrence → HttpInner → HttpInner × Result SinkError (Unit {0})
  unfolding back_off
  post_batch now batch inner =
      if is_empty batch then (inner, ok tt) else posted now (length batch) inner (to_vec batch)

  unfoldable pub post_if :
      ℕ → HttpInner × Option (List Occurrence) → HttpInner × Result SinkError (Unit {0})
  post_if now (inner, none) = (inner, ok tt)
  post_if now (inner, some batch) = post_batch now batch inner

  -- `send`: the second time is when the post ended.
  unfoldable pub http_send :
      ℕ → ℕ → ℕ → ℕ → Occurrence → HttpInner → HttpInner × Result SinkError (Unit {0})
  unfolding post_batch
  http_send buffer_size now elapsed ended occurrence inner =
      post_if ended (enqueue buffer_size now elapsed occurrence inner)

  unfoldable pub http_flush : ℕ → ℕ → HttpInner → HttpInner × Result SinkError (Unit {0})
  unfolding post_batch
  http_flush now ended inner = post_if ended (take_buffer now inner)
