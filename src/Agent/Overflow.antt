-- ===== src/Agent/Overflow.antt =====
-- The buffers of the HTTP sink and of the OTLP sink stay bounded and keep their order, the HTTP sink's
-- backoff stays within a minute, and an OTLP export makes at most four posts.
use mathlib.Core.List.{append_assoc, append-nil}
use tapio.Prelude.{
  ℕ, ◌+◌, ◌*◌, ◌≤◌, ◌<◌, String, List, [], ◌∷◌, ◌++◌, Option, none, some, Result, ok, err, leb,
  ◌&&◌, ◌||◌, length, length-append, is_empty, ◌≡◌, refl, ap, ◌∙◌, arith, Bool-cases, inl, inr,
  unwrap_or, sym, sum, sum-append,
}
use tapio.Observer.Occurrence.{Occurrence}
use tapio.Observer.Convert.{SinkError}
use tapio.Agent.Buffered.{make_room, overflow, overflow-make_room, length-make_room}
use tapio.Agent.HttpSink.{
  HttpInner, enqueue, take_buffer, back_off, settled, posted, post_batch, post_if, http_send,
  http_flush, initial_backoff, max_backoff,
}
use tapio.Agent.OtlpSink.{
  Export, export_from, export_batch, attempt_with, is_success, is_retryable, retry_backoff_ms,
}

-- The state of an HTTP sink whose batches have this size.
pub record IsBounded (buffer_size : ℕ) (inner : HttpInner) : Type 0 where
  pub maximum : inner.max_buffer ≡ buffer_size * 10
  pub buffered : length inner.buffer ≤ inner.max_buffer
  pub waits : initial_backoff ≤ inner.backoff
  pub at_most : inner.backoff ≤ max_backoff

module _ (buffer_size : ℕ) where
  enqueue-IsBounded :
      (now elapsed : ℕ) (occurrence : Occurrence) (inner : HttpInner)
      → 0 < buffer_size
      → IsBounded buffer_size inner
      → IsBounded buffer_size (enqueue buffer_size now elapsed occurrence inner).0
  unfolding enqueue
  enqueue-IsBounded now elapsed occurrence inner h w =
      let kept = make_room buffer_size inner.max_buffer inner.buffer in
      let room =
        length-make_room buffer_size inner.max_buffer inner.buffer (omega (arith, w.maximum)) in
      let pushed : length (kept ++ occurrence ∷ []) ≤ inner.max_buffer =
        rw (length-append kept (occurrence ∷ [])) (omega arith) in
      elim (Bool-cases (
        leb inner.next_retry now
        && (leb buffer_size (length (kept ++ occurrence ∷ []))
            || leb inner.flush_interval elapsed))) [
              | inl time ↦ rw time (record {
                maximum = w.maximum;
                buffered = omega arith;
                waits = w.waits;
                at_most = w.at_most;
              })
              | inr early ↦ rw early (record {
                maximum = w.maximum;
                buffered = pushed;
                waits = w.waits;
                at_most = w.at_most;
              })
            ]

  take_buffer-IsBounded :
      (now : ℕ) (inner : HttpInner)
      → IsBounded buffer_size inner
      → IsBounded buffer_size (take_buffer now inner).0
  unfolding take_buffer
  take_buffer-IsBounded now inner w = elim (Bool-cases (is_empty inner.buffer)) [
    | inl empty ↦ rw empty w
    | inr filled ↦ rw filled (record {
      maximum = w.maximum;
      buffered = omega arith;
      waits = w.waits;
      at_most = w.at_most;
    })
  ]

  module _ (to_vec : List Occurrence → Result String (List ℕ))
      (post_json : List ℕ → Result String (Unit {0})) where
    settled-IsBounded :
        (now count : ℕ) (inner : HttpInner) (r : Result String (Unit {0}))
        → IsBounded buffer_size inner
        → IsBounded buffer_size (settled to_vec post_json now count inner r).0
    unfolding settled back_off
    settled-IsBounded now count inner (ok done) w = record {
      maximum = w.maximum;
      buffered = w.buffered;
      waits = omega arith;
      at_most = omega arith;
    }
    settled-IsBounded now count inner (err e) w = record {
      maximum = w.maximum;
      buffered = w.buffered;
      waits = omega (arith, w.waits);
      at_most = omega arith;
    }

    posted-IsBounded :
        (now count : ℕ) (inner : HttpInner) (r : Result String (List ℕ))
        → IsBounded buffer_size inner
        → IsBounded buffer_size (posted to_vec post_json now count inner r).0
    unfolding posted
    posted-IsBounded now count inner (ok payload) w =
        settled-IsBounded now count inner (post_json payload) w
    posted-IsBounded now count inner (err e) w = w

    post_if-IsBounded :
        (now : ℕ) (out : HttpInner × Option (List Occurrence))
        → IsBounded buffer_size out.0
        → IsBounded buffer_size (post_if to_vec post_json now out).0
    unfolding post_if post_batch
    post_if-IsBounded now (inner, none) w = w
    post_if-IsBounded now (inner, some batch) w = elim (Bool-cases (is_empty batch)) [
      | inl empty ↦ rw empty w
      | inr filled ↦ rw filled (posted-IsBounded now (length batch) inner (to_vec batch) w)
    ]

    -- A send and a flush of an HTTP sink, whatever the post ends with, keep its buffer within ten
    -- batches and its backoff between a second and a minute, if a batch has at least one event and
    -- so it was before.
    pub http_send-IsBounded :
        (now elapsed ended : ℕ) (occurrence : Occurrence) (inner : HttpInner)
        → 0 < buffer_size
        → IsBounded buffer_size inner
        → IsBounded buffer_size
            (http_send to_vec post_json buffer_size now elapsed ended occurrence inner).0
          × IsBounded buffer_size (http_flush to_vec post_json now ended inner).0
    unfolding http_send http_flush
    http_send-IsBounded now elapsed ended occurrence inner h w = (
      post_if-IsBounded ended (enqueue buffer_size now elapsed occurrence inner)
          (enqueue-IsBounded now elapsed occurrence inner h w),
      post_if-IsBounded ended (take_buffer now inner) (take_buffer-IsBounded now inner w),
    )

-- Of what an HTTP sink has and is sent, the oldest events may be dropped, and the others are in the batch
-- or in the buffer, in order.
pub enqueue-conserves :
    (buffer_size now elapsed : ℕ) (occurrence : Occurrence) (inner : HttpInner)
    → let out = enqueue buffer_size now elapsed occurrence inner in
      overflow buffer_size inner.max_buffer inner.buffer ++ (unwrap_or out.1 [] ++ out.0.buffer)
      ≡ inner.buffer ++ occurrence ∷ []
unfolding enqueue
enqueue-conserves buffer_size now elapsed occurrence inner =
    let dropped = overflow buffer_size inner.max_buffer inner.buffer in
    let kept = make_room buffer_size inner.max_buffer inner.buffer in
    let whole : dropped ++ (kept ++ occurrence ∷ []) ≡ inner.buffer ++ occurrence ∷ [] =
      sym (append_assoc dropped kept (occurrence ∷ []))
      ∙ ap (λ front. front ++ occurrence ∷ [])
          (overflow-make_room buffer_size inner.max_buffer inner.buffer) in
    elim (Bool-cases (
      leb inner.next_retry now
      && (leb buffer_size (length (kept ++ occurrence ∷ []))
          || leb inner.flush_interval elapsed))) [
            | inl time ↦ rw (time, append-nil (kept ++ occurrence ∷ [])) whole
            | inr early ↦ rw early whole
          ]

-- What an export says of its sleeps: one before each post but the first, from the backoffs in order.
abbrev Sleeps : List ℕ → Export → Type 0
Sleeps backoffs out =
    (out.posts ≡ 1 + length out.slept) × ((rest : List ℕ) × (out.slept ++ rest ≡ backoffs))

attempt_with-last :
    (http_post : ℕ → Result SinkError ℕ) (answer : Result SinkError ℕ)
    → Sleeps [] (attempt_with http_post answer none)
attempt_with-last http_post (err e) = (refl, ([], refl))
attempt_with-last http_post (ok status) = elim (Bool-cases (is_success status)) [
  | inl success ↦ rw success (refl, ([], refl))
  | inr failure ↦ elim (Bool-cases (is_retryable status)) [
    | inl again ↦ rw (failure, again) (refl, ([], refl))
    | inr final ↦ rw (failure, final) (refl, ([], refl))
  ]
]

attempt_with-more :
    (http_post : ℕ → Result SinkError ℕ) (answer : Result SinkError ℕ) (backoff : ℕ)
    (backoffs : List ℕ) (later : Export)
    → Sleeps backoffs later
    → Sleeps (backoff ∷ backoffs) (attempt_with http_post answer (some (backoff, later)))
attempt_with-more http_post (err e) backoff backoffs later (posts, (rest, h)) =
    (omega arith, (rest, ap (λ xs. backoff ∷ xs) h))
attempt_with-more http_post (ok status) backoff backoffs later (posts, (rest, h)) =
    elim (Bool-cases (is_success status)) [
      | inl success ↦ rw success (refl, (backoff ∷ backoffs, refl))
      | inr failure ↦ elim (Bool-cases (is_retryable status)) [
        | inl again ↦ rw (failure, again) (omega arith, (rest, ap (λ xs. backoff ∷ xs) h))
        | inr final ↦ rw (failure, final) (refl, (backoff ∷ backoffs, refl))
      ]
    ]

export_from-Sleeps :
    (http_post : ℕ → Result SinkError ℕ) (attempt : ℕ) (backoffs : List ℕ)
    → Sleeps backoffs (export_from http_post attempt backoffs)
unfolding export_from
export_from-Sleeps http_post attempt [] = attempt_with-last http_post (http_post attempt)
export_from-Sleeps http_post attempt (backoff ∷ backoffs) =
    attempt_with-more http_post (http_post attempt) backoff backoffs
      (export_from http_post (attempt + 1) backoffs)
      (export_from-Sleeps http_post (attempt + 1) backoffs)

-- An export of the OTLP sink makes at most four posts and sleeps at most three and a half seconds
-- in all, whatever the collector answers.
pub export_batch-bounded :
    (http_post : ℕ → Result SinkError ℕ) (batch : List Occurrence)
    → ((export_batch http_post batch).posts ≤ 4) × (sum (export_batch http_post batch).slept ≤ 3500)
unfolding export_batch
export_batch-bounded http_post batch = elim (Bool-cases (is_empty batch)) [
  | inl empty ↦ rw empty (omega arith, omega arith)
  | inr filled ↦
      let (posts, (rest, h)) = export_from-Sleeps http_post 0 retry_backoff_ms in
      let out = export_from http_post 0 retry_backoff_ms in
      let lengths : length out.slept + length rest ≡ 3 =
        sym (length-append out.slept rest) ∙ ap (λ (xs : List ℕ). length xs) h in
      let sums : sum out.slept + sum rest ≡ 3500 =
        sym (sum-append out.slept rest) ∙ ap (λ (xs : List ℕ). sum xs) h in
      rw filled (omega arith, omega arith)
]
