-- ===== src/Agent/Sent.antt =====
-- What the worker of tapio-agent/src/sink/controller.rs sends, and what it counts.
use Prim.Native.Nat.{min}
use tapio.Prelude.{
  ℕ, zero, suc, ◌+◌, ◌*◌, ◌≤◌, ◌<◌, ◌≡◌, refl, String, false, none, some, List, [], ◌∷◌, ◌++◌,
  Result, IsOk, All, concat, u64_max, arith, sym,
}
use mathlib.Core.Path.{subst}
use tapio.Prelude.Text.{is_blank}
use tapio.Wire.Types.{WireEvent, EventBatchRequest, EventBatchResponse, wire_version}
use tapio.Wire.Validate
use tapio.Wire.Accepted.{event_batch_iff}
use tapio.Agent.Split.{split_events_by_size, serialized_empty_batch_len, serialized_event_len}
use tapio.Agent.Fits.{Fits, split_events_by_size-Splits}
use tapio.Agent.Sink.{
  Worker, HttpResponse, answered, dropped, attempts, last_attempt, retried, answer, success,
  failure, max_retry_backoff, request_for,
}

pub All-map {ℓ κ μ} :
    {A : Type ℓ} {P : A → Type κ} {Q : A → Type μ}
    → ((x : A) → P x → Q x)
    → (xs : List A) → All P xs
    → All Q xs
All-map f [] p = tt
All-map f (x ∷ xs) p = (f x p.0, All-map f xs p.1)

module _ {ℓ κ} {A : Type ℓ} (P : A → Type κ) where
  All-front : (xs ys : List A) → All P (xs ++ ys) → All P xs × All P ys
  All-front [] ys a = (tt, a)
  All-front (x ∷ xs) ys a = let (b, c) = All-front xs ys a.1 in ((a.0, b), c)

  pub All-concat : (xss : List (List A)) → All P (concat xss) → All (All P) xss
  All-concat [] a = tt
  All-concat (xs ∷ xss) a = let (b, c) = All-front xs (concat xss) a in (b, All-concat xss c)

module _ {ℓ κ μ ν} {A : Type ℓ} {P : A → Type κ} {Q : A → Type μ} {R : A → Type ν} where
  pub All-both : ((x : A) → P x → Q x → R x) → (xs : List A) → All P xs → All Q xs → All R xs
  All-both f [] p q = tt
  All-both f (x ∷ xs) p q = (f x p.0 q.0, All-both f xs p.1 q.1)

Fits-accepted :
    (event_len : WireEvent → ℕ) (empty_len limit bytes : ℕ) (request : EventBatchRequest)
    → 0 < limit
    → request.wire_version ≡ wire_version
    → is_blank request.agent_id ≡ false
    → is_blank request.node_name ≡ false
    → Fits event_len empty_len limit bytes request.events
    → All (λ e. IsOk (Validate.wire_event e)) request.events
    → IsOk (Validate.event_batch limit request)
Fits-accepted event_len empty_len limit bytes request l w a n f v =
    (event_batch_iff limit request).1 (record {
      version = w;
      agent = a;
      node = n;
      nonempty = f.nonempty;
      bounded = omega (arith, f.counted);
      valid = v;
    })

-- For lengths that are u64, a limit that is not zero, and an agent and a node that are not blank,
-- every batch that a sink makes of valid events is one that the validation with the sink's limit
-- accepts, whatever its sequence number and time.
pub split_events_by_size-accepted :
    (event_to_vec : WireEvent → Result String (List ℕ))
    (to_vec : EventBatchRequest → Result String (List ℕ)) (limit sequence sent_at : ℕ)
    (worker : Worker)
    → serialized_empty_batch_len to_vec ≤ u64_max
    → worker.max_request_bytes < u64_max
    → 0 < limit
    → is_blank worker.agent_id ≡ false
    → is_blank worker.node_name ≡ false
    → All (λ e. IsOk (Validate.wire_event e)) worker.buffer
    → All
        (λ batch. IsOk (Validate.event_batch limit (request_for worker sequence sent_at batch)))
        (split_events_by_size event_to_vec to_vec limit worker.max_request_bytes worker.buffer)
unfolding request_for
split_events_by_size-accepted event_to_vec to_vec limit sequence sent_at worker z m l a n v =
    let event_len = serialized_event_len event_to_vec in
    let empty_len = serialized_empty_batch_len to_vec in
    let bytes = worker.max_request_bytes in
    let s = split_events_by_size-Splits event_to_vec to_vec limit bytes worker.buffer z m in
    All-both {P = Fits event_len empty_len limit bytes}
      {Q = All (λ e. IsOk (Validate.wire_event e))}
      {R = λ batch. IsOk (Validate.event_batch limit (request_for worker sequence sent_at batch))}
      (λ batch f valid.
        Fits-accepted event_len empty_len limit bytes (request_for worker sequence sent_at batch) l
          refl a n f valid)
      _ s.each
      (All-concat (λ e. IsOk (Validate.wire_event e)) _
        (subst (All (λ e. IsOk (Validate.wire_event e))) (sym s.whole) v))

module _ (from_slice : List ℕ → Result String EventBatchResponse)
    (post : List ℕ → ℕ → Result String HttpResponse) where
  -- So many attempts fail, from the given one on.
  abbrev pub Failing : List ℕ → ℕ → ℕ → Type 0
  Failing body zero attempt = Unit {0}
  Failing body (suc n) attempt = (success (post body attempt) ≡ none) × Failing body n (attempt + 1)

  now_at :
      (body : List ℕ) (attempt : ℕ) (response : HttpResponse)
      → success (post body (attempt + 0)) ≡ some response
      → success (post body attempt) ≡ some response
  now_at body attempt response s =
      subst (λ n. success (post body n) ≡ some response) (omega arith) s

  attempts-success :
      (body : List ℕ) (left attempt backoff : ℕ) (response : HttpResponse)
      → success (post body attempt) ≡ some response
      → attempts from_slice post left attempt backoff body
        ≡ last_attempt (answered (answer from_slice post response))
  unfolding attempts
  attempts-success body zero attempt backoff response s = ground arith
  attempts-success body (suc left) attempt backoff response s = ground arith

  attempts-retried :
      (body : List ℕ) (left attempt backoff : ℕ)
      → success (post body attempt) ≡ none
      → attempts from_slice post (suc left) attempt backoff body
        ≡ retried backoff
            (attempts from_slice post left (attempt + 1) (min (backoff * 2) max_retry_backoff) body)
  unfolding attempts
  attempts-retried body left attempt backoff s = ground arith

  attempts-dropped :
      (body : List ℕ) (attempt backoff : ℕ)
      → success (post body attempt) ≡ none
      → attempts from_slice post 0 attempt backoff body
        ≡ last_attempt (dropped (failure (post body attempt)))
  unfolding attempts
  attempts-dropped body attempt backoff s = ground arith

  -- The first attempt that meets a success status decides, if the retries reach it: its answer is the
  -- result and nothing is posted after it.
  pub attempts-first :
      (body : List ℕ) (left failing attempt backoff : ℕ) (response : HttpResponse)
      → failing ≤ left
      → Failing body failing attempt
      → success (post body (attempt + failing)) ≡ some response
      → ((attempts from_slice post left attempt backoff body).outcome
          ≡ answered (answer from_slice post response))
        × ((attempts from_slice post left attempt backoff body).posts ≡ failing + 1)
  attempts-first body zero zero attempt backoff response h f s =
      rw (attempts-success body zero attempt backoff response (now_at body attempt response s))
        (refl, omega arith)
  attempts-first body zero (suc failing) attempt backoff response h f s = ground arith
  attempts-first body (suc left) zero attempt backoff response h f s =
      rw
        (attempts-success body (suc left) attempt backoff response (now_at body attempt response s))
        (refl, omega arith)
  attempts-first body (suc left) (suc failing) attempt backoff response h f s =
      let next : attempt + suc failing ≡ attempt + 1 + failing = omega arith in
      let (o, p) =
        attempts-first body left failing (attempt + 1) (min (backoff * 2) max_retry_backoff)
          response (omega arith) f.1 (subst (λ n. success (post body n) ≡ some response) next s) in
      rw (attempts-retried body left attempt backoff f.0) (o, omega (arith, p))

  -- If every attempt fails, the batch is dropped after one post more than the retries.
  pub attempts-exhausted :
      (body : List ℕ) (left attempt backoff : ℕ)
      → Failing body (suc left) attempt
      → ((attempts from_slice post left attempt backoff body).posts ≡ left + 1)
        × ((e : String) × ((attempts from_slice post left attempt backoff body).outcome
              ≡ dropped e))
  attempts-exhausted body zero attempt backoff f =
      rw (attempts-dropped body attempt backoff f.0)
        (omega arith, (failure (post body attempt), refl))
  attempts-exhausted body (suc left) attempt backoff f =
      let (p, gone) =
        attempts-exhausted body left (attempt + 1) (min (backoff * 2) max_retry_backoff) f.1 in
      rw (attempts-retried body left attempt backoff f.0) (omega (arith, p), gone)
