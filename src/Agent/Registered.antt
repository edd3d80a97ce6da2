-- ===== src/Agent/Registered.antt =====
-- What holds of the registration loop in every state it reaches, how long it waits between the hellos that
-- fail, and what a response that it takes has passed.
use Prim.Native.Nat.{min}
use mathlib.Core.Path.{subst}
use tapio.Prelude.{
  ℕ, suc, ◌+◌, ◌*◌, ◌^◌, String, List, [], ◌∷◌, Result, ok, err, ◌≡◌, refl, ◌≤◌, ◌∙◌, arith, IsOk,
  Bool-cases, inl, inr, length, ap, >>=-eq-ok,
}
use tapio.Wire.Types.{HelloRequest, HelloResponse, WireResult}
use tapio.Wire.Validate
use tapio.Agent.Heartbeat.{ControllerState, take_hello, set_config_version, set_batching}
use tapio.Agent.Sink.{HttpResponse}
use tapio.Agent.Register.{
  Registration, greeting, classify_heartbeat_result, start, after_hello, after_sleep,
  after_decision, Step, greets, wakes, beats, stops, Reach, here, step, hello_once, texted,
  prefixed, success_body, max_hello_backoff,
}

-- The backoff is between one second and a minute, and the sink's limits are not zero.
pub record IsBounded (r : Registration) : Type 0 where
  pub waits : 1 ≤ r.backoff
  pub at_most : r.backoff ≤ max_hello_backoff
  pub interval : 1 ≤ r.state.send_interval_ms
  pub batch : 1 ≤ r.state.max_batch_events

Step-IsBounded : (a b : Registration) → Step a b → IsBounded a → IsBounded b
unfolding after_hello after_sleep after_decision classify_heartbeat_result take_hello
    set_config_version set_batching
Step-IsBounded a b (greets r (ok response) h) w = elim (Bool-cases response.accepted) [
  | inl taken ↦ record {
    waits = rw taken w.waits;
    at_most = rw taken w.at_most;
    interval = rw taken (omega arith);
    batch = rw taken (omega arith);
  }
  | inr turned_down ↦ record {
    waits = rw turned_down w.waits;
    at_most = rw turned_down w.at_most;
    interval = rw turned_down w.interval;
    batch = rw turned_down w.batch;
  }
]
Step-IsBounded a b (greets r (err e) h) w = record {
  waits = w.waits;
  at_most = w.at_most;
  interval = w.interval;
  batch = w.batch;
}
Step-IsBounded a b (wakes r h) w = record {
  waits = omega (arith, w.waits);
  at_most = omega arith;
  interval = w.interval;
  batch = w.batch;
}
Step-IsBounded a b (beats r (ok response) h) w = elim (Bool-cases response.accepted) [
  | inl taken ↦
      rw taken
        (record { waits = w.waits; at_most = w.at_most; interval = w.interval; batch = w.batch })
  | inr turned_down ↦ rw turned_down (record {
    waits = omega arith;
    at_most = omega arith;
    interval = w.interval;
    batch = w.batch;
  })
]
Step-IsBounded a b (beats r (err e) h) w = record {
  waits = w.waits;
  at_most = w.at_most;
  interval = w.interval;
  batch = w.batch;
}
Step-IsBounded a b (stops r) w = record {
  waits = w.waits;
  at_most = w.at_most;
  interval = w.interval;
  batch = w.batch;
}

-- However the hellos and the heartbeats of the registration loop end, a backoff between one second
-- and a minute stays there, and a batching interval and a batch limit that are not zero stay so.
pub Reach-IsBounded : (a b : Registration) → Reach a b → IsBounded a → IsBounded b
Reach-IsBounded a b (here r) w = w
Reach-IsBounded a c (step r b d s rest) w = Reach-IsBounded b d rest (Step-IsBounded r b s w)

-- So many hellos that fail, each with the sleep after it.
abbrev pub failing : List String → Registration → Registration
failing [] r = r
failing (error ∷ errors) r = failing errors (after_sleep (after_hello (err error) r))

doubled : (j : ℕ) → min (min (2 ^ j) 60 * 2) 60 ≡ min (2 ^ suc j) 60
doubled j = omega arith

failing-from :
    (j : ℕ) (errors : List String) (r : Registration)
    → r.backoff ≡ min (2 ^ j) 60
    → r.phase ≡ greeting
    → ((failing errors r).backoff ≡ min (2 ^ (j + length errors)) 60)
      × ((failing errors r).hello_failures ≡ r.hello_failures + length errors)
      × ((failing errors r).phase ≡ greeting)
unfolding after_hello after_sleep
failing-from j [] r h g = (h ∙ ap (λ n. min (2 ^ n) 60) (omega arith), omega arith, g)
failing-from j (error ∷ errors) r h g =
    let later : suc j + length errors ≡ j + suc (length errors) = omega arith in
    let (a, b, c) =
      failing-from (suc j) errors (after_sleep (after_hello (err error) r)) (rw h (doubled j))
        refl in
    (a ∙ ap (λ n. min (2 ^ n) 60) later, b ∙ (omega arith), c)

-- After so many hellos that fail, from the start of the loop, it says hello again with a backoff
-- that doubled each time, up to a minute, and has counted each failure.
pub failing-backoff :
    (state : ControllerState) (errors : List String)
    → ((failing errors (start state)).backoff ≡ min (2 ^ length errors) 60)
      × ((failing errors (start state)).hello_failures ≡ length errors)
      × ((failing errors (start state)).phase ≡ greeting)
unfolding start
failing-backoff state errors =
    let (a, b, c) = failing-from 0 errors (start state) refl refl in
    (a ∙ ap (λ n. min (2 ^ n) 60) (omega arith), b ∙ (omega arith), c)

texted-IsOk : (m : WireResult (Unit {0})) (u : Unit {0}) → texted m ≡ ok u → IsOk m
texted-IsOk (ok tt) u h = refl
texted-IsOk (err e) u h = cc

-- A response that the loop takes answers a request that passes its own check.
pub hello_once-checked :
    (post : List ℕ → Result String HttpResponse) (to_vec : HelloRequest → Result String (List ℕ))
    (from_slice : List ℕ → Result String HelloResponse) (request : HelloRequest)
    (response : HelloResponse)
    → hello_once post to_vec from_slice request ≡ ok response
    → IsOk (Validate.hello_request request) × IsOk (Validate.hello_response response)
unfolding hello_once
hello_once-checked post to_vec from_slice request response h =
    let (u, sent, h1) = >>=-eq-ok (texted (Validate.hello_request request)) _ h in
    let (body, encoded, h2) = >>=-eq-ok (prefixed "encode HelloRequest: " (to_vec request)) _ h1 in
    let (answered, posted, h3) = >>=-eq-ok (post body) _ h2 in
    let (answer, success, h4) = >>=-eq-ok (success_body answered) _ h3 in
    let (decoded, read, h5) =
      >>=-eq-ok (prefixed "decode HelloResponse: " (from_slice answer)) _ h4 in
    let (v, checked, h6) = >>=-eq-ok (texted (Validate.hello_response decoded)) _ h5 in
    let same : decoded ≡ response = cc in
    (
      texted-IsOk (Validate.hello_request request) u sent,
      subst (λ (r : HelloResponse). IsOk (Validate.hello_response r)) same
          (texted-IsOk (Validate.hello_response decoded) v checked),
    )
