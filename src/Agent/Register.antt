-- ===== src/Agent/Register.antt =====
-- `registration_loop`, `hello_once`, `heartbeat_once` and `classify_heartbeat_result` of
-- tapio-agent/src/registration.rs, as a state machine: its steps are what a hello, a sleep and a
-- heartbeat end with.
use Prim.Native.Nat.{min}
use Prim.Native.String.{◌++◌}
use tapio.Prelude.{ℕ, ◌+◌, ◌*◌, String, List, Result, ok, err, ◌>>=◌, ◌>>◌, if◌then◌else◌, ◌≡◌}
use tapio.Prelude.Decimal.{to_string}
use tapio.Wire.Types.{WireResult, HelloRequest, HelloResponse, HeartbeatRequest, HeartbeatResponse}
use tapio.Wire.Validate
use tapio.Agent.Heartbeat.{ControllerState, take_hello}
use tapio.Agent.Sink.{HttpResponse, error_text, is_success}

abbrev pub initial_hello_backoff : ℕ
initial_hello_backoff = 1

abbrev pub max_hello_backoff : ℕ
max_hello_backoff = 60

pub data HeartbeatDecision : Type 0 where
  continue re_register : HeartbeatDecision

-- The decision, and whether the failure counter moves.
unfoldable pub classify_heartbeat_result : Result String HeartbeatResponse → HeartbeatDecision × ℕ
classify_heartbeat_result (err error) = (continue, 1)
classify_heartbeat_result (ok response) =
    if response.accepted then (continue, 0) else (re_register, 1)

abbrev pub texted : {A : Type 0} → WireResult A → Result String A
texted (ok a) = ok a
texted (err e) = err (error_text e)

abbrev pub prefixed : {A : Type 0} → String → Result String A → Result String A
prefixed text (ok a) = ok a
prefixed text (err e) = err (text ++ e)

abbrev pub success_body : HttpResponse → Result String (List ℕ)
success_body response =
    if is_success response.status
    then ok response.body
    else err ("HTTP " ++ to_string response.status)

module _ (post_json_response : List ℕ → Result String HttpResponse) where
  -- The request's JSON and the decoder of the answer are parameters.
  unfoldable pub hello_once :
      (HelloRequest → Result String (List ℕ))
      → (List ℕ → Result String HelloResponse)
      → HelloRequest
      → Result String HelloResponse
  hello_once to_vec from_slice request = do
    texted (Validate.hello_request request)
    body ← prefixed "encode HelloRequest: " (to_vec request)
    answered ← post_json_response body
    answer ← success_body answered
    response ← prefixed "decode HelloResponse: " (from_slice answer)
    texted (Validate.hello_response response)
    ok response

  unfoldable pub heartbeat_once :
      (HeartbeatRequest → Result String (List ℕ))
      → (List ℕ → Result String HeartbeatResponse)
      → HeartbeatRequest
      → Result String HeartbeatResponse
  heartbeat_once to_vec from_slice request = do
    texted (Validate.heartbeat_request request)
    body ← prefixed "encode HeartbeatRequest: " (to_vec request)
    answered ← post_json_response body
    answer ← success_body answered
    response ← prefixed "decode HeartbeatResponse: " (from_slice answer)
    texted (Validate.heartbeat_response response)
    ok response

-- Where the loop stands: about to say hello, sleeping after a hello that failed, sending heartbeats, or
-- stopped.
pub data Phase : Type 0 where
  greeting sleeping beating stopped : Phase

pub record Registration : Type 0 where
  pub phase : Phase
  pub backoff : ℕ
  pub state : ControllerState
  pub hello_failures : ℕ
  pub heartbeat_failures : ℕ

unfoldable pub start : ControllerState → Registration
start state = record {
  phase = greeting;
  backoff = initial_hello_backoff;
  state = state;
  hello_failures = 0;
  heartbeat_failures = 0;
}

-- What a hello ends with: its answer is taken, or the loop sleeps.
unfoldable pub after_hello : Result String HelloResponse → Registration → Registration
after_hello (err error) r = record r { phase = sleeping; hello_failures = r.hello_failures + 1 }
after_hello (ok response) r =
    if response.accepted
    then record r { phase = beating; state = take_hello response r.state }
    else record r { phase = sleeping; hello_failures = r.hello_failures + 1 }

unfoldable pub after_sleep : Registration → Registration
after_sleep r = record r { phase = greeting; backoff = min (r.backoff * 2) max_hello_backoff }

-- A decision of the heartbeat loop: a new registration starts with a new backoff.
unfoldable pub after_decision : HeartbeatDecision × ℕ → Registration → Registration
after_decision (continue, failures) r = record r {
  heartbeat_failures = r.heartbeat_failures + failures;
}
after_decision (re_register, failures) r = record r {
  phase = greeting;
  backoff = initial_hello_backoff;
  heartbeat_failures = r.heartbeat_failures + failures;
}

-- The steps; a shutdown stops the loop wherever it waits.
pub data Step : Registration → Registration → Type 0 where
  greets :
      (r : Registration) (result : Result String HelloResponse)
      → r.phase ≡ greeting
      → Step r (after_hello result r)
  wakes : (r : Registration) → r.phase ≡ sleeping → Step r (after_sleep r)
  beats :
      (r : Registration) (result : Result String HeartbeatResponse)
      → r.phase ≡ beating
      → Step r (after_decision (classify_heartbeat_result result) r)
  stops : (r : Registration) → Step r (record r { phase = stopped })

pub data Reach : Registration → Registration → Type 0 where
  here : (r : Registration) → Reach r r
  step : (a b c : Registration) → Step a b → Reach b c → Reach a c
