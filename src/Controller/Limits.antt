-- ===== src/Controller/Limits.antt =====
-- The limits that a hello announces are those by which tapio-controller/src/lib.rs judges batches, and
-- a hello starts an agent's sequence numbers afresh.
use tapio.Prelude.{
  ℕ, ◌+◌, ◌≡◌, refl, ◌<◌, ◌↔◌, String, true, Option, some, List, [], ◌∷◌, ok, arith, length, IsOk,
  is_ok, All, ◌∙◌, unwrap_or, is_ok_iff, ap, u64_max,
}
use text.Mathlib.TextEquality.{eq_iff}
use tapio.Prelude.Maps.{lookup}
use tapio.Wire.Types.{HelloRequest, HelloResponse, EventBatchRequest}
use tapio.Wire.Validate
use tapio.Wire.Accepted.{AcceptsBatch, event_batch_iff}
use tapio.Controller.Clock.{SystemTime}
use tapio.Controller.Sequence.{
  SequenceTracking, default, track, track_all, Below, Rising, final, track_all-Rising,
}
use tapio.Controller.State.{InnerState, register_agent, record_event_batch, batch_limit}
use tapio.Controller.History.{
  Request, hello, events, step, run, run-config, accepts, tracked, lookup-run-tracked, step-config,
}

record_event_batch_ok :
    (batch : EventBatchRequest) (inner : InnerState)
    → is_ok (record_event_batch batch inner).1 ≡ accepts (batch_limit inner) batch
unfolding record_event_batch
record_event_batch_ok batch inner = ground arith

pub announced_limit :
    (now : SystemTime) (h : HelloRequest) (inner : InnerState) (answer : HelloResponse)
    → (register_agent now h inner).1 ≡ ok answer
    → answer.max_batch_events ≡ batch_limit inner
unfolding register_agent batch_limit Validate.from_config
announced_limit now h inner answer e = ground arith

run-limit :
    (inner : InnerState) (q : Request) (rs : List Request)
    → batch_limit (run (step inner q) rs) ≡ batch_limit inner
unfolding batch_limit
run-limit inner q rs = rw (run-config (step inner q) rs, step-config inner q)

-- After an accepted hello, whatever requests follow, the controller accepts a batch exactly when it
-- has between one and the announced number of events and is otherwise well formed.
pub hello_limit-enforced :
    (now : SystemTime) (h : HelloRequest) (inner : InnerState) (answer : HelloResponse)
    (rs : List Request) (batch : EventBatchRequest)
    → (register_agent now h inner).1 ≡ ok answer
    → (is_ok (record_event_batch batch (run (step inner (hello now h)) rs)).1 ≡ true)
      ↔ AcceptsBatch answer.max_batch_events batch
hello_limit-enforced now h inner answer rs batch e =
    let r = Validate.event_batch answer.max_batch_events batch in
    rw
      (
        record_event_batch_ok,
        run-limit inner (hello now h) rs,
        ← announced_limit now h inner answer e,
      )
      (
        λ p. (event_batch_iff answer.max_batch_events batch).0 ((is_ok_iff r).0 p),
        λ p. (is_ok_iff r).1 ((event_batch_iff answer.max_batch_events batch).1 p),
      )

-- The batches of a list, all of one agent and all accepted.
abbrev pub AllFrom : ℕ → String → List EventBatchRequest → Type 0
AllFrom limit agent = All (λ b. (accepts limit b ≡ true) × (b.agent_id ≡ agent))

abbrev pub batches : List EventBatchRequest → List Request
batches [] = []
batches (b ∷ bs) = events b ∷ batches bs

abbrev pub numbers : List EventBatchRequest → List ℕ
numbers [] = []
numbers (b ∷ bs) = b.sequence ∷ numbers bs

tracked-accepted :
    (limit : ℕ) (agent : String) (t : Option SequenceTracking) (b : EventBatchRequest)
    (rs : List Request)
    → accepts limit b ≡ true
    → b.agent_id ≡ agent
    → tracked limit agent t (events b ∷ rs)
      ≡ tracked limit agent (some (track (unwrap_or t default) b.sequence)) rs
tracked-accepted limit agent t b rs a e =
    ap (λ u. tracked limit agent u rs) (ground (arith, eq_iff b.agent_id agent))

tracked-hello :
    (limit : ℕ) (t : Option SequenceTracking) (now : SystemTime) (h : HelloRequest)
    (rs : List Request)
    → IsOk (Validate.hello_request h)
    → tracked limit h.agent_id t (hello now h ∷ rs) ≡ tracked limit h.agent_id (some default) rs
tracked-hello limit t now h rs v =
    ap (λ u. tracked limit h.agent_id u rs) (ground (arith, eq_iff h.agent_id h.agent_id))

tracked-batches :
    (limit : ℕ) (agent : String) (bs : List EventBatchRequest) (t : SequenceTracking)
    → AllFrom limit agent bs
    → tracked limit agent (some t) (batches bs) ≡ some (track_all t (numbers bs))
unfolding track_all
tracked-batches limit agent [] t a = refl
tracked-batches limit agent (b ∷ bs) t a =
    tracked-accepted limit agent (some t) b (batches bs) a.0.0 a.0.1
    ∙ tracked-batches limit agent bs (track t b.sequence) a.1

-- An agent that says a valid hello and then sends accepted batches with rising numbers below the
-- largest u64, however high they start and with some lost, has no regression, and its gaps are
-- exactly the lost numbers.
pub hello-restarts :
    (now : SystemTime) (h : HelloRequest) (inner : InnerState) (b : EventBatchRequest)
    (bs : List EventBatchRequest)
    → IsOk (Validate.hello_request h)
    → AllFrom (batch_limit inner) h.agent_id (b ∷ bs)
    → b.sequence < u64_max
    → Below u64_max (numbers bs)
    → Rising b.sequence (numbers bs)
    → let t = track_all default (numbers (b ∷ bs)) in
      (lookup h.agent_id (run inner (hello now h ∷ batches (b ∷ bs))).sequences ≡ some t)
      × (t.regressions_total ≡ 0)
      × (b.sequence + length (numbers bs) + t.gaps_total ≡ final b.sequence (numbers bs))
hello-restarts now h inner b bs v a f below r =
    let (_, none_back, gaps) = track_all-Rising b.sequence (numbers bs) f below r in
    (
      lookup-run-tracked (hello now h ∷ batches (b ∷ bs)) inner h.agent_id
          ∙ tracked-hello (batch_limit inner) (lookup h.agent_id inner.sequences) now h
              (batches (b ∷ bs)) v
          ∙ tracked-batches (batch_limit inner) h.agent_id (b ∷ bs) default a,
      none_back,
      gaps,
    )
