-- ===== src/Controller/History.antt =====
-- The controller of tapio-controller/src/lib.rs over any sequence of its requests: handlers run one
-- at a time under the lock, so a history is a list.
use tapio.Prelude.{
  ℕ, ◌+◌, ◌≡◌, refl, String, Bool, Option, some, List, [], ◌∷◌, u64, arith, length, is_ok,
  if◌then◌else◌, unwrap_or, ◌∙◌, not, ◌&&◌,
}
use text.Mathlib.Text.{◌==◌ as str_eq}
use text.Mathlib.TextEquality.{eq_iff}
use tapio.Prelude.Maps.{lookup, lookup-insert}
use tapio.Wire.Types.{HelloRequest, HeartbeatRequest, EventBatchRequest, ConfigResponse}
use tapio.Wire.Validate
use tapio.Controller.Clock.{SystemTime}
use tapio.Controller.Sequence.{SequenceTracking, default, track}
use tapio.Controller.State.{
  InnerState, new, register_agent, record_heartbeat, record_event_batch, batch_limit, finish_batch,
  update_sequence_tracking,
}

pub data Request : Type 0 where
  hello : SystemTime → HelloRequest → Request
  heartbeat : SystemTime → HeartbeatRequest → Request
  events : EventBatchRequest → Request

unfoldable pub step : InnerState → Request → InnerState
step inner (hello now r) = (register_agent now r inner).0
step inner (heartbeat now r) = (record_heartbeat now r inner).0
step inner (events r) = (record_event_batch r inner).0

unfoldable pub run : InnerState → List Request → InnerState
run inner [] = inner
run inner (r ∷ rs) = run (step inner r) rs

pub step-config : (inner : InnerState) (r : Request) → (step inner r).config ≡ inner.config
unfolding step register_agent record_heartbeat record_event_batch
step-config inner (hello now r) = ground arith
step-config inner (heartbeat now r) = ground arith
step-config inner (events r) = ground arith

-- No request changes the active configuration.
pub run-config : (inner : InnerState) (rs : List Request) → (run inner rs).config ≡ inner.config
unfolding run
run-config inner [] = refl
run-config inner (r ∷ rs) = run-config (step inner r) rs ∙ step-config inner r

-- A batch whose limit was read before other requests ran is settled as if all were done at once.
pub finish_batch-run :
    (inner : InnerState) (rs : List Request) (batch : EventBatchRequest)
    → finish_batch (batch_limit inner) batch (run inner rs)
      ≡ record_event_batch batch (run inner rs)
unfolding batch_limit record_event_batch
finish_batch-run inner rs batch = rw (run-config inner rs)

-- The events and batches that the requests hold, accepted and rejected, by the validation alone.
abbrev pub accepts : ℕ → EventBatchRequest → Bool
accepts limit r = is_ok (Validate.event_batch limit r)

abbrev pub total : (EventBatchRequest → Bool) → (EventBatchRequest → ℕ) → List Request → ℕ
total p f [] = 0
total p f (hello now r ∷ rs) = total p f rs
total p f (heartbeat now r ∷ rs) = total p f rs
total p f (events r ∷ rs) = (if p r then f r else 0) + total p f rs

abbrev pub events_in : EventBatchRequest → ℕ
events_in r = length r.events

abbrev pub one : EventBatchRequest → ℕ
one r = 1

-- How far the counters of a state have come.
pub record Counted (accepted rejected batches refused : ℕ) (inner : InnerState) : Type 0 where
  pub accepted_events : inner.accepted_events_total ≡ u64 accepted
  pub rejected_events : inner.rejected_events_total ≡ u64 rejected
  pub batches_accepted : inner.batches_accepted_total ≡ u64 batches
  pub batches_rejected : inner.batches_rejected_total ≡ u64 refused

abbrev pub refuses : ℕ → EventBatchRequest → Bool
refuses limit r = not (accepts limit r)

step-Counted :
    (limit a r b c : ℕ) (inner : InnerState) (q : Request)
    → batch_limit inner ≡ limit
    → Counted a r b c inner
    → Counted
        (a + total (accepts limit) events_in (q ∷ []))
        (r + total (refuses limit) events_in (q ∷ []))
        (b + total (accepts limit) one (q ∷ []))
        (c + total (refuses limit) one (q ∷ []))
        (step inner q)
unfolding step register_agent record_heartbeat record_event_batch
step-Counted limit a r b c inner (hello now x) l k = ground arith
step-Counted limit a r b c inner (heartbeat now x) l k = ground arith
step-Counted limit a r b c inner (events x) l k = rw (← l) (ground arith)

total-cons :
    (p : EventBatchRequest → Bool) (f : EventBatchRequest → ℕ) (q : Request) (rs : List Request)
    → total p f (q ∷ rs) ≡ total p f (q ∷ []) + total p f rs
total-cons p f (hello now x) rs = omega arith
total-cons p f (heartbeat now x) rs = omega arith
total-cons p f (events x) rs = omega arith

pub step-limit : (inner : InnerState) (q : Request) → batch_limit (step inner q) ≡ batch_limit inner
unfolding batch_limit
step-limit inner q = rw (step-config inner q)

run-Counted :
    (rs : List Request) (inner : InnerState) (limit a r b c : ℕ)
    → batch_limit inner ≡ limit
    → Counted a r b c inner
    → Counted
        (a + total (accepts limit) events_in rs)
        (r + total (refuses limit) events_in rs)
        (b + total (accepts limit) one rs)
        (c + total (refuses limit) one rs)
        (run inner rs)
unfolding run
run-Counted [] inner limit a r b c l k = ground (arith, k)
run-Counted (q ∷ rs) inner limit a r b c l k =
    let k' = step-Counted limit a r b c inner q l k in
    let ih = run-Counted rs (step inner q) limit _ _ _ _ (step-limit inner q ∙ l) k' in
    record {
      accepted_events =
          omega (arith, ih.accepted_events, total-cons (accepts limit) events_in q rs);
      rejected_events =
          omega (arith, ih.rejected_events, total-cons (refuses limit) events_in q rs);
      batches_accepted = omega (arith, ih.batches_accepted, total-cons (accepts limit) one q rs);
      batches_rejected = omega (arith, ih.batches_rejected, total-cons (refuses limit) one q rs);
    }

-- The four counters of a controller, after any requests, are the numbers of events and of batches in
-- the accepted and in the rejected batches, modulo 2 ^ 64.
pub run-new-Counted :
    (now : SystemTime) (config : ConfigResponse) (rs : List Request)
    → let limit = config.batching.max_batch_events in
      Counted
        (total (accepts limit) events_in rs)
        (total (refuses limit) events_in rs)
        (total (accepts limit) one rs)
        (total (refuses limit) one rs)
        (run (new now config) rs)
unfolding new batch_limit
run-new-Counted now config rs =
    let limit : ℕ = config.batching.max_batch_events in
    let k = run-Counted rs (new now config) limit 0 0 0 0 refl (omega arith) in
    record {
      accepted_events = omega (arith, k.accepted_events);
      rejected_events = omega (arith, k.rejected_events);
      batches_accepted = omega (arith, k.batches_accepted);
      batches_rejected = omega (arith, k.batches_rejected);
    }

-- What the requests make of one agent's tracking: a valid hello starts afresh, an accepted batch is
-- tracked, and nothing else touches it.
abbrev pub tracked : ℕ → String → Option SequenceTracking → List Request → Option SequenceTracking
tracked limit agent t [] = t
tracked limit agent t (hello now r ∷ rs) =
    tracked limit agent
      (if is_ok (Validate.hello_request r) && str_eq r.agent_id agent then some default else t) rs
tracked limit agent t (heartbeat now r ∷ rs) = tracked limit agent t rs
tracked limit agent t (events r ∷ rs) =
    tracked limit agent
      (if accepts limit r && str_eq r.agent_id agent
        then some (track (unwrap_or t default) r.sequence)
        else t)
      rs

step-tracked :
    (inner : InnerState) (agent : String) (q : Request)
    → lookup agent (step inner q).sequences
      ≡ tracked (batch_limit inner) agent (lookup agent inner.sequences) (q ∷ [])
unfolding step register_agent record_heartbeat record_event_batch update_sequence_tracking
step-tracked inner agent (hello now r) =
    ground (arith, lookup-insert r.agent_id agent default inner.sequences)
step-tracked inner agent (heartbeat now r) = ground arith
step-tracked inner agent (events r) = ground (
  arith,
  eq_iff r.agent_id agent,
  lookup-insert r.agent_id agent
      (track (unwrap_or (lookup r.agent_id inner.sequences) default) r.sequence) inner.sequences,
)

tracked-cons :
    (limit : ℕ) (agent : String) (t : Option SequenceTracking) (q : Request) (rs : List Request)
    → tracked limit agent t (q ∷ rs) ≡ tracked limit agent (tracked limit agent t (q ∷ [])) rs
tracked-cons limit agent t (hello now r) rs = refl
tracked-cons limit agent t (heartbeat now r) rs = refl
tracked-cons limit agent t (events r) rs = refl

-- The controller's map of sequences holds, for each agent, the tracking of that agent's own requests
-- in their order: a valid hello starts afresh, and no other agent's request changes it.
pub lookup-run-tracked :
    (rs : List Request) (inner : InnerState) (agent : String)
    → lookup agent (run inner rs).sequences
      ≡ tracked (batch_limit inner) agent (lookup agent inner.sequences) rs
unfolding run
lookup-run-tracked [] inner agent = refl
lookup-run-tracked (q ∷ rs) inner agent =
    rw
      (
        tracked-cons (batch_limit inner) agent (lookup agent inner.sequences) q rs,
        ← step-tracked inner agent q,
        ← step-limit inner q,
      )
      (lookup-run-tracked rs (step inner q) agent)
