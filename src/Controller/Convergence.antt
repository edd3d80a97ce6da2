-- ===== src/Controller/Convergence.antt =====
-- Which agents `stale_agents` and `unconverged_agents` of tapio-controller/src/lib.rs list.
use tapio.Prelude.{
  ℕ, ◌+◌, ◌≡◌, refl, String, Bool, not, ◌&&◌, none, some, List, [], ◌∷◌, arith, IsOk, any, keep,
  is_none_or, ltb, ◌∙◌, ◌||◌, ap,
}
use mathlib.Core.Path.{ap₂}
use text.Mathlib.Text.{◌==◌ as str_eq}
use text.Mathlib.TextEquality.{eq_iff}
use tapio.Prelude.Maps.{lookup, keys, lookup-insert_self}
use tapio.Wire.Types.{HeartbeatRequest}
use tapio.Wire.Validate
use tapio.Controller.State.{InnerState, record_heartbeat, StoredHeartbeat}
use tapio.Controller.Queries.{
  stale_agents, unconverged_agents, is_stale, is_unconverged, heartbeat_age,
}
use tapio.Controller.History.{step, heartbeat}

abbrev pub has : List String → String → Bool
has xs a = any (λ x. str_eq x a) xs

has-keep :
    (p : String → Bool) (xs : List String) (a : String) → has (keep p xs) a ≡ (has xs a && p a)
has-keep p [] a = refl
has-keep p (x ∷ xs) a = ground (arith, eq_iff x a, has-keep p xs a)

stored : ℕ → HeartbeatRequest → StoredHeartbeat
stored seen r = record { heartbeat = r; seen_at = seen }

step-heartbeat :
    (seen : ℕ) (r : HeartbeatRequest) (inner : InnerState)
    → IsOk (Validate.heartbeat_request r)
    → ((step inner (heartbeat seen r)).agents ≡ inner.agents)
      × (lookup r.agent_id (step inner (heartbeat seen r)).last_heartbeats ≡ some (stored seen r))
unfolding step record_heartbeat stored
step-heartbeat seen r inner v = (
  ground arith,
  ground (arith, lookup-insert_self r.agent_id (stored seen r) inner.last_heartbeats),
)

is_stale-some :
    (now max_age : ℕ) (inner : InnerState) (agent : String) (s : StoredHeartbeat)
    → lookup agent inner.last_heartbeats ≡ some s
    → is_stale now max_age inner agent ≡ (ltb now s.seen_at || ltb (s.seen_at + max_age) now)
unfolding heartbeat_age
is_stale-some now max_age inner agent s h = rw h (ground arith)

-- Right after a valid heartbeat its agent is listed as stale exactly when it is registered and the
-- clock stands before the heartbeat or more than the maximal age after it.
pub stale_agents-heartbeat :
    (seen now max_age : ℕ) (r : HeartbeatRequest) (inner : InnerState)
    → IsOk (Validate.heartbeat_request r)
    → has (stale_agents now max_age (step inner (heartbeat seen r))) r.agent_id
      ≡ (has (keys inner.agents) r.agent_id && (ltb now seen || ltb (seen + max_age) now))
stale_agents-heartbeat seen now max_age r inner v =
    let q = step inner (heartbeat seen r) in
    let (same, found) = step-heartbeat seen r inner v in
    unfold stale_agents in
    has-keep (is_stale now max_age q) (keys q.agents) r.agent_id
    ∙ ap₂ (λ ks b. has ks r.agent_id && b) (ap keys same)
        (unfold stored in is_stale-some now max_age q r.agent_id (stored seen r) found)

-- Right after a valid heartbeat its agent is listed as unconverged exactly when it is registered
-- and did not report the target hash.
pub unconverged_agents-heartbeat :
    (seen : ℕ) (target_hash : String) (r : HeartbeatRequest) (inner : InnerState)
    → IsOk (Validate.heartbeat_request r)
    → has (unconverged_agents target_hash (step inner (heartbeat seen r))) r.agent_id
      ≡ (has (keys inner.agents) r.agent_id && not (str_eq r.config_hash target_hash))
unconverged_agents-heartbeat seen target_hash r inner v =
    let q = step inner (heartbeat seen r) in
    let (same, found) = step-heartbeat seen r inner v in
    unfold unconverged_agents in
    has-keep (is_unconverged target_hash q) (keys q.agents) r.agent_id
    ∙ ap₂ (λ ks b. has ks r.agent_id && b) (ap keys same)
        (unfold stored in
          ap (λ o. is_none_or o (λ s. not (str_eq s.heartbeat.config_hash target_hash))) found)

-- An agent that never sent a heartbeat is both stale and unconverged as soon as it is registered,
-- whatever the clock, the age and the target.
pub silent_listed :
    (now max_age : ℕ) (target_hash agent : String) (inner : InnerState)
    → lookup agent inner.last_heartbeats ≡ none
    → (has (stale_agents now max_age inner) agent ≡ has (keys inner.agents) agent)
      × (has (unconverged_agents target_hash inner) agent ≡ has (keys inner.agents) agent)
unfolding stale_agents unconverged_agents heartbeat_age
silent_listed now max_age target_hash agent inner h = (
  has-keep (is_stale now max_age inner) (keys inner.agents) agent ∙ rw h (ground arith),
  has-keep (is_unconverged target_hash inner) (keys inner.agents) agent ∙ rw h (ground arith),
)
