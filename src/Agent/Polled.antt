-- ===== src/Agent/Polled.antt =====
-- What a tick of the polling loop changes: nothing but a counter unless a configuration passes every
-- check, and then the identity, the ETag and the kernel's maps together.
use Prim.Native.String.{◌++◌ as append}
use mathlib.Core.List.{◌++◌}
use tapio.Prelude.{
  ℕ, ◌+◌, String, Bool, true, false, List, [], ◌∷◌, Option, none, some, Result, ok, err, ◌==◌, ◌≡◌,
  refl, ◌⊎◌, inl, inr, all, arith, Bool-cases, ltb, map, u64,
}
use tapio.Prelude.Text.{codes}
use tapio.Prelude.Decimal.{to_string}
use tapio.Prelude.Split.{
  split, split_once, free, free-append, split-append, split-free, split_once-append,
}
use tapio.Wire.Types.{ConfigResponse}
use tapio.Agent.Config.{TapioConfig}
use tapio.Agent.Carriers.{World, update_all}
use tapio.Agent.Carried.{Holds, update_all-Holds}
use tapio.Agent.Sink.{HttpResponse}
use tapio.Agent.Poll.{
  Polling, PollOutcome, FetchError, applied, not_modified, transport, rejected, accept_body,
  apply_config, apply_body, fetch_once, record_outcome, poll_tick, url_component, config_query,
  is_unreserved,
}

-- The counters of the fetches that were applied, not modified, rejected, and in error.
abbrev pub fetches : Polling → ℕ × ℕ × ℕ × ℕ
fetches p = (p.applied_total, p.not_modified_total, p.rejected_total, p.error_total)

-- One of the counters has moved by one, wrapping at 64 bits, and the three others are as before.
abbrev pub Counts : Polling → Polling → Type 0
Counts p q =
    (fetches q ≡ (u64 (p.applied_total + 1), p.not_modified_total, p.rejected_total, p.error_total))
    ⊎ (fetches q
        ≡ (p.applied_total, u64 (p.not_modified_total + 1), p.rejected_total, p.error_total))
    ⊎ (fetches q
        ≡ (p.applied_total, p.not_modified_total, u64 (p.rejected_total + 1), p.error_total))
    ⊎ (fetches q
        ≡ (p.applied_total, p.not_modified_total, p.rejected_total, u64 (p.error_total + 1)))

-- The ETag is that of the configuration marked as applied.
abbrev pub Consistent : Polling → Type 0
Consistent p = elim p.active_config [
  | none ↦ p.etag ≡ none
  | some identity ↦ p.etag ≡ some (append "\"" (append identity.hash "\""))
]

module _ (debug : String → String) (accepts : ℕ → TapioConfig → Bool)
    (from_slice : List ℕ → Result String ConfigResponse) where
  -- A tick, of whatever outcome, keeps the ETag and the identity together and counts once.
  record_outcome-Consistent :
      (out : World × Result FetchError PollOutcome) (p : Polling)
      → Consistent p
      → Consistent (record_outcome debug accepts from_slice out p)
        × Counts p (record_outcome debug accepts from_slice out p)
  unfolding record_outcome
  record_outcome-Consistent (world, ok (applied generation hash flags)) p h = (refl, inl refl)
  record_outcome-Consistent (world, ok not_modified) p h = (h, inr (inl refl))
  record_outcome-Consistent (world, err (rejected e)) p h = (h, inr (inr (inl refl)))
  record_outcome-Consistent (world, err (transport e)) p h = (h, inr (inr (inr refl)))

  -- A tick of the polling loop, whatever it ends with, keeps the ETag that of the configuration
  -- marked as applied, and moves exactly one of the four fetch counters, by one and wrapping at 64
  -- bits, while the three others stay.
  pub poll_tick-Consistent :
      (receiver : Bool) (get : Option String → Result String HttpResponse) (p : Polling)
      → Consistent p
      → let q = poll_tick debug accepts from_slice receiver get p in Consistent q × Counts p q
  unfolding poll_tick
  poll_tick-Consistent receiver get p h =
      record_outcome-Consistent (fetch_once debug accepts from_slice receiver (get p.etag) p.world)
        p h

  -- A tick of the polling loop whose answer has status 200 and a body that passes every check
  -- marks that configuration as applied, with its version, hash and flags, makes it the current
  -- one of the carriers, and leaves it in every carrier's map that takes it; the thresholds have a
  -- receiver.
  pub poll_tick-applied :
      (get : Option String → Result String HttpResponse) (p : Polling) (response : HttpResponse)
      (config : ConfigResponse) (generation : ℕ) (tapio_config : TapioConfig)
      → get p.etag ≡ ok response
      → response.status ≡ 200
      → accept_body debug (from_slice response.body) ≡ ok (config, generation, tapio_config)
      → let q = poll_tick debug accepts from_slice true get p in
        (q.active_config
          ≡ some (record {
            version = to_string generation;
            hash = config.config_hash;
            flags = tapio_config.flags;
          }))
        × Holds accepts tapio_config q.world.maps p.world.state.carriers
        × (q.world.state.current ≡ some tapio_config)
  unfolding poll_tick fetch_once apply_body apply_config record_outcome
  poll_tick-applied get p response config generation tapio_config answered success accepted =
      rw (answered, success, accepted)
        (refl, (update_all-Holds accepts tapio_config p.world).0, unfold update_all in refl)

  fetch_once-kept :
      (receiver : Bool) (answer : Result String HttpResponse) (world : World)
      → ((response : HttpResponse)
          → answer ≡ ok response
          → response.status ≡ 200
          → (e : FetchError) × (accept_body debug (from_slice response.body) ≡ err e))
      → (fetch_once debug accepts from_slice receiver answer world ≡ (world, ok not_modified))
        ⊎ ((e : FetchError) × (fetch_once debug accepts from_slice receiver answer world
              ≡ (world, err e)))
  unfolding fetch_once apply_body
  fetch_once-kept receiver (err e) world refused = inr (transport e, refl)
  fetch_once-kept receiver (ok response) world refused =
      elim (Bool-cases (response.status == 304)) [
        | inl same ↦ inl (rw same refl)
        | inr other ↦ elim (Bool-cases (response.status == 200)) [
          | inl success ↦
              let (e, refusal) = refused response refl (ground arith) in
              inr (e, rw (other, success, refusal) refl)
          | inr failure ↦
              inr (transport (append "HTTP " (to_string response.status)), rw (other, failure) refl)
        ]
      ]

  -- A tick of the polling loop keeps the maps, the ETag, the applied identity and the state that
  -- it shares with the registration, whatever the exchange ends with, unless the answer has status
  -- 200 and a body that passes every check.
  pub poll_tick-kept :
      (receiver : Bool) (get : Option String → Result String HttpResponse) (p : Polling)
      → ((response : HttpResponse)
          → get p.etag ≡ ok response
          → response.status ≡ 200
          → (e : FetchError) × (accept_body debug (from_slice response.body) ≡ err e))
      → let q = poll_tick debug accepts from_slice receiver get p in
        (q.world ≡ p.world)
        × (q.etag ≡ p.etag)
        × (q.active_config ≡ p.active_config)
        × (q.state ≡ p.state)
  unfolding poll_tick record_outcome
  poll_tick-kept receiver get p refused =
      elim (fetch_once-kept receiver (get p.etag) p.world refused) [
        | inl same ↦ rw same (refl, refl, refl, refl)
        | inr (rejected e, failure) ↦ rw failure (refl, refl, refl, refl)
        | inr (transport e, failure) ↦ rw failure (refl, refl, refl, refl)
      ]

-- An encoded text holds none of the marks of a URL.
pub url_component-free :
    (mark : ℕ) (bytes : List ℕ)
    → is_unreserved mark ≡ false
    → (mark == b'%') ≡ false
    → all (λ b. ltb b 256) bytes ≡ true
    → free mark (url_component bytes) ≡ true
unfolding url_component
url_component-free mark [] h k l = refl
url_component-free mark (b ∷ bytes) h k l = elim (Bool-cases (is_unreserved b)) [
  | inl plain ↦ rw plain (ground (arith, url_component-free mark bytes h k))
  | inr special ↦ rw special (ground (arith, url_component-free mark bytes h k))
]

-- The query of the configuration's URL splits at its separators into exactly two pairs, the
-- encoded agent and the encoded node, whatever bytes the two identifiers have.
pub config_query-pairs :
    (agent_id node_name : List ℕ)
    → all (λ b. ltb b 256) agent_id ≡ true
    → all (λ b. ltb b 256) node_name ≡ true
    → let pairs = split b'&' (config_query agent_id node_name) in
      map (split_once b'=') pairs
      ≡ some (codes "agent_id", url_component agent_id)
        ∷ some (codes "node_name", url_component node_name)
        ∷ []
unfolding config_query
config_query-pairs agent_id node_name h k =
    let a = url_component agent_id in
    let n = url_component node_name in
    rw
      (
        split-append b'&' (codes "agent_id" ++ b'=' ∷ a) (codes "node_name" ++ b'=' ∷ n) (
            free-append b'&' (codes "agent_id") (b'=' ∷ a) refl
              (url_component-free b'&' agent_id refl refl h)),
        split-free b'&' (codes "node_name" ++ b'=' ∷ n) (
            free-append b'&' (codes "node_name") (b'=' ∷ n) refl
              (url_component-free b'&' node_name refl refl k)),
        split_once-append b'=' (codes "agent_id") a refl,
        split_once-append b'=' (codes "node_name") n refl,
      )
      refl
