-- ===== src/Wire/Accepted.antt =====
-- Exactly which messages the `validate` methods of tapio-wire/src/lib.rs accept.
use text.Mathlib.Text.{starts_with}
use text.Mathlib.TextEquality.{eq_iff}
use tapio.Prelude.{
  ℕ, String, true, false, List, [], ◌∷◌, length, is_empty, ◌≡◌, ◌≤◌, ◌<◌, ◌↔◌, IsOk, >>-ok, all,
  All, arith, refl,
}
use tapio.Prelude.Text.{is_blank, is_blank-all, codes, is_whitespace}
use tapio.Wire.Types.{
  WireResult, wire_version, ConfigResponse, HeartbeatRequest, WireEvent, EventBatchRequest,
}
use tapio.Wire.Facts.{Reasons, reject_reasoning_fields_iff}
use tapio.Wire.Validate
use tapio.Wire.Validate.{required, each, validate_wire_version, bounded_nonzero}

-- A required text is accepted exactly when some character of it is no white space.
pub required_iff :
    (field value : String) → IsOk (required field value) ↔ (all is_whitespace (codes value) ≡ false)
required_iff field value = rw (← is_blank-all value) (unfold required in ground arith)

blank_iff : (field value : String) → IsOk (required field value) ↔ (is_blank value ≡ false)
unfolding required
blank_iff field value = ground arith

version_iff : (version : String) → IsOk (validate_wire_version version) ↔ (version ≡ wire_version)
unfolding validate_wire_version
version_iff version = ground (arith, eq_iff version wire_version)

nonzero_iff : (field : String) (n : ℕ) → IsOk (bounded_nonzero field n) ↔ (0 < n)
unfolding bounded_nonzero
nonzero_iff field n = ground arith

module _ {ℓ} {A : Type ℓ} (check : A → WireResult (Unit {0})) where
  each-All : (xs : List A) → IsOk (each check xs) → All (λ x. IsOk (check x)) xs
  unfolding each
  each-All [] h = tt
  each-All (x ∷ xs) h = let (a, b) = (>>-ok (check x) (each check xs)).0 h in (a, each-All xs b)

  All-each : (xs : List A) → All (λ x. IsOk (check x)) xs → IsOk (each check xs)
  unfolding each
  All-each [] h = refl
  All-each (x ∷ xs) h = (>>-ok (check x) (each check xs)).1 (h.0, All-each xs h.1)

nonempty_iff : (es : List WireEvent) → (is_empty es ≡ false) ↔ (0 < length es)
nonempty_iff [] = (λ h. cc, λ h. elim h [ ])
nonempty_iff (e ∷ es) = (λ h. omega arith, λ h. refl)

-- What a batch must be, as the controller reads it.
pub record AcceptsBatch (max_batch_events : ℕ) (r : EventBatchRequest) : Type 0 where
  pub version : r.wire_version ≡ wire_version
  pub agent : is_blank r.agent_id ≡ false
  pub node : is_blank r.node_name ≡ false
  pub nonempty : 0 < length r.events
  pub bounded : length r.events ≤ max_batch_events
  pub valid : All (λ e. IsOk (Validate.wire_event e)) r.events

-- A batch is accepted exactly when it has the wire version, an agent and a node, between one and
-- the maximal number of events, and every event in it is valid.
pub event_batch_iff :
    (max_batch_events : ℕ) (r : EventBatchRequest)
    → IsOk (Validate.event_batch max_batch_events r) ↔ AcceptsBatch max_batch_events r
unfolding Validate.event_batch
event_batch_iff m r = (
  λ h. ground (
    arith,
    version_iff r.wire_version,
    blank_iff "agent_id" r.agent_id,
    blank_iff "node_name" r.node_name,
    nonempty_iff r.events,
    each-All Validate.wire_event r.events,
  ),
  λ h. ground (
    arith,
    version_iff r.wire_version,
    blank_iff "agent_id" r.agent_id,
    blank_iff "node_name" r.node_name,
    nonempty_iff r.events,
    All-each Validate.wire_event r.events,
  ),
)

-- What an event must be.
pub record AcceptsEvent (e : WireEvent) : Type 0 where
  pub typed : is_blank e.event_type ≡ false
  pub observed : is_blank e.observer ≡ false
  pub kernel : starts_with e.event_type "kernel." ≡ true
  pub factual : (p : String) → ¬ Reasons "$" e.facts p

-- An event is accepted exactly when it names a kernel type and an observer and no reasoning field
-- stands in its facts at any depth of nested objects.
pub wire_event_iff : (e : WireEvent) → IsOk (Validate.wire_event e) ↔ AcceptsEvent e
unfolding Validate.wire_event
wire_event_iff e = (
  λ h. record {
    typed = ground (arith, blank_iff "type" e.event_type);
    observed = ground (arith, blank_iff "observer" e.observer);
    kernel = ground arith;
    factual = (reject_reasoning_fields_iff "$" e.facts).0 (ground (arith));
  },
  λ a. ground (
    arith,
    blank_iff "type" e.event_type,
    blank_iff "observer" e.observer,
    (reject_reasoning_fields_iff "$" e.facts).1 a.factual,
  ),
)

-- The hello response built from a configuration that is itself valid is valid, for any controller
-- whose name is not blank.
pub hello_response-from_config :
    (controller_id : String) (config : ConfigResponse)
    → is_blank controller_id ≡ false
    → IsOk (Validate.config_response config)
    → IsOk (Validate.hello_response (Validate.from_config controller_id config))
unfolding Validate.hello_response Validate.config_response Validate.from_config
hello_response-from_config id c n h = ground (
  arith,
  blank_iff "controller_id" id,
  blank_iff "config_version" c.version,
  blank_iff "version" c.version,
  nonzero_iff "send_interval_ms" c.batching.send_interval_ms,
  nonzero_iff "batching.send_interval_ms" c.batching.send_interval_ms,
  nonzero_iff "max_batch_events" c.batching.max_batch_events,
  nonzero_iff "batching.max_batch_events" c.batching.max_batch_events,
  version_iff wire_version,
)

pub config_response-IsOk :
    (c : ConfigResponse)
    → c.wire_version ≡ wire_version
    → is_blank c.version ≡ false
    → 0 < c.config.storage.slow_io_warning_ns
    → 0 < c.config.storage.slow_io_critical_ns
    → 0 < c.batching.send_interval_ms
    → 0 < c.batching.max_batch_events
    → IsOk (Validate.config_response c)
unfolding Validate.config_response
config_response-IsOk c v b w k s m = ground (
  arith,
  version_iff c.wire_version,
  blank_iff "version" c.version,
  nonzero_iff "config.storage.slow_io_warning_ns" c.config.storage.slow_io_warning_ns,
  nonzero_iff "config.storage.slow_io_critical_ns" c.config.storage.slow_io_critical_ns,
  nonzero_iff "batching.send_interval_ms" c.batching.send_interval_ms,
  nonzero_iff "batching.max_batch_events" c.batching.max_batch_events,
)

pub heartbeat_request-IsOk :
    (r : HeartbeatRequest)
    → r.wire_version ≡ wire_version
    → is_blank r.agent_id ≡ false
    → is_blank r.node_name ≡ false
    → is_blank r.config_version ≡ false
    → is_empty r.observers ≡ false
    → IsOk (Validate.heartbeat_request r)
unfolding Validate.heartbeat_request
heartbeat_request-IsOk r v a n c o = ground (
  arith,
  version_iff r.wire_version,
  blank_iff "agent_id" r.agent_id,
  blank_iff "node_name" r.node_name,
  blank_iff "config_version" r.config_version,
)
