-- ===== src/Agent/Tests.antt =====
-- A worker with three events and an exchange whose first attempt fails: tests of the sink, and the
-- theorems at work.
use tapio.Prelude.{
  ◌+◌, ap, concat, some, none, ℕ, suc, zero, ◌≡◌, refl, true, false, String, List, [], ◌∷◌, Result,
  ok, err, All, IsOk, length, arith,
}
use tapio.Prelude.Text.{codes, is_blank, trim, trim_start, is_whitespace}
use tapio.Wire.Types.{
  WireEvent, EventBatchRequest, EventBatchResponse, wire_version, warning, object, field, end, str,
}
use tapio.Wire.Facts.{reject_reasoning_fields, is_reasoning_key, join}
use tapio.Wire.Validate
use tapio.Wire.Validate.{required, validate_wire_version, each}
use tapio.Agent.Split.{split_events_by_size, serialized_event_len, serialized_empty_batch_len}
use tapio.Agent.Fits.{listed}
use tapio.Agent.Posted.{IsFramed, IsPosted, split_events_by_size-IsPosted}
use tapio.Agent.Sink.{Worker, HttpResponse, default_max_request_bytes, request_for, flush_buffer}
use tapio.Agent.Sent.{split_events_by_size-accepted}
use tapio.Agent.Flush.{Advanced, lost_in, flush_buffer-Advanced}
use tapio.Prelude.{some, none}
use tapio.Prelude.Decimal.{to_string}
use tapio.Prelude.Maps.{lookup}
use tapio.Prelude.Parse.{parse_u32}
use tapio.Profile.Floats.{whole, whole-laws}
use tapio.Profile.Names.{valid_profile_name}
use tapio.Profile.Types.{ValidatedProfile}
use tapio.Profile.Validate.{
  validate, v0, production_default, validate_envelope, find_base, apply_network, apply_storage,
  apply_container, apply_codes, apply_node_pmc,
}
use tapio.Profile.Overrides.{plain}
use tapio.Profile.Compile.{compile}
use tapio.Agent.Config.{TapioConfig, tapio_config_from_compiled, flags_of}
use tapio.Agent.Applied.{Carries, tapio_config_from_compiled-Carries}

abbrev pub oom_kill : WireEvent
oom_kill = record {
  event_type = "kernel.container.oom_kill";
  timestamp_unix_nanos = 5;
  observer = "container";
  severity = warning;
  facts = object (field "pid" (str "7") end);
}

abbrev zeros : ℕ → List ℕ
zeros zero = []
zeros (suc n) = 0 ∷ zeros n

pub length-zeros : (n : ℕ) → length (zeros n) ≡ n
length-zeros zero = refl
length-zeros (suc n) = ap (λ m. suc m) (length-zeros n)

-- Events of a hundred bytes, in requests whose head is longer the longer the names of their sender are.
abbrev pub event_to_vec : WireEvent → Result String (List ℕ)
event_to_vec e = ok (zeros 100)

abbrev pub worker : Worker
worker = record {
  agent_id = "agent-a";
  node_name = "node-a";
  sequence = 7;
  max_request_bytes = default_max_request_bytes;
  buffer = oom_kill ∷ oom_kill ∷ oom_kill ∷ [];
  controller_send_failures_total = 0;
  sink_drops_total = 0;
}

abbrev accepted : HttpResponse
accepted = record { status = 200; body = [] }

-- The first attempt is refused by the server, the others are accepted.
abbrev post : List ℕ → ℕ → Result String HttpResponse
post body zero = ok (record { status = 503; body = [] })
post body (suc n) = ok accepted

abbrev unreachable : List ℕ → ℕ → Result String HttpResponse
unreachable body attempt = err "connection refused"

abbrev from_slice : List ℕ → Result String EventBatchResponse
from_slice body =
    ok (record {
      wire_version = wire_version;
      accepted = 2;
      rejected = 0;
      next_config_version = "1";
    })

abbrev head_len : EventBatchRequest → ℕ
head_len request = 100 + (length (codes request.agent_id) + length (codes request.node_name))

abbrev pub to_vec : EventBatchRequest → Result String (List ℕ)
to_vec request = ok (zeros (head_len request + listed (λ e. 100) request.events))

pub to_vec-IsFramed : IsFramed event_to_vec to_vec
unfolding serialized_event_len
to_vec-IsFramed r =
    omega
      (arith, length-zeros (head_len r + listed (λ e. 100) r.events), length-zeros (head_len r + 0))

pub placeholder_len : serialized_empty_batch_len to_vec ≡ 109
unfolding serialized_empty_batch_len
placeholder_len = refl

abbrev now : ℕ → ℕ
now sequence = 9

by_count :
    split_events_by_size event_to_vec to_vec 2 1000 worker.buffer
    ≡ (oom_kill ∷ oom_kill ∷ []) ∷ (oom_kill ∷ []) ∷ []
unfolding split_events_by_size
by_count = refl

by_bytes :
    split_events_by_size event_to_vec to_vec 256 300 worker.buffer
    ≡ (oom_kill ∷ []) ∷ (oom_kill ∷ []) ∷ (oom_kill ∷ []) ∷ []
unfolding split_events_by_size
by_bytes = refl

all_dropped :
    (flush_buffer from_slice unreachable to_vec now event_to_vec true 2 worker).0 ≡ record worker {
      sequence = 9;
      buffer = [];
      controller_send_failures_total = 2;
      sink_drops_total = 3;
    }
unfolding flush_buffer split_events_by_size Validate.event_batch Validate.wire_event
    validate_wire_version required is_blank trim trim_start is_whitespace each
    reject_reasoning_fields is_reasoning_key join
all_dropped = refl

pub node_named : is_blank "node-a" ≡ false
unfolding is_blank trim trim_start is_whitespace
node_named = refl

pub agent_named : is_blank "agent-a" ≡ false
unfolding is_blank trim trim_start is_whitespace
agent_named = refl

pub oom_kill-IsOk : IsOk (Validate.wire_event oom_kill)
unfolding Validate.wire_event required is_blank trim trim_start is_whitespace
    reject_reasoning_fields is_reasoning_key join
oom_kill-IsOk = refl

split_events_by_size-IsPosted_example :
    let batches = split_events_by_size event_to_vec to_vec 2 1000 worker.buffer in
    (concat batches ≡ worker.buffer) × All (IsPosted event_to_vec to_vec 2 1000 7 9 worker) batches
split_events_by_size-IsPosted_example =
    split_events_by_size-IsPosted event_to_vec to_vec 2 1000 7 9 worker worker.buffer
      to_vec-IsFramed (omega (arith, placeholder_len)) (omega arith)

split_events_by_size-accepted_example :
    All
      (λ batch. IsOk (Validate.event_batch 2 (request_for worker 7 9 batch)))
      (split_events_by_size event_to_vec to_vec 2 default_max_request_bytes worker.buffer)
split_events_by_size-accepted_example =
    split_events_by_size-accepted event_to_vec to_vec 2 7 9 worker (omega (arith, placeholder_len))
      (omega arith) (omega arith) agent_named node_named
      (oom_kill-IsOk, (oom_kill-IsOk, (oom_kill-IsOk, tt)))

flush_buffer-Advanced_example :
    let batches =
      split_events_by_size event_to_vec to_vec 2 default_max_request_bytes worker.buffer in
    Advanced
      (record worker { buffer = [] })
      (flush_buffer from_slice post to_vec now event_to_vec true 2 worker).0
      (length batches)
      (lost_in from_slice post to_vec now true worker 7 batches)
flush_buffer-Advanced_example =
    flush_buffer-Advanced from_slice post to_vec now event_to_vec 2 true worker (omega arith)
      (omega arith)

abbrev resolved : ValidatedProfile ℕ
resolved = record { resolved = production_default }

default_validates : validate (plain {F = ℕ} "production-default") v0 ≡ ok resolved
unfolding production_default validate v0 validate_envelope find_base apply_network apply_storage
    apply_container apply_codes apply_node_pmc lookup valid_profile_name
default_validates = refl

all_flags : flags_of (compile resolved) ≡ 15
unfolding flags_of compile production_default
all_flags = refl

signed_generation : parse_u32 "+7" ≡ some 7
unfolding parse_u32
signed_generation = refl

too_large_generation : parse_u32 "4294967296" ≡ none
unfolding parse_u32
too_large_generation = refl

tapio_config_from_compiled-Carries_example :
    (t : TapioConfig) × (tapio_config_from_compiled (compile resolved) (to_string 7) ≡ ok t)
    × Carries resolved.resolved 7 t
tapio_config_from_compiled-Carries_example =
    tapio_config_from_compiled-Carries whole-laws (plain "production-default") resolved 7
      default_validates (omega arith)
