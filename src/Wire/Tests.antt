-- ===== src/Wire/Tests.antt =====
-- Concrete messages: tests of the `validate` methods, and the theorems at work on them.
use tapio.Prelude.{String, true, false, [], ◌∷◌, ◌≡◌, refl, ◌↔◌, ok, err, IsOk}
use tapio.Prelude.Text.{is_whitespace, is_blank, trim, trim_start}
use tapio.Wire.Types.{
  wire_version, WireEvent, EventBatchRequest, Value, object, field, end, str, array, item, nil,
  ConfigResponse, warning, invalid_field, reasoning_field, unsupported_version,
}
use tapio.Wire.Facts.{
  is_reasoning_key, join, reject_reasoning_fields, Reasons, reject_reasoning_fields_iff,
  reject_reasoning_fields-err,
}
use tapio.Wire.Validate
use tapio.Wire.Validate.{required, each, validate_wire_version, bounded_nonzero}
use tapio.Wire.Accepted.{event_batch_iff, AcceptsBatch}

abbrev plain_facts : Value
plain_facts = object (field "pid" (str "7") end)

abbrev nested_facts : Value
nested_facts =
    object
      (field "pid" (str "7") (field "detail" (object (field "root_cause" (str "oom") end)) end))

abbrev array_facts : Value
array_facts =
    object (field "details" (array (item (object (field "root_cause" (str "oom") end)) nil)) end)

abbrev oom_kill : WireEvent
oom_kill = record {
  event_type = "kernel.container.oom_kill";
  timestamp_unix_nanos = 5;
  observer = "container";
  severity = warning;
  facts = plain_facts;
}

abbrev one_event : EventBatchRequest
one_event = record {
  wire_version = wire_version;
  agent_id = "agent-a";
  node_name = "node-a";
  sequence = 1;
  sent_at_unix_nanos = 6;
  events = oom_kill ∷ [];
}

abbrev active : ConfigResponse
active = record {
  wire_version = wire_version;
  version = "1";
  config_hash = "sha256:00";
  config = record {
    network = record {
      enabled = true;
      rtt_spike_ratio = 2;
      rtt_spike_abs_us = 500_000;
      rtt_min_baseline_samples = 5;
      conn_refused_window_ns = 0;
      conn_refused_min_count = 0;
    };
    storage = record {
      enabled = true;
      slow_io_warning_ns = 50_000_000;
      slow_io_critical_ns = 200_000_000;
    };
    container = record { enabled = true; ignore_exit_codes = [] };
    node_pmc = record {
      enabled = true;
      stall_warning_permille = 200;
      stall_critical_permille = 400;
      ipc_degradation_milli = 1000;
    };
  };
  batching = record { send_interval_ms = 1000; max_batch_events = 256 };
}

nested_rejected :
    reject_reasoning_fields "$" nested_facts ≡ err (reasoning_field "$.detail.root_cause")
unfolding reject_reasoning_fields is_reasoning_key join
nested_rejected = refl

array_accepted : reject_reasoning_fields "$" array_facts ≡ ok tt
unfolding reject_reasoning_fields is_reasoning_key join
array_accepted = refl

old_version : validate_wire_version "tapio-wire/v0" ≡ err (unsupported_version "tapio-wire/v0")
unfolding validate_wire_version
old_version = refl

one_event-IsOk : IsOk (Validate.event_batch 256 one_event)
unfolding Validate.event_batch Validate.wire_event validate_wire_version required is_blank trim
    trim_start is_whitespace each reject_reasoning_fields is_reasoning_key join
one_event-IsOk = refl

too_many_events :
    Validate.event_batch 0 one_event ≡ err (invalid_field "events" "batch exceeds max_batch_events")
unfolding Validate.event_batch validate_wire_version required is_blank trim trim_start is_whitespace
too_many_events = refl

oom_kill-IsOk : IsOk (Validate.wire_event oom_kill)
unfolding Validate.wire_event required is_blank trim trim_start is_whitespace
    reject_reasoning_fields is_reasoning_key join
oom_kill-IsOk = refl

active-IsOk : IsOk (Validate.config_response active)
unfolding Validate.config_response validate_wire_version required bounded_nonzero is_blank trim
    trim_start is_whitespace
active-IsOk = refl

reject_reasoning_fields_iff_example :
    IsOk (reject_reasoning_fields "$" nested_facts) ↔ ((p : String) → ¬ Reasons "$" nested_facts p)
reject_reasoning_fields_iff_example = reject_reasoning_fields_iff "$" nested_facts

reject_reasoning_fields-err_example :
    (p : String) × (reasoning_field "$.detail.root_cause" ≡ reasoning_field p)
    × Reasons "$" nested_facts p
reject_reasoning_fields-err_example =
    reject_reasoning_fields-err "$" nested_facts (reasoning_field "$.detail.root_cause")
      nested_rejected

event_batch_iff_example : IsOk (Validate.event_batch 256 one_event) ↔ AcceptsBatch 256 one_event
event_batch_iff_example = event_batch_iff 256 one_event

named : is_blank "tapio-controller/default" ≡ false
unfolding is_blank trim trim_start is_whitespace
named = refl

default_v1-IsOk : IsOk (Validate.config_response Validate.default_v1)
unfolding Validate.default_v1 Validate.config_response validate_wire_version required
    bounded_nonzero is_blank trim trim_start is_whitespace
default_v1-IsOk = refl
