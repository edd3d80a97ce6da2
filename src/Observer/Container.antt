-- ===== src/Observer/Container.antt =====
-- `classify` and `build_occurrence` of tapio-agent/src/observer/container.rs, with the memory limit
-- that was found for the event's group as an argument.
use tapio.Prelude.{
  ℕ, String, [], ◌∷◌, Option, none, some, ◌==◌, ◌+◌, ◌/◌, ◌&&◌, not, if◌then◌else◌, unwrap_or, u64,
  and_then,
}
use tapio.Prelude.Int.{is_zero}
use tapio.Prelude.Decimal.{to_string, to_string_i32}
use tapio.Wire.Types.{number, object, end}
use tapio.Observer.Occurrence.{Severity, Outcome, Occurrence, new_at, with_error, with_data}
use tapio.Observer.Events.{ContainerEvent, container_event_oom, container_event_exit}
use tapio.Observer.Anomaly.{
  ClassifiedAnomaly, container_oom_kill, container_abnormal_exit, insert, entries, num, text,
}

unfoldable pub oom_kill : ContainerEvent → ClassifiedAnomaly
oom_kill event = record {
  event_type = container_oom_kill;
  severity = Severity.critical;
  outcome = Outcome.failure;
  error_code = "OOM_KILL";
  error_message = text (
      "OOM kill pid="
      ∷ to_string event.pid
      ∷ " (usage="
      ∷ to_string (event.memory_usage / 1024 / 1024)
      ∷ "MB, limit="
      ∷ to_string (event.memory_limit / 1024 / 1024)
      ∷ "MB)"
      ∷ []);
}

unfoldable pub abnormal_exit : ContainerEvent → ClassifiedAnomaly
abnormal_exit event = record {
  event_type = container_abnormal_exit;
  severity = if not (is_zero event.signal) then Severity.error else Severity.warning;
  outcome = Outcome.failure;
  error_code = "ABNORMAL_EXIT";
  error_message = text (
      "Abnormal exit pid="
      ∷ to_string event.pid
      ∷ " (code="
      ∷ to_string_i32 event.exit_code
      ∷ ", signal="
      ∷ to_string_i32 event.signal
      ∷ ")"
      ∷ []);
}

unfoldable pub classify : ContainerEvent → Option ClassifiedAnomaly
unfolding oom_kill abnormal_exit
classify event =
    if event.event_type == container_event_oom
    then some (oom_kill event)
    else if event.event_type == container_event_exit
    then (if is_zero event.exit_code && is_zero event.signal
        then none
        else some (abnormal_exit event))
    else none

-- With a fresh identifier, and `enrich_memory_limit` of the event.
unfoldable pub build_occurrence :
    (enrich_memory_limit : ℕ → ℕ → Option ℕ)
    → String
    → ContainerEvent
    → ClassifiedAnomaly
    → ℕ
    → Occurrence
unfolding entries insert
build_occurrence enrich_memory_limit id event anomaly boot_offset_ns =
    let memory_limit =
      if event.memory_limit == 0
      then unwrap_or (enrich_memory_limit event.cgroup_id event.pid) 0
      else event.memory_limit in
    with_data
      (with_error
        (new_at id anomaly.event_type anomaly.severity anomaly.outcome
          (u64 (boot_offset_ns + event.timestamp_ns)))
        anomaly.error_code anomaly.error_message)
      (object (
        entries
          (("pid", num event.pid)
            ∷ ("config_generation", num event.config_generation)
            ∷ ("tid", num event.tid)
            ∷ ("exit_code", number (to_string_i32 event.exit_code))
            ∷ ("signal", number (to_string_i32 event.signal))
            ∷ ("memory_usage_bytes", num event.memory_usage)
            ∷ ("memory_limit_bytes", num memory_limit)
            ∷ ("cgroup_id", num event.cgroup_id)
            ∷ ("timestamp_ns", num event.timestamp_ns)
            ∷ [])
          end))

-- What `run` makes of an event.
unfoldable pub observe :
    (enrich_memory_limit : ℕ → ℕ → Option ℕ) → String → ContainerEvent → ℕ → Option Occurrence
unfolding classify build_occurrence
observe enrich_memory_limit id event boot_offset_ns =
    and_then (classify event)
      (λ anomaly. some (build_occurrence enrich_memory_limit id event anomaly boot_offset_ns))
