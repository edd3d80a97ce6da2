-- ===== src/Observer/Storage.antt =====
-- `classify` and `build_occurrence` of tapio-agent/src/observer/storage.rs.
use tapio.Prelude.{ℕ, String, [], ◌∷◌, Option, some, ◌==◌, ◌+◌, if◌then◌else◌, u64, and_then}
use tapio.Prelude.Decimal.{to_string, to_string_i32}
use tapio.Wire.Types.{number, str, object, end}
use tapio.Profile.Floats.{FloatOps}
use tapio.Observer.Occurrence.{Severity, Outcome, Occurrence, new_at, with_error, with_data}
use tapio.Observer.Events.{
  StorageEvent, comm_str, has_error, latency_ms, op_read, op_write, storage_severity_critical,
}
use tapio.Observer.Anomaly.{
  ClassifiedAnomaly, storage_io_error, storage_latency_spike, FloatText, float, insert, entries,
  num, text,
}

unfoldable pub op_name : ℕ → String
op_name opcode =
    if opcode == op_read then "read" else if opcode == op_write then "write" else "unknown"

module _ {F : Type 0} (f : FloatOps F) (t : FloatText F) where
  unfoldable pub io_error : StorageEvent → ClassifiedAnomaly
  unfolding op_name
  io_error event = record {
    event_type = storage_io_error;
    severity = Severity.critical;
    outcome = Outcome.failure;
    error_code = "IO_ERROR";
    error_message = text (
        "I/O error on "
        ∷ to_string event.dev_major
        ∷ ":"
        ∷ to_string event.dev_minor
        ∷ " (error="
        ∷ to_string_i32 event.error_code
        ∷ ", "
        ∷ op_name event.opcode
        ∷ ")"
        ∷ []);
  }

  unfoldable pub latency_spike : StorageEvent → ClassifiedAnomaly
  unfolding op_name
  latency_spike event = record {
    event_type = storage_latency_spike;
    severity =
        if event.severity == storage_severity_critical then Severity.critical else Severity.warning;
    outcome = Outcome.in_progress;
    error_code = "LATENCY_SPIKE";
    error_message = text (
        "I/O latency "
        ∷ t.fixed_1 (latency_ms f event)
        ∷ "ms on "
        ∷ to_string event.dev_major
        ∷ ":"
        ∷ to_string event.dev_minor
        ∷ " ("
        ∷ op_name event.opcode
        ∷ ")"
        ∷ []);
  }

  unfoldable pub classify : StorageEvent → Option ClassifiedAnomaly
  unfolding io_error latency_spike has_error
  classify event = if has_error event then some (io_error event) else some (latency_spike event)

  -- With a fresh identifier.
  unfoldable pub build_occurrence : String → StorageEvent → ClassifiedAnomaly → ℕ → Occurrence
  unfolding entries insert op_name
  build_occurrence id event anomaly boot_offset_ns =
      with_data
        (with_error
          (new_at id anomaly.event_type anomaly.severity anomaly.outcome
            (u64 (boot_offset_ns + event.timestamp_ns)))
          anomaly.error_code anomaly.error_message)
        (object (
          entries
            (("config_generation", num event.config_generation)
              ∷ ("pid", num event.pid)
              ∷ ("comm", str (comm_str event.comm))
              ∷ ("dev_major", num event.dev_major)
              ∷ ("dev_minor", num event.dev_minor)
              ∷ ("sector", num event.sector)
              ∷ ("bytes", num event.bytes)
              ∷ ("latency_ms", float f t (latency_ms f event))
              ∷ ("opcode", str (op_name event.opcode))
              ∷ ("error_code", number (to_string_i32 event.error_code))
              ∷ ("cgroup_id", num event.cgroup_id)
              ∷ ("timestamp_ns", num event.timestamp_ns)
              ∷ [])
            end))

  -- What `run` makes of an event.
  unfoldable pub observe : String → StorageEvent → ℕ → Option Occurrence
  unfolding classify build_occurrence
  observe id event boot_offset_ns =
      and_then (classify event) (λ anomaly. some (build_occurrence id event anomaly boot_offset_ns))
