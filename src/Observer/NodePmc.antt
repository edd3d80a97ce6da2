-- ===== src/Observer/NodePmc.antt =====
-- `classify` and `build_occurrence` of tapio-agent/src/observer/node_pmc.rs.
use tapio.Prelude.{
  ℕ, String, [], ◌∷◌, Option, none, some, ◌+◌, ◌&&◌, ltb, if◌then◌else◌, u64, and_then,
}
use tapio.Prelude.Decimal.{to_string}
use tapio.Wire.Types.{object, end}
use tapio.Profile.Floats.{FloatOps}
use tapio.Observer.Occurrence.{Severity, Outcome, Occurrence, new_at, with_error, with_data}
use tapio.Agent.Config.{PmcThresholds}
use tapio.Observer.Events.{PmcEvent, ipc, stall_pct}
use tapio.Observer.Anomaly.{
  ClassifiedAnomaly, node_cpu_stall, node_memory_pressure, node_ipc_degradation, FloatText, float,
  insert, entries, num, text,
}

module _ {F : Type 0} (f : FloatOps F) (t : FloatText F) where
  unfoldable pub cpu_stall : PmcEvent → ClassifiedAnomaly
  cpu_stall event = record {
    event_type = node_cpu_stall;
    severity = Severity.critical;
    outcome = Outcome.in_progress;
    error_code = "CPU_STALL";
    error_message = text (
        "CPU "
        ∷ to_string event.cpu
        ∷ " stall "
        ∷ t.fixed_1 (stall_pct f event)
        ∷ "% (ipc="
        ∷ t.fixed_2 (ipc f event)
        ∷ ")"
        ∷ []);
  }

  unfoldable pub memory_pressure : PmcEvent → ClassifiedAnomaly
  memory_pressure event = record {
    event_type = node_memory_pressure;
    severity = Severity.warning;
    outcome = Outcome.in_progress;
    error_code = "MEMORY_PRESSURE";
    error_message = text (
        "CPU "
        ∷ to_string event.cpu
        ∷ " memory pressure stall "
        ∷ t.fixed_1 (stall_pct f event)
        ∷ "% (ipc="
        ∷ t.fixed_2 (ipc f event)
        ∷ ")"
        ∷ []);
  }

  unfoldable pub low_ipc : PmcEvent → ClassifiedAnomaly
  low_ipc event = record {
    event_type = node_ipc_degradation;
    severity = Severity.warning;
    outcome = Outcome.in_progress;
    error_code = "IPC_DEGRADATION";
    error_message = text (
        "CPU "
        ∷ to_string event.cpu
        ∷ " low IPC "
        ∷ t.fixed_2 (ipc f event)
        ∷ " (stall "
        ∷ t.fixed_1 (stall_pct f event)
        ∷ "%)"
        ∷ []);
  }

  unfoldable pub classify : PmcEvent → PmcThresholds F → Option ClassifiedAnomaly
  unfolding cpu_stall memory_pressure low_ipc
  classify event thresholds =
      if f.le thresholds.stall_pct_critical (stall_pct f event)
      then some (cpu_stall event)
      else if f.le thresholds.stall_pct_warning (stall_pct f event)
      then some (memory_pressure event)
      else if f.lt (ipc f event) thresholds.ipc_degradation && ltb 0 event.cycles
      then some (low_ipc event)
      else none

  -- With a fresh identifier.
  unfoldable pub build_occurrence : String → PmcEvent → ClassifiedAnomaly → ℕ → Occurrence
  unfolding entries insert
  build_occurrence id event anomaly boot_offset_ns =
      with_data
        (with_error
          (new_at id anomaly.event_type anomaly.severity anomaly.outcome
            (u64 (boot_offset_ns + event.timestamp)))
          anomaly.error_code anomaly.error_message)
        (object (
          entries
            (("cpu", num event.cpu)
              ∷ ("config_generation", num event.config_generation)
              ∷ ("cycles", num event.cycles)
              ∷ ("instructions", num event.instructions)
              ∷ ("stall_cycles", num event.stall_cycles)
              ∷ ("ipc", float f t (ipc f event))
              ∷ ("stall_pct", float f t (stall_pct f event))
              ∷ ("timestamp_ns", num event.timestamp)
              ∷ [])
            end))

  -- What `run` makes of an event.
  unfoldable pub observe : String → PmcEvent → PmcThresholds F → ℕ → Option Occurrence
  unfolding classify build_occurrence
  observe id event thresholds boot_offset_ns =
      and_then (classify event thresholds)
        (λ anomaly. some (build_occurrence id event anomaly boot_offset_ns))
