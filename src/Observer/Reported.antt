-- ===== src/Observer/Reported.antt =====
-- What each observer reports is published: the network, the storage, the container and the node
-- observer.
use tapio.Prelude.{
  ℕ, String, List, Option, some, refl, ◌<◌, ◌^◌, ◌+◌, IsOk, arith, u64, ◌==◌, ltb, unwrap_or, ◌&&◌,
  and_then,
}
use tapio.Prelude.Int.{is_zero}
use tapio.Prelude.Strings.{split}
use tapio.Wire.Types.{Value, object, end}
use tapio.Wire.Facts.{reject_reasoning_fields, reject_entries, is_reasoning_key, join}
use tapio.Prelude.Text.{is_blank, trim, trim_start, is_whitespace}
use tapio.Profile.Floats.{FloatOps}
use tapio.Observer.Occurrence.{Occurrence, new, new_at, with_error, with_data, type_errors}
use tapio.Observer.Convert.{observer_from_type}
use tapio.Observer.Events.{
  NetworkEvent, StorageEvent, ContainerEvent, PmcEvent, has_error, ipc, stall_pct, latency_ms,
}
use tapio.Observer.Anomaly.{ClassifiedAnomaly, FloatText, insert, entries}
use tapio.Observer.Network
use tapio.Observer.Storage
use tapio.Observer.Container
use tapio.Observer.NodePmc
use tapio.Agent.Config.{PmcThresholds}
use tapio.Observer.Published.{Sent, Names, either, published, float_accepted}

network_facts :
    (event : NetworkEvent) (ebpf_event_type : ℕ)
    → IsOk (
        reject_reasoning_fields "$" (
          object (entries (Network.type_facts event ebpf_event_type) (Network.common_facts event))))
unfolding reject_reasoning_fields is_reasoning_key join entries insert Network.type_facts
    Network.common_facts
network_facts event et =
    let P : List (String × Value) → Type 0 =
      λ xs. IsOk (reject_entries "$" (entries xs (Network.common_facts event))) in
    either P (et == 0) refl
      (either P (et == 1) refl (either P (et == 2) refl (either P (et == 3) refl refl)))

network_sent :
    (id : String) (nanos : ℕ) (event : NetworkEvent) (anomaly : Network.ClassifiedAnomaly)
    → nanos < 2 ^ 64
    → Names "network" anomaly.event_type
    → Sent "network" nanos (some (Network.build_occurrence id nanos event anomaly))
unfolding Network.build_occurrence new with_error with_data
network_sent id nanos event anomaly small names =
    published (Network.build_occurrence id nanos event anomaly) "network" nanos
      (object
        (entries (Network.type_facts event anomaly.ebpf_event_type) (Network.common_facts event)))
      small refl refl refl refl names (network_facts event anomaly.ebpf_event_type)

-- Whatever the network observer reports reaches the controller.
pub network-IsPublished :
    (id : String) (nanos : ℕ) (event : NetworkEvent)
    → nanos < 2 ^ 64
    → Sent "network" nanos (Network.observe id nanos event)
unfolding Network.observe Network.classify Network.refused Network.retransmit Network.rtt_spike
    Network.syn_timeout type_errors observer_from_type is_blank split trim trim_start is_whitespace
network-IsPublished id nanos event small =
    let P : Option Network.ClassifiedAnomaly → Type 0 = λ o.
      Sent "network" nanos
        (and_then o (λ anomaly. some (Network.build_occurrence id nanos event anomaly))) in
    let sent = λ (anomaly : Network.ClassifiedAnomaly) (names : Names "network" anomaly.event_type).
      network_sent id nanos event anomaly small names in
    either P (event.event_type == 1) (sent (Network.refused event) (refl, refl, refl, refl, refl)) (
      either P (event.event_type == 2)
        (sent (Network.retransmit event) (refl, refl, refl, refl, refl))
        (either P (event.event_type == 3)
          (sent (Network.rtt_spike event) (refl, refl, refl, refl, refl))
          (either P (event.event_type == 0)
            (either P (event.old_state == 2 && event.new_state == 7)
              (sent (Network.syn_timeout event) (refl, refl, refl, refl, refl)) tt)
            tt)))

word_bound : (n : ℕ) → u64 n < 2 ^ 64
word_bound n = omega arith

container_sent :
    (enrich_memory_limit : ℕ → ℕ → Option ℕ) (id : String) (event : ContainerEvent)
    (boot_offset_ns : ℕ) (anomaly : ClassifiedAnomaly)
    → Names "container" anomaly.event_type
    → Sent "container"
        (u64 (boot_offset_ns + event.timestamp_ns))
        (some (Container.build_occurrence enrich_memory_limit id event anomaly boot_offset_ns))
unfolding Container.build_occurrence new_at with_error with_data entries insert
    reject_reasoning_fields is_reasoning_key join Storage.op_name
container_sent enrich_memory_limit id event boot_offset_ns anomaly names =
    published (Container.build_occurrence enrich_memory_limit id event anomaly boot_offset_ns)
      "container" (u64 (boot_offset_ns + event.timestamp_ns))
      (unwrap_or
        (Occurrence.data_
          (Container.build_occurrence enrich_memory_limit id event anomaly boot_offset_ns))
        (object end))
      (word_bound (boot_offset_ns + event.timestamp_ns)) refl refl refl refl names refl

storage_sent :
    {F : Type 0} (f : FloatOps F) (t : FloatText F) (id : String) (event : StorageEvent)
    (boot_offset_ns : ℕ) (anomaly : ClassifiedAnomaly)
    → Names "storage" anomaly.event_type
    → Sent "storage"
        (u64 (boot_offset_ns + event.timestamp_ns))
        (some (Storage.build_occurrence f t id event anomaly boot_offset_ns))
unfolding Storage.build_occurrence new_at with_error with_data entries insert
    reject_reasoning_fields is_reasoning_key join Storage.op_name
storage_sent f t id event boot_offset_ns anomaly names =
    published (Storage.build_occurrence f t id event anomaly boot_offset_ns) "storage"
      (u64 (boot_offset_ns + event.timestamp_ns))
      (unwrap_or (Occurrence.data_ (Storage.build_occurrence f t id event anomaly boot_offset_ns))
        (object end))
      (word_bound (boot_offset_ns + event.timestamp_ns)) refl refl refl refl names
      (rw (float_accepted f t "$.latency_ms" (latency_ms f event)) refl)

node_pmc_sent :
    {F : Type 0} (f : FloatOps F) (t : FloatText F) (id : String) (event : PmcEvent)
    (boot_offset_ns : ℕ) (anomaly : ClassifiedAnomaly)
    → Names "node" anomaly.event_type
    → Sent "node"
        (u64 (boot_offset_ns + event.timestamp))
        (some (NodePmc.build_occurrence f t id event anomaly boot_offset_ns))
unfolding NodePmc.build_occurrence new_at with_error with_data entries insert
    reject_reasoning_fields is_reasoning_key join Storage.op_name
node_pmc_sent f t id event boot_offset_ns anomaly names =
    published (NodePmc.build_occurrence f t id event anomaly boot_offset_ns) "node"
      (u64 (boot_offset_ns + event.timestamp))
      (unwrap_or (Occurrence.data_ (NodePmc.build_occurrence f t id event anomaly boot_offset_ns))
        (object end))
      (word_bound (boot_offset_ns + event.timestamp)) refl refl refl refl names
      (rw
        (
          float_accepted f t "$.ipc" (ipc f event),
          float_accepted f t "$.stall_pct" (stall_pct f event),
        )
        refl)

-- Whatever the container observer reports reaches the controller, whatever limit is found for it.
pub container-IsPublished :
    (enrich_memory_limit : ℕ → ℕ → Option ℕ) (id : String) (event : ContainerEvent)
    (boot_offset_ns : ℕ)
    → Sent "container"
        (u64 (boot_offset_ns + event.timestamp_ns))
        (Container.observe enrich_memory_limit id event boot_offset_ns)
unfolding Container.observe Container.classify Container.oom_kill Container.abnormal_exit
    type_errors observer_from_type is_blank split trim trim_start is_whitespace
container-IsPublished enrich_memory_limit id event boot_offset_ns =
    let P : Option ClassifiedAnomaly → Type 0 = λ o.
      Sent "container" (u64 (boot_offset_ns + event.timestamp_ns)) (
        and_then o (λ anomaly.
          some (Container.build_occurrence enrich_memory_limit id event anomaly boot_offset_ns))) in
    let sent = λ (anomaly : ClassifiedAnomaly) (names : Names "container" anomaly.event_type).
      container_sent enrich_memory_limit id event boot_offset_ns anomaly names in
    either P (event.event_type == 0)
      (sent (Container.oom_kill event) (refl, refl, refl, refl, refl))
      (either P (event.event_type == 1)
        (either P (is_zero event.exit_code && is_zero event.signal) tt
          (sent (Container.abnormal_exit event) (refl, refl, refl, refl, refl)))
        tt)

module _ {F : Type 0} (f : FloatOps F) (t : FloatText F) where
  -- Whatever the storage observer reports reaches the controller; it reports every event.
  pub storage-IsPublished :
      (id : String) (event : StorageEvent) (boot_offset_ns : ℕ)
      → Sent "storage"
          (u64 (boot_offset_ns + event.timestamp_ns))
          (Storage.observe f t id event boot_offset_ns)
  unfolding Storage.observe Storage.classify Storage.io_error Storage.latency_spike type_errors
      observer_from_type is_blank split trim trim_start is_whitespace
  storage-IsPublished id event boot_offset_ns =
      let P : Option ClassifiedAnomaly → Type 0 = λ o.
        Sent "storage" (u64 (boot_offset_ns + event.timestamp_ns)) (
          and_then o
            (λ anomaly. some (Storage.build_occurrence f t id event anomaly boot_offset_ns))) in
      let sent = λ (anomaly : ClassifiedAnomaly) (names : Names "storage" anomaly.event_type).
        storage_sent f t id event boot_offset_ns anomaly names in
      either P (has_error event) (sent (Storage.io_error f t event) (refl, refl, refl, refl, refl))
        (sent (Storage.latency_spike f t event) (refl, refl, refl, refl, refl))

  -- Whatever the node observer reports reaches the controller, whatever the thresholds.
  pub node_pmc-IsPublished :
      (id : String) (event : PmcEvent) (thresholds : PmcThresholds F) (boot_offset_ns : ℕ)
      → Sent "node"
          (u64 (boot_offset_ns + event.timestamp))
          (NodePmc.observe f t id event thresholds boot_offset_ns)
  unfolding NodePmc.observe NodePmc.classify NodePmc.cpu_stall NodePmc.memory_pressure
      NodePmc.low_ipc type_errors observer_from_type is_blank split trim trim_start is_whitespace
  node_pmc-IsPublished id event thresholds boot_offset_ns =
      let P : Option ClassifiedAnomaly → Type 0 = λ o.
        Sent "node" (u64 (boot_offset_ns + event.timestamp)) (
          and_then o
            (λ anomaly. some (NodePmc.build_occurrence f t id event anomaly boot_offset_ns))) in
      let sent = λ (anomaly : ClassifiedAnomaly) (names : Names "node" anomaly.event_type).
        node_pmc_sent f t id event boot_offset_ns anomaly names in
      either P (f.le thresholds.stall_pct_critical (stall_pct f event))
        (sent (NodePmc.cpu_stall f t event) (refl, refl, refl, refl, refl))
        (either P (f.le thresholds.stall_pct_warning (stall_pct f event))
          (sent (NodePmc.memory_pressure f t event) (refl, refl, refl, refl, refl))
          (either P (f.lt (ipc f event) thresholds.ipc_degradation && ltb 0 event.cycles)
            (sent (NodePmc.low_ipc f t event) (refl, refl, refl, refl, refl)) tt))
