-- ===== src/Observer/Run.antt =====
-- The four `run` functions of tapio-agent/src/observer, around the drain of the ring buffer: how an observer
-- starts, what each of its ticks does, and how it ends. The kernel is a parameter: how the loading, the
-- attaching and the opening of counters end, the content of the ring buffer at each tick, and the totals of
-- the map of metrics.
use tapio.Prelude.{
  ℕ, ◌+◌, ◌-◌, ◌%◌, String, Bool, true, false, List, [], ◌∷◌, Option, none, some, Result, ok, err,
  ◌>>◌, ◌==◌, ltb, if◌then◌else◌, sum, u64,
}
use tapio.Profile.Floats.{FloatOps}
use tapio.Agent.Config.{TapioConfig, PmcThresholds}
use tapio.Agent.Carriers.{World, register, bpf_map_update}
use tapio.Observer.Anomaly.{FloatText}
use tapio.Observer.Occurrence.{Occurrence}
use tapio.Observer.Decode.{decode_network, decode_container, decode_storage, decode_pmc}
use tapio.Observer.Drain.{Counters, Lost, drain_tick, lost_tick, lost_events_check_interval}
use tapio.Observer.Network
use tapio.Observer.Storage
use tapio.Observer.Container
use tapio.Observer.NodePmc

-- Why an observer does not start.
pub data StartError : Type 0 where
  load_failed carrier_failed cpus_unknown no_events_map : StartError
  program_missing program_not_loaded not_attached : String → StartError

-- How loading and attaching one program ends.
pub data Program : Type 0 where
  missing unloadable unattachable attached : Program

-- The loop over the programs, which stops at the first that fails.
unfoldable pub attach_all : (String → Program) → List String → Result StartError (Unit {0})
attach_all program [] = ok tt
attach_all program (name ∷ names) =
    let rest = attach_all program names in
    elim (program name) [
      | missing ↦ err (program_missing name)
      | unloadable ↦ err (program_not_loaded name)
      | unattachable ↦ err (not_attached name)
      | attached ↦ rest
    ]

-- `init_and_register_tapio_config`: the first write, and then the registration.
module _ (accepts : ℕ → TapioConfig → Bool) where
  unfoldable pub init_and_register_tapio_config :
      String → Option ℕ → TapioConfig → World → Bool × World
  unfolding register bpf_map_update
  init_and_register_tapio_config observer none config world = (false, world)
  init_and_register_tapio_config observer (some map_fd) config world =
      if accepts map_fd config
      then (
        true,
        register accepts (record { observer = observer; map_fd = map_fd })
            (record world { maps = bpf_map_update accepts map_fd config world.maps }),
      )
      else (false, world)

abbrev require : Bool → StartError → Result StartError (Unit {0})
require true e = ok tt
require false e = err e

-- The start of the three observers of tracepoints, up to their loop.
unfoldable pub start :
    Bool → Bool → (String → Program) → List String → Bool → Bool → Result StartError (Unit {0})
unfolding attach_all
start loads carries program names counts_cpus has_events = do
  require loads load_failed
  require carries carrier_failed
  attach_all program names
  require counts_cpus cpus_unknown
  require has_events no_events_map

abbrev pub network_programs : List String
network_programs =
    "trace_inet_sock_set_state" ∷ "trace_tcp_receive_reset" ∷ "trace_tcp_retransmit_skb" ∷ []

abbrev pub container_programs : List String
container_programs = "handle_oom" ∷ "handle_exit" ∷ []

abbrev pub storage_programs : List String
storage_programs = "trace_block_rq_issue" ∷ "trace_block_rq_complete" ∷ []

-- `read_percpu_sum`: the values of the CPUs, if the kernel gives them.
unfoldable pub read_percpu_sum : Option (List ℕ) → ℕ
read_percpu_sum none = 0
read_percpu_sum (some values) = u64 (sum values)

-- The counters of a processor: whether each opens, and whether the maps take the three.
pub record Cpu : Type 0 where
  pub cycles : Bool
  pub instructions : Bool
  pub stalls : Bool
  pub maps_take : Bool

-- The observer is disabled, fails, or has opened the counters of these processors.
pub data Opened : Type 0 where
  disabled fails : Opened
  opened : List ℕ → Opened

abbrev with_cpu : ℕ → Opened → Opened
with_cpu cpu (opened cpus) = opened (cpu ∷ cpus)
with_cpu cpu other = other

-- The loop over the processors of the node observer.
unfoldable pub open_counters : ℕ → List Cpu → Opened
open_counters cpu [] = opened []
open_counters cpu (c ∷ cpus) =
    let rest = open_counters (cpu + 1) cpus in
    if c.cycles
    then (if c.instructions
        then (if c.stalls then (if c.maps_take then with_cpu cpu rest else fails) else rest)
        else rest)
    else if cpu == 0
    then disabled
    else rest

-- What a loop keeps: its counters with what it sent, the lost events, and the totals of the storage
-- observer's ambiguous I/O.
pub record Observing : Type 0 where
  pub counters : Counters
  pub lost : Lost
  pub prev_ambiguous : ℕ
  pub correlation_drops_total : ℕ
  pub flushed : Bool

-- What a turn of `select!` finds: a tick, with the records in the ring buffer and the totals of the map of
-- metrics, or the shutdown.
pub data Turn : Type 0 where
  tick : List (List ℕ) → ℕ → ℕ → Turn
  shutdown : Turn

abbrev next_lost : Bool → ℕ → Lost → Lost
next_lost has_metrics total lost =
    if has_metrics then lost_tick total lost else record lost { tick_count = lost.tick_count + 1 }

module _ (has_metrics : Bool) (expected_len : ℕ) (observe : ℕ → List ℕ → Option Occurrence) where
  -- The tick that the observers share: the lost events, then the drain.
  unfoldable pub run_tick : List (List ℕ) → ℕ → Observing → Observing
  unfolding lost_tick drain_tick
  run_tick records total s = record s {
    counters = (drain_tick expected_len observe records s.counters).0;
    lost = next_lost has_metrics total s.lost;
  }

abbrev pub network_len : ℕ
network_len = 84

abbrev pub container_len : ℕ
container_len = 56

abbrev pub storage_len : ℕ
storage_len = 80

abbrev pub pmc_len : ℕ
pmc_len = 40

-- The fresh identifier of an occurrence, by the number of its event.
module _ (id : ℕ → String) (has_metrics : Bool) where
  unfoldable pub network_tick : (ℕ → ℕ) → List (List ℕ) → ℕ → Observing → Observing
  unfolding run_tick
  network_tick clock =
      run_tick has_metrics network_len
        (λ n bytes. Network.observe (id n) (clock n) (decode_network bytes))

  unfoldable pub container_tick : (ℕ → ℕ → Option ℕ) → ℕ → List (List ℕ) → ℕ → Observing → Observing
  unfolding run_tick
  container_tick enrich_memory_limit boot_offset_ns = run_tick has_metrics container_len (λ n bytes.
      Container.observe enrich_memory_limit (id n) (decode_container bytes) boot_offset_ns)

  -- The ambiguous I/O of a tick that reads the metrics.
  unfoldable pub ambiguous_tick : ℕ → Observing → Observing
  ambiguous_tick ambiguous s =
      if has_metrics
      then (if s.lost.tick_count % lost_events_check_interval == 0
          then (if ltb s.prev_ambiguous ambiguous
              then record s {
                correlation_drops_total =
                    s.correlation_drops_total + (ambiguous - s.prev_ambiguous);
                prev_ambiguous = ambiguous;
              }
              else s)
          else s)
      else s

  module _ {F : Type 0} (f : FloatOps F) (t : FloatText F) (boot_offset_ns : ℕ) where
    unfoldable pub storage_tick : List (List ℕ) → ℕ → ℕ → Observing → Observing
    unfolding run_tick ambiguous_tick
    storage_tick records total ambiguous s = ambiguous_tick ambiguous (
        run_tick has_metrics storage_len
          (λ n bytes. Storage.observe f t (id n) (decode_storage bytes) boot_offset_ns) records
          total s)

    -- The thresholds are those that the watch channel has at the event.
    unfoldable pub pmc_tick : (ℕ → PmcThresholds F) → List (List ℕ) → ℕ → Observing → Observing
    unfolding run_tick
    pmc_tick thresholds =
        run_tick has_metrics pmc_len
          (λ n bytes. NodePmc.observe f t (id n) (decode_pmc bytes) (thresholds n) boot_offset_ns)

-- The loop of a `run`, by what a tick does: it ends at the shutdown, with a flush of the sink.
unfoldable pub run_loop :
    (List (List ℕ) → ℕ → ℕ → Observing → Observing) → List Turn → Observing → Observing
run_loop on_tick [] s = s
run_loop on_tick (tick records total ambiguous ∷ turns) s =
    run_loop on_tick turns (on_tick records total ambiguous s)
run_loop on_tick (shutdown ∷ turns) s = record s { flushed = true }
