-- ===== src/Agent/Config.antt =====
-- What an agent makes of a configuration: `tapio_config_from_compiled` and
-- `pmc_thresholds_from_compiled` of tapio-agent/src/config.rs, and the structure that the kernel
-- programs read, from tapio-common/src/ebpf.rs.
use Prim.Native.Nat.{min}
use tapio.Prelude.{
  ℕ, zero, suc, ◌+◌, ◌/◌, ◌%◌, String, Bool, ◌&&◌, not, none, some, List, [], ◌∷◌, Result, ok, err,
  ◌==◌, length, if◌then◌else◌, u32,
}
use tapio.Prelude.Int.{ℤ, pos}
use tapio.Prelude.Parse.{parse_u32}
use tapio.Profile.Floats.{FloatOps}
use tapio.Wire.Types.{CompiledConfig}

abbrev pub tapio_config_abi_version : ℕ
tapio_config_abi_version = 2

abbrev pub tapio_f_network : ℕ
tapio_f_network = 1

abbrev pub tapio_f_storage : ℕ
tapio_f_storage = 2

abbrev pub tapio_f_container : ℕ
tapio_f_container = 4

abbrev pub tapio_f_node_pmc : ℕ
tapio_f_node_pmc = 8

abbrev pub max_ignore_exit_codes : ℕ
max_ignore_exit_codes = 16

pub record TapioConfig : Type 0 where
  pub abi_version : ℕ
  pub generation : ℕ
  pub flags : ℕ
  pub slow_io_threshold_ns : ℕ
  pub io_latency_critical_ns : ℕ
  pub conn_refused_window_ns : ℕ
  pub conn_refused_min_count : ℕ
  pub rtt_spike_multiplier : ℕ
  pub rtt_spike_abs_us : ℕ
  pub rtt_min_baseline_samples : ℕ
  pub ignore_exit_count : ℕ
  pub ignore_exit_codes : List ℤ
  pub pad : ℕ

unfoldable pub has_valid_abi : TapioConfig → Bool
has_valid_abi config = config.abi_version == tapio_config_abi_version

-- Whether the bit of a flag, a power of two, is set.
abbrev pub has_flag : ℕ → ℕ → Bool
has_flag flags flag = flags / flag % 2 == 1

unfoldable pub observer_enabled : TapioConfig → ℕ → Bool
unfolding has_valid_abi
observer_enabled config flag = has_valid_abi config && has_flag config.flags flag

pub data CompiledConfigError : Type 0 where
  invalid_generation : String → CompiledConfigError

-- `flags |= flag` under a test, where the flag is a power of two.
abbrev pub set_flag : Bool → ℕ → ℕ → ℕ
set_flag enabled flag flags = if enabled && not (has_flag flags flag) then flags + flag else flags

-- The slots after the loop over the zip: the codes, then zeros.
abbrev pub fill_slots : ℕ → List ℤ → List ℤ
fill_slots zero codes = []
fill_slots (suc n) [] = pos 0 ∷ fill_slots n []
fill_slots (suc n) (code ∷ codes) = code ∷ fill_slots n codes

unfoldable pub flags_of : CompiledConfig → ℕ
flags_of config = set_flag config.node_pmc.enabled tapio_f_node_pmc (
    set_flag config.container.enabled tapio_f_container (
      set_flag config.storage.enabled tapio_f_storage
        (set_flag config.network.enabled tapio_f_network 0)))

-- The structure, once the generation is read.
unfoldable pub carried : CompiledConfig → ℕ → TapioConfig
unfolding flags_of
carried config generation = record {
  abi_version = tapio_config_abi_version;
  generation = generation;
  flags = flags_of config;
  slow_io_threshold_ns = config.storage.slow_io_warning_ns;
  io_latency_critical_ns = config.storage.slow_io_critical_ns;
  conn_refused_window_ns = config.network.conn_refused_window_ns;
  conn_refused_min_count = config.network.conn_refused_min_count;
  rtt_spike_multiplier = config.network.rtt_spike_ratio;
  rtt_spike_abs_us = config.network.rtt_spike_abs_us;
  rtt_min_baseline_samples = config.network.rtt_min_baseline_samples;
  ignore_exit_count = u32 (min (length config.container.ignore_exit_codes) max_ignore_exit_codes);
  ignore_exit_codes = fill_slots max_ignore_exit_codes config.container.ignore_exit_codes;
  pad = 0;
}

unfoldable pub tapio_config_from_compiled :
    CompiledConfig → String → Result CompiledConfigError TapioConfig
unfolding carried
tapio_config_from_compiled config generation = elim (parse_u32 generation) [
  | none ↦ err (invalid_generation generation)
  | some number ↦ ok (carried config number)
]

pub record PmcThresholds (F : Type 0) : Type 0 where
  pub stall_pct_warning : F
  pub stall_pct_critical : F
  pub ipc_degradation : F

unfoldable pub pmc_thresholds_from_compiled :
    {F : Type 0} ⦃f : FloatOps F⦄ → CompiledConfig → PmcThresholds F
pmc_thresholds_from_compiled ⦃f⦄ config = record {
  stall_pct_warning = f.div (f.of_ℕ config.node_pmc.stall_warning_permille) (f.of_ℕ 10);
  stall_pct_critical = f.div (f.of_ℕ config.node_pmc.stall_critical_permille) (f.of_ℕ 10);
  ipc_degradation = f.div (f.of_ℕ config.node_pmc.ipc_degradation_milli) (f.of_ℕ 1000);
}
