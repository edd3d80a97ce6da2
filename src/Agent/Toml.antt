-- ===== src/Agent/Toml.antt =====
-- The configuration file of tapio-agent/src/config.rs: its structs with their defaults, `load`, the check of
-- the header that carries a credential, and the structure for the kernel programs without a controller. The
-- file system and the TOML decoder are parameters; f64 is one with its operations.
use Prim.Native.Nat.{min}
use tapio.Prelude.{
  ℕ, ◌^◌, ◌-◌, ◌||◌, ◌==◌, String, Bool, false, Option, none, some, Result, ok, err, ◌>>=◌, ◌>>◌,
  any, if◌then◌else◌,
}
use tapio.Prelude.Text.{codes}
use tapio.Profile.Floats.{FloatOps}
use tapio.Agent.Config.{
  TapioConfig, PmcThresholds, tapio_config_abi_version, tapio_f_network, tapio_f_storage,
  tapio_f_container, tapio_f_node_pmc, set_flag, fill_slots, max_ignore_exit_codes,
}
use tapio.Prelude.{true, []}

pub record Thresholds (F : Type 0) : Type 0 where
  pub stall_pct_warning : F
  pub stall_pct_critical : F
  pub ipc_degradation : F
  pub rtt_spike_ratio : ℕ
  pub rtt_spike_abs_us : ℕ
  pub io_latency_warning_ns : ℕ
  pub io_latency_critical_ns : ℕ

abbrev pub default_thresholds : {F : Type 0} ⦃f : FloatOps F⦄ → Thresholds F
default_thresholds ⦃f⦄ = record {
  stall_pct_warning = f.of_ℕ 20;
  stall_pct_critical = f.of_ℕ 40;
  ipc_degradation = f.of_ℕ 1;
  rtt_spike_ratio = 2;
  rtt_spike_abs_us = 500_000;
  io_latency_warning_ns = 50_000_000;
  io_latency_critical_ns = 200_000_000;
}

pub record Metrics : Type 0 where
  pub enabled : Bool
  pub port : ℕ
  pub bind_address : String

abbrev pub default_metrics : Metrics
default_metrics = record { enabled = false; port = 9090; bind_address = "127.0.0.1" }

pub record Otlp : Type 0 where
  pub endpoint : String
  pub auth_header : Option String
  pub batch_size : ℕ
  pub flush_interval_secs : ℕ

abbrev pub default_otlp : Otlp
default_otlp = record {
  endpoint = "http://localhost:4318";
  auth_header = none;
  batch_size = 100;
  flush_interval_secs = 5;
}

pub record Config (F : Type 0) : Type 0 where
  pub thresholds : Thresholds F
  pub metrics : Metrics
  pub otlp : Otlp

abbrev pub default : {F : Type 0} ⦃f : FloatOps F⦄ → Config F
default = record { thresholds = default_thresholds; metrics = default_metrics; otlp = default_otlp }

-- Why no configuration is loaded, with the text of the system or the decoder.
pub data LoadError : Type 0 where
  unreadable undecodable : String → LoadError
  header_characters : LoadError

-- A carriage return, a line feed or a null.
abbrev pub ends_header : ℕ → Bool
ends_header c = c == 13 || c == 10 || c == 0

unfoldable pub validate_auth_header : Option String → Result LoadError (Unit {0})
validate_auth_header none = ok tt
validate_auth_header (some value) =
    if any ends_header (codes value) then err header_characters else ok tt

abbrev pub load_error : {A : Type 0} → (String → LoadError) → Result String A → Result LoadError A
load_error f (ok a) = ok a
load_error f (err e) = err (f e)

-- The file's content, if there is such a file, or why it is not read.
unfoldable pub load :
    {F : Type 0} ⦃f : FloatOps F⦄
    → (String → Result String (Config F))
    → Option (Result String String)
    → Result LoadError (Config F)
unfolding validate_auth_header
load from_str none = ok default
load from_str (some content) = do
  text ← load_error unreadable content
  config ← load_error undecodable (from_str text)
  validate_auth_header config.otlp.auth_header
  ok config

abbrev pub u32_max : ℕ
u32_max = 2 ^ 32 - 1

-- `Config::tapio_config`, by `Thresholds::tapio_config`.
unfoldable pub tapio_config : {F : Type 0} → Thresholds F → TapioConfig
tapio_config thresholds = record {
  abi_version = tapio_config_abi_version;
  generation = 1;
  flags = set_flag true tapio_f_node_pmc (
      set_flag true tapio_f_container
        (set_flag true tapio_f_storage (set_flag true tapio_f_network 0)));
  slow_io_threshold_ns = thresholds.io_latency_warning_ns;
  io_latency_critical_ns = thresholds.io_latency_critical_ns;
  conn_refused_window_ns = 0;
  conn_refused_min_count = 0;
  rtt_spike_multiplier = min thresholds.rtt_spike_ratio u32_max;
  rtt_spike_abs_us = min thresholds.rtt_spike_abs_us u32_max;
  rtt_min_baseline_samples = 5;
  ignore_exit_count = 0;
  ignore_exit_codes = fill_slots max_ignore_exit_codes [];
  pad = 0;
}

-- The thresholds of the node observer, in `main` without a controller.
unfoldable pub standalone_thresholds : {F : Type 0} → Thresholds F → PmcThresholds F
standalone_thresholds thresholds = record {
  stall_pct_warning = thresholds.stall_pct_warning;
  stall_pct_critical = thresholds.stall_pct_critical;
  ipc_degradation = thresholds.ipc_degradation;
}
