-- ===== src/Profile/Types.antt =====
-- The structs and errors of tapio-profile/src/lib.rs; `F` stands for `f64`.
use tapio.Prelude.{ℕ, String, Bool, Option, List}
use tapio.Prelude.Maps.{Map}
use tapio.Prelude.Int.{ℤ}

abbrev pub api_version : String
api_version = "tapio.false.systems/v0"

abbrev pub kind : String
kind = "EvidenceProfile"

abbrev pub production_default_name : String
production_default_name = "production-default"

abbrev pub max_rtt_abs_ms : ℕ
max_rtt_abs_ms = 600_000

abbrev pub max_warning_ms : ℕ
max_warning_ms = 60_000

abbrev pub max_critical_ms : ℕ
max_critical_ms = 600_000

abbrev pub max_ignore_exit_codes : ℕ
max_ignore_exit_codes = 16

abbrev pub FieldPath : Type 0
FieldPath = String

pub data ProfileError : Type 0 where
  unsupported_api_version : FieldPath → Option String → String → ProfileError
  unsupported_kind : FieldPath → Option String → String → ProfileError
  missing_base : FieldPath → ProfileError
  invalid_profile_name : FieldPath → String → ProfileError
  unknown_base : FieldPath → String → List String → ProfileError
  out_of_range : FieldPath → String → String → ProfileError
  not_finite : FieldPath → ProfileError
  threshold_order : FieldPath → String → String → ProfileError
  too_many_ignore_exit_codes : FieldPath → ℕ → ProfileError

pub record RttSpikeOverride : Type 0 where
  pub ratio : Option ℕ
  pub abs_ms : Option ℕ

pub record NetworkOverride : Type 0 where
  pub enabled : Option Bool
  pub rtt_spike : RttSpikeOverride

pub record SlowIoOverride : Type 0 where
  pub warning_ms : Option ℕ
  pub critical_ms : Option ℕ

pub record StorageOverride : Type 0 where
  pub enabled : Option Bool
  pub slow_io : SlowIoOverride

pub record ContainerOverride : Type 0 where
  pub enabled : Option Bool
  pub ignore_exit_codes : Option (List ℤ)

pub record StallPctOverride (F : Type 0) : Type 0 where
  pub warning : Option F
  pub critical : Option F

pub record NodePmcOverride (F : Type 0) : Type 0 where
  pub enabled : Option Bool
  pub stall_pct : StallPctOverride F
  pub ipc_degradation : Option F

pub record ProfileOverrides (F : Type 0) : Type 0 where
  pub network : NetworkOverride
  pub storage : StorageOverride
  pub container : ContainerOverride
  pub node_pmc : NodePmcOverride F

pub record EvidenceProfile (F : Type 0) : Type 0 where
  pub api_version : Option String
  pub kind : Option String
  pub base : Option String
  pub overrides : ProfileOverrides F

pub record ResolvedNetwork : Type 0 where
  pub enabled : Bool
  pub rtt_spike_ratio : ℕ
  pub rtt_spike_abs_ms : ℕ
  pub rtt_min_baseline_samples : ℕ
  pub conn_refused_window_ns : ℕ
  pub conn_refused_min_count : ℕ

pub record ResolvedStorage : Type 0 where
  pub enabled : Bool
  pub slow_io_warning_ms : ℕ
  pub slow_io_critical_ms : ℕ

pub record ResolvedContainer : Type 0 where
  pub enabled : Bool
  pub ignore_exit_codes : List ℕ

pub record ResolvedNodePmc (F : Type 0) : Type 0 where
  pub enabled : Bool
  pub stall_pct_warning : F
  pub stall_pct_critical : F
  pub ipc_degradation : F

pub record ResolvedProfile (F : Type 0) : Type 0 where
  pub network : ResolvedNetwork
  pub storage : ResolvedStorage
  pub container : ResolvedContainer
  pub node_pmc : ResolvedNodePmc F

pub record BuiltinSet (F : Type 0) : Type 0 where
  pub profiles : Map (ResolvedProfile F)

pub record ValidatedProfile (F : Type 0) : Type 0 where
  pub resolved : ResolvedProfile F
