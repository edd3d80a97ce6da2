-- ===== src/Profile/Tests.antt =====
-- A profile document over whole numbers: tests of `validate` and `compile`, and the theorems at work.
use tapio.Prelude.{List, [], ◌∷◌, ℕ, true, false, some, none, ◌≡◌, refl, ok, err}
use tapio.Prelude.Int.{ℤ, pos, negsuc}
use tapio.Prelude.Maps.{lookup}
use tapio.Prelude.Decimal.{to_string, to_string_i32}
use tapio.Profile.Floats.{whole, whole-laws}
use tapio.Profile.Types.{
  EvidenceProfile, ValidatedProfile, ResolvedProfile, StorageOverride, ResolvedStorage, api_version,
  kind, threshold_order, out_of_range,
}
use tapio.Profile.Names.{valid_profile_name}
use tapio.Profile.Validate.{
  validate, v0, apply_codes, apply_storage, validate_envelope, find_base, apply_network,
  apply_container, apply_node_pmc, production_default,
}
use tapio.Profile.Compile.{compile}
use tapio.Profile.Ranges.{InRange, validate-v0-InRange}
use tapio.Profile.Compiled.{WireInRange, compile_validated-WireInRange}

abbrev slower : EvidenceProfile ℕ
slower = record {
  api_version = some api_version;
  kind = some kind;
  base = some "production-default";
  overrides = record {
    network = record { enabled = none; rtt_spike = record { ratio = some 3; abs_ms = none } };
    storage = record {
      enabled = none;
      slow_io = record { warning_ms = some 80; critical_ms = none };
    };
    container = record { enabled = none; ignore_exit_codes = some (pos 0 ∷ pos 143 ∷ pos 0 ∷ []) };
    node_pmc = record {
      enabled = none;
      stall_pct = record { warning = some 30; critical = none };
      ipc_degradation = none;
    };
  };
}

abbrev slower_resolved : ResolvedProfile ℕ
slower_resolved = record {
  network = record {
    enabled = true;
    rtt_spike_ratio = 3;
    rtt_spike_abs_ms = 500;
    rtt_min_baseline_samples = 5;
    conn_refused_window_ns = 0;
    conn_refused_min_count = 0;
  };
  storage = record { enabled = true; slow_io_warning_ms = 80; slow_io_critical_ms = 200 };
  container = record { enabled = true; ignore_exit_codes = 0 ∷ 143 ∷ [] };
  node_pmc = record {
    enabled = true;
    stall_pct_warning = 30;
    stall_pct_critical = 40;
    ipc_degradation = 1;
  };
}

default_name : valid_profile_name "production-default" ≡ true
unfolding valid_profile_name
default_name = refl

trailing_dash : valid_profile_name "production-" ≡ false
unfolding valid_profile_name
trailing_dash = refl

slower_validates : validate slower v0 ≡ ok (record { resolved = slower_resolved })
unfolding validate v0 validate_envelope find_base apply_network apply_storage apply_container
    apply_codes apply_node_pmc lookup valid_profile_name
slower_validates = refl

inverted :
    apply_storage
      (record { enabled = none; slow_io = record { warning_ms = some 300; critical_ms = none } })
      (record { enabled = true; slow_io_warning_ms = 50; slow_io_critical_ms = 200 })
    ≡ err (threshold_order "overrides.storage.slow_io" "300" "200")
unfolding apply_storage to_string
inverted = refl

negative_code :
    apply_codes (some (pos 1 ∷ negsuc 0 ∷ [])) []
    ≡ err (out_of_range "overrides.container.ignore_exit_codes" "-1" "0..=255")
unfolding apply_codes to_string_i32
negative_code = refl

repeated_codes : apply_codes (some (pos 0 ∷ pos 143 ∷ pos 0 ∷ [])) [] ≡ ok (0 ∷ 143 ∷ [])
unfolding apply_codes
repeated_codes = refl

abbrev given_codes : List ℤ
given_codes = pos 0 ∷ pos 143 ∷ pos 0 ∷ []

abbrev kept_codes : List ℕ
kept_codes = 0 ∷ 143 ∷ []

validate-v0-InRange_example : InRange slower_resolved
validate-v0-InRange_example =
    validate-v0-InRange whole-laws slower (record { resolved = slower_resolved }) slower_validates

compile_validated-WireInRange_example :
    WireInRange (compile (record { resolved = slower_resolved }))
compile_validated-WireInRange_example =
    compile_validated-WireInRange whole-laws slower (record { resolved = slower_resolved })
      slower_validates

abbrev compiled_storage : ValidatedProfile ℕ
compiled_storage = record { resolved = slower_resolved }

abbrev warning_override : StorageOverride
warning_override = record {
  enabled = none;
  slow_io = record { warning_ms = some 80; critical_ms = none };
}

abbrev base_storage : ResolvedStorage
base_storage = record { enabled = true; slow_io_warning_ms = 50; slow_io_critical_ms = 200 }

default_found :
    lookup "production-default" (v0 {F = ℕ}).profiles ≡ some (production_default {F = ℕ})
unfolding v0 lookup
default_found = refl
