-- ===== src/Profile/Validate.antt =====
-- `validate`, the overrides that it applies and the builtin base of tapio-profile/src/lib.rs.
use text.Mathlib.Text.{◌==◌ as str_eq}
use tapio.Prelude.{
  ℕ, String, Bool, true, false, Option, none, some, List, [], ◌∷◌, ◌++◌, not, ◌&&◌, ◌||◌, ltb, leb,
  ◌==◌, if◌then◌else◌, length, Result, ok, err, ◌>>=◌, ◌>>◌, any, unwrap_or,
}
use tapio.Prelude.Maps.{lookup, keys}
use tapio.Prelude.Int.{ℤ, pos, negsuc}
use tapio.Prelude.Decimal.{to_string, to_string_i32}
use tapio.Profile.Floats.{FloatOps}
use tapio.Profile.Names.{valid_profile_name}
use tapio.Profile.Types.{
  api_version, kind, production_default_name, max_rtt_abs_ms, max_warning_ms, max_critical_ms,
  max_ignore_exit_codes, ProfileError, unsupported_api_version, unsupported_kind, missing_base,
  invalid_profile_name, unknown_base, out_of_range, not_finite, threshold_order,
  too_many_ignore_exit_codes, NetworkOverride, StorageOverride, ContainerOverride, NodePmcOverride,
  EvidenceProfile, ResolvedNetwork, ResolvedStorage, ResolvedContainer, ResolvedNodePmc,
  ResolvedProfile, BuiltinSet, ValidatedProfile,
}

-- `option.as_deref() == Some(literal)`.
abbrev is_text : Option String → String → Bool
is_text none expected = false
is_text (some s) expected = str_eq s expected

unfoldable pub validate_envelope : {F : Type 0} → EvidenceProfile F → Result ProfileError (Unit {0})
validate_envelope p =
    if not (is_text p.api_version api_version)
    then err (unsupported_api_version "apiVersion" p.api_version api_version)
    else if not (is_text p.kind kind)
    then err (unsupported_kind "kind" p.kind kind)
    else ok tt

-- A number given in an override must lie in its range.
unfoldable pub in_range : String → String → ℕ → ℕ → Option ℕ → Result ProfileError (Unit {0})
in_range path range lo hi none = ok tt
in_range path range lo hi (some n) =
    if not (leb lo n && leb n hi) then err (out_of_range path (to_string n) range) else ok tt

unfoldable pub apply_network :
    NetworkOverride → ResolvedNetwork → Result ProfileError ResolvedNetwork
unfolding in_range
apply_network input resolved = do
  in_range "overrides.network.rtt_spike.ratio" "1..=100" 1 100 input.rtt_spike.ratio
  in_range "overrides.network.rtt_spike.abs_ms" "1..=600000" 1 max_rtt_abs_ms input.rtt_spike.abs_ms
  ok (record resolved {
    enabled = unwrap_or input.enabled resolved.enabled;
    rtt_spike_ratio = unwrap_or input.rtt_spike.ratio resolved.rtt_spike_ratio;
    rtt_spike_abs_ms = unwrap_or input.rtt_spike.abs_ms resolved.rtt_spike_abs_ms;
  })

-- The thresholds are compared after the overrides.
unfoldable pub check_order : ResolvedStorage → Result ProfileError ResolvedStorage
check_order resolved =
    if ltb resolved.slow_io_critical_ms resolved.slow_io_warning_ms
    then err (
        threshold_order "overrides.storage.slow_io" (to_string resolved.slow_io_warning_ms)
          (to_string resolved.slow_io_critical_ms))
    else ok resolved

unfoldable pub apply_storage :
    StorageOverride → ResolvedStorage → Result ProfileError ResolvedStorage
unfolding in_range check_order
apply_storage input resolved = do
  in_range "overrides.storage.slow_io.warning_ms" "1..=60000" 1 max_warning_ms
      input.slow_io.warning_ms
  in_range "overrides.storage.slow_io.critical_ms" "1..=600000" 1 max_critical_ms
      input.slow_io.critical_ms
  check_order (record resolved {
    enabled = unwrap_or input.enabled resolved.enabled;
    slow_io_warning_ms = unwrap_or input.slow_io.warning_ms resolved.slow_io_warning_ms;
    slow_io_critical_ms = unwrap_or input.slow_io.critical_ms resolved.slow_io_critical_ms;
  })

abbrev pub contains : List ℕ → ℕ → Bool
contains xs c = any (λ x. x == c) xs

-- The loop over the codes; `checked` is the vector so far, in which `seen` is membership.
unfoldable pub check_codes : List ℤ → List ℕ → Result ProfileError (List ℕ)
check_codes [] checked = ok checked
check_codes (negsuc n ∷ codes) checked =
    err (out_of_range "overrides.container.ignore_exit_codes" (to_string_i32 (negsuc n)) "0..=255")
check_codes (pos n ∷ codes) checked =
    let rest = check_codes codes (if contains checked n then checked else checked ++ n ∷ []) in
    if leb n 255
    then rest
    else err
        (out_of_range "overrides.container.ignore_exit_codes" (to_string_i32 (pos n)) "0..=255")

unfoldable pub apply_codes : Option (List ℤ) → List ℕ → Result ProfileError (List ℕ)
unfolding check_codes
apply_codes none resolved = ok resolved
apply_codes (some codes) resolved =
    if ltb max_ignore_exit_codes (length codes)
    then err (too_many_ignore_exit_codes "overrides.container.ignore_exit_codes" (length codes))
    else check_codes codes []

unfoldable pub apply_container :
    ContainerOverride → ResolvedContainer → Result ProfileError ResolvedContainer
apply_container input resolved = do
  codes ← apply_codes input.ignore_exit_codes resolved.ignore_exit_codes
  ok (record resolved {
    enabled = unwrap_or input.enabled resolved.enabled;
    ignore_exit_codes = codes;
  })

module _ {F : Type 0} ⦃f : FloatOps F⦄ where
  unfoldable pub validate_finite_range :
      String → F → F → F → String → Result ProfileError (Unit {0})
  validate_finite_range field value min max range =
      if not (f.is_finite value)
      then err (not_finite field)
      else if f.lt value min || f.lt max value
      then err (out_of_range field (f.show value) range)
      else ok tt

  unfoldable pub given : String → F → F → String → Option F → Result ProfileError (Unit {0})
  unfolding validate_finite_range
  given field min max range none = ok tt
  given field min max range (some value) = validate_finite_range field value min max range

  unfoldable pub check_stall : ResolvedNodePmc F → Result ProfileError (Unit {0})
  check_stall resolved =
      if f.lt resolved.stall_pct_critical resolved.stall_pct_warning
      then err (
          threshold_order "overrides.node_pmc.stall_pct" (f.show resolved.stall_pct_warning)
            (f.show resolved.stall_pct_critical))
      else ok tt

  unfoldable pub apply_node_pmc :
      NodePmcOverride F → ResolvedNodePmc F → Result ProfileError (ResolvedNodePmc F)
  unfolding given check_stall
  apply_node_pmc input resolved = do
    given "overrides.node_pmc.stall_pct.warning" (f.of_ℕ 0) (f.of_ℕ 100) "0.0..=100.0"
        input.stall_pct.warning
    given "overrides.node_pmc.stall_pct.critical" (f.of_ℕ 0) (f.of_ℕ 100) "0.0..=100.0"
        input.stall_pct.critical
    let stalls : ResolvedNodePmc F = record resolved {
      enabled = unwrap_or input.enabled resolved.enabled;
      stall_pct_warning = unwrap_or input.stall_pct.warning resolved.stall_pct_warning;
      stall_pct_critical = unwrap_or input.stall_pct.critical resolved.stall_pct_critical;
    }
    check_stall stalls
    given "overrides.node_pmc.ipc_degradation" (f.of_ℕ 0) (f.of_ℕ 16) "0.0..=16.0"
        input.ipc_degradation
    ok (record stalls {
      ipc_degradation = unwrap_or input.ipc_degradation resolved.ipc_degradation;
    })

  unfoldable pub find_base : Option String → BuiltinSet F → Result ProfileError (ResolvedProfile F)
  find_base none builtins = err (missing_base "base")
  find_base (some name) builtins =
      if not (valid_profile_name name)
      then err (invalid_profile_name "base" name)
      else elim (lookup name builtins.profiles) [
        | some base ↦ ok base
        | none ↦ err (unknown_base "base" name (keys builtins.profiles))
      ]

  unfoldable pub validate :
      EvidenceProfile F → BuiltinSet F → Result ProfileError (ValidatedProfile F)
  validate profile builtins = do
    validate_envelope profile
    base ← find_base profile.base builtins
    network ← apply_network profile.overrides.network base.network
    storage ← apply_storage profile.overrides.storage base.storage
    container ← apply_container profile.overrides.container base.container
    node_pmc ← apply_node_pmc profile.overrides.node_pmc base.node_pmc
    ok (record {
      resolved = record {
        network = network;
        storage = storage;
        container = container;
        node_pmc = node_pmc;
      };
    })

  unfoldable pub production_default : ResolvedProfile F
  production_default = record {
    network = record {
      enabled = true;
      rtt_spike_ratio = 2;
      rtt_spike_abs_ms = 500;
      rtt_min_baseline_samples = 5;
      conn_refused_window_ns = 0;
      conn_refused_min_count = 0;
    };
    storage = record { enabled = true; slow_io_warning_ms = 50; slow_io_critical_ms = 200 };
    container = record { enabled = true; ignore_exit_codes = [] };
    node_pmc = record {
      enabled = true;
      stall_pct_warning = f.of_ℕ 20;
      stall_pct_critical = f.of_ℕ 40;
      ipc_degradation = f.of_ℕ 1;
    };
  }

  -- `BuiltinSet::v0`.
  unfoldable pub v0 : BuiltinSet F
  unfolding production_default
  v0 = record { profiles = (production_default_name, production_default) ∷ [] }
