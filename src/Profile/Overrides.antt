-- ===== src/Profile/Overrides.antt =====
-- Which overrides `validate` of tapio-profile/src/lib.rs accepts, and what an absent one means.
use tapio.Prelude.{ℕ, String, ◌≤◌, ◌≡◌, ◌↔◌, true, Option, none, some, ok, arith, unwrap_or, is_ok}
use tapio.Prelude.Maps.{lookup}
use tapio.Profile.Floats.{FloatOps}
use tapio.Profile.Names.{valid_profile_name}
use tapio.Profile.Types.{
  api_version, kind, max_warning_ms, max_critical_ms, StorageOverride, ResolvedStorage,
  ResolvedProfile, BuiltinSet, EvidenceProfile,
}
use tapio.Profile.Validate.{
  validate, validate_envelope, find_base, apply_network, apply_storage, apply_container,
  apply_codes, apply_node_pmc,
}
use tapio.Profile.Ranges.{InRange}

-- A number given lies between the bounds.
abbrev pub Within : ℕ → ℕ → Option ℕ → Type 0
Within lo hi none = Unit {0}
Within lo hi (some n) = (lo ≤ n) × (n ≤ hi)

-- A storage override is accepted exactly when the thresholds that it gives are in their ranges and,
-- with the base's value for one that it does not give, the critical one is at least the warning one.
pub apply_storage_iff :
    (input : StorageOverride) (base : ResolvedStorage)
    → (is_ok (apply_storage input base) ≡ true) ↔ (
        Within 1 max_warning_ms input.slow_io.warning_ms
        × Within 1 max_critical_ms input.slow_io.critical_ms
        × (unwrap_or input.slow_io.warning_ms base.slow_io_warning_ms
            ≤ unwrap_or input.slow_io.critical_ms base.slow_io_critical_ms))
unfolding apply_storage
apply_storage_iff input base = (λ h. ground arith, λ h. ground arith)

module _ {F : Type 0} ⦃f : FloatOps F⦄ where
  -- A document without overrides.
  abbrev pub plain : String → EvidenceProfile F
  plain name = record {
    api_version = some api_version;
    kind = some kind;
    base = some name;
    overrides = record {
      network = record { enabled = none; rtt_spike = record { ratio = none; abs_ms = none } };
      storage = record {
        enabled = none;
        slow_io = record { warning_ms = none; critical_ms = none };
      };
      container = record { enabled = none; ignore_exit_codes = none };
      node_pmc = record {
        enabled = none;
        stall_pct = record { warning = none; critical = none };
        ipc_degradation = none;
      };
    };
  }

  -- A document without overrides validates to its base unchanged, for a base in range.
  pub validate-plain :
      (name : String) (builtins : BuiltinSet F) (base : ResolvedProfile F)
      → valid_profile_name name ≡ true
      → lookup name builtins.profiles ≡ some base
      → InRange base
      → validate (plain name) builtins ≡ ok (record { resolved = base })
  unfolding validate validate_envelope find_base apply_network apply_storage apply_container
      apply_codes apply_node_pmc
  validate-plain name builtins base n l r = rw (n, l) (ground arith)
