-- ===== src/Profile/Compiled.antt =====
-- What `compile` of tapio-profile/src/lib.rs makes of a profile that `validate` accepted.
use tapio.Prelude.{ℕ, ◌*◌, ◌≤◌, ◌<◌, ◌≡◌, refl, true, List, [], ◌∷◌, ok, length, arith, map, ◌^◌}
use tapio.Prelude.Int.{pos}
use tapio.Profile.Floats.{FloatOps, FloatLaws}
use tapio.Profile.Types.{EvidenceProfile, ValidatedProfile}
use tapio.Profile.Validate.{validate, v0}
use tapio.Profile.Compile.{compile}
use tapio.Profile.Ranges.{InRange, Between, validate-v0-InRange}
use tapio.Wire.Types.{CompiledConfig}

-- The limits of a configuration on the wire.
pub record WireInRange (c : CompiledConfig) : Type 0 where
  pub ratio : (1 ≤ c.network.rtt_spike_ratio) × (c.network.rtt_spike_ratio ≤ 100)
  pub abs : (1000 ≤ c.network.rtt_spike_abs_us) × (c.network.rtt_spike_abs_us ≤ 600_000_000)
  pub warning :
      (1_000_000 ≤ c.storage.slow_io_warning_ns) × (c.storage.slow_io_warning_ns ≤ 60_000_000_000)
  pub critical : c.storage.slow_io_critical_ns ≤ 600_000_000_000
  pub storage_ordered : c.storage.slow_io_warning_ns ≤ c.storage.slow_io_critical_ns
  pub codes : length c.container.ignore_exit_codes ≤ 16
  pub stall_ordered : c.node_pmc.stall_warning_permille ≤ c.node_pmc.stall_critical_permille
  pub stall_max : c.node_pmc.stall_critical_permille ≤ 1000
  pub ipc_max : c.node_pmc.ipc_degradation_milli ≤ 16000

length-map {ℓ κ} :
    {A : Type ℓ} {B : Type κ} (g : A → B) (xs : List A) → length (map g xs) ≡ length xs
length-map g [] = refl
length-map g (x ∷ xs) = omega (arith, length-map g xs)

module _ {F : Type 0} ⦃f : FloatOps F⦄ (laws : FloatLaws f) where
  scaled_mono :
      (a b : F) (k : ℕ)
      → 0 < k
      → k < 2 ^ 53
      → f.le a b ≡ true
      → f.as_u32 (f.round (f.mul a (f.of_ℕ k))) ≤ f.as_u32 (f.round (f.mul b (f.of_ℕ k)))
  scaled_mono a b k p q h = laws.as_u32_mono _ _ (laws.round_mono _ _ (laws.mul_mono a b k p q h))

  scaled_literal :
      (n k : ℕ) → n * k < 2 ^ 32 → f.as_u32 (f.round (f.mul (f.of_ℕ n) (f.of_ℕ k))) ≡ n * k
  scaled_literal n k h =
      rw (laws.mul-of_ℕ n k (omega arith), laws.round-of_ℕ (n * k) (omega arith))
        (laws.as_u32-of_ℕ (n * k) h)

  scaled_le :
      (bound k : ℕ) (x : F)
      → Between bound x
      → bound < 2 ^ 53
      → 0 < k
      → k < 2 ^ 53
      → bound * k < 2 ^ 32
      → f.as_u32 (f.round (f.mul x (f.of_ℕ k))) ≤ bound * k
  scaled_le bound k x b hb p q h = omega (
    arith,
    scaled_literal bound k h,
    scaled_mono x (f.of_ℕ bound) k p q
        (laws.le_of_not_lt x (f.of_ℕ bound) b.finite (laws.finite-of_ℕ bound hb) b.high),
  )

  compile-WireInRange : (v : ValidatedProfile F) → InRange v.resolved → WireInRange (compile v)
  unfolding compile
  compile-WireInRange v r = record {
    ratio = omega arith;
    abs = omega arith;
    warning = omega arith;
    critical = omega arith;
    storage_ordered = omega arith;
    codes = omega (arith, length-map pos v.resolved.container.ignore_exit_codes, r.container.few);
    stall_ordered = scaled_mono _ _ 10 (omega arith) (omega arith) (
        laws.le_of_not_lt _ _ r.node_pmc.warning.finite r.node_pmc.critical.finite
          r.node_pmc.ordered);
    stall_max =
        scaled_le 100 10 _ r.node_pmc.critical (omega arith) (omega arith) (omega arith)
          (omega arith);
    ipc_max =
        scaled_le 16 1000 _ r.node_pmc.ipc (omega arith) (omega arith) (omega arith) (omega arith);
  }

  -- For floats that meet the laws, the configuration compiled from a document that validates
  -- against the builtin profiles is within the limits of the wire: each threshold in its range,
  -- each warning at most its critical value, at most sixteen exit codes, and the scaled
  -- percentages at most 1000 and 16000.
  pub compile_validated-WireInRange :
      (profile : EvidenceProfile F) (v : ValidatedProfile F)
      → validate profile v0 ≡ ok v
      → WireInRange (compile v)
  compile_validated-WireInRange profile v h =
      compile-WireInRange v (validate-v0-InRange laws profile v h)

  -- For floats that meet the laws, the unit conversions of `compile` lose nothing on a validated
  -- profile: microseconds are exactly a thousand to the millisecond, and nanoseconds a million.
  pub compile_exact :
      (profile : EvidenceProfile F) (v : ValidatedProfile F)
      → validate profile v0 ≡ ok v
      → ((compile v).network.rtt_spike_abs_us ≡ v.resolved.network.rtt_spike_abs_ms * 1000)
        × ((compile v).storage.slow_io_warning_ns
            ≡ v.resolved.storage.slow_io_warning_ms * 1_000_000)
        × ((compile v).storage.slow_io_critical_ns
            ≡ v.resolved.storage.slow_io_critical_ms * 1_000_000)
  unfolding compile
  compile_exact profile v h =
      let r = validate-v0-InRange laws profile v h in
      (
        omega (arith, r.network.abs_max),
        omega (arith, r.storage.warning_max, r.storage.ordered, r.storage.critical_max),
        omega (arith, r.storage.critical_max),
      )
