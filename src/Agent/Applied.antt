-- ===== src/Agent/Applied.antt =====
-- What the kernel programs read of a profile: the way from a validated document through `compile` of
-- tapio-profile/src/lib.rs to `tapio_config_from_compiled` of tapio-agent/src/config.rs.
use Prim.Native.Nat.{min}
use tapio.Prelude.{
  map, ℕ, zero, suc, ◌*◌, ◌≤◌, ◌<◌, ◌≡◌, ◌^◌, refl, List, [], ◌∷◌, ok, length, arith, ap, ◌∙◌, u32,
}
use tapio.Prelude.Int.{ℤ, pos}
use tapio.Prelude.Decimal.{to_string}
use tapio.Prelude.Parse.{parse_u32-to_string}
use tapio.Profile.Floats.{FloatOps, FloatLaws}
use tapio.Profile.Types.{EvidenceProfile, ValidatedProfile, ResolvedProfile}
use tapio.Profile.Validate.{validate, v0}
use tapio.Profile.Compile.{compile}
use tapio.Profile.Compiled.{compile_validated-WireInRange, compile_exact}
use tapio.Wire.Types.{CompiledConfig}
use tapio.Agent.Config.{
  TapioConfig, carried, tapio_config_from_compiled, observer_enabled, tapio_f_network,
  tapio_f_storage, tapio_f_container, tapio_f_node_pmc, fill_slots,
}

-- The first slots, as many as the count says.
abbrev pub slots : ℕ → List ℤ → List ℤ
slots zero codes = []
slots (suc n) [] = []
slots (suc n) (code ∷ codes) = code ∷ slots n codes

fill_slots-codes :
    (n : ℕ) (codes : List ℤ) → length codes ≤ n → slots (length codes) (fill_slots n codes) ≡ codes
fill_slots-codes zero [] h = refl
fill_slots-codes (suc n) [] h = refl
fill_slots-codes zero (c ∷ codes) h = ground arith
fill_slots-codes (suc n) (c ∷ codes) h = ground (arith, fill_slots-codes n codes)

-- What a kernel configuration says of the evidence that a validated profile asks for.
pub record Carries {F : Type 0} (r : ResolvedProfile F) (generation : ℕ) (t : TapioConfig)
    : Type 0 where
  pub generation_is : t.generation ≡ generation
  pub network : observer_enabled t tapio_f_network ≡ r.network.enabled
  pub storage : observer_enabled t tapio_f_storage ≡ r.storage.enabled
  pub container : observer_enabled t tapio_f_container ≡ r.container.enabled
  pub node_pmc : observer_enabled t tapio_f_node_pmc ≡ r.node_pmc.enabled
  pub codes : slots t.ignore_exit_count t.ignore_exit_codes ≡ map pos r.container.ignore_exit_codes
  pub warning : t.slow_io_threshold_ns ≡ r.storage.slow_io_warning_ms * 1_000_000
  pub critical : t.io_latency_critical_ns ≡ r.storage.slow_io_critical_ms * 1_000_000
  pub ratio : t.rtt_spike_multiplier ≡ r.network.rtt_spike_ratio
  pub abs : t.rtt_spike_abs_us ≡ r.network.rtt_spike_abs_ms * 1000

slots-carried :
    (c : CompiledConfig) (generation : ℕ)
    → length c.container.ignore_exit_codes ≤ 16
    → let t = carried c generation in
      slots t.ignore_exit_count t.ignore_exit_codes ≡ c.container.ignore_exit_codes
unfolding carried
slots-carried c generation h =
    let count : u32 (min (length c.container.ignore_exit_codes) 16)
        ≡ length c.container.ignore_exit_codes =
      omega arith in
    ap (λ n. slots n (fill_slots 16 c.container.ignore_exit_codes)) count
    ∙ fill_slots-codes 16 c.container.ignore_exit_codes h

-- Each switch has a bit of its own.
switched :
    (c : CompiledConfig) (generation : ℕ)
    → let t = carried c generation in
      (observer_enabled t tapio_f_network ≡ c.network.enabled)
      × (observer_enabled t tapio_f_storage ≡ c.storage.enabled)
      × (observer_enabled t tapio_f_container ≡ c.container.enabled)
      × (observer_enabled t tapio_f_node_pmc ≡ c.node_pmc.enabled)
unfolding carried observer_enabled
switched c generation = (ground arith, ground arith, ground arith, ground arith)

from_compiled-carried :
    (c : CompiledConfig) (generation : ℕ)
    → generation < 2 ^ 32
    → tapio_config_from_compiled c (to_string generation) ≡ ok (carried c generation)
unfolding tapio_config_from_compiled
from_compiled-carried c generation h = ground (arith, parse_u32-to_string generation h)

module _ {F : Type 0} ⦃f : FloatOps F⦄ (laws : FloatLaws f) where
  -- For floats that meet the laws, a profile that validates reaches the kernel: under any u32
  -- generation the agent applies what was compiled from it, with each observer switched as the
  -- validated profile says, exactly its exit codes in the slots that count, its ratio of round-
  -- trip times, and its thresholds in nanoseconds and microseconds.
  pub tapio_config_from_compiled-Carries :
      (profile : EvidenceProfile F) (v : ValidatedProfile F) (generation : ℕ)
      → validate profile v0 ≡ ok v
      → generation < 2 ^ 32
      → (t : TapioConfig) × (tapio_config_from_compiled (compile v) (to_string generation) ≡ ok t)
        × Carries v.resolved generation t
  unfolding compile carried
  tapio_config_from_compiled-Carries profile v generation h g =
      let w = compile_validated-WireInRange laws profile v h in
      let (us, warning, critical) = compile_exact laws profile v h in
      let (network, storage, container, node_pmc) = switched (compile v) generation in
      (
        carried (compile v) generation,
        from_compiled-carried (compile v) generation g,
        record {
          generation_is = refl;
          network = network;
          storage = storage;
          container = container;
          node_pmc = node_pmc;
          codes = slots-carried (compile v) generation w.codes;
          warning = warning;
          critical = critical;
          ratio = refl;
          abs = us;
        },
      )
