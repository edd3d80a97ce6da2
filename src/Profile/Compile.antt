-- ===== src/Profile/Compile.antt =====
-- `compile` of tapio-profile/src/lib.rs.
use tapio.Prelude.{◌*◌, map, u32, u64}
use tapio.Prelude.Int.{pos}
use tapio.Profile.Floats.{FloatOps}
use tapio.Profile.Types.{ValidatedProfile}
use tapio.Wire.Types.{CompiledConfig}

module _ {F : Type 0} ⦃f : FloatOps F⦄ where
  unfoldable pub compile : ValidatedProfile F → CompiledConfig
  compile profile = record {
    network = record {
      enabled = resolved.network.enabled;
      rtt_spike_ratio = resolved.network.rtt_spike_ratio;
      rtt_spike_abs_us = u32 (resolved.network.rtt_spike_abs_ms * 1_000);
      rtt_min_baseline_samples = resolved.network.rtt_min_baseline_samples;
      conn_refused_window_ns = resolved.network.conn_refused_window_ns;
      conn_refused_min_count = resolved.network.conn_refused_min_count;
    };
    storage = record {
      enabled = resolved.storage.enabled;
      slow_io_warning_ns = u64 (resolved.storage.slow_io_warning_ms * 1_000_000);
      slow_io_critical_ns = u64 (resolved.storage.slow_io_critical_ms * 1_000_000);
    };
    container = record {
      enabled = resolved.container.enabled;
      ignore_exit_codes = map pos resolved.container.ignore_exit_codes;
    };
    node_pmc = record {
      enabled = resolved.node_pmc.enabled;
      stall_warning_permille =
          f.as_u32 (f.round (f.mul resolved.node_pmc.stall_pct_warning (f.of_ℕ 10)));
      stall_critical_permille =
          f.as_u32 (f.round (f.mul resolved.node_pmc.stall_pct_critical (f.of_ℕ 10)));
      ipc_degradation_milli =
          f.as_u32 (f.round (f.mul resolved.node_pmc.ipc_degradation (f.of_ℕ 1000)));
    };
  }
    where
      open profile use {resolved}
