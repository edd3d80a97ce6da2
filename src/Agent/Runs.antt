-- ===== src/Agent/Runs.antt =====
-- A carrier, a polling agent and a registration: the theorems on the loops at work.
use tapio.Prelude.Decimal.{to_string}
use tapio.Prelude.Parse.{parse_u32}
use tapio.Prelude.Text.{is_blank, trim, trim_start, is_whitespace}
use tapio.Agent.Config.{tapio_config_from_compiled}
use Prim.Native.String.{◌++◌}
use tapio.Prelude.{
  ℕ, String, Bool, true, List, [], ◌∷◌, Option, none, some, Result, ok, err, ◌≡◌, refl, arith, map,
}
use tapio.Prelude.Text.{codes}
use tapio.Prelude.Split.{split, split_once}
use tapio.Wire.Types.{ConfigResponse}
use tapio.Wire.Validate
use tapio.Agent.Config.{TapioConfig, carried}
use tapio.Agent.Carriers.{
  ConfigCarrier, Maps, World, no_carriers, set_current, registers, updates, calls, Reach,
}
use tapio.Agent.Carried.{Synced, Holds, idle, calls-Synced, late-register-stale}
use tapio.Agent.Heartbeat.{initial}
use tapio.Agent.Sink.{HttpResponse}
use tapio.Agent.Poll.{
  Polling, FetchError, poll_tick, accept_body, url_component, config_query, trim_end_slashes,
}
use tapio.Agent.Polled.{
  Consistent, Counts, poll_tick-Consistent, poll_tick-applied, poll_tick-kept, config_query-pairs,
}
use tapio.Agent.Register.{
  Registration, start, greets, wakes, after_hello, after_sleep, here, step, greeting, sleeping,
}
use tapio.Agent.Registered.{IsBounded, Reach-IsBounded}

abbrev first_config : TapioConfig
first_config = record {
  abi_version = 2;
  generation = 1;
  flags = 15;
  slow_io_threshold_ns = 50_000_000;
  io_latency_critical_ns = 200_000_000;
  conn_refused_window_ns = 0;
  conn_refused_min_count = 0;
  rtt_spike_multiplier = 2;
  rtt_spike_abs_us = 500_000;
  rtt_min_baseline_samples = 5;
  ignore_exit_count = 0;
  ignore_exit_codes = [];
  pad = 0;
}

abbrev second_config : TapioConfig
second_config = record first_config { generation = 2 }

abbrev takes_all : ℕ → TapioConfig → Bool
takes_all fd config = true

abbrev storage_carrier : ConfigCarrier
storage_carrier = record { observer = "storage"; map_fd = 7 }

abbrev no_maps : Maps
no_maps fd = none

abbrev empty_world : World
empty_world = record { state = no_carriers; maps = no_maps }

empty-Synced : Synced takes_all empty_world
empty-Synced config h = tt

calls-Synced_example : Synced takes_all (
    calls takes_all
      (updates first_config ∷ registers storage_carrier ∷ updates second_config ∷ [])
      empty_world)
calls-Synced_example =
    calls-Synced takes_all
      (updates first_config ∷ registers storage_carrier ∷ updates second_config ∷ []) empty_world
      empty-Synced

late-register-stale_example :
    (after : World) × Reach takes_all
      (idle takes_all (record { state = set_current first_config no_carriers; maps = no_maps }))
      (idle takes_all after)
    × (after.state.current ≡ some second_config)
    × (after.maps 7 ≡ some first_config)
late-register-stale_example =
    late-register-stale takes_all storage_carrier first_config second_config no_maps refl

abbrev quoted : String → String
quoted s = "\"" ++ (s ++ "\"")

abbrev default_config : ConfigResponse
default_config = record Validate.default_v1 { config_hash = "sha256:0a" }

abbrev reads_default : List ℕ → Result String ConfigResponse
reads_default body = ok default_config

abbrev polling : Polling
polling = record {
  etag = none;
  active_config = none;
  state = initial "0";
  world = empty_world;
  applied_total = 0;
  not_modified_total = 0;
  rejected_total = 0;
  error_total = 0;
}

abbrev answers : ℕ → Option String → Result String HttpResponse
answers status etag = ok (record { status = status; body = [] })

poll_tick-Consistent_example :
    let q = poll_tick quoted takes_all reads_default true (answers 200) polling in
    Consistent q × Counts polling q
poll_tick-Consistent_example =
    poll_tick-Consistent quoted takes_all reads_default true (answers 200) polling refl

accepted_default :
    accept_body quoted (reads_default []) ≡ ok (default_config, 1, carried default_config.config 1)
unfolding accept_body parse_u32 Validate.default_v1 Validate.config_response
    Validate.validate_wire_version Validate.required is_blank trim trim_start is_whitespace
    Validate.bounded_nonzero tapio_config_from_compiled
accepted_default = refl

poll_tick-applied_example :
    let q = poll_tick quoted takes_all reads_default true (answers 200) polling in
    (q.active_config
      ≡ some (record {
        version = "1";
        hash = "sha256:0a";
        flags = (carried default_config.config 1).flags;
      }))
    × Holds takes_all (carried default_config.config 1) q.world.maps polling.world.state.carriers
    × (q.world.state.current ≡ some (carried default_config.config 1))
unfolding to_string
poll_tick-applied_example =
    poll_tick-applied quoted takes_all reads_default (answers 200) polling
      (record { status = 200; body = [] }) default_config 1 (carried default_config.config 1) refl
      refl accepted_default

fails_at_500 :
    (response : HttpResponse)
    → answers 500 polling.etag ≡ ok response
    → response.status ≡ 200
    → (e : FetchError) × (accept_body quoted (reads_default response.body) ≡ err e)
fails_at_500 response h k = ground arith

poll_tick-kept_example :
    let q = poll_tick quoted takes_all reads_default true (answers 500) polling in
    (q.world ≡ polling.world)
    × (q.etag ≡ polling.etag)
    × (q.active_config ≡ polling.active_config)
    × (q.state ≡ polling.state)
poll_tick-kept_example =
    poll_tick-kept quoted takes_all reads_default true (answers 500) polling fails_at_500

encoded : url_component (codes "node/worker-1") ≡ codes "node%2Fworker-1"
unfolding url_component
encoded = refl

trimmed : trim_end_slashes (codes "http://c:8080//") ≡ codes "http://c:8080"
unfolding trim_end_slashes
trimmed = refl

config_query-pairs_example :
    map (split_once b'=') (split b'&' (config_query (codes "node/a&b") (codes "a=b")))
    ≡ some (codes "agent_id", url_component (codes "node/a&b"))
      ∷ some (codes "node_name", url_component (codes "a=b"))
      ∷ []
config_query-pairs_example = config_query-pairs (codes "node/a&b") (codes "a=b") refl refl

abbrev begun : Registration
begun = start (initial "0")

IsBounded-begun : IsBounded begun
unfolding start initial
IsBounded-begun = record {
  waits = omega arith;
  at_most = omega arith;
  interval = omega arith;
  batch = omega arith;
}

abbrev refused : Registration
refused = after_hello (err "connect: refused") begun

greeting_begun : begun.phase ≡ greeting
unfolding start
greeting_begun = refl

sleeping_refused : refused.phase ≡ sleeping
unfolding after_hello
sleeping_refused = refl

Reach-IsBounded_example : IsBounded (after_sleep refused)
Reach-IsBounded_example =
    Reach-IsBounded begun (after_sleep refused)
      (step begun refused (after_sleep refused)
        (greets begun (err "connect: refused") greeting_begun)
        (step refused (after_sleep refused) (after_sleep refused) (wakes refused sleeping_refused)
          (here (after_sleep refused))))
      IsBounded-begun
