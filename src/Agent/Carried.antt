-- ===== src/Agent/Carried.antt =====
-- Which configuration the kernel's maps hold: the current one when the calls run one after the other,
-- and an older one when an update runs inside a registration.
use mathlib.Core.Path.{subst}
use tapio.Prelude.{
  ℕ, Bool, true, not, List, [], ◌∷◌, ◌++◌, none, some, ◌≡◌, refl, All, keep, map, arith,
}
use tapio.Agent.Config.{TapioConfig}
use tapio.Agent.Carriers.{
  ConfigCarrier, ConfigCarrierState, Maps, World, no_carriers, push_carrier, set_current,
  bpf_map_update, late_apply, register, fan_out, update_all, Call, registers, updates, call, calls,
  Threads, register_locks, register_writes, update_locks, update_writes, update_ends, Reach, here,
  step,
}

module _ (accepts : ℕ → TapioConfig → Bool) where
  -- Every carrier whose map takes the configuration has it.
  abbrev pub Holds : TapioConfig → Maps → List ConfigCarrier → Type 0
  Holds config maps carriers =
      All (λ c. accepts c.map_fd config ≡ true → maps c.map_fd ≡ some config) carriers

  abbrev pub Synced : World → Type 0
  Synced world =
      (config : TapioConfig)
      → world.state.current ≡ some config
      → Holds config world.maps world.state.carriers

  update-keeps :
      (config : TapioConfig) (written fd : ℕ) (maps : Maps)
      → maps fd ≡ some config
      → bpf_map_update accepts written config maps fd ≡ some config
  unfolding bpf_map_update
  update-keeps config written fd maps h = ground arith

  update-writes :
      (config : TapioConfig) (fd : ℕ) (maps : Maps)
      → accepts fd config ≡ true
      → bpf_map_update accepts fd config maps fd ≡ some config
  unfolding bpf_map_update
  update-writes config fd maps h = ground arith

  fan_out-keeps :
      (config : TapioConfig) (carriers : List ConfigCarrier) (fd : ℕ) (maps : Maps)
      → maps fd ≡ some config
      → (fan_out accepts config carriers maps).0 fd ≡ some config
  unfolding fan_out
  fan_out-keeps config [] fd maps h = h
  fan_out-keeps config (c ∷ cs) fd maps h =
      fan_out-keeps config cs fd (bpf_map_update accepts c.map_fd config maps)
        (update-keeps config c.map_fd fd maps h)

  fan_out-Holds :
      (config : TapioConfig) (carriers : List ConfigCarrier) (maps : Maps)
      → Holds config (fan_out accepts config carriers maps).0 carriers
  unfolding fan_out
  fan_out-Holds config [] maps = tt
  fan_out-Holds config (c ∷ cs) maps = (
    λ h.
        fan_out-keeps config cs c.map_fd (bpf_map_update accepts c.map_fd config maps)
          (update-writes config c.map_fd maps h),
    fan_out-Holds config cs (bpf_map_update accepts c.map_fd config maps),
  )

  fan_out-failed :
      (config : TapioConfig) (carriers : List ConfigCarrier) (maps : Maps)
      → (fan_out accepts config carriers maps).1
        ≡ map
            (λ (c : ConfigCarrier). c.observer)
            (keep (λ (c : ConfigCarrier). not (accepts c.map_fd config)) carriers)
  unfolding fan_out
  fan_out-failed config [] maps = refl
  fan_out-failed config (c ∷ cs) maps =
      ground (arith, fan_out-failed config cs (bpf_map_update accepts c.map_fd config maps))

  -- An update reaches every carrier whose map takes it, and names the observers of the others.
  pub update_all-Holds :
      (config : TapioConfig) (world : World)
      → let out = update_all accepts config world in
        Holds config out.0.maps world.state.carriers
        × (out.1
            ≡ map
                (λ (c : ConfigCarrier). c.observer)
                (keep (λ (c : ConfigCarrier). not (accepts c.map_fd config)) world.state.carriers))
  unfolding update_all
  update_all-Holds config world = (
    fan_out-Holds config world.state.carriers world.maps,
    fan_out-failed config world.state.carriers world.maps,
  )

  Holds-register :
      (config : TapioConfig) (carrier : ConfigCarrier) (carriers : List ConfigCarrier) (maps : Maps)
      → Holds config maps carriers
      → Holds config (bpf_map_update accepts carrier.map_fd config maps) (carriers ++ carrier ∷ [])
  Holds-register config carrier [] maps h = (λ a. update-writes config carrier.map_fd maps a, tt)
  Holds-register config carrier (c ∷ cs) maps (h, hs) = (
    λ a. update-keeps config carrier.map_fd c.map_fd maps (h a),
    Holds-register config carrier cs maps hs,
  )

  call-Synced : (c : Call accepts) (world : World) → Synced world → Synced (call accepts c world)
  unfolding call register update_all push_carrier set_current late_apply
  call-Synced (registers carrier) world h config is_current =
      rw is_current
        (Holds-register config carrier world.state.carriers world.maps (h config is_current))
  call-Synced (updates config) world h other is_current =
      let same : config ≡ other = cc in
      subst
        (λ (c : TapioConfig).
          Holds c (fan_out accepts config world.state.carriers world.maps).0 world.state.carriers)
        same (fan_out-Holds config world.state.carriers world.maps)

  -- However registrations and updates of the carriers follow each other, if before them every
  -- carrier's map that takes the current configuration holds it, then so it is after them.
  pub calls-Synced :
      (cs : List (Call accepts)) (world : World) → Synced world → Synced (calls accepts cs world)
  unfolding calls
  calls-Synced [] world h = h
  calls-Synced (c ∷ cs) world h = calls-Synced cs (call accepts c world) (call-Synced c world h)

  abbrev pub idle : World → Threads accepts
  idle world = record { world = world; late = none; fanning = none }

  -- From a current configuration and no carriers, an update that runs between the critical section
  -- of a registration and its write reaches a state where nothing is left to write, the new
  -- configuration is the current one, and the map of the new carrier, if it takes the old one,
  -- holds the old one.
  pub late-register-stale :
      (carrier : ConfigCarrier) (old new : TapioConfig) (maps : Maps)
      → accepts carrier.map_fd old ≡ true
      → (after : World) × Reach accepts
          (idle (record { state = set_current old no_carriers; maps = maps }))
          (idle after)
        × (after.state.current ≡ some new)
        × (after.maps carrier.map_fd ≡ some old)
  unfolding set_current push_carrier bpf_map_update
  late-register-stale carrier old new maps h =
      let before : ConfigCarrierState = set_current old no_carriers in
      let pushed = push_carrier carrier before in
      let updated = set_current new pushed in
      let fanned = bpf_map_update accepts carrier.map_fd new maps in
      let stale = bpf_map_update accepts carrier.map_fd old fanned in
      let t0 : Threads accepts = idle (record { state = before; maps = maps }) in
      let t1 : Threads accepts = record {
        world = record { state = pushed; maps = maps };
        late = some (carrier.map_fd, old);
        fanning = none;
      } in
      let t2 : Threads accepts = record {
        world = record { state = updated; maps = maps };
        late = some (carrier.map_fd, old);
        fanning = some (new, carrier ∷ []);
      } in
      let t3 : Threads accepts = record {
        world = record { state = updated; maps = fanned };
        late = some (carrier.map_fd, old);
        fanning = some (new, []);
      } in
      let t4 : Threads accepts = record {
        world = record { state = updated; maps = fanned };
        late = some (carrier.map_fd, old);
        fanning = none;
      } in
      let t5 : Threads accepts = idle (record { state = updated; maps = stale }) in
      (
        record { state = updated; maps = stale },
        step t0 t1 t5 (register_locks t0 carrier old refl refl) (
            step t1 t2 t5 (update_locks t1 new refl) (
              step t2 t3 t5 (update_writes t2 new carrier [] refl) (
                step t3 t4 t5 (update_ends t3 new refl)
                  (step t4 t5 t5 (register_writes t4 carrier.map_fd old refl) (here t5))))),
        refl,
        update-writes old carrier.map_fd fanned h,
      )
