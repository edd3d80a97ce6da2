-- ===== src/Agent/Carriers.antt =====
-- `ConfigCarriers` of tapio-agent/src/observer/mod.rs: the kernel maps that carry the configuration. A
-- map is known by its descriptor; what the kernel answers to an update is a parameter. The lock is
-- released before the kernel's maps are written, so an operation is two steps or more.
use tapio.Prelude.{
  ℕ, String, Bool, List, [], ◌∷◌, ◌++◌, Option, none, some, ◌==◌, if◌then◌else◌, ◌≡◌,
}
use tapio.Agent.Config.{TapioConfig}

pub record ConfigCarrier : Type 0 where
  pub observer : String
  pub map_fd : ℕ

pub record ConfigCarrierState : Type 0 where
  pub carriers : List ConfigCarrier
  pub current : Option TapioConfig

-- The configuration in each of the kernel's maps.
abbrev pub Maps : Type 0
Maps = ℕ → Option TapioConfig

pub record World : Type 0 where
  pub state : ConfigCarrierState
  pub maps : Maps

abbrev pub no_carriers : ConfigCarrierState
no_carriers = record { carriers = []; current = none }

-- The two critical sections.
unfoldable pub push_carrier : ConfigCarrier → ConfigCarrierState → ConfigCarrierState
push_carrier carrier state = record state { carriers = state.carriers ++ carrier ∷ [] }

unfoldable pub set_current : TapioConfig → ConfigCarrierState → ConfigCarrierState
set_current config state = record state { current = some config }

module _ (accepts : ℕ → TapioConfig → Bool) where
  -- `bpf_map_update_tapio_config`: the maps after it.
  unfoldable pub bpf_map_update : ℕ → TapioConfig → Maps → Maps
  bpf_map_update map_fd config maps fd =
      if accepts map_fd config then (if fd == map_fd then some config else maps fd) else maps fd

  -- The write after the lock of `register`.
  unfoldable pub late_apply : ℕ → Option TapioConfig → Maps → Maps
  unfolding bpf_map_update
  late_apply map_fd none maps = maps
  late_apply map_fd (some config) maps = bpf_map_update map_fd config maps

  unfoldable pub register : ConfigCarrier → World → World
  unfolding push_carrier late_apply
  register carrier world = record {
    state = push_carrier carrier world.state;
    maps = late_apply carrier.map_fd world.state.current world.maps;
  }

  -- The loop of `update_all`: the maps, and the observers whose map refused.
  unfoldable pub fan_out : TapioConfig → List ConfigCarrier → Maps → Maps × List String
  unfolding bpf_map_update
  fan_out config [] maps = (maps, [])
  fan_out config (carrier ∷ carriers) maps =
      let (after, failed) = fan_out config carriers (bpf_map_update carrier.map_fd config maps) in
      (after, if accepts carrier.map_fd config then failed else carrier.observer ∷ failed)

  unfoldable pub update_all : TapioConfig → World → World × List String
  unfolding set_current fan_out
  update_all config world =
      let (maps, failed) = fan_out config world.state.carriers world.maps in
      (record { state = set_current config world.state; maps = maps }, failed)

  -- A call, run without another call between its steps.
  pub data Call : Type 0 where
    registers : ConfigCarrier → Call
    updates : TapioConfig → Call

  unfoldable pub call : Call → World → World
  unfolding register update_all
  call (registers carrier) world = register carrier world
  call (updates config) world = (update_all config world).0

  unfoldable pub calls : List Call → World → World
  unfolding call
  calls [] world = world
  calls (c ∷ cs) world = calls cs (call c world)

  -- What a thread has yet to write after its critical section.
  pub record Threads : Type 0 where
    pub world : World
    pub late : Option (ℕ × TapioConfig)
    pub fanning : Option (TapioConfig × List ConfigCarrier)

  -- The steps of a registration and of an update that run side by side.
  pub data Step : Threads → Threads → Type 0 where
    register_locks :
        (t : Threads) (carrier : ConfigCarrier) (config : TapioConfig)
        → t.late ≡ none
        → t.world.state.current ≡ some config
        → Step t (record {
          world = record { state = push_carrier carrier t.world.state; maps = t.world.maps };
          late = some (carrier.map_fd, config);
          fanning = t.fanning;
        })
    register_writes :
        (t : Threads) (map_fd : ℕ) (config : TapioConfig)
        → t.late ≡ some (map_fd, config)
        → Step t (record {
          world = record {
            state = t.world.state;
            maps = bpf_map_update map_fd config t.world.maps;
          };
          late = none;
          fanning = t.fanning;
        })
    update_locks :
        (t : Threads) (config : TapioConfig)
        → t.fanning ≡ none
        → Step t (record {
          world = record { state = set_current config t.world.state; maps = t.world.maps };
          late = t.late;
          fanning = some (config, t.world.state.carriers);
        })
    update_writes :
        (t : Threads) (config : TapioConfig) (carrier : ConfigCarrier) (rest : List ConfigCarrier)
        → t.fanning ≡ some (config, carrier ∷ rest)
        → Step t (record {
          world = record {
            state = t.world.state;
            maps = bpf_map_update carrier.map_fd config t.world.maps;
          };
          late = t.late;
          fanning = some (config, rest);
        })
    update_ends :
        (t : Threads) (config : TapioConfig)
        → t.fanning ≡ some (config, [])
        → Step t (record { world = t.world; late = t.late; fanning = none })

  pub data Reach : Threads → Threads → Type 0 where
    here : (t : Threads) → Reach t t
    step : (a b c : Threads) → Step a b → Reach b c → Reach a c
