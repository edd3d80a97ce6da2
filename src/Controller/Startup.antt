-- ===== src/Controller/Startup.antt =====
-- How a controller comes by its configuration: `load_profile`, `production_default_config` and
-- `default_config_response` of tapio-controller/src/lib.rs, and the choice between them in
-- tapio-controller/src/main.rs. The file system is a parameter.
use tapio.Prelude.{
  ℕ, String, true, Option, none, some, List, Result, ok, err, ◌>>=◌, ◌≡◌, refl, IsOk, arith,
  Result-cases, inl, inr, >>=-eq-ok,
}
use tapio.Profile.Floats.{FloatOps, FloatLaws}
use tapio.Profile.Types.{EvidenceProfile, production_default_name}
use tapio.Profile.Validate.{v0, production_default}
use tapio.Profile.Compile.{compile}
use tapio.Profile.Overrides.{plain, validate-plain}
use tapio.Profile.Ranges.{v0-InRange}
use tapio.Profile.Names.{valid_profile_name}
use tapio.Prelude.Maps.{lookup}
use tapio.Wire.Types.{CompiledConfig, ConfigResponse}
use tapio.Wire.Validate
use tapio.Controller.Publish.{
  ConfigLoadError, read_profile, compile_profile_yaml, config_response_from_compiled,
  compile_profile_yaml-valid,
}

abbrev pub default_profile_yaml : String
default_profile_yaml =
    "\napiVersion: tapio.false.systems/v0\nkind: EvidenceProfile\nbase: production-default\n"

abbrev pub initial_generation : ℕ
initial_generation = 1

module _ {F : Type 0} ⦃f : FloatOps F⦄ (from_str : String → Result String (EvidenceProfile F)) where
  unfoldable pub production_default_config : Result ConfigLoadError CompiledConfig
  production_default_config = compile_profile_yaml from_str default_profile_yaml none

  module _ (read_to_string : String → Result String String) where
    unfoldable pub load_profile : String → Result ConfigLoadError CompiledConfig
    load_profile path = elim (read_to_string path) [
      | err e ↦ err (read_profile path e)
      | ok content ↦ compile_profile_yaml from_str content (some path)
    ]

  module _ (to_vec : CompiledConfig → Result String (List ℕ)) (sha256 : List ℕ → List ℕ) where
    unfoldable pub default_config_response : Result ConfigLoadError ConfigResponse
    default_config_response = do
      config ← production_default_config
      config_response_from_compiled to_vec sha256 config initial_generation

    -- The configuration that `main` starts with.
    unfoldable pub initial_config :
        (String → Result String String) → Option String → Result ConfigLoadError ConfigResponse
    unfolding load_profile default_config_response
    initial_config read_to_string none = default_config_response
    initial_config read_to_string (some path) = do
      config ← load_profile read_to_string path
      config_response_from_compiled to_vec sha256 config 1

module _ {F : Type 0} ⦃f : FloatOps F⦄ (laws : FloatLaws f)
    (from_str : String → Result String (EvidenceProfile F))
    (to_vec : CompiledConfig → Result String (List ℕ)) (sha256 : List ℕ → List ℕ) where
  -- For floats that meet the laws, a controller that starts, with a profile of its own or without,
  -- serves a configuration that an agent's validation accepts.
  pub initial_config-valid :
      (read_to_string : String → Result String String) (profile : Option String)
      (response : ConfigResponse)
      → initial_config from_str to_vec sha256 read_to_string profile ≡ ok response
      → IsOk (Validate.config_response response)
  unfolding initial_config default_config_response production_default_config
  initial_config-valid read_to_string none response h =
      let (config, e, h') = >>=-eq-ok (production_default_config from_str) _ h in
      compile_profile_yaml-valid laws from_str to_vec sha256 default_profile_yaml none config
        initial_generation response e h'
  initial_config-valid read_to_string (some path) response h =
      let (config, e, h') = >>=-eq-ok (load_profile from_str read_to_string path) _ h in
      elim (Result-cases (read_to_string path)) [
        | inr (x, r) ↦ unfold load_profile in ground arith
        | inl (content, r) ↦
            compile_profile_yaml-valid laws from_str to_vec sha256 content (some path) config 1
              response (unfold load_profile in ground arith) h'
      ]

module _ {F : Type 0} ⦃f : FloatOps F⦄ (laws : FloatLaws f)
    (from_str : String → Result String (EvidenceProfile F)) where
  -- For floats that meet the laws, the built-in profile compiles to the production default, with a
  -- YAML parser that reads it as the document without overrides on that base.
  pub production_default_config-compiles :
      from_str default_profile_yaml ≡ ok (plain production_default_name)
      → production_default_config from_str
        ≡ ok (compile {F = F} (record { resolved = production_default }))
  unfolding production_default_config compile_profile_yaml
  production_default_config-compiles reads = ground (
    arith,
    reads,
    validate-plain production_default_name v0 production_default name found
        (unfold v0 in (v0-InRange laws).0),
  )
    where
      name : valid_profile_name production_default_name ≡ true
      name = unfold valid_profile_name in refl

      found : lookup production_default_name (v0 {F = F}).profiles ≡ some production_default
      found = unfold v0 lookup in refl
