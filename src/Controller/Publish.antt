-- ===== src/Controller/Publish.antt =====
-- `compile_profile_yaml`, `config_hash` and `config_response_from_compiled` of
-- tapio-controller/src/lib.rs. YAML, JSON and SHA-256 are libraries: a parser, a serializer and a
-- digest of bytes are parameters.
use Prim.Native.String.{◌++◌}
use tapio.Prelude.{
  Option, ℕ, ◌/◌, ◌%◌, ◌≡◌, String, List, [], ◌∷◌, Result, ok, err, ◌>>=◌, if◌then◌else◌, ◌==◌,
  IsOk, arith, ltb, >>=-eq-ok, Result-cases, inl, inr,
}
use tapio.Prelude.Decimal.{to_string, is_blank-to_string}
use tapio.Profile.Floats.{FloatOps, FloatLaws}
use tapio.Profile.Types.{EvidenceProfile, ProfileError}
use tapio.Profile.Validate.{validate, v0}
use tapio.Profile.Compile.{compile}
use tapio.Profile.Compiled.{compile_validated-WireInRange, WireInRange}
use tapio.Wire.Types.{CompiledConfig, ConfigResponse, wire_version}
use tapio.Wire.Validate
use tapio.Wire.Accepted.{config_response-IsOk}

pub data ConfigLoadError : Type 0 where
  read_profile : String → String → ConfigLoadError
  parse_profile : Option String → String → ConfigLoadError
  validate_profile : Option String → ProfileError → ConfigLoadError
  serialize_config : String → ConfigLoadError

abbrev hex_digit : ℕ → String
hex_digit d =
    if ltb d 10
    then to_string d
    else if d == 10
    then "a"
    else if d == 11
    then "b"
    else if d == 12
    then "c"
    else if d == 13
    then "d"
    else if d == 14
    then "e"
    else "f"

-- `write!(&mut hash, "{byte:02x}")` for each byte.
unfoldable pub hex : List ℕ → String
hex [] = ""
hex (b ∷ bs) = hex_digit (b / 16) ++ (hex_digit (b % 16) ++ hex bs)

module _ (to_vec : CompiledConfig → Result String (List ℕ)) (sha256 : List ℕ → List ℕ) where
  unfoldable pub config_hash : CompiledConfig → Result ConfigLoadError String
  unfolding hex
  config_hash config = elim (to_vec config) [
    | ok bytes ↦ ok ("sha256:" ++ hex (sha256 bytes))
    | err e ↦ err (serialize_config e)
  ]

  unfoldable pub config_response_from_compiled :
      CompiledConfig → ℕ → Result ConfigLoadError ConfigResponse
  config_response_from_compiled config generation = do
    hash ← config_hash config
    ok (record {
      wire_version = wire_version;
      version = to_string generation;
      config_hash = hash;
      config = config;
      batching = record { send_interval_ms = 1000; max_batch_events = 256 };
    })

module _ {F : Type 0} ⦃f : FloatOps F⦄ (from_str : String → Result String (EvidenceProfile F)) where
  unfoldable pub compile_profile_yaml :
      String → Option String → Result ConfigLoadError CompiledConfig
  compile_profile_yaml yaml path = elim (from_str yaml) [
    | err e ↦ err (parse_profile path e)
    | ok profile ↦ elim (validate profile v0) [
      | err e ↦ err (validate_profile path e)
      | ok validated ↦ ok (compile validated)
    ]
  ]

-- A configuration within the limits, published under any generation, is one that an agent's own
-- validation accepts.
published-valid :
    (to_vec : CompiledConfig → Result String (List ℕ)) (sha256 : List ℕ → List ℕ)
    (config : CompiledConfig) (generation : ℕ) (response : ConfigResponse)
    → WireInRange config
    → config_response_from_compiled to_vec sha256 config generation ≡ ok response
    → IsOk (Validate.config_response response)
unfolding config_response_from_compiled
published-valid to_vec sha256 config generation response w h =
    let (hash, e, h') = >>=-eq-ok (config_hash to_vec sha256 config) _ h in
    config_response-IsOk response (ground arith) (ground (arith, is_blank-to_string generation))
      (ground (arith, w)) (ground (arith, w)) (ground arith) (ground arith)

module _ {F : Type 0} ⦃f : FloatOps F⦄ (laws : FloatLaws f) where
  compiled-WireInRange :
      (from_str : String → Result String (EvidenceProfile F)) (yaml : String) (path : Option String)
      (config : CompiledConfig)
      → compile_profile_yaml from_str yaml path ≡ ok config
      → WireInRange config
  unfolding compile_profile_yaml
  compiled-WireInRange from_str yaml path config c = elim (Result-cases (from_str yaml)) [
    | inr (x, e) ↦ ground arith
    | inl (profile, e) ↦ elim (Result-cases (validate profile v0)) [
      | inr (x, e2) ↦ ground arith
      | inl (v, e2) ↦ let w = compile_validated-WireInRange laws profile v e2 in ground (arith, w)
    ]
  ]

  -- For floats that meet the laws, whatever profile compiles, published under any generation,
  -- gives a configuration that an agent's own validation accepts.
  pub compile_profile_yaml-valid :
      (from_str : String → Result String (EvidenceProfile F))
      (to_vec : CompiledConfig → Result String (List ℕ)) (sha256 : List ℕ → List ℕ) (yaml : String)
      (path : Option String) (config : CompiledConfig) (generation : ℕ) (response : ConfigResponse)
      → compile_profile_yaml from_str yaml path ≡ ok config
      → config_response_from_compiled to_vec sha256 config generation ≡ ok response
      → IsOk (Validate.config_response response)
  compile_profile_yaml-valid from_str to_vec sha256 yaml path config generation response c h =
      published-valid to_vec sha256 config generation response
        (compiled-WireInRange from_str yaml path config c) h
