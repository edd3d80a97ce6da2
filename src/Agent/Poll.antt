-- ===== src/Agent/Poll.antt =====
-- The polling loop of tapio-agent/src/controller.rs: `fetch_once`, `apply_config` and a tick of
-- `poll_loop`. The HTTP exchange and the JSON decoder are parameters.
use Prim.Native.String.{◌++◌ as append}
use mathlib.Core.List.{reverse, ◌++◌}
use text.Mathlib.Text.{◌==◌ as str_eq}
use tapio.Prelude.{
  ℕ, ◌+◌, ◌-◌, ◌/◌, ◌%◌, String, Bool, ◌||◌, ◌&&◌, leb, List, [], ◌∷◌, Option, none, some, Result,
  ok, err, u64, ◌>>=◌, ◌>>◌, ◌==◌, if◌then◌else◌,
}
use tapio.Prelude.Text.{codes, bytes_of}
use tapio.Prelude.Decimal.{to_string}
use tapio.Prelude.Parse.{parse_u32}
use tapio.Wire.Types.{WireResult, ConfigResponse}
use tapio.Wire.Validate
use tapio.Agent.Config.{TapioConfig, CompiledConfigError, tapio_config_from_compiled}
use tapio.Agent.Carriers.{World, update_all}
use tapio.Agent.Heartbeat.{ControllerState, AppliedConfigIdentity, set_config_version}
use tapio.Agent.Sink.{HttpResponse, error_text}

pub record ControllerConfig : Type 0 where
  pub endpoint : List ℕ
  pub agent_id : List ℕ
  pub node_name : List ℕ

pub data PollOutcome : Type 0 where
  applied : ℕ → String → ℕ → PollOutcome
  not_modified : PollOutcome

pub data FetchError : Type 0 where
  transport rejected : String → FetchError

-- What the loop keeps: its ETag, the configuration marked as applied, the state that it shares with the
-- registration, the four counters of `config_fetch_total`, and the world of the carriers.
pub record Polling : Type 0 where
  pub etag : Option String
  pub active_config : Option AppliedConfigIdentity
  pub state : ControllerState
  pub world : World
  pub applied_total : ℕ
  pub not_modified_total : ℕ
  pub rejected_total : ℕ
  pub error_total : ℕ

-- `map_err(|e| FetchError::Rejected(e.to_string()))` of a check.
abbrev checked : {A : Type 0} → WireResult A → Result FetchError A
checked (ok a) = ok a
checked (err e) = err (rejected (error_text e))

abbrev decoded : Result String ConfigResponse → Result FetchError ConfigResponse
decoded (ok config) = ok config
decoded (err e) = err (rejected (append "decode ConfigResponse: " e))

-- `{:?}` of the version is a parameter.
abbrev numbered : (String → String) → String → Option ℕ → Result FetchError ℕ
numbered debug version none = err (rejected (append "bad config version " (debug version)))
numbered debug version (some generation) = ok generation

abbrev compiled :
    (String → String) → Result CompiledConfigError TapioConfig → Result FetchError TapioConfig
compiled debug (ok config) = ok config
compiled debug (err (CompiledConfigError.invalid_generation value)) =
    err
      (rejected (append "config version " (append (debug value) " is not a valid u32 generation")))

unfoldable pub reject_empty_config_hash : String → Result FetchError (Unit {0})
reject_empty_config_hash hash =
    if str_eq hash "" then err (rejected "config response missing config_hash") else ok tt

-- What a body of status 200 must be before anything is applied.
unfoldable pub accept_body :
    (String → String)
    → Result String ConfigResponse
    → Result FetchError (ConfigResponse × ℕ × TapioConfig)
unfolding reject_empty_config_hash
accept_body debug body = do
  config ← decoded body
  generation ← numbered debug config.version (parse_u32 config.version)
  checked (Validate.config_response config)
  reject_empty_config_hash config.config_hash
  tapio_config ← compiled debug (tapio_config_from_compiled config.config config.version)
  ok (config, generation, tapio_config)

module _ (debug : String → String) (accepts : ℕ → TapioConfig → Bool)
    (from_slice : List ℕ → Result String ConfigResponse) where
  -- `apply_config`: observers whose map refused are only logged; the thresholds can be sent while they
  -- have a receiver.
  unfoldable pub apply_config :
      (receiver : Bool) → TapioConfig → World → World × Result FetchError (Unit {0})
  apply_config receiver tapio_config world = (
    (update_all accepts tapio_config world).0,
    if receiver then ok tt else err (transport "PMC thresholds: channel closed"),
  )

  abbrev outcome :
      ConfigResponse
      → ℕ
      → TapioConfig
      → Result FetchError (Unit {0})
      → Result FetchError PollOutcome
  outcome config generation tapio_config (ok done) =
      ok (applied generation config.config_hash tapio_config.flags)
  outcome config generation tapio_config (err e) = err e

  -- The answer to a body, once it is accepted or refused.
  unfoldable pub apply_body :
      Bool
      → Result FetchError (ConfigResponse × ℕ × TapioConfig)
      → World
      → World × Result FetchError PollOutcome
  unfolding apply_config
  apply_body receiver (err e) world = (world, err e)
  apply_body receiver (ok (config, generation, tapio_config)) world =
      let (after, sent) = apply_config receiver tapio_config world in
      (after, outcome config generation tapio_config sent)

  -- `fetch_once`, from the answer to the request.
  unfoldable pub fetch_once :
      Bool → Result String HttpResponse → World → World × Result FetchError PollOutcome
  unfolding accept_body apply_body
  fetch_once receiver (err e) world = (world, err (transport e))
  fetch_once receiver (ok response) world =
      let done = apply_body receiver (accept_body debug (from_slice response.body)) world in
      if response.status == 304
      then (world, ok not_modified)
      else if response.status == 200
      then done
      else (world, err (transport (append "HTTP " (to_string response.status))))

  -- What the loop does with an outcome.
  unfoldable pub record_outcome : World × Result FetchError PollOutcome → Polling → Polling
  record_outcome (world, ok (applied generation hash flags)) p = record p {
    world = world;
    etag = some (append "\"" (append hash "\""));
    active_config = some (record { version = to_string generation; hash = hash; flags = flags });
    state = set_config_version (to_string generation) p.state;
    applied_total = u64 (p.applied_total + 1);
  }
  record_outcome (world, ok not_modified) p = record p {
    world = world;
    not_modified_total = u64 (p.not_modified_total + 1);
  }
  record_outcome (world, err (rejected e)) p = record p {
    world = world;
    rejected_total = u64 (p.rejected_total + 1);
  }
  record_outcome (world, err (transport e)) p = record p {
    world = world;
    error_total = u64 (p.error_total + 1);
  }

  -- A tick: the request carries the ETag, and its answer is what the exchange makes of it.
  unfoldable pub poll_tick : Bool → (Option String → Result String HttpResponse) → Polling → Polling
  unfolding fetch_once record_outcome
  poll_tick receiver get p = record_outcome (fetch_once receiver (get p.etag) p.world) p

abbrev pub is_unreserved : ℕ → Bool
is_unreserved b =
    leb b'A' b && leb b b'Z'
    || leb b'a' b && leb b b'z'
    || leb b'0' b && leb b b'9'
    || b == b'-'
    || b == b'_'
    || b == b'.'
    || b == b'~'

-- `HEX[n]`.
abbrev hex_byte : ℕ → ℕ
hex_byte n = if leb n 9 then b'0' + n else b'A' + (n - 10)

-- The characters of an encoded text, from its bytes.
unfoldable pub url_component : List ℕ → List ℕ
url_component [] = []
url_component (b ∷ bytes) =
    let rest = url_component bytes in
    if is_unreserved b then b ∷ rest else b'%' ∷ hex_byte (b / 16) ∷ hex_byte (b % 16) ∷ rest

unfoldable pub skip_slashes : List ℕ → List ℕ
skip_slashes [] = []
skip_slashes (c ∷ cs) = let rest = skip_slashes cs in if c == b'/' then rest else c ∷ cs

-- `trim_end_matches('/')`.
unfoldable pub trim_end_slashes : List ℕ → List ℕ
unfolding skip_slashes
trim_end_slashes cs = reverse (skip_slashes (reverse cs))

-- The query of the URL, from the bytes of the two identifiers.
unfoldable pub config_query : List ℕ → List ℕ → List ℕ
unfolding url_component
config_query agent_id node_name =
    (codes "agent_id" ++ b'=' ∷ url_component agent_id)
    ++ b'&' ∷ (codes "node_name" ++ b'=' ∷ url_component node_name)

unfoldable pub config_url : ControllerConfig → List ℕ
unfolding trim_end_slashes config_query
config_url controller =
    trim_end_slashes controller.endpoint
    ++ (codes "/v1/agents/config?"
        ++ config_query (bytes_of controller.agent_id) (bytes_of controller.node_name))
