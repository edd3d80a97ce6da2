-- ===== src/Agent/Args.antt =====
-- The command line of tapio-agent/src/main.rs: `Args::parse_from`, `next_arg` and `validate_http_endpoint`.
-- The loop takes the value of an option from the argument itself, or from the one after it: it then waits
-- for a value. An error is a value for each place that gives up.
use text.Mathlib.Text.{◌==◌ as str_eq, starts_with}
use tapio.Prelude.{
  ℕ, String, ◌||◌, List, [], ◌∷◌, ◌++◌, Option, none, some, Result, ok, err, ◌>>=◌, ◌>>◌, ltb,
  if◌then◌else◌, is_empty,
}
use tapio.Prelude.Text.{codes}
use tapio.Prelude.Parse.{parse_u64}
use tapio.Prelude.Strings.{split_once}

-- Durations are in seconds.
pub record Args : Type 0 where
  pub config : String
  pub sinks : List String
  pub ebpf_dir : String
  pub data_dir : String
  pub http_endpoint : String
  pub controller_endpoint : Option String
  pub config_poll_interval : ℕ
  pub heartbeat_interval : ℕ

abbrev pub default : Args
default = record {
  config = "/etc/tapio/tapio.toml";
  sinks = "stdout" ∷ [];
  ebpf_dir = "/opt/tapio/ebpf";
  data_dir = ".tapio/occurrences";
  http_endpoint = "http://localhost:8765";
  controller_endpoint = none;
  config_poll_interval = 30;
  heartbeat_interval = 30;
}

-- How the parse ends without arguments: the help or the version is printed, or it fails.
pub data Stop : Type 0 where
  help version : Stop
  https_endpoint not_http requires_value empty_value not_seconds too_short unknown : String → Stop
  not_a_value : String → String → Stop

unfoldable pub validate_http_endpoint : String → String → Result Stop (Unit {0})
validate_http_endpoint flag endpoint =
    if starts_with endpoint "https://"
    then err (https_endpoint flag)
    else if starts_with endpoint "http://"
    then ok tt
    else err (not_http flag)

-- A value in the argument itself.
abbrev pub inline_arg : String → String → Result Stop String
inline_arg flag value = if str_eq value "" then err (empty_value flag) else ok value

-- A value in the next argument.
abbrev pub separate_arg : String → String → Result Stop String
separate_arg flag value = if starts_with value "-" then err (not_a_value flag value) else ok value

-- What the loop has read, and the sinks that were asked for.
pub record Parsing : Type 0 where
  pub args : Args
  pub explicit_sinks : List String

abbrev pub min_interval : ℕ
min_interval = 5

abbrev pub at_least_min : String → ℕ → Result Stop ℕ
at_least_min flag seconds = if ltb seconds min_interval then err (too_short flag) else ok seconds

abbrev pub seconds_of : String → Option ℕ → Result Stop ℕ
seconds_of flag none = err (not_seconds flag)
seconds_of flag (some seconds) = at_least_min flag seconds

abbrev pub interval : String → String → Result Stop ℕ
interval flag value = seconds_of flag (parse_u64 (codes value))

-- The arms of the options that take a value, in the order of the source.
pub data Opt : Type 0 where
  config sink ebpf_dir data_dir http_endpoint controller_endpoint poll heartbeat : Opt

unfoldable pub opt_of : String → Option Opt
opt_of flag =
    if str_eq flag "--config"
    then some config
    else if str_eq flag "--sink"
    then some sink
    else if str_eq flag "--ebpf-dir"
    then some ebpf_dir
    else if str_eq flag "--data-dir"
    then some data_dir
    else if str_eq flag "--http-endpoint"
    then some http_endpoint
    else if str_eq flag "--controller-endpoint"
    then some controller_endpoint
    else if str_eq flag "--config-poll-interval"
    then some poll
    else if str_eq flag "--heartbeat-interval"
    then some heartbeat
    else none

unfoldable pub set : Opt → String → String → Parsing → Result Stop Parsing
unfolding validate_http_endpoint
set config flag value p = ok (record p { args = record p.args { config = value } })
set sink flag value p = ok (record p { explicit_sinks = p.explicit_sinks ++ value ∷ [] })
set ebpf_dir flag value p = ok (record p { args = record p.args { ebpf_dir = value } })
set data_dir flag value p = ok (record p { args = record p.args { data_dir = value } })
set http_endpoint flag value p = ok (record p { args = record p.args { http_endpoint = value } })
set controller_endpoint flag value p = do
  validate_http_endpoint flag value
  ok (record p { args = record p.args { controller_endpoint = some value } })
set poll flag value p = do
  seconds ← interval flag value
  ok (record p { args = record p.args { config_poll_interval = seconds } })
set heartbeat flag value p = do
  seconds ← interval flag value
  ok (record p { args = record p.args { heartbeat_interval = seconds } })

-- What the loop makes of an argument: it goes on, or waits for the value of an option.
pub data Turn : Type 0 where
  continues : Result Stop Parsing → Turn
  waits : Opt → String → Turn

abbrev pub flag_of : String → Option (String × String) → String × Option String
flag_of arg none = (arg, none)
flag_of arg (some (flag, value)) = (flag, some value)

abbrev pub take_value : Opt → String → Option String → Parsing → Turn
take_value opt flag none p = waits opt flag
take_value opt flag (some value) p = continues (inline_arg flag value >>= λ v. set opt flag v p)

abbrev pub with_opt : Option Opt → String × Option String → Parsing → Turn
with_opt none (flag, inline) p = continues (err (unknown flag))
with_opt (some opt) (flag, inline) p = take_value opt flag inline p

abbrev pub dispatch : String × Option String → Parsing → Turn
dispatch (flag, inline) p =
    if str_eq flag "--help" || str_eq flag "-h"
    then continues (err help)
    else if str_eq flag "--version" || str_eq flag "-V"
    then continues (err version)
    else with_opt (opt_of flag) (flag, inline) p

unfoldable pub read_arg : String → Parsing → Turn
unfolding opt_of set
read_arg arg p = dispatch (flag_of arg (split_once b'=' arg)) p

abbrev pub finish : Parsing → Args
finish p = if is_empty p.explicit_sinks then p.args else record p.args { sinks = p.explicit_sinks }

-- The loop over the arguments, and over the next one where an option waits for its value.
unfoldable mutual
  pub parse_args : List String → Parsing → Result Stop Args
  parse_args [] p = ok (finish p)
  parse_args (arg ∷ values) p = elim (read_arg arg p) [
    | continues (ok q) ↦ parse_args values q
    | continues (err stop) ↦ err stop
    | waits opt flag ↦ parse_value values opt flag p
  ]

  pub parse_value : List String → Opt → String → Parsing → Result Stop Args
  parse_value [] opt flag p = err (requires_value flag)
  parse_value (value ∷ values) opt flag p =
      elim (separate_arg flag value >>= λ v. set opt flag v p) [
        | ok q ↦ parse_args values q
        | err stop ↦ err stop
      ]

abbrev pub start : Parsing
start = record { args = default; explicit_sinks = [] }

unfoldable pub parse_from : List String → Result Stop Args
unfolding parse_args read_arg set
parse_from values = parse_args values start
