-- ===== src/Agent/ArgsTests.antt =====
-- Command lines of the agent, some of them refused: tests of the loop that reads them, and the theorems at
-- work.
use Prim.Native.String.{◌++◌ as append}
use tapio.Prelude.{◌≡◌, refl, String, List, [], ◌∷◌, some, ok, err}
use tapio.Prelude.Parse.{parse_u64}
use tapio.Prelude.Strings.{split_once}
use tapio.Agent.Args.{
  Args, default, parse_from, read_arg, opt_of, set, validate_http_endpoint, too_short,
  https_endpoint, not_a_value, Opt,
}
use tapio.Agent.ArgsRead.{IsSound, parse_from-IsSound}
use tapio.Agent.ArgsForms.{parse_from-inline, name_of}

abbrev line : List String
line =
    "--sink=stdout" ∷ "--sink" ∷ "controller" ∷ "--controller-endpoint=http://c:80"
    ∷ "--config-poll-interval" ∷ "30" ∷ []

abbrev asked : Args
asked = record default {
  sinks = "stdout" ∷ "controller" ∷ [];
  controller_endpoint = some "http://c:80";
  config_poll_interval = 30;
}

line_read : parse_from line ≡ ok asked
unfolding parse_from read_arg opt_of set validate_http_endpoint parse_u64 split_once
line_read = refl

interval_too_short :
    parse_from ("--heartbeat-interval=4" ∷ []) ≡ err (too_short "--heartbeat-interval")
unfolding parse_from read_arg opt_of set validate_http_endpoint parse_u64 split_once
interval_too_short = refl

endpoint_secure :
    parse_from ("--controller-endpoint" ∷ "https://c" ∷ [])
    ≡ err (https_endpoint "--controller-endpoint")
unfolding parse_from read_arg opt_of set validate_http_endpoint parse_u64 split_once
endpoint_secure = refl

value_missing : parse_from ("--data-dir" ∷ "--sink" ∷ []) ≡ err (not_a_value "--data-dir" "--sink")
unfolding parse_from read_arg opt_of set validate_http_endpoint parse_u64 split_once
value_missing = refl

parse_from-IsSound_example : IsSound asked
parse_from-IsSound_example = parse_from-IsSound line line_read

parse_from-inline_example :
    parse_from (append (name_of Opt.sink) (append "=" "otlp") ∷ "--data-dir=/var" ∷ [])
    ≡ parse_from (name_of Opt.sink ∷ "otlp" ∷ "--data-dir=/var" ∷ [])
parse_from-inline_example = parse_from-inline Opt.sink "otlp" ("--data-dir=/var" ∷ []) refl refl
