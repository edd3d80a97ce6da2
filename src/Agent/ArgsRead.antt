-- ===== src/Agent/ArgsRead.antt =====
-- What a command line that is accepted says.
use text.Mathlib.Text.{◌==◌ as str_eq, starts_with}
use tapio.Prelude.{
  ℕ, String, true, false, ◌||◌, ◌≡◌, ◌≤◌, List, [], ◌∷◌, Option, none, some, Result, ok, err, ltb,
  is_empty, arith, refl, Bool-cases, inl, inr, Ensures, anything, Ensures-ok, Ensures-bind,
}
use tapio.Prelude.Text.{codes}
use tapio.Prelude.Parse.{parse_u64}
use tapio.Prelude.Strings.{split_once}
use tapio.Agent.Args.{
  flag_of, take_value, inline_arg, separate_arg, with_opt, dispatch, finish, opt_of, seconds_of,
  at_least_min, Args, Parsing, Stop, Opt, Turn, continues, waits, set, read_arg, parse_args,
  parse_value, parse_from, start, interval, min_interval, validate_http_endpoint, config, sink,
  ebpf_dir, data_dir, http_endpoint, controller_endpoint, poll, heartbeat,
}

abbrev IsHttp : Option String → Type 0
IsHttp none = Unit
IsHttp (some endpoint) =
    (starts_with endpoint "http://" ≡ true) × (starts_with endpoint "https://" ≡ false)

pub record IsSound (a : Args) : Type 0 where
  pub polls : min_interval ≤ a.config_poll_interval
  pub beats : min_interval ≤ a.heartbeat_interval
  pub controller : IsHttp a.controller_endpoint
  pub somewhere : is_empty a.sinks ≡ false

at_least_min-least :
    (flag : String) (seconds : ℕ) → Ensures (λ n. min_interval ≤ n) (at_least_min flag seconds)
at_least_min-least flag seconds = elim (Bool-cases (ltb seconds min_interval)) [
  | inl short ↦ rw short tt
  | inr long ↦ rw long (ground arith)
]

seconds_of-least :
    (flag : String) (seconds : Option ℕ) → Ensures (λ n. min_interval ≤ n) (seconds_of flag seconds)
seconds_of-least flag none = tt
seconds_of-least flag (some seconds) = at_least_min-least flag seconds

interval-least : (flag value : String) → Ensures (λ n. min_interval ≤ n) (interval flag value)
interval-least flag value = seconds_of-least flag (parse_u64 (codes value))

validated :
    (flag endpoint : String)
    → Ensures (λ _. IsHttp (some endpoint)) (validate_http_endpoint flag endpoint)
unfolding validate_http_endpoint
validated flag endpoint = elim (Bool-cases (starts_with endpoint "https://")) [
  | inl secure ↦ rw secure tt
  | inr plain ↦ elim (Bool-cases (starts_with endpoint "http://")) [
    | inl http ↦ rw (plain, http) (refl, refl)
    | inr other ↦ rw (plain, other) tt
  ]
]

set-IsSound :
    (opt : Opt) (flag value : String) (p : Parsing)
    → IsSound p.args
    → Ensures (λ q. IsSound q.args) (set opt flag value p)
unfolding set
set-IsSound config flag value p k = record {
  polls = k.polls;
  beats = k.beats;
  controller = k.controller;
  somewhere = k.somewhere;
}
set-IsSound sink flag value p k = k
set-IsSound ebpf_dir flag value p k = record {
  polls = k.polls;
  beats = k.beats;
  controller = k.controller;
  somewhere = k.somewhere;
}
set-IsSound data_dir flag value p k = record {
  polls = k.polls;
  beats = k.beats;
  controller = k.controller;
  somewhere = k.somewhere;
}
set-IsSound http_endpoint flag value p k = record {
  polls = k.polls;
  beats = k.beats;
  controller = k.controller;
  somewhere = k.somewhere;
}
set-IsSound controller_endpoint flag value p k =
    Ensures-bind (λ _. IsHttp (some value)) (λ (q : Parsing). IsSound q.args)
      (validate_http_endpoint flag value) _ (validated flag value)
      (λ _ http. record {
        polls = k.polls;
        beats = k.beats;
        controller = http;
        somewhere = k.somewhere;
      })
set-IsSound poll flag value p k =
    Ensures-bind (λ n. min_interval ≤ n) (λ (q : Parsing). IsSound q.args) (interval flag value) _
      (interval-least flag value)
      (λ n least. record {
        polls = least;
        beats = k.beats;
        controller = k.controller;
        somewhere = k.somewhere;
      })
set-IsSound heartbeat flag value p k =
    Ensures-bind (λ n. min_interval ≤ n) (λ (q : Parsing). IsSound q.args) (interval flag value) _
      (interval-least flag value)
      (λ n least. record {
        polls = k.polls;
        beats = least;
        controller = k.controller;
        somewhere = k.somewhere;
      })

abbrev GoesOn : Turn → Type 0
GoesOn (continues r) = Ensures (λ q. IsSound q.args) r
GoesOn (waits opt flag) = Unit

take_value-GoesOn :
    (opt : Opt) (flag : String) (inline : Option String) (p : Parsing)
    → IsSound p.args
    → GoesOn (take_value opt flag inline p)
take_value-GoesOn opt flag none p k = tt
take_value-GoesOn opt flag (some value) p k =
    Ensures-bind (λ _. Unit {0}) (λ (q : Parsing). IsSound q.args) (inline_arg flag value) _
      (anything _) (λ v _. set-IsSound opt flag v p k)

with_opt-GoesOn :
    (opt : Option Opt) (flag : String) (inline : Option String) (p : Parsing)
    → IsSound p.args
    → GoesOn (with_opt opt (flag, inline) p)
with_opt-GoesOn none flag inline p k = tt
with_opt-GoesOn (some opt) flag inline p k = take_value-GoesOn opt flag inline p k

dispatch-GoesOn :
    (flag : String) (inline : Option String) (p : Parsing)
    → IsSound p.args
    → GoesOn (dispatch (flag, inline) p)
dispatch-GoesOn flag inline p k = elim (Bool-cases (str_eq flag "--help" || str_eq flag "-h")) [
  | inl asks ↦ rw asks tt
  | inr goes ↦ elim (Bool-cases (str_eq flag "--version" || str_eq flag "-V")) [
    | inl asks ↦ rw (goes, asks) tt
    | inr on ↦ rw (goes, on) (with_opt-GoesOn (opt_of flag) flag inline p k)
  ]
]

finish-IsSound : (p : Parsing) → IsSound p.args → IsSound (finish p)
finish-IsSound p k = elim (Bool-cases (is_empty p.explicit_sinks)) [
  | inl nothing ↦ rw nothing k
  | inr asked ↦
      rw asked
        (record { polls = k.polls; beats = k.beats; controller = k.controller; somewhere = asked })
]

read_arg-GoesOn : (arg : String) (p : Parsing) → IsSound p.args → GoesOn (read_arg arg p)
unfolding read_arg
read_arg-GoesOn arg p k =
    let read = flag_of arg (split_once b'=' arg) in dispatch-GoesOn read.0 read.1 p k

-- The loop, if what it does with the arguments that are left keeps to it.
turned-IsSound :
    (values : List String) (p : Parsing) (turn : Turn)
    → GoesOn turn
    → ((q : Parsing) → IsSound q.args → Ensures IsSound (parse_args values q))
    → ((opt : Opt) (flag : String) → Ensures IsSound (parse_value values opt flag p))
    → Ensures IsSound (elim turn as (λ _. Result Stop Args) [
      | continues (ok q) ↦ parse_args values q
      | continues (err stop) ↦ err stop
      | waits opt flag ↦ parse_value values opt flag p
    ])
turned-IsSound values p (continues (ok q)) goes on value = on q goes
turned-IsSound values p (continues (err stop)) goes on value = tt
turned-IsSound values p (waits opt flag) goes on value = value opt flag

valued-IsSound :
    (values : List String) (r : Result Stop Parsing)
    → Ensures (λ q. IsSound q.args) r
    → ((q : Parsing) → IsSound q.args → Ensures IsSound (parse_args values q))
    → Ensures IsSound
        (elim r as (λ _. Result Stop Args) [ ok q ↦ parse_args values q | err stop ↦ err stop ])
valued-IsSound values (ok q) sound on = on q sound
valued-IsSound values (err stop) sound on = tt

mutual
  unfolding parse_args

  parse_args-IsSound :
      (values : List String) (p : Parsing) → IsSound p.args → Ensures IsSound (parse_args values p)
  parse_args-IsSound [] p k = finish-IsSound p k
  parse_args-IsSound (arg ∷ values) p k =
      turned-IsSound values p (read_arg arg p) (read_arg-GoesOn arg p k)
        (λ q. parse_args-IsSound values q) (λ opt flag. parse_value-IsSound values opt flag p k)

  parse_value-IsSound :
      (values : List String) (opt : Opt) (flag : String) (p : Parsing)
      → IsSound p.args
      → Ensures IsSound (parse_value values opt flag p)
  parse_value-IsSound [] opt flag p k = tt
  parse_value-IsSound (value ∷ values) opt flag p k =
      valued-IsSound values _
        (Ensures-bind (λ _. Unit {0}) (λ (q : Parsing). IsSound q.args) (separate_arg flag value) _
          (anything _) (λ v _. set-IsSound opt flag v p k))
        (λ q. parse_args-IsSound values q)

-- A command line that is accepted has both intervals of at least five seconds, a controller's
-- endpoint, if any, that starts with http:// and not with https://, and at least one sink.
pub parse_from-IsSound :
    (values : List String) {args : Args} → parse_from values ≡ ok args → IsSound args
unfolding parse_from
parse_from-IsSound values accepted =
    Ensures-ok IsSound (parse_args values start)
      (parse_args-IsSound values start
        (record { polls = omega arith; beats = omega arith; controller = tt; somewhere = refl }))
      accepted
