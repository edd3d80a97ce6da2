-- ===== src/Agent/ArgsForms.antt =====
-- The two ways to give an option its value.
use text.Mathlib.Text.{◌==◌ as str_eq, starts_with}
use tapio.Prelude.{
  String, true, false, ◌≡◌, List, ◌∷◌, some, Result, ok, err, ◌>>=◌, arith, refl, ◌∙◌, sym, all,
  not, ◌==◌,
}
use tapio.Prelude.Text.{codes}
use tapio.Prelude.Strings.{split_once}
use Prim.Native.String.{◌++◌ as append}
use Prim.Native.Char.{char}
use text.Mathlib.TextLemmas.{nil-append, cons-append}
use tapio.Agent.Args.{
  inline_arg, separate_arg, Args, Parsing, Stop, Opt, continues, waits, set, read_arg, parse_args,
  parse_from, start, config, sink, ebpf_dir, data_dir, http_endpoint, controller_endpoint, poll,
  heartbeat,
}

abbrev pub name_of : Opt → String
name_of config = "--config"
name_of sink = "--sink"
name_of ebpf_dir = "--ebpf-dir"
name_of data_dir = "--data-dir"
name_of http_endpoint = "--http-endpoint"
name_of controller_endpoint = "--controller-endpoint"
name_of poll = "--config-poll-interval"
name_of heartbeat = "--heartbeat-interval"

name_of-alone : (opt : Opt) (p : Parsing) → read_arg (name_of opt) p ≡ waits opt (name_of opt)
unfolding read_arg split_once
name_of-alone config p = refl
name_of-alone sink p = refl
name_of-alone ebpf_dir p = refl
name_of-alone data_dir p = refl
name_of-alone http_endpoint p = refl
name_of-alone controller_endpoint p = refl
name_of-alone poll p = refl
name_of-alone heartbeat p = refl

split_name :
    (flag value : String)
    → all (λ c. not (c == b'=')) (codes flag) ≡ true
    → split_once b'=' (append flag (append "=" value)) ≡ some (flag, value)
unfolding split_once
split_name String.[] value free =
    rw (nil-append (append "=" value), cons-append (char b'=' tt) "" value, nil-append value) refl
split_name (String.◌∷◌ c flag) value free =
    rw (cons-append c flag (append "=" value))
      (ground (arith, split_name flag value, cons-append c "" flag, nil-append flag))

name_of-inline :
    (opt : Opt) (value : String) (p : Parsing)
    → read_arg (append (name_of opt) (append "=" value)) p
      ≡ continues (inline_arg (name_of opt) value >>= λ v. set opt (name_of opt) v p)
unfolding read_arg
name_of-inline config value p = rw (split_name "--config" value refl) refl
name_of-inline sink value p = rw (split_name "--sink" value refl) refl
name_of-inline ebpf_dir value p = rw (split_name "--ebpf-dir" value refl) refl
name_of-inline data_dir value p = rw (split_name "--data-dir" value refl) refl
name_of-inline http_endpoint value p = rw (split_name "--http-endpoint" value refl) refl
name_of-inline controller_endpoint value p = rw (split_name "--controller-endpoint" value refl) refl
name_of-inline poll value p = rw (split_name "--config-poll-interval" value refl) refl
name_of-inline heartbeat value p = rw (split_name "--heartbeat-interval" value refl) refl

-- What the loop does after an argument that goes on, and after one that waits for its value.
abbrev then_ : List String → Result Stop Parsing → Result Stop Args
then_ values (ok q) = parse_args values q
then_ values (err stop) = err stop

continued :
    (arg : String) (values : List String) (p : Parsing) (r : Result Stop Parsing)
    → read_arg arg p ≡ continues r
    → parse_args (arg ∷ values) p ≡ then_ values r
unfolding parse_args
continued arg values p (ok q) reads = rw (reads, parse_args) refl
continued arg values p (err stop) reads = rw (reads, parse_args) refl

waited :
    (arg value : String) (values : List String) (p : Parsing) (opt : Opt) (flag : String)
    → read_arg arg p ≡ waits opt flag
    → parse_args (arg ∷ value ∷ values) p
      ≡ then_ values (separate_arg flag value >>= λ v. set opt flag v p)
unfolding parse_args
waited arg value values p opt flag reads =
    rw (reads, parse_args) (same (separate_arg flag value >>= λ v. set opt flag v p))
  where
    same :
        (r : Result Stop Parsing)
        → (elim r as (λ _. Result Stop Args) [ ok q ↦ parse_args values q | err stop ↦ err stop ])
          ≡ then_ values r
    same (ok q) = refl
    same (err stop) = refl

-- An option written with an equals sign means the same as the option followed by its value,
-- whatever follows, if the value is not empty and does not start with a hyphen.
pub parse_from-inline :
    (opt : Opt) (value : String) (values : List String)
    → str_eq value "" ≡ false
    → starts_with value "-" ≡ false
    → parse_from (append (name_of opt) (append "=" value) ∷ values)
      ≡ parse_from (name_of opt ∷ value ∷ values)
unfolding parse_from
parse_from-inline opt value values given plain =
    let flag = name_of opt in
    continued _ values start _ (name_of-inline opt value start)
    ∙ rw (given, plain) refl
    ∙ sym (waited flag value values start opt flag (name_of-alone opt start))
