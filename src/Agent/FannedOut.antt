-- ===== src/Agent/FannedOut.antt =====
-- What a fan-out to all sinks leaves, whichever of them fail.
use tapio.Prelude.{
  ◌++◌, All, IsOk, u64, some, ℕ, ◌+◌, ◌≡◌, refl, ap, String, List, [], ◌∷◌, Option, none, Result,
  ok, err, map, arith, unwrap_or, if◌then◌else◌,
}
use tapio.Prelude.Maps.{lookup, lookup-insert}
use text.Mathlib.Text.{◌==◌}
use text.Mathlib.TextEquality.{eq_iff}
use tapio.Observer.Occurrence.{Occurrence}
use tapio.Observer.Convert.{SinkError}
use tapio.Agent.Sinks.{
  FanOut, Writes, send_to, multi_send, count_write, count_if, last_error, fan_out_result,
}

-- How many of the results under a name are errors, and how many are not.
abbrev pub failures : String → List (String × Result SinkError (Unit {0})) → ℕ
failures name [] = 0
failures name ((n, ok done) ∷ results) = failures name results
failures name ((n, err e) ∷ results) =
    if n == name then failures name results + 1 else failures name results

abbrev pub successes : String → List (String × Result SinkError (Unit {0})) → ℕ
successes name [] = 0
successes name ((n, ok done) ∷ results) =
    if n == name then successes name results + 1 else successes name results
successes name ((n, err e) ∷ results) = successes name results

abbrev pub IsWell : String × Result SinkError (Unit {0}) → Type 0
IsWell (n, r) = IsOk r

-- The result of a fan-out in which nothing failed, or of which this is the last failure.
pub data EndsWith (results : List (String × Result SinkError (Unit {0})))
    : Result SinkError (Unit {0}) → Type 0 where
  all_well : All IsWell results → EndsWith results (ok tt)
  last_failure :
      (before after : List (String × Result SinkError (Unit {0}))) (n : String) (e : SinkError)
      → results ≡ before ++ (n, err e) ∷ after
      → All IsWell after
      → EndsWith results (err e)

abbrev pub written_of : String → Writes → ℕ
written_of name writes = unwrap_or (lookup name writes.written) 0

abbrev pub failed_of : String → Writes → ℕ
failed_of name writes = unwrap_or (lookup name writes.failed) 0

count_write-written :
    (n name : String) (r : Result SinkError (Unit {0})) (writes : Writes)
    → u64 (written_of name (count_write n r writes))
      ≡ u64 (written_of name writes + successes name ((n, r) ∷ []))
count_write-written n name (ok done) writes = rw lookup-insert (ground (arith, eq_iff n name))
count_write-written n name (err e) writes = omega arith

count_write-failed :
    (n name : String) (r : Result SinkError (Unit {0})) (writes : Writes)
    → u64 (failed_of name (count_write n r writes))
      ≡ u64 (failed_of name writes + failures name ((n, r) ∷ []))
count_write-failed n name (err e) writes = rw lookup-insert (ground (arith, eq_iff n name))
count_write-failed n name (ok done) writes = omega arith

successes-cons :
    (n name : String) (r : Result SinkError (Unit {0}))
    (results : List (String × Result SinkError (Unit {0})))
    → successes name ((n, r) ∷ results) ≡ successes name ((n, r) ∷ []) + successes name results
successes-cons n name (ok done) results = ground arith
successes-cons n name (err e) results = omega arith

failures-cons :
    (n name : String) (r : Result SinkError (Unit {0}))
    (results : List (String × Result SinkError (Unit {0})))
    → failures name ((n, r) ∷ results) ≡ failures name ((n, r) ∷ []) + failures name results
failures-cons n name (err e) results = ground arith
failures-cons n name (ok done) results = omega arith

-- What the results add to the two counters of each name, modulo 2 ^ 64; without metrics, nothing.
abbrev pub Counted :
    List (String × Result SinkError (Unit {0})) → Option Writes → Option Writes → Type 0
Counted results none after = after ≡ none
Counted results (some writes) none = ⊥
Counted results (some writes) (some after) =
    (sink : String)
    → (u64 (written_of sink after) ≡ u64 (written_of sink writes + successes sink results))
      × (u64 (failed_of sink after) ≡ u64 (failed_of sink writes + failures sink results))

counted_none : (writes : Option Writes) → Counted [] writes writes
counted_none none = refl
counted_none (some writes) = λ sink. (omega arith, omega arith)

counted_one :
    (n : String) (r : Result SinkError (Unit {0}))
    (results : List (String × Result SinkError (Unit {0}))) (writes after : Option Writes)
    → Counted results (count_if n r writes) after
    → Counted ((n, r) ∷ results) writes after
counted_one n r results none after h = h
counted_one n r results (some writes) none h = h
counted_one n r results (some writes) (some after) h = λ sink. (
  omega (arith, (h sink).0, count_write-written n sink r writes, successes-cons n sink r results),
  omega (arith, (h sink).1, count_write-failed n sink r writes, failures-cons n sink r results),
)

-- How the loop's last error stands to the results so far.
data Lasting (results : List (String × Result SinkError (Unit {0}))) (last : Option SinkError)
    : Option SinkError → Type 0 where
  unchanged : All IsWell results → Lasting results last last
  failed_at :
      (before after : List (String × Result SinkError (Unit {0}))) (n : String) (e : SinkError)
      → results ≡ before ++ (n, err e) ∷ after
      → All IsWell after
      → Lasting results last (some e)

Lasting-one :
    (n : String) (r : Result SinkError (Unit {0}))
    (results : List (String × Result SinkError (Unit {0}))) (last : Option SinkError)
    {after : Option SinkError}
    → Lasting results (last_error last r) after
    → Lasting ((n, r) ∷ results) last after
Lasting-one n (ok done) results last (unchanged well) = unchanged (refl, well)
Lasting-one n (err e) results last (unchanged well) = failed_at [] results n e refl well
Lasting-one n r results last (failed_at before after m e same well) =
    failed_at ((n, r) ∷ before) after m e (ap (λ rest. (n, r) ∷ rest) same) well

Lasting-EndsWith :
    {results : List (String × Result SinkError (Unit {0}))} {after : Option SinkError}
    → Lasting results none after
    → EndsWith results (fan_out_result after)
Lasting-EndsWith (unchanged well) = all_well well
Lasting-EndsWith (failed_at before after n e same well) = last_failure before after n e same well

module _ {S : Type 0} (name : S → String) (send : Occurrence → S → S × Result SinkError (Unit {0}))
    (flush : S → S × Result SinkError (Unit {0})) where
  abbrev pub result_of : Occurrence → S → String × Result SinkError (Unit {0})
  result_of occurrence s = (name s, (send occurrence s).1)

  -- Every sink is sent to, once and in order, and counted.
  pub record Reached (occurrence : Occurrence) (sinks : List S) (writes : Option Writes)
      (done : FanOut S) : Type 0 where
    pub each : done.sinks ≡ map (λ s. (send occurrence s).0) sinks
    pub counted : Counted (map (result_of occurrence) sinks) writes done.writes

  send_to-Reached :
      (occurrence : Occurrence) (sinks : List S) (writes : Option Writes) (last : Option SinkError)
      → let done = send_to name send flush occurrence sinks writes last in
        Reached occurrence sinks writes done
        × Lasting (map (result_of occurrence) sinks) last done.last_err
  unfolding send_to
  send_to-Reached occurrence [] writes last =
      (record { each = refl; counted = counted_none writes }, unchanged tt)
  send_to-Reached occurrence (s ∷ sinks) writes last =
      let r = (send occurrence s).1 in
      let results = map (result_of occurrence) sinks in
      let (rest, lasting) =
        send_to-Reached occurrence sinks (count_if (name s) r writes) (last_error last r) in
      (
        record {
          each = ap (λ more. (send occurrence s).0 ∷ more) rest.each;
          counted = counted_one (name s) r results writes _ rest.counted;
        },
        Lasting-one (name s) r results last lasting,
      )

  -- A fan-out sends to every sink once and in order, whichever of them fail; it adds to the
  -- counters of each name exactly its successes and its failures, modulo 2 ^ 64, or counts nothing
  -- without metrics; and it ends well if all sinks did, and otherwise with the error of a sink
  -- after which none failed.
  pub multi_send-Reached :
      (occurrence : Occurrence) (sinks : List S) (writes : Option Writes)
      → let done = multi_send name send flush occurrence sinks writes in
        Reached occurrence sinks writes done.0 × EndsWith (map (result_of occurrence) sinks) done.1
  unfolding multi_send
  multi_send-Reached occurrence sinks writes =
      let (reached, lasting) = send_to-Reached occurrence sinks writes none in
      (reached, Lasting-EndsWith lasting)
