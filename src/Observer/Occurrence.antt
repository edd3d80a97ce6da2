-- ===== src/Observer/Occurrence.antt =====
-- The anomaly event of tapio-common/src/occurrence.rs: its blocks, its builder and its check. Its
-- identifier and the clock are arguments; its timestamp is kept as code points.
use text.Mathlib.Text.{◌==◌ as str_eq}
use tapio.Prelude.{
  ℕ, String, Bool, List, [], ◌∷◌, ◌++◌, Option, none, some, Result, ok, err, if◌then◌else◌, any,
  length, ◌==◌, not, ◌||◌,
}
use tapio.Prelude.Strings.{split}
use tapio.Time.Stamp.{unix_nanos_to_rfc3339}
use tapio.Wire.Types.{Value}

pub data Severity : Type 0 where
  debug info warning error critical : Severity

pub data Outcome : Type 0 where
  success failure timeout in_progress unknown : Outcome

pub record OccurrenceError : Type 0 where
  pub code : String
  pub message : String
  pub what_failed : Option String
  pub why_it_matters : Option String
  pub possible_causes : Option (List String)
  pub suggested_fix : Option String

-- A floating-point confidence, which no code fills or reads, is kept by its spelling.
pub record Reasoning : Type 0 where
  pub summary : Option String
  pub explanation : Option String
  pub confidence : Option String
  pub causal_chain : Option (List String)
  pub patterns_matched : Option (List String)

pub record History : Type 0 where
  pub previous_ids : Option (List String)
  pub lifecycle : Option String

pub record Entity : Type 0 where
  pub kind : String
  pub id : String
  pub name : Option String
  pub version : Option String

pub record Context : Type 0 where
  pub cluster : Option String
  pub node : Option String
  pub namespace : Option String
  pub trace_id : Option String
  pub span_id : Option String
  pub entities : List Entity
  pub correlation_keys : List String

pub record Occurrence : Type 0 where
  pub id : String
  pub timestamp : List ℕ
  pub source : String
  pub occurrence_type : String
  pub severity : Severity
  pub outcome : Outcome
  pub protocol_version : String
  pub error : Option OccurrenceError
  pub context : Option Context
  pub reasoning : Option Reasoning
  pub history : Option History
  pub data_ : Option Value

-- `Occurrence::new_at`, with a fresh identifier.
unfoldable pub new_at : String → String → Severity → Outcome → ℕ → Occurrence
new_at id occurrence_type severity outcome wall_ns = record {
  id = id;
  timestamp = unix_nanos_to_rfc3339 wall_ns;
  source = "tapio";
  occurrence_type = occurrence_type;
  severity = severity;
  outcome = outcome;
  protocol_version = "1.0";
  error = none;
  context = none;
  reasoning = none;
  history = none;
  data_ = none;
}

-- `Occurrence::new`, with the nanoseconds that `now_rfc3339` reads from the clock.
unfoldable pub new : String → ℕ → String → Severity → Outcome → Occurrence
new id nanos occurrence_type severity outcome = record {
  id = id;
  timestamp = unix_nanos_to_rfc3339 nanos;
  source = "tapio";
  occurrence_type = occurrence_type;
  severity = severity;
  outcome = outcome;
  protocol_version = "1.0";
  error = none;
  context = none;
  reasoning = none;
  history = none;
  data_ = none;
}

unfoldable pub with_error : Occurrence → String → String → Occurrence
with_error occ code message = record occ {
  error = some (record {
    code = code;
    message = message;
    what_failed = none;
    why_it_matters = none;
    possible_causes = none;
    suggested_fix = none;
  });
}

unfoldable pub with_context : Occurrence → Context → Occurrence
with_context occ ctx = record occ { context = some ctx }

unfoldable pub with_data : Occurrence → Value → Occurrence
with_data occ value = record occ { data_ = some value }

abbrev is_empty_text : String → Bool
is_empty_text s = str_eq s ""

unfoldable pub type_errors : String → List String
unfolding split
type_errors occurrence_type =
    if is_empty_text occurrence_type
    then "type is required" ∷ []
    else let segments = split b'.' occurrence_type in
      if not (length segments == 3) || any is_empty_text segments
      then "type must have exactly 3 non-empty dot-separated segments" ∷ []
      else []

abbrev finished : List String → Result (List String) (Unit {0})
finished [] = ok tt
finished (e ∷ errors) = err (e ∷ errors)

unfoldable pub validate : Occurrence → Result (List String) (Unit {0})
unfolding type_errors
validate occ = finished (
    (if is_empty_text occ.source then "source is required" ∷ [] else [])
    ++ type_errors occ.occurrence_type
    ++ (if is_empty_text occ.protocol_version then "protocol_version is required" ∷ [] else []))
