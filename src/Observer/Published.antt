-- ===== src/Observer/Published.antt =====
-- An anomaly of an observer reaches the controller: its occurrence is valid, the sink converts it, the
-- wire's check accepts the event, and the event keeps type, observer, severity and nanosecond.
use tapio.Prelude.{
  ℕ, String, Bool, true, false, [], Option, none, some, ok, ◌≡◌, refl, ◌<◌, ◌^◌, IsOk,
  if◌then◌else◌,
}
use tapio.Time.Stamp.{unix_nanos_to_rfc3339}
use tapio.Time.RoundTrip.{timestamp_to_unix_nanos-unix_nanos_to_rfc3339}
use tapio.Wire.Types.{Value, WireEvent}
use tapio.Wire.Facts.{reject_reasoning_fields}
use tapio.Wire.Validate
use tapio.Wire.Validate.{required}
use tapio.Prelude.Text.{is_blank}
use text.Mathlib.Text.{starts_with}
use tapio.Profile.Floats.{FloatOps}
use tapio.Observer.Occurrence.{Occurrence, validate, type_errors}
use tapio.Observer.Convert.{occurrence_to_wire_event, observer_from_type, map_severity}
use tapio.Observer.Anomaly.{FloatText, float}

pub record IsPublished (observer : String) (nanos : ℕ) (occurrence : Occurrence) (event : WireEvent)
    : Type 0 where
  pub valid : IsOk (validate occurrence)
  pub converted : occurrence_to_wire_event occurrence ≡ ok event
  pub accepted : IsOk (Validate.wire_event event)
  pub same_type : event.event_type ≡ occurrence.occurrence_type
  pub same_observer : event.observer ≡ observer
  pub same_time : event.timestamp_unix_nanos ≡ nanos
  pub same_severity : event.severity ≡ map_severity occurrence.severity

-- The event that the sink sends for an occurrence.
abbrev pub Sent : String → ℕ → Option Occurrence → Type 0
Sent observer nanos none = Unit
Sent observer nanos (some occurrence) =
    (event : WireEvent) × IsPublished observer nanos occurrence event

pub either {ℓ κ} :
    {A : Type ℓ} (P : A → Type κ) (b : Bool) {x y : A} → P x → P y → P (if b then x else y)
either P true p q = p
either P false p q = q

-- The type of an event names its observer.
abbrev pub Names : String → String → Type 0
Names observer occurrence_type =
    (type_errors occurrence_type ≡ [])
    × (observer_from_type occurrence_type ≡ ok observer)
    × (is_blank occurrence_type ≡ false)
    × (is_blank observer ≡ false)
    × (starts_with occurrence_type "kernel." ≡ true)

pub published :
    (occurrence : Occurrence) (observer : String) (nanos : ℕ) (facts : Value)
    → nanos < 2 ^ 64
    → occurrence.timestamp ≡ unix_nanos_to_rfc3339 nanos
    → occurrence.source ≡ "tapio"
    → occurrence.protocol_version ≡ "1.0"
    → occurrence.data_ ≡ some facts
    → Names observer occurrence.occurrence_type
    → IsOk (reject_reasoning_fields "$" facts)
    → Sent observer nanos (some occurrence)
unfolding occurrence_to_wire_event validate Validate.wire_event required
published occurrence observer nanos facts small stamp source version data_
      (typed, named, type, filled, kernel) accepted =
    (
      record {
        event_type = occurrence.occurrence_type;
        timestamp_unix_nanos = nanos;
        observer = observer;
        severity = map_severity occurrence.severity;
        facts = facts;
      },
      record {
        valid = rw (source, version, typed) refl;
        converted =
            rw (named, data_, stamp, timestamp_to_unix_nanos-unix_nanos_to_rfc3339 nanos small)
              refl;
        accepted = rw (type, filled, kernel) accepted;
        same_type = refl;
        same_observer = refl;
        same_time = refl;
        same_severity = refl;
      },
    )

pub float_accepted :
    {F : Type 0} (f : FloatOps F) (t : FloatText F) (path : String) (x : F)
    → IsOk (reject_reasoning_fields path (float f t x))
unfolding reject_reasoning_fields
float_accepted f t path x =
    let P : Value → Type 0 = λ v. IsOk (reject_reasoning_fields path v) in
    either P (f.is_finite x) refl refl
