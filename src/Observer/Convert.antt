-- ===== src/Observer/Convert.antt =====
-- What the controller sink makes of an occurrence: `occurrence_to_wire_event` of
-- tapio-agent/src/sink/controller.rs with `observer_from_type` and `map_severity`.
use text.Mathlib.Text.{◌==◌}
use Prim.Native.String.{◌++◌}
use tapio.Prelude.{
  String, List, [], ◌∷◌, Result, ok, err, ◌>>=◌, ◌&&◌, not, if◌then◌else◌, unwrap_or,
}
use tapio.Prelude.Strings.{split}
use tapio.Time.Stamp.{timestamp_to_unix_nanos}
use tapio.Wire.Types.{object, end, EventSeverity, WireEvent}
use tapio.Observer.Occurrence.{Severity, Occurrence}

-- `SinkError`, with the text of an I/O error.
pub data SinkError : Type 0 where
  connection send serialization io : String → SinkError

abbrev observer_of : String → List String → Result SinkError String
observer_of event_type (kernel ∷ observer ∷ anomaly ∷ []) =
    if kernel == "kernel" && not (observer == "")
    then ok observer
    else err (serialization ("invalid kernel event type: " ++ event_type))
observer_of event_type parts = err (serialization ("invalid kernel event type: " ++ event_type))

unfoldable pub observer_from_type : String → Result SinkError String
unfolding split
observer_from_type event_type = observer_of event_type (split b'.' event_type)

unfoldable pub map_severity : Severity → EventSeverity
map_severity Severity.debug = EventSeverity.debug
map_severity Severity.info = EventSeverity.info
map_severity Severity.warning = EventSeverity.warning
map_severity Severity.error = EventSeverity.error
map_severity Severity.critical = EventSeverity.critical

unfoldable pub occurrence_to_wire_event : Occurrence → Result SinkError WireEvent
unfolding observer_from_type map_severity
occurrence_to_wire_event occurrence = do
  observer ← observer_from_type occurrence.occurrence_type
  ok (record {
    event_type = occurrence.occurrence_type;
    timestamp_unix_nanos = timestamp_to_unix_nanos occurrence.timestamp;
    observer = observer;
    severity = map_severity occurrence.severity;
    facts = unwrap_or occurrence.data_ (object end);
  })
