-- ===== src/Cli/Recent.antt =====
-- The commands `recent` and `status` of tapio-cli/src/main.rs: the window of time, the order in which the
-- occurrences are shown, and what is written of one. The clock, the serializer and the maximum of the
-- library's durations are parameters; a timestamp is its code points. A slice of a text that would cut a
-- character is a panic, as is a duration that is too long.
use mathlib.Core.List.{reverse}
use tapio.Prelude.{
  ℕ, zero, suc, ◌+◌, ◌-◌, Bool, not, List, [], ◌∷◌, ◌++◌, Option, none, some, Result, ok, err, leb,
  ltb, ◌==◌, if◌then◌else◌, length, is_empty, keep, unwrap_or, and_then,
}
use tapio.Prelude.Text.{codes, bytes_of, encode_utf8, trim}
use tapio.Prelude.Parse.{parse_i64}
use tapio.Prelude.Signed.{le_i64}
use tapio.Prelude.Maps.{Map, lookup, insert}
use tapio.Agent.Httpc.{take_bytes}
use tapio.Observer.Occurrence.{Occurrence, OccurrenceError}
use tapio.Cli.Health.{is_greater, observer_category, severity_label}

pub data DurationUnit : Type 0 where
  seconds minutes hours days : DurationUnit

-- How `parse_duration` ends without a duration; the last is a panic.
pub data DurationError : Type 0 where
  invalid not_a_number not_positive : DurationError
  unknown_unit : ℕ → DurationError
  inside_character : DurationError

abbrev unit_of : ℕ → ℕ → Result DurationError (ℕ × DurationUnit)
unit_of num unit =
    if unit == b's'
    then ok (num, seconds)
    else if unit == b'm'
    then ok (num, minutes)
    else if unit == b'h'
    then ok (num, hours)
    else if unit == b'd'
    then ok (num, days)
    else err (unknown_unit unit)

abbrev with_number : Option ℕ → ℕ → Result DurationError (ℕ × DurationUnit)
with_number none unit = err not_a_number
with_number (some num) unit = if le_i64 num 0 then err not_positive else unit_of num unit

-- The text read from its end: its last character is the unit.
abbrev split_unit : List ℕ → Result DurationError (ℕ × DurationUnit)
split_unit [] = err invalid
split_unit (unit ∷ front) =
    if length (encode_utf8 unit) == 1
    then with_number (parse_i64 (reverse front)) unit
    else err inside_character

unfoldable pub parse_duration : List ℕ → Result DurationError (ℕ × DurationUnit)
unfolding trim le_i64 parse_i64
parse_duration text =
    let s = trim text in if ltb (length (bytes_of s)) 2 then err invalid else split_unit (reverse s)

-- `a >= b` of two texts.
abbrev pub is_at_least : List ℕ → List ℕ → Bool
is_at_least a b = not (is_greater b a)

-- `sort_by` with the timestamps in descending order, which keeps the order of equal ones.
unfoldable pub place : Occurrence → List Occurrence → List Occurrence
place occ [] = occ ∷ []
place occ (o ∷ occurrences) =
    let rest = place occ occurrences in
    if is_greater (Occurrence.timestamp o) (Occurrence.timestamp occ)
    then o ∷ rest
    else occ ∷ o ∷ occurrences

unfoldable pub sort_descending : List Occurrence → List Occurrence
unfolding place is_greater
sort_descending [] = []
sort_descending (occ ∷ occurrences) = place occ (sort_descending occurrences)

abbrev pub take : ℕ → List Occurrence → List Occurrence
take zero occurrences = []
take (suc n) [] = []
take (suc n) (occ ∷ occurrences) = occ ∷ take n occurrences

abbrev pub shown : ℕ
shown = 20

abbrev pub within_window : Option (List ℕ) → List Occurrence → List Occurrence
within_window none occurrences = occurrences
within_window (some cutoff) occurrences =
    keep (λ o. is_at_least (Occurrence.timestamp o) cutoff) occurrences

-- What `cmd_recent` writes, for the cutoff that its window gives.
unfoldable pub recent : Option (List ℕ) → List Occurrence → List Occurrence
unfolding sort_descending
recent cutoff occurrences = take shown (sort_descending (within_window cutoff occurrences))

-- A row of `cmd_status`: how many occurrences an observer has, and the last one.
pub record Row : Type 0 where
  pub count : ℕ
  pub last : Option (List ℕ)

abbrev pub no_row : Row
no_row = record { count = 0; last = none }

abbrev later : List ℕ → Option (List ℕ) → List ℕ
later timestamp none = timestamp
later timestamp (some last) = if is_greater last timestamp then last else timestamp

unfoldable pub add_row : Occurrence → Row → Row
unfolding is_greater
add_row occ row = record { count = row.count + 1; last = some (later occ.timestamp row.last) }

-- The rows are in the order of the observers' names, as the map's entries are.
unfoldable pub by_observer : List Occurrence → Map Row → Map Row
unfolding add_row observer_category
by_observer [] rows = rows
by_observer (occ ∷ occurrences) rows =
    let category = observer_category occ.occurrence_type in
    by_observer occurrences
      (insert category (add_row occ (unwrap_or (lookup category rows) no_row)) rows)

-- The table of `cmd_status` and its total; without an occurrence there is none.
unfoldable pub status : List Occurrence → Option (Map Row × ℕ)
unfolding by_observer
status occurrences =
    if is_empty occurrences then none else some (by_observer occurrences [], length occurrences)

-- `format_timestamp`: the first nineteen bytes; none if they would cut a character.
unfoldable pub format_timestamp : List ℕ → Option (List ℕ)
unfolding take_bytes
format_timestamp ts = if leb 19 (length (bytes_of ts)) then take_bytes 19 ts else some ts

-- The padding of `{severity:<8}`.
abbrev spaces : ℕ → List ℕ
spaces zero = []
spaces (suc n) = b' ' ∷ spaces n

abbrev message_line : Option OccurrenceError → List ℕ
message_line none = []
message_line (some e) = codes "  " ++ (codes e.message ++ 10 ∷ [])

-- `write_occurrence` as text; with `json` it is the serializer's line.
unfoldable pub write_text : Occurrence → Option (List ℕ)
unfolding format_timestamp severity_label
write_text occ =
    let severity = codes (severity_label occ.severity) in
    and_then (format_timestamp occ.timestamp) (λ ts. some (
      (ts
        ++ b' '
          ∷ (severity
              ++ (spaces (8 - length severity)
                  ++ (codes "  " ++ (codes occ.occurrence_type ++ 10 ∷ [])))))
      ++ message_line occ.error))

-- `sort_by` with the timestamps in ascending order, which keeps the order of equal ones.
unfoldable pub place_ascending : Occurrence → List Occurrence → List Occurrence
unfolding is_greater
place_ascending occ [] = occ ∷ []
place_ascending occ (o ∷ occurrences) =
    let rest = place_ascending occ occurrences in
    if is_greater (Occurrence.timestamp occ) (Occurrence.timestamp o)
    then o ∷ rest
    else occ ∷ o ∷ occurrences

unfoldable pub sort_ascending : List Occurrence → List Occurrence
unfolding place_ascending
sort_ascending [] = []
sort_ascending (occ ∷ occurrences) = place_ascending occ (sort_ascending occurrences)
