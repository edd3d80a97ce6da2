-- ===== src/Time/Stamp.antt =====
-- Timestamps: `unix_nanos_to_rfc3339` of tapio-common/src/occurrence.rs writes them, and
-- `timestamp_to_unix_nanos` of tapio-agent/src/sink/controller.rs reads them back from the text. Both
-- are on code points.
use tapio.Prelude.{
  ℕ, zero, suc, ◌+◌, ◌-◌, ◌*◌, ◌/◌, ◌%◌, ◌==◌, if◌then◌else◌, Option, none, some, List, [], ◌∷◌,
  ◌++◌, and_then, unwrap_or, saturating_add, saturating_mul, u64,
}
use tapio.Prelude.Text.{codes}
use tapio.Prelude.Parse.{parse_u64, parse_i64}
use tapio.Prelude.Split.{split_once, split, strip_suffix}
use tapio.Prelude.Padded.{padded, is_digit}
use tapio.Prelude.Signed.{is_negative}
use tapio.Time.Civil.{Date, civil_from_days, days_from_civil}

infixl 5 ◌>>=◌
abbrev ◌>>=◌ : {A B : Type 0} → Option A → (A → Option B) → Option B
m >>= k = and_then m k

-- `{year:04}-{month:02}-{day:02}`.
unfoldable pub print_date : Date → List ℕ
print_date date =
    padded 4 (Date.year date)
    ++ b'-' ∷ (padded 2 (Date.month date) ++ b'-' ∷ padded 2 (Date.day date))

-- `{hour:02}:{minute:02}:{second:02}` of a second of the day.
unfoldable pub print_clock : ℕ → List ℕ
print_clock seconds_of_day =
    padded 2 (seconds_of_day / 3600)
    ++ b':' ∷ (padded 2 ((seconds_of_day % 3600) / 60) ++ b':' ∷ padded 2 (seconds_of_day % 60))

unfoldable pub unix_nanos_to_rfc3339 : ℕ → List ℕ
unfolding print_date print_clock
unix_nanos_to_rfc3339 nanos =
    let secs = nanos / 1_000_000_000 in
    let subsec_nanos = nanos % 1_000_000_000 in
    let days = secs / 86_400 in
    let seconds_of_day = secs % 86_400 in
    if subsec_nanos == 0
    then print_date (civil_from_days days) ++ b'T' ∷ (print_clock seconds_of_day ++ codes "+00:00")
    else print_date (civil_from_days days)
      ++ b'T' ∷ ((print_clock seconds_of_day ++ b'.' ∷ padded 9 subsec_nanos) ++ codes "+00:00")

-- The first three parts of a text, each by the parser of an integer type.
unfoldable pub parse_three : (List ℕ → Option ℕ) → List (List ℕ) → Option (ℕ × ℕ × ℕ)
parse_three parse (a ∷ b ∷ c ∷ rest) = do x ← parse a; y ← parse b; z ← parse c; some (x, y, z)
parse_three parse parts = none

unfoldable pub parse_date : List ℕ → Option (ℕ × ℕ × ℕ)
unfolding parse_three
parse_date date = parse_three parse_i64 (split b'-' date)

unfoldable pub parse_time : List ℕ → Option (ℕ × ℕ × ℕ)
unfolding parse_three
parse_time time = parse_three parse_u64 (split b':' time)

-- The loop over the first nine characters: the value, and how many digits it has.
unfoldable pub read_digits : ℕ → ℕ → ℕ → List ℕ → ℕ × ℕ
read_digits zero value digits cs = (value, digits)
read_digits (suc left) value digits [] = (value, digits)
read_digits (suc left) value digits (c ∷ cs) =
    let rest =
      read_digits left (saturating_add (saturating_mul value 10) (c - b'0')) (digits + 1) cs in
    if is_digit c then rest else (value, digits)

unfoldable pub scale : ℕ → ℕ → ℕ
scale zero value = value
scale (suc n) value = scale n (saturating_mul value 10)

unfoldable pub fraction_nanos : List ℕ → ℕ
unfolding read_digits scale
fraction_nanos fraction =
    let (value, digits) = read_digits 9 0 0 fraction in scale (9 - digits) value

-- `strip_suffix("+00:00")`, or else `strip_suffix('Z')`, or else the whole.
unfoldable pub strip_zone : List ℕ → List ℕ
strip_zone time =
    unwrap_or (strip_suffix (codes "+00:00") time) (unwrap_or (strip_suffix (b'Z' ∷ []) time) time)

-- The nanoseconds of a date, a time of day and a fraction.
unfoldable pub combine : ℕ → ℕ × ℕ × ℕ → ℕ → ℕ
combine days (hour, minute, second) nanos =
    if is_negative days
    then 0
    else saturating_add
        (saturating_mul
          (saturating_add (saturating_mul days 86_400) (u64 (hour * 3_600 + minute * 60 + second)))
          1_000_000_000)
        nanos

unfoldable pub timestamp_to_unix_nanos : List ℕ → ℕ
unfolding parse_date parse_time fraction_nanos strip_zone combine
timestamp_to_unix_nanos timestamp =
    unwrap_or
      (do
        (date, time) ← split_once b'T' timestamp
        (year, month, day) ← parse_date date
        let (clock, fraction) = unwrap_or (split_once b'.' (strip_zone time)) (strip_zone time, [])
        hms ← parse_time clock
        some (combine (days_from_civil year month day) hms (fraction_nanos fraction)))
      0
