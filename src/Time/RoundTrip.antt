-- ===== src/Time/RoundTrip.antt =====
-- A timestamp is read back as the nanoseconds it was written from.
use tapio.Prelude.{
  ℕ, zero, suc, ◌+◌, ◌-◌, ◌*◌, ◌/◌, ◌%◌, ◌^◌, ◌≤◌, ◌<◌, ◌≡◌, refl, ◌∙◌, ap, ◌==◌, true, false,
  arith, Bool-cases, inl, inr, some, List, [], ◌∷◌, ◌++◌, unwrap_or, saturating_add, saturating_mul,
  length,
}
use tapio.Prelude.Text.{codes}
use tapio.Prelude.Parse.{parse_digits, push_digit}
use tapio.Prelude.Split.{
  split_once, free, free-append, split_once-append, split_once-free, split-append, split-free,
  strip_suffix-append,
}
use tapio.Prelude.Padded.{
  padded, is_digit, free-padded, parse_u64-padded, parse_i64-padded, length-padded,
  parse_digits-padded,
}
use tapio.Prelude.Signed.{is_negative}
use tapio.Time.Civil.{Date, civil_from_days, days_from_civil}
use tapio.Time.Days.{days_from_civil-civil_from_days, civil_from_days-small}
use tapio.Time.Stamp.{
  print_date, print_clock, unix_nanos_to_rfc3339, parse_three, parse_date, parse_time, read_digits,
  scale, fraction_nanos, strip_zone, combine, timestamp_to_unix_nanos,
}

parse_date-print_date :
    (date : Date)
    → Date.year date < 2 ^ 63
    → Date.month date < 2 ^ 63
    → Date.day date < 2 ^ 63
    → parse_date (print_date date) ≡ some (Date.year date, Date.month date, Date.day date)
unfolding parse_date print_date parse_three is_digit
parse_date-print_date date a b c =
    rw
      (
        split-append b'-' (padded 4 (Date.year date))
            (padded 2 (Date.month date) ++ b'-' ∷ padded 2 (Date.day date))
            (free-padded b'-' 4 (Date.year date) refl (omega arith)),
        split-append b'-' (padded 2 (Date.month date)) (padded 2 (Date.day date))
            (free-padded b'-' 2 (Date.month date) refl (omega arith)),
        split-free b'-' (padded 2 (Date.day date))
            (free-padded b'-' 2 (Date.day date) refl (omega arith)),
        parse_i64-padded 4 (Date.year date) a,
        parse_i64-padded 2 (Date.month date) b,
        parse_i64-padded 2 (Date.day date) c,
      )
      refl

parse_time-print_clock :
    (s : ℕ) → s < 86400 → parse_time (print_clock s) ≡ some (s / 3600, (s % 3600) / 60, s % 60)
unfolding parse_time print_clock parse_three is_digit
parse_time-print_clock s h =
    let hour = s / 3600 in
    let minute = (s % 3600) / 60 in
    let second = s % 60 in
    rw
      (
        split-append b':' (padded 2 hour) (padded 2 minute ++ b':' ∷ padded 2 second)
            (free-padded b':' 2 hour refl (omega arith)),
        split-append b':' (padded 2 minute) (padded 2 second)
            (free-padded b':' 2 minute refl (omega arith)),
        split-free b':' (padded 2 second) (free-padded b':' 2 second refl (omega arith)),
        parse_u64-padded 2 hour (omega arith),
        parse_u64-padded 2 minute (omega arith),
        parse_u64-padded 2 second (omega arith),
      )
      refl

-- A mark between two texts that another mark is not in.
free-joined :
    (mark sep : ℕ) (xs ys : List ℕ)
    → (sep == mark) ≡ false
    → free mark xs ≡ true
    → free mark ys ≡ true
    → free mark (xs ++ sep ∷ ys) ≡ true
free-joined mark sep xs ys h k l = free-append mark xs (sep ∷ ys) k (ground arith)

free-print_date :
    (date : Date)
    → Date.year date < 2 ^ 63
    → Date.month date < 2 ^ 63
    → Date.day date < 2 ^ 63
    → free b'T' (print_date date) ≡ true
unfolding print_date is_digit
free-print_date date a b c =
    free-joined b'T' b'-' (padded 4 (Date.year date))
      (padded 2 (Date.month date) ++ b'-' ∷ padded 2 (Date.day date)) refl
      (free-padded b'T' 4 (Date.year date) refl (omega arith))
      (free-joined b'T' b'-' (padded 2 (Date.month date)) (padded 2 (Date.day date)) refl
        (free-padded b'T' 2 (Date.month date) refl (omega arith))
        (free-padded b'T' 2 (Date.day date) refl (omega arith)))

free-print_clock : (s : ℕ) → s < 86400 → free b'.' (print_clock s) ≡ true
unfolding print_clock is_digit
free-print_clock s h =
    free-joined b'.' b':' (padded 2 (s / 3600))
      (padded 2 ((s % 3600) / 60) ++ b':' ∷ padded 2 (s % 60)) refl
      (free-padded b'.' 2 (s / 3600) refl (omega arith))
      (free-joined b'.' b':' (padded 2 ((s % 3600) / 60)) (padded 2 (s % 60)) refl
        (free-padded b'.' 2 ((s % 3600) / 60) refl (omega arith))
        (free-padded b'.' 2 (s % 60) refl (omega arith)))

-- The loop reads what the parser of a `u64` reads.
read_digits-value :
    (left value digits n : ℕ) (cs : List ℕ)
    → parse_digits (2 ^ 64) value cs ≡ some n
    → length cs ≤ left
    → read_digits left value digits cs ≡ (n, digits + length cs)
unfolding read_digits parse_digits push_digit is_digit
read_digits-value zero value digits n [] h k = ground arith
read_digits-value zero value digits n (c ∷ cs) h k = ground arith
read_digits-value (suc left) value digits n [] h k = ground arith
read_digits-value (suc left) value digits n (c ∷ cs) h k =
    ground (arith, read_digits-value left (10 * value + (c - b'0')) (digits + 1) n cs)

fraction_nanos-padded : (n : ℕ) → n < 1_000_000_000 → fraction_nanos (padded 9 n) ≡ n
unfolding fraction_nanos scale
fraction_nanos-padded n h =
    let nine = length-padded 8 n h in
    rw
      (
        read_digits-value 9 0 0 n (padded 9 n)
            (parse_digits-padded (2 ^ 64) 9 n (omega arith) (omega arith)) (omega arith),
        nine,
      )
      refl

-- Every time is read from its text: date, clock and fraction.
read_back :
    (z s n : ℕ)
    → z ≤ 213503
    → s < 86400
    → n < 1_000_000_000
    → combine z (s / 3600, (s % 3600) / 60, s % 60) n
      ≡ saturating_add (saturating_mul (z * 86400 + s) 1_000_000_000) n
unfolding combine is_negative
read_back z s n h k l = ground arith

reads :
    (date : Date) (time clock fraction : List ℕ) (hms : ℕ × ℕ × ℕ) (days : ℕ)
    → Date.year date < 2 ^ 63
    → Date.month date < 2 ^ 63
    → Date.day date < 2 ^ 63
    → days_from_civil (Date.year date) (Date.month date) (Date.day date) ≡ days
    → unwrap_or (split_once b'.' (strip_zone time)) (strip_zone time, []) ≡ (clock, fraction)
    → parse_time clock ≡ some hms
    → timestamp_to_unix_nanos (print_date date ++ b'T' ∷ time)
      ≡ combine days hms (fraction_nanos fraction)
unfolding timestamp_to_unix_nanos
reads date time clock fraction hms days a b c d e f =
    rw
      (
        split_once-append b'T' (print_date date) time (free-print_date date a b c),
        parse_date-print_date date a b c,
        e,
        f,
        d,
      )
      refl

strip_zone-utc : (cs : List ℕ) → strip_zone (cs ++ codes "+00:00") ≡ cs
unfolding strip_zone
strip_zone-utc cs = rw (strip_suffix-append (codes "+00:00") cs) refl

-- The text of a clock, with or without a fraction, is taken apart.
clock-whole :
    (s : ℕ)
    → s < 86400
    → let time = print_clock s ++ codes "+00:00" in
      unwrap_or (split_once b'.' (strip_zone time)) (strip_zone time, []) ≡ (print_clock s, [])
clock-whole s h =
    rw (strip_zone-utc (print_clock s), split_once-free b'.' (print_clock s) (free-print_clock s h))
      refl

clock-fraction :
    (s n : ℕ)
    → s < 86400
    → let time = (print_clock s ++ b'.' ∷ padded 9 n) ++ codes "+00:00" in
      unwrap_or (split_once b'.' (strip_zone time)) (strip_zone time, [])
      ≡ (print_clock s, padded 9 n)
clock-fraction s n h =
    rw
      (
        strip_zone-utc (print_clock s ++ b'.' ∷ padded 9 n),
        split_once-append b'.' (print_clock s) (padded 9 n) (free-print_clock s h),
      )
      refl

sums-back :
    (n : ℕ)
    → n < 2 ^ 64
    → let secs = n / 1_000_000_000 in
      saturating_add
        (saturating_mul (secs / 86400 * 86400 + secs % 86400) 1_000_000_000)
        (n % 1_000_000_000)
      ≡ n
sums-back n h = omega arith

fraction_nanos-none : fraction_nanos [] ≡ 0
unfolding fraction_nanos read_digits scale
fraction_nanos-none = refl

-- Every time of 64 bits is read back from the text of its timestamp, to the nanosecond.
pub timestamp_to_unix_nanos-unix_nanos_to_rfc3339 :
    (nanos : ℕ) → nanos < 2 ^ 64 → timestamp_to_unix_nanos (unix_nanos_to_rfc3339 nanos) ≡ nanos
unfolding unix_nanos_to_rfc3339
timestamp_to_unix_nanos-unix_nanos_to_rfc3339 nanos h =
    let secs = nanos / 1_000_000_000 in
    let n = nanos % 1_000_000_000 in
    let z = secs / 86400 in
    let s = secs % 86400 in
    let (a, b, c) = civil_from_days-small z (omega arith) in
    let combined = read_back z s n (omega arith) (omega arith) (omega arith) ∙ sums-back nanos h in
    let civil = days_from_civil-civil_from_days z (omega arith) in
    let clock = parse_time-print_clock s (omega arith) in
    elim (Bool-cases (n == 0)) [
      | inl whole ↦
          let empty : 0 ≡ n = ground arith in
          rw
            (
              whole,
              reads (civil_from_days z) (print_clock s ++ codes "+00:00") (print_clock s) []
                  (s / 3600, (s % 3600) / 60, s % 60) z (omega arith) (omega arith) (omega arith)
                  civil (clock-whole s (omega arith)) clock,
              fraction_nanos-none,
            )
            (ap (combine z (s / 3600, (s % 3600) / 60, s % 60)) empty ∙ combined)
      | inr part ↦
          rw
            (
              part,
              reads (civil_from_days z) ((print_clock s ++ b'.' ∷ padded 9 n) ++ codes "+00:00")
                  (print_clock s) (padded 9 n) (s / 3600, (s % 3600) / 60, s % 60) z (omega arith)
                  (omega arith) (omega arith) civil (clock-fraction s n (omega arith)) clock,
              fraction_nanos-padded n (omega arith),
            )
            combined
    ]
