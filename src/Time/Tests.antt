-- ===== src/Time/Tests.antt =====
-- The times of the code's own tests, and the theorem at one of them.
use tapio.Prelude.Split.{split_once}
use tapio.Prelude.Split.{split_once, split, strip_suffix}
use tapio.Prelude.Parse.{parse_i64, parse_u64}
use tapio.Prelude.Signed.{is_negative, sub_i64, add_i64, mul_i64, div_i64, le_i64}
use tapio.Prelude.Split.{split_once, split, strip_suffix}
use tapio.Prelude.Parse.{parse_i64, parse_u64}
use tapio.Prelude.Signed.{is_negative, sub_i64, add_i64, mul_i64, div_i64, le_i64}
use tapio.Prelude.Padded.{is_digit}
use tapio.Prelude.Padded.{padded}
use tapio.Prelude.Decimal.{to_string}
use tapio.Prelude.Padded.{padded}
use tapio.Prelude.Decimal.{to_string}
use tapio.Prelude.{◌≡◌, refl, arith}
use tapio.Prelude.Text.{codes}
use tapio.Time.Civil.{civil_from_days, days_from_civil}
use tapio.Time.Stamp.{unix_nanos_to_rfc3339, timestamp_to_unix_nanos}
use tapio.Time.RoundTrip.{timestamp_to_unix_nanos-unix_nanos_to_rfc3339}

epoch : unix_nanos_to_rfc3339 0 ≡ codes "1970-01-01T00:00:00+00:00"
unfolding unix_nanos_to_rfc3339 padded to_string civil_from_days
epoch = refl

with_fraction :
    unix_nanos_to_rfc3339 1_700_000_000_123_456_789 ≡ codes "2023-11-14T22:13:20.123456789+00:00"
unfolding unix_nanos_to_rfc3339 padded to_string civil_from_days
with_fraction = refl

leap_day : timestamp_to_unix_nanos (codes "2024-02-29T23:59:59.5Z") ≡ 1_709_251_199_500_000_000
unfolding timestamp_to_unix_nanos split_once split parse_i64 strip_suffix parse_u64 is_negative
    days_from_civil sub_i64 add_i64 mul_i64 div_i64 le_i64 is_digit
leap_day = refl

before_epoch : timestamp_to_unix_nanos (codes "1969-12-31T23:59:59Z") ≡ 0
unfolding timestamp_to_unix_nanos split_once split parse_i64 strip_suffix parse_u64 is_negative
    days_from_civil sub_i64 add_i64 mul_i64 div_i64 le_i64
before_epoch = refl

no_time : timestamp_to_unix_nanos (codes "2024-02-29") ≡ 0
unfolding timestamp_to_unix_nanos split_once
no_time = refl

timestamp_to_unix_nanos-unix_nanos_to_rfc3339_example :
    timestamp_to_unix_nanos (unix_nanos_to_rfc3339 1_700_000_000_123_456_789)
    ≡ 1_700_000_000_123_456_789
timestamp_to_unix_nanos-unix_nanos_to_rfc3339_example =
    timestamp_to_unix_nanos-unix_nanos_to_rfc3339 1_700_000_000_123_456_789 (omega arith)
