-- ===== src/Time/Civil.antt =====
-- `civil_from_days` of tapio-common/src/occurrence.rs and `days_from_civil` of
-- tapio-agent/src/sink/controller.rs. A day number comes from the seconds of a `u64`, so it is never
-- negative where it is turned into a date; the way back is on `i64`, with its wrap-around.
use tapio.Prelude.{ℕ, ◌+◌, ◌-◌, ◌*◌, ◌/◌, ltb, not, if◌then◌else◌}
use tapio.Prelude.Signed.{is_negative, add_i64, sub_i64, mul_i64, div_i64, le_i64}

pub record Date : Type 0 where
  pub year : ℕ
  pub month : ℕ
  pub day : ℕ

abbrev pub year_of_era : ℕ → ℕ
year_of_era doe = (doe - doe / 1460 + doe / 36524 - doe / 146096) / 365

unfoldable pub civil_from_days : ℕ → Date
civil_from_days days_since_unix_epoch =
    let z = days_since_unix_epoch + 719_468 in
    let era = z / 146_097 in
    let doe = z - era * 146_097 in
    let yoe = (doe - doe / 1_460 + doe / 36_524 - doe / 146_096) / 365 in
    let doy = doe - (365 * yoe + yoe / 4 - yoe / 100) in
    let mp = (5 * doy + 2) / 153 in
    let month = if ltb mp 10 then mp + 3 else mp - 9 in
    record {
      year = if ltb 2 month then yoe + era * 400 else yoe + era * 400 + 1;
      month = month;
      day = doy - (153 * mp + 2) / 5 + 1;
    }

-- The steps of `days_from_civil`, on words of `i64`.
unfoldable pub era_of : ℕ → ℕ
era_of year = div_i64 (if not (is_negative year) then year else sub_i64 year 399) 400

unfoldable pub shifted_month : ℕ → ℕ
shifted_month month = if not (le_i64 month 2) then sub_i64 month 3 else add_i64 month 9

unfoldable pub day_of_year : ℕ → ℕ → ℕ
day_of_year month day = sub_i64 (add_i64 (div_i64 (add_i64 (mul_i64 153 month) 2) 5) day) 1

unfoldable pub day_of_era : ℕ → ℕ → ℕ
day_of_era yoe doy =
    add_i64 (sub_i64 (add_i64 (mul_i64 yoe 365) (div_i64 yoe 4)) (div_i64 yoe 100)) doy

unfoldable pub days_from_civil : ℕ → ℕ → ℕ → ℕ
unfolding era_of shifted_month day_of_year day_of_era
days_from_civil year month day =
    let year = sub_i64 year (if le_i64 month 2 then 1 else 0) in
    let era = era_of year in
    let yoe = sub_i64 year (mul_i64 era 400) in
    let doe = day_of_era yoe (day_of_year (shifted_month month) day) in
    sub_i64 (add_i64 (mul_i64 era 146_097) doe) 719_468
