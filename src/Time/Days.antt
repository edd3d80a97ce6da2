-- ===== src/Time/Days.antt =====
-- The day of a date is found again: `days_from_civil` of the controller sink undoes `civil_from_days`.
use tapio.Prelude.{
  ℕ, ◌+◌, ◌-◌, ◌*◌, ◌/◌, ◌%◌, ◌≤◌, ◌<◌, ◌≡◌, refl, ◌∙◌, ltb, true, false, if◌then◌else◌, arith,
  Bool-cases, inl, inr,
}
use tapio.Prelude.Signed.{is_negative, add_i64, sub_i64, mul_i64, div_i64, le_i64}
use tapio.Time.Civil.{
  Date, year_of_era, civil_from_days, era_of, shifted_month, day_of_year, day_of_era,
  days_from_civil,
}

year_bounds :
    (doe : ℕ)
    → doe < 146097
    → let yoe = year_of_era doe in
      (365 * yoe + yoe / 4 - yoe / 100 ≤ doe)
      × (doe ≤ 365 * yoe + yoe / 4 - yoe / 100 + 365)
      × (yoe < 400)
year_bounds doe h = omega arith

month_bounds :
    (doy : ℕ)
    → doy ≤ 365
    → let mp = (5 * doy + 2) / 153 in
      ((153 * mp + 2) / 5 ≤ doy) × (mp ≤ 11) × (doy ≤ (153 * mp + 2) / 5 + 30)
month_bounds doy h = omega arith

era_of-plain : (year : ℕ) → year < 10000 → era_of year ≡ year / 400
unfolding era_of is_negative div_i64
era_of-plain year h = ground arith

shifted_month-plain :
    (month : ℕ) → month ≤ 12 → shifted_month month ≡ (if ltb 2 month then month - 3 else month + 9)
unfolding shifted_month sub_i64 add_i64 le_i64
shifted_month-plain month h = ground arith

day_of_year-plain :
    (month day : ℕ)
    → month ≤ 11
    → 1 ≤ day
    → day ≤ 31
    → day_of_year month day ≡ (153 * month + 2) / 5 + day - 1
unfolding day_of_year is_negative sub_i64 add_i64 mul_i64 div_i64
day_of_year-plain month day a b c = ground arith

day_of_era-plain :
    (yoe doy : ℕ)
    → yoe < 400
    → doy ≤ 366
    → day_of_era yoe doy ≡ yoe * 365 + yoe / 4 - yoe / 100 + doy
unfolding day_of_era is_negative sub_i64 add_i64 mul_i64 div_i64
day_of_era-plain yoe doy a b = ground arith

first_year-plain :
    (year month : ℕ)
    → 1 ≤ year
    → year < 10000
    → month ≤ 12
    → sub_i64 year (if le_i64 month 2 then 1 else 0) ≡ (if ltb 2 month then year else year - 1)
unfolding sub_i64 le_i64
first_year-plain year month a b c = ground arith

-- The era, the year of the era and the day of the year of a plain date.
days-plain :
    (era yoe doy : ℕ)
    → era < 25
    → yoe < 400
    → doy ≤ 366
    → 719468 ≤ era * 146097 + (yoe * 365 + yoe / 4 - yoe / 100 + doy)
    → sub_i64 (add_i64 (mul_i64 era 146097) (yoe * 365 + yoe / 4 - yoe / 100 + doy)) 719468
      ≡ era * 146097 + (yoe * 365 + yoe / 4 - yoe / 100 + doy) - 719468
unfolding sub_i64 add_i64 mul_i64
days-plain era yoe doy a b c d = omega arith

yoe-plain : (year : ℕ) → year < 10000 → sub_i64 year (mul_i64 (year / 400) 400) ≡ year % 400
unfolding sub_i64 mul_i64
yoe-plain year h = omega arith

-- The day a date of the proleptic calendar falls on, as the code counts it.
abbrev day_count : ℕ → ℕ → ℕ → ℕ
day_count y mp day =
    y / 400 * 146097
    + ((y % 400) * 365 + (y % 400) / 4 - (y % 400) / 100 + ((153 * mp + 2) / 5 + day - 1))

days_from_civil-plain :
    (year month day y mp : ℕ)
    → 1 ≤ year
    → year < 10000
    → month ≤ 12
    → 1 ≤ day
    → day ≤ 31
    → (if ltb 2 month then year else year - 1) ≡ y
    → (if ltb 2 month then month - 3 else month + 9) ≡ mp
    → 719468 ≤ day_count y mp day
    → mp ≤ 11
    → (153 * mp + 2) / 5 + day - 1 ≤ 366
    → days_from_civil year month day ≡ day_count y mp day - 719468
unfolding days_from_civil
days_from_civil-plain year month day y mp a b c d e f g h i j =
    let below : y < 10000 = ground arith in
    rw
      (
        first_year-plain year month a b c,
        f,
        era_of-plain y below,
        shifted_month-plain month c,
        g,
        day_of_year-plain mp day i d e,
        yoe-plain y below,
        day_of_era-plain (y % 400) ((153 * mp + 2) / 5 + day - 1) (omega arith) j,
      )
      (days-plain (y / 400) (y % 400) ((153 * mp + 2) / 5 + day - 1) (omega arith) (omega arith) j
        h)

blocks-back :
    (era doe : ℕ)
    → doe < 146097
    → let yoe = year_of_era doe in
      let doy = doe - (365 * yoe + yoe / 4 - yoe / 100) in
      let mp = (5 * doy + 2) / 153 in
      day_count (yoe + era * 400) mp (doy - (153 * mp + 2) / 5 + 1) ≡ era * 146097 + doe
blocks-back era doe h =
    let yoe = year_of_era doe in
    let doy = doe - (365 * yoe + yoe / 4 - yoe / 100) in
    let (lo, hi, y) = year_bounds doe h in
    let (m, n, o) = month_bounds doy (omega arith) in omega arith

-- The day numbers up to 213,503 are those of the seconds and nanoseconds of a `u64`.
pub civil_bounds :
    (z : ℕ)
    → z ≤ 213503
    → let doe = (z + 719468) % 146097 in
      let yoe = year_of_era doe in
      let doy = doe - (365 * yoe + yoe / 4 - yoe / 100) in
      let mp = (5 * doy + 2) / 153 in
      let day = doy - (153 * mp + 2) / 5 + 1 in
      (day ≤ 31)
      × (1600 ≤ yoe + (z + 719468) / 146097 * 400)
      × (yoe + (z + 719468) / 146097 * 400 < 9999)
      × (mp ≤ 11)
      × ((153 * mp + 2) / 5 + day - 1 ≤ 366)
civil_bounds z h =
    let doe = (z + 719468) % 146097 in
    let yoe = year_of_era doe in
    let doy = doe - (365 * yoe + yoe / 4 - yoe / 100) in
    let (lo, hi, y) = year_bounds doe (omega arith) in
    let (m, n, o) = month_bounds doy (omega arith) in
    (omega arith, omega arith, omega arith, n, omega arith)

-- The months of the code count from March, so that January and February end the year.
from_march :
    (y mp day : ℕ)
    → 1600 ≤ y
    → y < 9999
    → mp ≤ 11
    → 1 ≤ day
    → day ≤ 31
    → (153 * mp + 2) / 5 + day - 1 ≤ 366
    → 719468 ≤ day_count y mp day
    → let month = if ltb mp 10 then mp + 3 else mp - 9 in
      days_from_civil (if ltb 2 month then y else y + 1) month day ≡ day_count y mp day - 719468
from_march y mp day a b c d e f g = elim (Bool-cases (ltb mp 10)) [
  | inl early ↦
      let after : ltb 2 (mp + 3) ≡ true = ground arith in
      rw (early, after)
        (days_from_civil-plain y (mp + 3) day y mp (omega arith) (omega arith) (ground arith) d e
          (rw after refl) (rw after (omega arith)) g c f)
  | inr late ↦
      let before : ltb 2 (mp - 9) ≡ false = ground arith in
      rw (late, before)
        (days_from_civil-plain (y + 1) (mp - 9) day y mp (omega arith) (omega arith) (ground arith)
          d e (rw before (omega arith)) (rw before (ground arith)) g c f)
]

pub days_from_civil-civil_from_days :
    (z : ℕ)
    → z ≤ 213503
    → let date = civil_from_days z in
      days_from_civil (Date.year date) (Date.month date) (Date.day date) ≡ z
unfolding civil_from_days
days_from_civil-civil_from_days z h =
    let era = (z + 719468) / 146097 in
    let doe = (z + 719468) % 146097 in
    let yoe = year_of_era doe in
    let doy = doe - (365 * yoe + yoe / 4 - yoe / 100) in
    let mp = (5 * doy + 2) / 153 in
    let (a, b, c, d, e) = civil_bounds z h in
    let back : z + 719468 - era * 146097 ≡ doe = omega arith in
    let count = blocks-back era doe (omega arith) in
    rw back (
      from_march (yoe + era * 400) mp (doy - (153 * mp + 2) / 5 + 1) b c d (omega arith) a e
        (rw count (omega arith))
      ∙ (rw count (omega arith)))

pub civil_from_days-small :
    (z : ℕ)
    → z ≤ 213503
    → let date = civil_from_days z in
      (Date.year date < 10000) × (Date.month date ≤ 12) × (Date.day date ≤ 31)
unfolding civil_from_days
civil_from_days-small z h =
    let back : z + 719468 - (z + 719468) / 146097 * 146097 ≡ (z + 719468) % 146097 = omega arith in
    let (a, b, c, d, e) = civil_bounds z h in rw back (ground arith, ground arith, a)
