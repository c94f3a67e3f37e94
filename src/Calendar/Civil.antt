-- ===== src/Calendar/Civil.antt =====
-- `civil_from_days` gives the calendar date, and `days_from_civil` counts its days again.
use perun.Base.{
  ℕ, ◌+◌, ◌-◌, ◌*◌, ◌/◌, ◌%◌, ◌≤◌, ◌<◌, Bool, ◌&&◌, ◌||◌, not, ◌≡◌, ltb, leb, ◌==◌, if◌then◌else◌,
  true, arith,
}
use perun.Calendar.{Date, day_of_era, year_of_era, day_of_year, civil_from_days, days_from_civil}

abbrev pub is_leap : ℕ → Bool
is_leap y = (y % 4 == 0) && (not (y % 100 == 0) || (y % 400 == 0))

-- The days of a month, in any year.
abbrev pub month_length : ℕ → ℕ → ℕ
month_length y m =
    if m == 2
    then (if is_leap y then 29 else 28)
    else if (m == 4 || m == 6) || (m == 9 || m == 11)
    then 30
    else 31

pub record IsDate (d : Date) : Type 0 where
  pub month_low : 1 ≤ d.month
  pub month_high : d.month ≤ 12
  pub day_low : 1 ≤ d.day
  pub day_high : d.day ≤ month_length d.year d.month

-- The year of the era is the year that its day falls in.
year_starts :
    (doe : ℕ)
    → doe < 146097
    → 365 * year_of_era doe + year_of_era doe / 4 ≤ doe + year_of_era doe / 100
year_starts doe h = omega arith

year_ends :
    (doe : ℕ)
    → doe < 146097
    → doe + year_of_era doe / 100 < 366 + 365 * year_of_era doe + year_of_era doe / 4
year_ends doe h = omega arith

year_of_era-lt : (doe : ℕ) → doe < 146097 → year_of_era doe < 400
year_of_era-lt doe h = omega arith

-- The date of the day `doy` of the (March-based) year `yoe` of an era.
abbrev of_parts : ℕ → ℕ → ℕ → Date
of_parts era yoe doy =
    let y = yoe + era * 400 in
    let mp = (5 * doy + 2) / 153 in
    let m = if ltb mp 10 then mp + 3 else mp - 9 in
    record { year = if leb m 2 then y + 1 else y; month = m; day = doy - (153 * mp + 2) / 5 + 1 }

abbrev start_of : ℕ → ℕ
start_of yoe = 365 * yoe + yoe / 4 - yoe / 100

module _ (era yoe doy : ℕ) (in_era : yoe < 400) (in_year : doy ≤ 365) where
  of_parts-month : (1 ≤ (of_parts era yoe doy).month) × ((of_parts era yoe doy).month ≤ 12)
  of_parts-month = ground arith

  of_parts-days :
      719468 ≤ era * 146097 + start_of yoe + doy
      → days_from_civil
          (of_parts era yoe doy).year
          (of_parts era yoe doy).month
          (of_parts era yoe doy).day
        ≡ era * 146097 + start_of yoe + doy - 719468
  unfolding days_from_civil
  of_parts-days h = ground arith

-- The day lies before the start of the next year; the last year of an era has 366 days.
next_starts :
    (doe : ℕ)
    → doe < 146097
    → year_of_era doe < 399
    → doe + (year_of_era doe + 1) / 100 < 365 * (year_of_era doe + 1) + (year_of_era doe + 1) / 4
next_starts doe h k = omega arith

leap_of_gap :
    (y era : ℕ)
    → y < 400
    → (y < 399 → y / 4 + (y + 1) / 100 < (y + 1) / 4 + y / 100)
    → is_leap (y + era * 400 + 1) ≡ true
leap_of_gap y era h gap = ground arith

-- A March-based year has its 366th day, the 29th of February, only where the next year is a leap year.
leap_of_last :
    (doe era : ℕ)
    → doe < 146097
    → day_of_year doe ≡ 365
    → is_leap (year_of_era doe + era * 400 + 1) ≡ true
leap_of_last doe era h e =
    leap_of_gap (year_of_era doe) era (year_of_era-lt doe h)
      (λ k. omega (arith, next_starts doe h k, year_starts doe h))

of_parts-day :
    (era yoe doy : ℕ)
    → doy ≤ 365
    → (doy ≡ 365 → is_leap (yoe + era * 400 + 1) ≡ true)
    → (1 ≤ (of_parts era yoe doy).day)
      × ((of_parts era yoe doy).day
          ≤ month_length (of_parts era yoe doy).year (of_parts era yoe doy).month)
of_parts-day era yoe doy h leap = ground arith

module _ (days : ℕ) where
  abbrev doe : ℕ
  doe = day_of_era days

  abbrev era : ℕ
  era = (days + 719468) / 146097

  day_of_year-le : day_of_year doe ≤ 365
  day_of_year-le = omega (arith, year_starts doe (omega arith), year_ends doe (omega arith))

  -- Every day from 1970 on has a valid date: a month from 1 to 12, and a day that the month has, leap
  -- years counted.
  pub civil_from_days-IsDate : IsDate (civil_from_days days)
  unfolding civil_from_days
  civil_from_days-IsDate =
      let y = year_of_era doe in
      let doy = day_of_year doe in
      let month = of_parts-month era y doy (year_of_era-lt doe (omega arith)) day_of_year-le in
      let day = of_parts-day era y doy day_of_year-le (leap_of_last doe era (omega arith)) in
      record { month_low = month.0; month_high = month.1; day_low = day.0; day_high = day.1 }

  -- Counting the days of the civil date of any day from 1970 on, as `dos_to_unix` does, gives
  -- the day back.
  pub days_from_civil-civil_from_days :
      days_from_civil
        (civil_from_days days).year
        (civil_from_days days).month
        (civil_from_days days).day
      ≡ days
  unfolding civil_from_days
  days_from_civil-civil_from_days =
      let y = year_of_era doe in
      let doy = day_of_year doe in
      let sum : era * 146097 + start_of y + doy ≡ days + 719468 =
        omega (arith, year_starts doe (omega arith)) in
      omega (
        arith,
        of_parts-days era y doy (year_of_era-lt doe (omega arith)) day_of_year-le (omega arith),
      )

-- No day of a valid date is above 31.
pub day-le : (d : Date) → IsDate d → d.day ≤ 31
day-le d v = ground arith

-- The epoch's year is the first.
pub year-ge : (days : ℕ) → 1970 ≤ (civil_from_days days).year
unfolding civil_from_days
year-ge days = ground arith
