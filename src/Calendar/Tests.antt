-- ===== src/Calendar/Tests.antt =====
-- Dates of known days, and the calendar's theorems at concrete times.
use perun.Base.{ℕ, ◌-◌, ◌/◌, ◌%◌, ◌≡◌, ◌≤◌, ◌<◌, refl, arith}
use perun.Calendar.{civil_from_days, days_from_civil, dos_datetime, dos_to_unix}
use perun.Calendar.Civil.{IsDate, civil_from_days-IsDate, days_from_civil-civil_from_days}
use perun.Calendar.Dos.{dos_to_unix-dos_datetime}

abbrev autumn : ℕ
autumn = 1795698411

autumn_date : civil_from_days (autumn / 86400) ≡ record { year = 2026; month = 11; day = 26 }
unfolding civil_from_days
autumn_date = refl

civil_from_days-IsDate_example : IsDate (civil_from_days 11016)
civil_from_days-IsDate_example = civil_from_days-IsDate 11016

days_from_civil-civil_from_days_example :
    days_from_civil
      (civil_from_days 11016).year
      (civil_from_days 11016).month
      (civil_from_days 11016).day
    ≡ 11016
days_from_civil-civil_from_days_example = days_from_civil-civil_from_days 11016

after_1980 : 1980 ≤ (civil_from_days (autumn / 86400)).year
unfolding civil_from_days
after_1980 = omega arith

before_2107 : (civil_from_days (autumn / 86400)).year ≤ 2107
unfolding civil_from_days
before_2107 = omega arith

dos_to_unix-dos_datetime_example :
    dos_to_unix (dos_datetime autumn).0 (dos_datetime autumn).1 ≡ autumn - autumn % 2
dos_to_unix-dos_datetime_example = dos_to_unix-dos_datetime autumn after_1980 before_2107

four_columns : (civil_from_days (autumn / 86400)).year < 10000
unfolding civil_from_days
four_columns = omega arith
