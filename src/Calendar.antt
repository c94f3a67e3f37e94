-- ===== src/Calendar.antt =====
-- Civil dates: `civil_from_days` of crates/perun-cli/src/store/out.rs, the same computation in
-- dmap.rs and ipa.rs of that directory, and its inverse in `dos_to_unix` of ipa.rs. Every caller
-- counts days from 1970 on, so a count of days is a natural number.
pub mod Civil
pub mod Dos
pub mod Stamp
mod Tests
use perun.Base.{
  ℕ, ◌+◌, ◌-◌, ◌*◌, ◌/◌, ◌%◌, ◌^◌, bit_or, Bool, ◌&&◌, ◌||◌, not, ltb, leb, ◌==◌, if◌then◌else◌,
  zero, suc, List, [], ◌∷◌, ◌++◌, length, replicate, Bytes, codes, get_or,
}
use Prim.Native.Nat.{max}
use perun.Base.Decimal.{decimal, padded_decimal}

pub record Date : Type 0 where
  pub year : ℕ
  pub month : ℕ
  pub day : ℕ

-- The day of the era, the year of the era and the day of the (March-based) year.
abbrev pub day_of_era : ℕ → ℕ
day_of_era days = (days + 719468) % 146097

abbrev pub year_of_era : ℕ → ℕ
year_of_era doe = (doe - doe / 1460 + doe / 36524 - doe / 146096) / 365

abbrev pub day_of_year : ℕ → ℕ
day_of_year doe = let yoe = year_of_era doe in doe - (365 * yoe + yoe / 4 - yoe / 100)

-- `civil_from_days`
pub civil_from_days : ℕ → Date
civil_from_days days =
    let doe = day_of_era days in
    let y = year_of_era doe + (days + 719468) / 146097 * 400 in
    let doy = day_of_year doe in
    let mp = (5 * doy + 2) / 153 in
    let m = if ltb mp 10 then mp + 3 else mp - 9 in
    record { year = if leb m 2 then y + 1 else y; month = m; day = doy - (153 * mp + 2) / 5 + 1 }

-- The days from 1970 of a date, as `dos_to_unix` computes them. The source subtracts one from the
-- day first; the sum is the same, since the year is 1979 or later.
pub days_from_civil : ℕ → ℕ → ℕ → ℕ
days_from_civil year month day =
    let y = if leb month 2 then year - 1 else year in
    let era = y / 400 in
    let yoe = y - era * 400 in
    let mp = (month + 9) % 12 in
    era * 146097 + yoe * 365 + yoe / 4 - yoe / 100 + (153 * mp + 2) / 5 + day - 719469

-- `dos_datetime` of ipa.rs: the date word and the time word.
pub dos_datetime : ℕ → ℕ × ℕ
unfolding civil_from_days
dos_datetime unix =
    let date = civil_from_days (unix / 86400) in
    let secs = unix % 86400 in
    let h = secs / 3600 in
    let mi = secs % 3600 / 60 in
    let s = secs % 60 in
    (
      bit_or (bit_or ((max date.year 1980 - 1980) % 2 ^ 16 * 2 ^ 9 % 2 ^ 16) (date.month * 2 ^ 5))
          date.day,
      bit_or (bit_or (h * 2 ^ 11 % 2 ^ 16) (mi * 2 ^ 5)) (s / 2),
    )

-- `dos_to_unix` of ipa.rs; a mask of low bits is a remainder.
pub dos_to_unix : ℕ → ℕ → ℕ
unfolding days_from_civil
dos_to_unix date time =
    let year = 1980 + date / 2 ^ 9 % 2 ^ 7 in
    let month = date / 2 ^ 5 % 2 ^ 4 in
    let day = date % 2 ^ 5 in
    let hour = time / 2 ^ 11 % 2 ^ 5 in
    let minute = time / 2 ^ 5 % 2 ^ 6 in
    let second = time % 2 ^ 5 * 2 in
    days_from_civil year month day * 86400 + hour * 3600 + minute * 60 + second

-- The hour, minute and second of a day, which every stamp splits alike.
abbrev pub hour_of : ℕ → ℕ
hour_of unix = unix % 86400 / 3600

abbrev pub minute_of : ℕ → ℕ
minute_of unix = unix % 86400 % 3600 / 60

abbrev pub second_of : ℕ → ℕ
second_of unix = unix % 86400 % 60

-- `unix_to_iso8601` of dmap.rs, at a time from 1970 on.
pub unix_to_iso8601 : ℕ → Bytes
unfolding civil_from_days
unix_to_iso8601 unix =
    let date = civil_from_days (unix / 86400) in
    padded_decimal 4 date.year
    ++ (b'-'
        ∷ (padded_decimal 2 date.month
            ++ (b'-'
                ∷ (padded_decimal 2 date.day
                    ++ (b'T'
                        ∷ (padded_decimal 2 (hour_of unix)
                            ++ (b':'
                                ∷ (padded_decimal 2 (minute_of unix)
                                    ++ (b':'
                                        ∷ (padded_decimal 2 (second_of unix) ++ codes "Z"))))))))))

abbrev pub day_names : List Bytes
day_names =
    codes "Sun"
    ∷ codes "Mon"
    ∷ codes "Tue"
    ∷ codes "Wed"
    ∷ codes "Thu"
    ∷ codes "Fri"
    ∷ codes "Sat"
    ∷ []

abbrev pub month_names : List Bytes
month_names =
    codes "Jan"
    ∷ codes "Feb"
    ∷ codes "Mar"
    ∷ codes "Apr"
    ∷ codes "May"
    ∷ codes "Jun"
    ∷ codes "Jul"
    ∷ codes "Aug"
    ∷ codes "Sep"
    ∷ codes "Oct"
    ∷ codes "Nov"
    ∷ codes "Dec"
    ∷ []

-- `unix_to_rfc1123` of dmap.rs, at a time from 1970 on.
pub unix_to_rfc1123 : ℕ → Bytes
unfolding civil_from_days
unix_to_rfc1123 unix =
    let date = civil_from_days (unix / 86400) in
    let weekday = (unix / 86400 % 7 + 4) % 7 in
    get_or day_names weekday []
    ++ (codes ", "
        ++ (padded_decimal 2 date.day
            ++ (b' '
                ∷ (get_or month_names (date.month - 1) []
                    ++ (b' '
                        ∷ (decimal date.year
                            ++ (b' '
                                ∷ (padded_decimal 2 (hour_of unix)
                                    ++ (b':'
                                        ∷ (padded_decimal 2 (minute_of unix)
                                            ++ (b':'
                                                ∷ (padded_decimal 2 (second_of unix)
                                                    ++ codes " GMT"))))))))))))
