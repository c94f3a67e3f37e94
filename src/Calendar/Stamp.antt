-- ===== src/Calendar/Stamp.antt =====
-- The text stamps of dmap.rs: their columns hold the calendar fields.
use perun.Base.{
  ℕ, zero, suc, ◌+◌, ◌-◌, ◌/◌, ◌%◌, ◌<◌, ◌≡◌, refl, Option, some, [], ◌∷◌, length, take, drop,
  get_or, Bytes, arith,
}
use perun.Base.Decimal.{parse_digits, padded_decimal-two, padded_decimal-four, decimal-four, column}
use perun.Calendar.{
  civil_from_days, unix_to_iso8601, unix_to_rfc1123, hour_of, minute_of, second_of, day_names,
  month_names,
}
use perun.Calendar.Civil.{civil_from_days-IsDate, day-le, year-ge}

-- The number in the columns `from .. from + width` of a text.
abbrev pub columns : ℕ → ℕ → Bytes → Option ℕ
columns from width text = parse_digits 0 (take width (drop from text))

two_columns : (n : ℕ) → n < 100 → parse_digits 0 (column (n / 10) ∷ column n ∷ []) ≡ some n
unfolding parse_digits
two_columns n h = ground arith

four_columns :
    (n : ℕ)
    → n < 10000
    → parse_digits 0 (column (n / 1000) ∷ column (n / 100) ∷ column (n / 10) ∷ column n ∷ [])
      ≡ some n
unfolding parse_digits
four_columns n h = ground arith

-- Up to the year 9999 an ISO stamp has twenty bytes, and its columns are the civil date and the time
-- of day.
pub unix_to_iso8601-columns :
    (unix : ℕ)
    → (civil_from_days (unix / 86400)).year < 10000
    → (length (unix_to_iso8601 unix) ≡ 20)
      × (columns 0 4 (unix_to_iso8601 unix) ≡ some (civil_from_days (unix / 86400)).year)
      × (columns 5 2 (unix_to_iso8601 unix) ≡ some (civil_from_days (unix / 86400)).month)
      × (columns 8 2 (unix_to_iso8601 unix) ≡ some (civil_from_days (unix / 86400)).day)
      × (columns 11 2 (unix_to_iso8601 unix) ≡ some (hour_of unix))
      × (columns 14 2 (unix_to_iso8601 unix) ≡ some (minute_of unix))
      × (columns 17 2 (unix_to_iso8601 unix) ≡ some (second_of unix))
unfolding unix_to_iso8601
unix_to_iso8601-columns unix h =
    let date = civil_from_days (unix / 86400) in
    let v = civil_from_days-IsDate (unix / 86400) in
    let small = day-le date v in
    rw
      (
        padded_decimal-four date.year (omega (arith, year-ge (unix / 86400))) h,
        padded_decimal-two date.month (omega (arith, v.month_high)),
        padded_decimal-two date.day (omega (arith, small)),
        padded_decimal-two (hour_of unix) (omega arith),
        padded_decimal-two (minute_of unix) (omega arith),
        padded_decimal-two (second_of unix) (omega arith),
      )
      (
        refl,
        four_columns date.year h,
        two_columns date.month (omega (arith, v.month_high)),
        two_columns date.day (omega (arith, small)),
        two_columns (hour_of unix) (omega arith),
        two_columns (minute_of unix) (omega arith),
        two_columns (second_of unix) (omega arith),
      )

-- A text of three bytes.
record Three (name : Bytes) : Type 0 where
  x : ℕ
  y : ℕ
  z : ℕ
  is : name ≡ x ∷ y ∷ z ∷ []

three : (x y z : ℕ) → Three (x ∷ y ∷ z ∷ [])
three x y z = record { x = x; y = y; z = z; is = refl }

day_width : (w : ℕ) → w < 7 → Three (get_or day_names w [])
day_width zero h = three _ _ _
day_width (suc zero) h = three _ _ _
day_width (suc (suc zero)) h = three _ _ _
day_width (suc (suc (suc zero))) h = three _ _ _
day_width (suc (suc (suc (suc zero)))) h = three _ _ _
day_width (suc (suc (suc (suc (suc zero))))) h = three _ _ _
day_width (suc (suc (suc (suc (suc (suc zero)))))) h = three _ _ _
day_width (suc (suc (suc (suc (suc (suc (suc w))))))) h = absurd (omega arith)

month_width : (m : ℕ) → m < 12 → Three (get_or month_names m [])
month_width zero h = three _ _ _
month_width (suc zero) h = three _ _ _
month_width (suc (suc zero)) h = three _ _ _
month_width (suc (suc (suc zero))) h = three _ _ _
month_width (suc (suc (suc (suc zero)))) h = three _ _ _
month_width (suc (suc (suc (suc (suc zero))))) h = three _ _ _
month_width (suc (suc (suc (suc (suc (suc zero)))))) h = three _ _ _
month_width (suc (suc (suc (suc (suc (suc (suc zero))))))) h = three _ _ _
month_width (suc (suc (suc (suc (suc (suc (suc (suc zero)))))))) h = three _ _ _
month_width (suc (suc (suc (suc (suc (suc (suc (suc (suc zero))))))))) h = three _ _ _
month_width (suc (suc (suc (suc (suc (suc (suc (suc (suc (suc zero)))))))))) h = three _ _ _
month_width (suc (suc (suc (suc (suc (suc (suc (suc (suc (suc (suc zero))))))))))) h = three _ _ _
month_width (suc (suc (suc (suc (suc (suc (suc (suc (suc (suc (suc (suc m)))))))))))) h =
    absurd (omega arith)

-- Up to the year 9999 an HTTP date has the 29 bytes of an IMF-fixdate: the day of the week (the
-- epoch is a Thursday), the day, the month's name, the year and the time of day in their columns.
pub unix_to_rfc1123-columns :
    (unix : ℕ)
    → (civil_from_days (unix / 86400)).year < 10000
    → (length (unix_to_rfc1123 unix) ≡ 29)
      × (take 3 (unix_to_rfc1123 unix) ≡ get_or day_names ((unix / 86400 + 4) % 7) [])
      × (columns 5 2 (unix_to_rfc1123 unix) ≡ some (civil_from_days (unix / 86400)).day)
      × (take 3 (drop 8 (unix_to_rfc1123 unix))
          ≡ get_or month_names ((civil_from_days (unix / 86400)).month - 1) [])
      × (columns 12 4 (unix_to_rfc1123 unix) ≡ some (civil_from_days (unix / 86400)).year)
      × (columns 17 2 (unix_to_rfc1123 unix) ≡ some (hour_of unix))
      × (columns 20 2 (unix_to_rfc1123 unix) ≡ some (minute_of unix))
      × (columns 23 2 (unix_to_rfc1123 unix) ≡ some (second_of unix))
unfolding unix_to_rfc1123
unix_to_rfc1123-columns unix h =
    let date = civil_from_days (unix / 86400) in
    let v = civil_from_days-IsDate (unix / 86400) in
    let small = day-le date v in
    let same : (unix / 86400 % 7 + 4) % 7 ≡ (unix / 86400 + 4) % 7 = omega arith in
    let w = day_width ((unix / 86400 + 4) % 7) (omega arith) in
    let m = month_width (date.month - 1) (omega (arith, v.month_low, v.month_high)) in
    rw
      (
        same,
        w.is,
        m.is,
        decimal-four date.year (omega (arith, year-ge (unix / 86400))) h,
        padded_decimal-two date.day (omega (arith, small)),
        padded_decimal-two (hour_of unix) (omega arith),
        padded_decimal-two (minute_of unix) (omega arith),
        padded_decimal-two (second_of unix) (omega arith),
      )
      (
        refl,
        refl,
        two_columns date.day (omega (arith, small)),
        refl,
        four_columns date.year h,
        two_columns (hour_of unix) (omega arith),
        two_columns (minute_of unix) (omega arith),
        two_columns (second_of unix) (omega arith),
      )
