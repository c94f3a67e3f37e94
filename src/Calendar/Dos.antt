-- ===== src/Calendar/Dos.antt =====
-- `dos_datetime` and `dos_to_unix` of ipa.rs are inverse, up to the two-second grain of a DOS time.
use perun.Base.{ℕ, ◌+◌, ◌-◌, ◌*◌, ◌/◌, ◌%◌, ◌^◌, ◌≤◌, bit_or, ◌≡◌, ap, ◌∙◌, arith}
use Prim.Native.Nat.{max}
use perun.Base.Bits.{bit_or-shifted}
use perun.Calendar.{Date, civil_from_days, dos_datetime, dos_to_unix}
use perun.Calendar.Civil.{civil_from_days-IsDate, days_from_civil-civil_from_days, day-le}

module _ (unix : ℕ) where
  abbrev date : Date
  date = civil_from_days (unix / 86400)

  abbrev secs : ℕ
  secs = unix % 86400

  date_word :
      1980 ≤ date.year
      → date.year ≤ 2107
      → (dos_datetime unix).0 ≡ (date.year - 1980) * 512 + date.month * 32 + date.day
  unfolding dos_datetime
  date_word lo hi =
      let v = civil_from_days-IsDate (unix / 86400) in
      let y = date.year - 1980 in
      let outer : max date.year 1980 - 1980 ≡ y = omega arith in
      let wrap : (max date.year 1980 - 1980) % 2 ^ 16 * 2 ^ 9 % 2 ^ 16 ≡ y * 2 ^ 9 = omega arith in
      let one = bit_or-shifted 9 y (date.month * 2 ^ 5) (omega (arith, v.month_high)) in
      let two = bit_or-shifted 5 (y * 2 ^ 4 + date.month) date.day (omega (arith, day-le date v)) in
      ap (λ t. bit_or (bit_or t (date.month * 2 ^ 5)) date.day) wrap
      ∙ ap (λ t. bit_or t date.day) (one ∙ omega arith)
      ∙ two
      ∙ omega arith

  time_word : (dos_datetime unix).1 ≡ secs / 3600 * 2048 + secs % 3600 / 60 * 32 + secs % 60 / 2
  unfolding dos_datetime
  time_word =
      let h = secs / 3600 in
      let mi = secs % 3600 / 60 in
      let wrap : h * 2 ^ 11 % 2 ^ 16 ≡ h * 2 ^ 11 = omega arith in
      let one = bit_or-shifted 11 h (mi * 2 ^ 5) (omega arith) in
      let two = bit_or-shifted 5 (h * 2 ^ 6 + mi) (secs % 60 / 2) (omega arith) in
      ap (λ t. bit_or (bit_or t (mi * 2 ^ 5)) (secs % 60 / 2)) wrap
      ∙ ap (λ t. bit_or t (secs % 60 / 2)) (one ∙ omega arith)
      ∙ two
      ∙ omega arith

  -- A time in the years 1980 to 2107 comes back from its DOS words, less its odd second.
  pub dos_to_unix-dos_datetime :
      1980 ≤ (civil_from_days (unix / 86400)).year
      → (civil_from_days (unix / 86400)).year ≤ 2107
      → dos_to_unix (dos_datetime unix).0 (dos_datetime unix).1 ≡ unix - unix % 2
  unfolding dos_to_unix
  dos_to_unix-dos_datetime lo hi =
      let v = civil_from_days-IsDate (unix / 86400) in
      let d = date_word lo hi in
      let small = day-le date v in
      let year : 1980 + (dos_datetime unix).0 / 2 ^ 9 % 2 ^ 7 ≡ date.year =
        omega (arith, d, v.month_high, small) in
      let month : (dos_datetime unix).0 / 2 ^ 5 % 2 ^ 4 ≡ date.month =
        omega (arith, d, v.month_high, small) in
      let day : (dos_datetime unix).0 % 2 ^ 5 ≡ date.day = omega (arith, d, v.month_high, small) in
      rw (year, month, day, days_from_civil-civil_from_days) (omega (arith, time_word))
