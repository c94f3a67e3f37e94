-- ===== src/Base/Decimal.antt =====
-- Decimal numbers as text: what `format!` prints of an unsigned integer, and what `parse` reads.
use Prim.Native.Nat.{ℕ, zero, suc, ◌+◌, ◌-◌, ◌*◌, ◌/◌, ◌%◌, ◌≤◌, ◌<◌}
use mathlib.Core.Path.{◌≡◌, ap, ap₂, ◌∙◌}
use mathlib.Core.Logic.{inl, inr}
use mathlib.Core.Option.{Option, none, some}
use mathlib.Core.List.{[], ◌∷◌, ◌++◌}
use native.Mathlib.Omega.{arith}
use perun.Base.Tests.{ltb, ltb→lt, ltb→ge, lt→ltb, ge→ltb, within, if◌then◌else◌, Bool-cases}
use perun.Base.Lists.{length, replicate, All}
use perun.Base.ByteStrings.{Bytes}

-- The digits of `n` in front of `acc`. A number below the fuel needs no more rounds.
pub decimal_on : ℕ → ℕ → Bytes → Bytes
decimal_on zero n acc = acc
decimal_on (suc f) n acc =
    let rest = decimal_on f (n / 10) ((48 + n % 10) ∷ acc) in
    if ltb n 10 then (48 + n) ∷ acc else rest

-- `{}` of an unsigned integer.
unfoldable pub decimal : ℕ → Bytes
unfolding decimal_on
decimal n = decimal_on (suc n) n []

-- `{:0w}` of an unsigned integer.
unfoldable pub padded_decimal : ℕ → ℕ → Bytes
unfolding decimal
padded_decimal w n = replicate (w - length (decimal n)) 48 ++ decimal n

-- The value of a run of digits behind the value `acc`.
unfoldable pub parse_digits : ℕ → Bytes → Option ℕ
parse_digits acc [] = some acc
parse_digits acc (c ∷ cs) = if within 48 57 c then parse_digits (acc * 10 + (c - 48)) cs else none

parse_digits-decimal_on :
    (f n : ℕ) (acc : Bytes) → n < f → parse_digits 0 (decimal_on f n acc) ≡ parse_digits n acc
unfolding decimal_on parse_digits
parse_digits-decimal_on zero n acc h = absurd (omega arith)
parse_digits-decimal_on (suc f) n acc h = elim (Bool-cases (ltb n 10)) [
  | inl one ↦ rw one (ground arith)
  | inr more ↦ rw more (
      parse_digits-decimal_on f (n / 10) ((48 + n % 10) ∷ acc) (omega (arith, ltb→ge n 10 more))
      ∙ ground arith)
]

-- A printed number is read back.
pub parse_digits-decimal : (n : ℕ) → parse_digits 0 (decimal n) ≡ some n
unfolding decimal parse_digits
parse_digits-decimal n = parse_digits-decimal_on (suc n) n [] (omega arith)

abbrev pub IsDigit : ℕ → Type 0
IsDigit c = (48 ≤ c) × (c ≤ 57)

decimal_on-digits :
    (f n : ℕ) (acc : Bytes) → n < f → All IsDigit acc → All IsDigit (decimal_on f n acc)
unfolding decimal_on
decimal_on-digits zero n acc h k = absurd (omega arith)
decimal_on-digits (suc f) n acc h k = elim (Bool-cases (ltb n 10)) [
  | inl one ↦ rw one ((omega (arith, ltb→lt n 10 one), k))
  | inr more ↦ rw more (
      decimal_on-digits f (n / 10) ((48 + n % 10) ∷ acc) (omega (arith, ltb→ge n 10 more))
        (omega arith, k))
]

pub decimal-digits : (n : ℕ) → All IsDigit (decimal n)
unfolding decimal
decimal-digits n = decimal_on-digits (suc n) n [] (omega arith) tt

decimal_on-nonempty : (f n : ℕ) (acc : Bytes) → n < f → length acc < length (decimal_on f n acc)
unfolding decimal_on
decimal_on-nonempty zero n acc h = absurd (omega arith)
decimal_on-nonempty (suc f) n acc h = elim (Bool-cases (ltb n 10)) [
  | inl one ↦ rw one (omega arith)
  | inr more ↦ rw more (
      omega (
        arith,
        decimal_on-nonempty f (n / 10) ((48 + n % 10) ∷ acc) (omega (arith, ltb→ge n 10 more)),
      ))
]

pub decimal-nonempty : (n : ℕ) → 0 < length (decimal n)
unfolding decimal
decimal-nonempty n = decimal_on-nonempty (suc n) n [] (omega arith)

decimal_on-one : (f n : ℕ) (acc : Bytes) → 0 < f → n < 10 → decimal_on f n acc ≡ (48 + n) ∷ acc
unfolding decimal_on
decimal_on-one zero n acc h k = absurd (omega arith)
decimal_on-one (suc f) n acc h k = rw (lt→ltb n 10 k)

decimal_on-more :
    (f n : ℕ) (acc : Bytes)
    → 0 < f
    → 10 ≤ n
    → decimal_on f n acc ≡ decimal_on (f - 1) (n / 10) ((48 + n % 10) ∷ acc)
unfolding decimal_on
decimal_on-more zero n acc h k = absurd (omega arith)
decimal_on-more (suc f) n acc h k =
    rw (ge→ltb n 10 k) (ap (λ g. decimal_on g (n / 10) ((48 + n % 10) ∷ acc)) (omega arith))

abbrev pub column : ℕ → ℕ
column n = 48 + n % 10

decimal_two : (n : ℕ) → 10 ≤ n → n < 100 → decimal n ≡ column (n / 10) ∷ column n ∷ []
unfolding decimal
decimal_two n h k =
    decimal_on-more (suc n) n [] (omega arith) h
    ∙ decimal_on-one (suc n - 1) (n / 10) (column n ∷ []) (omega arith) (omega arith)
    ∙ ap (λ d. (48 + d) ∷ column n ∷ []) (omega arith)

pub decimal-four :
    (n : ℕ)
    → 1000 ≤ n
    → n < 10000
    → decimal n ≡ column (n / 1000) ∷ column (n / 100) ∷ column (n / 10) ∷ column n ∷ []
unfolding decimal
decimal-four n h k =
    decimal_on-more (suc n) n [] (omega arith) (omega arith)
    ∙ decimal_on-more (suc n - 1) (n / 10) _ (omega arith) (omega arith)
    ∙ decimal_on-more (suc n - 1 - 1) (n / 10 / 10) _ (omega arith) (omega arith)
    ∙ decimal_on-one (suc n - 1 - 1 - 1) (n / 10 / 10 / 10) _ (omega arith) (omega arith)
    ∙ ap₂ (λ c d. (48 + d) ∷ column c ∷ column (n / 10) ∷ column n ∷ []) (omega arith) (omega arith)

decimal_one : (n : ℕ) → n < 10 → decimal n ≡ column n ∷ []
unfolding decimal
decimal_one n h =
    decimal_on-one (suc n) n [] (omega arith) h ∙ ap (λ d. (48 + d) ∷ []) (omega arith)

-- Two columns hold a number below 100.
pub padded_decimal-two : (n : ℕ) → n < 100 → padded_decimal 2 n ≡ column (n / 10) ∷ column n ∷ []
unfolding padded_decimal
padded_decimal-two n h = elim (Bool-cases (ltb n 10)) [
  | inl one ↦
      rw (decimal_one n (ltb→lt n 10 one))
        (ap (λ d. d ∷ column n ∷ []) (omega (arith, ltb→lt n 10 one)))
  | inr more ↦ rw (decimal_two n (ltb→ge n 10 more) h)
]

-- Four columns hold a number from 1000 to 9999.
pub padded_decimal-four :
    (n : ℕ)
    → 1000 ≤ n
    → n < 10000
    → padded_decimal 4 n ≡ column (n / 1000) ∷ column (n / 100) ∷ column (n / 10) ∷ column n ∷ []
unfolding padded_decimal
padded_decimal-four n h k = rw (decimal-four n h k)
