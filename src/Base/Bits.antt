-- ===== src/Base/Bits.antt =====
-- `|` of a shifted number with one that fits below it is their sum.
use Prim.Native.Nat.{
  ℕ, zero, suc, ◌+◌, ◌*◌, ◌/◌, ◌%◌, ◌^◌, ◌≤◌, ◌<◌, max, bit_or, digits, bit_or-bitwise,
}
use mathlib.Core.Path.{◌≡◌, refl, sym, ap, ◌∙◌}
use native.Mathlib.Nat.{pow-suc}
use native.Mathlib.Omega.{arith}

-- The digit recursion that `bit_or` and `bit_xor` stand for, with the fuel shown.
module _ (op : ℕ → ℕ → ℕ) where
  abbrev pub digits_by : ℕ → ℕ → ℕ → ℕ
  digits_by = digits (λ b. b) op

  digits_nothing : (y fuel : ℕ) → digits_by fuel 0 y ≡ digits_by 0 0 y
  digits_nothing y zero = refl
  digits_nothing y (suc f) = refl

  -- Fuel beyond the first number changes nothing.
  pub digits_surplus : (y x f g : ℕ) → x ≤ g → x ≤ f → digits_by g x y ≡ digits_by f x y
  digits_surplus y zero f g lo hi = digits_nothing y g ∙ sym (digits_nothing y f)
  digits_surplus y (suc x) zero g lo hi = absurd (omega arith)
  digits_surplus y (suc x) (suc f) zero lo hi = absurd (omega arith)
  digits_surplus y (suc x) (suc f) (suc g) lo hi =
      let halved = digits_surplus (y / 2) (suc x / 2) f g in
      omega (arith, halved (omega arith) (omega arith))

pub bit_or-zero_left : (y : ℕ) → bit_or 0 y ≡ y
bit_or-zero_left y = bit_or-bitwise 0 y

-- The lowest binary digit of `x | y`.
pub bit_or_halves : (x y : ℕ) → bit_or x y ≡ 2 * bit_or (x / 2) (y / 2) + max (x % 2) (y % 2)
bit_or_halves zero y =
    let halved = bit_or-zero_left (y / 2) in omega (arith, halved, bit_or-zero_left y)
bit_or_halves (suc x) y =
    let halved = bit_or-bitwise (suc x / 2) (y / 2) in
    let fueled = digits_surplus max (y / 2) (suc x / 2) (suc x / 2) x (omega arith) (omega arith) in
    omega (arith, fueled, halved, bit_or-bitwise (suc x) y)

bit_or-zero_below : (bound x : ℕ) → x ≤ bound → bit_or x 0 ≡ x
bit_or-zero_below bound zero h = refl
bit_or-zero_below zero (suc x) h = absurd (omega arith)
bit_or-zero_below (suc bound) (suc x) h =
    omega (arith, bit_or_halves (suc x) 0, bit_or-zero_below bound (suc x / 2) (omega arith))

pub bit_or-shifted : (k x y : ℕ) → y < 2 ^ k → bit_or (x * 2 ^ k) y ≡ x * 2 ^ k + y
bit_or-shifted zero x zero h = omega (arith, bit_or-zero_below (x * 1) (x * 1) (omega arith))
bit_or-shifted zero x (suc y) h = absurd (omega arith)
bit_or-shifted (suc k) x y h =
    let double : x * 2 ^ suc k ≡ 2 * (x * 2 ^ k) =
      omega (arith, ap (λ (t : ℕ). x * t) (pow-suc 2 k)) in
    let half : x * 2 ^ suc k / 2 ≡ x * 2 ^ k = omega arith in
    let small : y / 2 < 2 ^ k = omega (arith, pow-suc 2 k) in
    omega (
      arith,
      bit_or_halves (x * 2 ^ suc k) y,
      ap (λ (t : ℕ). bit_or t (y / 2)) half,
      bit_or-shifted k x (y / 2) small,
    )

bit_or-comm_below : (bound x y : ℕ) → x ≤ bound → bit_or x y ≡ bit_or y x
bit_or-comm_below bound zero y h = bit_or-zero_left y ∙ sym (bit_or-zero_below y y (omega arith))
bit_or-comm_below zero (suc x) y h = absurd (omega arith)
bit_or-comm_below (suc bound) (suc x) y h = omega (
  arith,
  bit_or_halves (suc x) y,
  bit_or_halves y (suc x),
  bit_or-comm_below bound (suc x / 2) (y / 2) (omega arith),
)

-- The same with the shifted number on the right.
pub bit_or-shifted_right : (k x y : ℕ) → y < 2 ^ k → bit_or y (x * 2 ^ k) ≡ x * 2 ^ k + y
bit_or-shifted_right k x y h =
    bit_or-comm_below y y (x * 2 ^ k) (omega arith) ∙ bit_or-shifted k x y h

bit_or-ge_below : (bound x y : ℕ) → x ≤ bound → x ≤ bit_or x y
bit_or-ge_below bound zero y h = omega arith
bit_or-ge_below zero (suc x) y h = absurd (omega arith)
bit_or-ge_below (suc bound) (suc x) y h =
    omega (arith, bit_or_halves (suc x) y, bit_or-ge_below bound (suc x / 2) (y / 2) (omega arith))

-- No bit of `x` is lost.
pub bit_or-ge : (x y : ℕ) → x ≤ bit_or x y
bit_or-ge x y = bit_or-ge_below x x y (omega arith)
