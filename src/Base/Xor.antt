-- ===== src/Base/Xor.antt =====
-- `^` on numbers: it undoes itself.
use Prim.Native.Nat.{
  ℕ, zero, suc, ◌+◌, ◌*◌, ◌/◌, ◌%◌, ◌^◌, ◌≤◌, ◌<◌, bit_or, bit_xor, differ, bit_xor-bitwise,
}
use mathlib.Core.Path.{◌≡◌, refl, sym, ap, ◌∙◌}
use native.Mathlib.Nat.{pow-suc, div-div-eq-div-mul}
use native.Mathlib.Omega.{arith}
use perun.Base.Bits.{digits_surplus, bit_or_halves, bit_or-zero_left}

bit_xor-zero_left : (y : ℕ) → bit_xor 0 y ≡ y
bit_xor-zero_left y = bit_xor-bitwise 0 y

differ-digit : (a b : ℕ) → a < 2 → b < 2 → differ a b ≡ (a + b) % 2
differ-digit zero b h k = omega arith
differ-digit (suc zero) zero h k = refl
differ-digit (suc zero) (suc zero) h k = refl
differ-digit (suc zero) (suc (suc b)) h k = absurd (omega arith)
differ-digit (suc (suc a)) b h k = absurd (omega arith)

-- The lowest binary digit of `x ^ y`.
bit_xor_halves : (x y : ℕ) → bit_xor x y ≡ 2 * bit_xor (x / 2) (y / 2) + (x % 2 + y % 2) % 2
bit_xor_halves zero y =
    let halved = bit_xor-zero_left (y / 2) in omega (arith, halved, bit_xor-zero_left y)
bit_xor_halves (suc x) y =
    let halved = bit_xor-bitwise (suc x / 2) (y / 2) in
    let fueled =
      digits_surplus differ (y / 2) (suc x / 2) (suc x / 2) x (omega arith) (omega arith) in
    omega (
      arith,
      fueled,
      halved,
      bit_xor-bitwise (suc x) y,
      differ-digit (suc x % 2) (y % 2) (omega arith) (omega arith),
    )

xor_self_below : (bound x : ℕ) → x ≤ bound → bit_xor x x ≡ 0
xor_self_below bound zero h = refl
xor_self_below zero (suc x) h = absurd (omega arith)
xor_self_below (suc bound) (suc x) h =
    omega (arith, bit_xor_halves (suc x) (suc x), xor_self_below bound (suc x / 2) (omega arith))

pub bit_xor_self : (x : ℕ) → bit_xor x x ≡ 0
bit_xor_self x = xor_self_below x x (omega arith)

xor_cancel_below : (bound x y : ℕ) → x ≤ bound → bit_xor (bit_xor x y) y ≡ x
xor_cancel_below bound zero y h = ap (λ (t : ℕ). bit_xor t y) (bit_xor-zero_left y) ∙ bit_xor_self y
xor_cancel_below zero (suc x) y h = absurd (omega arith)
xor_cancel_below (suc bound) (suc x) y h =
    let halved = bit_xor_halves (suc x) y in
    let half : bit_xor (suc x) y / 2 ≡ bit_xor (suc x / 2) (y / 2) = omega arith in
    omega (
      arith,
      bit_xor_halves (bit_xor (suc x) y) y,
      ap (λ (t : ℕ). bit_xor t (y / 2)) half,
      xor_cancel_below bound (suc x / 2) (y / 2) (omega arith),
    )

pub bit_xor_cancel : (x y : ℕ) → bit_xor (bit_xor x y) y ≡ x
bit_xor_cancel x y = xor_cancel_below x x y (omega arith)

-- Only equal numbers have no difference.
pub bit_xor-eq : (x y : ℕ) → bit_xor x y ≡ 0 → x ≡ y
bit_xor-eq x y h = sym (bit_xor_cancel x y) ∙ ap (λ (t : ℕ). bit_xor t y) h ∙ bit_xor-zero_left y

or_zero_below : (bound x y : ℕ) → x ≤ bound → bit_or x y ≡ 0 → (x ≡ 0) × (y ≡ 0)
or_zero_below bound zero y h e = (refl, sym (bit_or-zero_left y) ∙ e)
or_zero_below zero (suc x) y h e = absurd (omega arith)
or_zero_below (suc bound) (suc x) y h e =
    let halves = bit_or_halves (suc x) y in
    let later = or_zero_below bound (suc x / 2) (y / 2) (omega arith) (omega arith) in
    (omega (arith, later.0), omega (arith, later.1))

pub bit_or-zero : (x y : ℕ) → bit_or x y ≡ 0 → (x ≡ 0) × (y ≡ 0)
bit_or-zero x y = or_zero_below x x y (omega arith)

xor_zero_below : (bound x : ℕ) → x ≤ bound → bit_xor x 0 ≡ x
xor_zero_below bound zero h = refl
xor_zero_below zero (suc x) h = absurd (omega arith)
xor_zero_below (suc bound) (suc x) h =
    omega (arith, bit_xor_halves (suc x) 0, xor_zero_below bound (suc x / 2) (omega arith))

pub bit_xor-zero_right : (x : ℕ) → bit_xor x 0 ≡ x
bit_xor-zero_right x = xor_zero_below x x (omega arith)

-- The halves of a difference are the differences of the halves, and so are the lowest digits.
pub bit_xor-div2 : (x y : ℕ) → bit_xor x y / 2 ≡ bit_xor (x / 2) (y / 2)
bit_xor-div2 x y = omega (arith, bit_xor_halves x y)

pub bit_xor-mod2 : (x y : ℕ) → bit_xor x y % 2 ≡ (x % 2 + y % 2) % 2
bit_xor-mod2 x y = omega (arith, bit_xor_halves x y)

xor_assoc_below : (bound x y z : ℕ) → x ≤ bound → bit_xor (bit_xor x y) z ≡ bit_xor x (bit_xor y z)
xor_assoc_below bound zero y z h =
    ap (λ (t : ℕ). bit_xor t z) (bit_xor-zero_left y) ∙ sym (bit_xor-zero_left (bit_xor y z))
xor_assoc_below zero (suc x) y z h = absurd (omega arith)
xor_assoc_below (suc bound) (suc x) y z h =
    let inner = ap (λ (t : ℕ). bit_xor t (z / 2)) (bit_xor-div2 (suc x) y) in
    let outer = ap (λ (t : ℕ). bit_xor (suc x / 2) t) (bit_xor-div2 y z) in
    omega (
      arith,
      inner,
      outer,
      bit_xor_halves (bit_xor (suc x) y) z,
      bit_xor_halves (suc x) (bit_xor y z),
      bit_xor-mod2 (suc x) y,
      bit_xor-mod2 y z,
      xor_assoc_below bound (suc x / 2) (y / 2) (z / 2) (omega arith),
    )

pub bit_xor_assoc : (x y z : ℕ) → bit_xor (bit_xor x y) z ≡ bit_xor x (bit_xor y z)
bit_xor_assoc x y z = xor_assoc_below x x y z (omega arith)

-- Numbers without a common digit.
pub bit_xor-shifted : (k x h : ℕ) → x < 2 ^ k → bit_xor x (h * 2 ^ k) ≡ x + h * 2 ^ k
bit_xor-shifted zero zero h l = bit_xor-zero_left (h * 1) ∙ omega arith
bit_xor-shifted zero (suc x) h l = absurd (omega arith)
bit_xor-shifted (suc k) x h l =
    let double : h * 2 ^ suc k ≡ 2 * (h * 2 ^ k) =
      omega (arith, ap (λ (t : ℕ). h * t) (pow-suc 2 k)) in
    let half : h * 2 ^ suc k / 2 ≡ h * 2 ^ k = omega arith in
    let small : x / 2 < 2 ^ k = omega (arith, pow-suc 2 k) in
    omega (
      arith,
      bit_xor_halves x (h * 2 ^ suc k),
      ap (λ (t : ℕ). bit_xor (x / 2) t) half,
      bit_xor-shifted k (x / 2) h small,
    )

-- Numbers of `k` digits leave the digits above alone.
pub bit_xor-above : (k x y : ℕ) → y < 2 ^ k → bit_xor x y / 2 ^ k ≡ x / 2 ^ k
bit_xor-above zero x y h = let e : y ≡ 0 = omega arith in rw (e, bit_xor-zero_right x) refl
bit_xor-above (suc k) x y h =
    let double : 2 * 2 ^ k ≡ 2 ^ suc k = omega (arith, pow-suc 2 k) in
    let halved : (n : ℕ) → n / 2 / 2 ^ k ≡ n / 2 ^ suc k =
      λ n. div-div-eq-div-mul n 2 (2 ^ k) ∙ ap (λ (t : ℕ). n / t) double in
    sym (halved (bit_xor x y))
    ∙ ap (λ (t : ℕ). t / 2 ^ k) (bit_xor-div2 x y)
    ∙ bit_xor-above k (x / 2) (y / 2) (omega arith)
    ∙ halved x
