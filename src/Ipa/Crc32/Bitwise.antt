-- ===== src/Ipa/Crc32/Bitwise.antt =====
-- The checksum by the table is the one that takes a message bit by bit.
use perun.Base.{
  ℕ, zero, suc, ◌+◌, ◌-◌, ◌*◌, ◌/◌, ◌%◌, ◌^◌, ◌<◌, bit_xor, ◌≡◌, refl, sym, ap, ap₂, ◌∙◌, Bool,
  true, false, [], ◌∷◌, get_or, Bytes, AreBytes, ◌==◌, if◌then◌else◌, arith,
}
use native.Mathlib.Nat.{pow-suc, div-div-eq-div-mul}
use perun.Base.Xor.{
  bit_xor-zero_right, bit_xor-div2, bit_xor-mod2, bit_xor_assoc, bit_xor-shifted, bit_xor-above,
}
use perun.Ipa.Crc32.{polynomial, crc_step, crc_steps, table_from, crc_loop, crc32_ieee}

-- The division of a message by the polynomial: one bit, `n` bits from the lowest on, all bytes.
abbrev pub feed_bit : ℕ → ℕ → ℕ
feed_bit c bit = if (c % 2 + bit) % 2 == 0 then c / 2 else bit_xor polynomial (c / 2)

abbrev pub feed_bits : ℕ → ℕ → ℕ → ℕ
feed_bits zero c m = c
feed_bits (suc n) c m = feed_bits n (feed_bit c (m % 2)) (m / 2)

abbrev pub feed_bytes : ℕ → Bytes → ℕ
feed_bytes c [] = c
feed_bytes c (b ∷ bs) = feed_bytes (feed_bits 8 c b) bs

choose_step :
    (even : Bool) (a b : ℕ)
    → (if even then bit_xor a b else bit_xor polynomial (bit_xor a b))
      ≡ bit_xor (if even then a else bit_xor polynomial a) b
choose_step true a b = refl
choose_step false a b = sym (bit_xor_assoc polynomial a b)

crc_step-bit_xor : (c m : ℕ) → crc_step (bit_xor c m) ≡ bit_xor (feed_bit c (m % 2)) (m / 2)
crc_step-bit_xor c m =
    rw (bit_xor-mod2 c m, bit_xor-div2 c m) (choose_step ((c % 2 + m % 2) % 2 == 0) (c / 2) (m / 2))

crc_steps-bit_xor : (n c m : ℕ) → crc_steps n (bit_xor c m) ≡ bit_xor (feed_bits n c m) (m / 2 ^ n)
unfolding crc_steps
crc_steps-bit_xor zero c m = let e : m / 1 ≡ m = omega arith in ap (bit_xor c) (sym e)
crc_steps-bit_xor (suc n) c m =
    let double : 2 * 2 ^ n ≡ 2 ^ suc n = omega (arith, pow-suc 2 n) in
    let e : m / 2 / 2 ^ n ≡ m / 2 ^ suc n =
      div-div-eq-div-mul m 2 (2 ^ n) ∙ ap (λ (t : ℕ). m / t) double in
    ap (crc_steps n) (crc_step-bit_xor c m)
    ∙ crc_steps-bit_xor n (feed_bit c (m % 2)) (m / 2)
    ∙ ap (bit_xor (feed_bits n (feed_bit c (m % 2)) (m / 2))) e

-- Bits that are all clear are only shifted in.
feed_bits-clear : (n c h : ℕ) → feed_bits n c (h * 2 ^ n) ≡ crc_steps n c
unfolding crc_steps
feed_bits-clear zero c h = refl
feed_bits-clear (suc n) c h =
    let double : h * 2 ^ suc n ≡ 2 * (h * 2 ^ n) =
      omega (arith, ap (λ (t : ℕ). h * t) (pow-suc 2 n)) in
    let even : h * 2 ^ suc n % 2 ≡ 0 = omega arith in
    let half : h * 2 ^ suc n / 2 ≡ h * 2 ^ n = omega arith in
    let bit : (c % 2 + 0) % 2 ≡ c % 2 = omega arith in
    rw (even, half, bit) (feed_bits-clear n (crc_step c) h)

-- Eight steps are one look at the table.
crc_steps-table : (x : ℕ) → crc_steps 8 x ≡ bit_xor (crc_steps 8 (x % 256)) (x / 2 ^ 8)
crc_steps-table x =
    let whole : x % 256 + x / 256 * 2 ^ 8 ≡ x = omega arith in
    let high : x / 256 * 2 ^ 8 / 2 ^ 8 ≡ x / 2 ^ 8 = omega arith in
    ap (crc_steps 8) (sym (bit_xor-shifted 8 (x % 256) (x / 256) (omega arith) ∙ whole))
    ∙ crc_steps-bit_xor 8 (x % 256) (x / 256 * 2 ^ 8)
    ∙ ap₂ bit_xor (feed_bits-clear 8 (x % 256) (x / 256)) high

get_or-table_from : (n i k : ℕ) → k < n → get_or (table_from i n) k 0 ≡ crc_steps 8 (i + k)
unfolding table_from
get_or-table_from zero i k h = absurd (omega arith)
get_or-table_from (suc n) i zero h = let e : i + 0 ≡ i = omega arith in ap (crc_steps 8) (sym e)
get_or-table_from (suc n) i (suc k) h =
    let e : i + 1 + k ≡ i + suc k = omega arith in
    get_or-table_from n (i + 1) k (omega arith) ∙ ap (crc_steps 8) e

one_byte :
    (c b : ℕ)
    → b < 256
    → bit_xor (get_or (table_from 0 256) (bit_xor c b % 256) 0) (c / 2 ^ 8) ≡ feed_bits 8 c b
one_byte c b h =
    let x = bit_xor c b in
    let low : 0 + x % 256 ≡ x % 256 = omega arith in
    let gone : b / 2 ^ 8 ≡ 0 = omega arith in
    let high : x / 2 ^ 8 ≡ c / 2 ^ 8 = bit_xor-above 8 c b h in
    ap₂ bit_xor (get_or-table_from 256 0 (x % 256) (omega arith) ∙ ap (crc_steps 8) low) (sym high)
    ∙ sym (crc_steps-table x)
    ∙ crc_steps-bit_xor 8 c b
    ∙ ap (bit_xor (feed_bits 8 c b)) gone
    ∙ bit_xor-zero_right (feed_bits 8 c b)

crc_loop-feed_bytes : (c : ℕ) (bs : Bytes) → AreBytes bs → crc_loop c bs ≡ feed_bytes c bs
unfolding crc_loop
crc_loop-feed_bytes c [] h = refl
crc_loop-feed_bytes c (b ∷ bs) h =
    ap (λ (t : ℕ). crc_loop t bs) (one_byte c b h.0) ∙ crc_loop-feed_bytes (feed_bits 8 c b) bs h.1

-- The checksum of bytes is the one that divides them bit by bit, each from its lowest bit on.
pub crc32_ieee-feed_bytes :
    (bs : Bytes) → AreBytes bs → crc32_ieee bs ≡ 0xffffffff - feed_bytes 0xffffffff bs
unfolding crc32_ieee
crc32_ieee-feed_bytes bs h = ap (λ (t : ℕ). 0xffffffff - t) (crc_loop-feed_bytes 0xffffffff bs h)
