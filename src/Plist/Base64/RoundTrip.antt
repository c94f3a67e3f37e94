-- ===== src/Plist/Base64/RoundTrip.antt =====
-- Decoding undoes encoding.
use perun.Base.{
  ℕ, ◌+◌, ◌-◌, ◌*◌, ◌/◌, ◌%◌, ◌^◌, ◌<◌, bit_or, ◌≡◌, refl, ap, ◌∙◌, Bool, true, false, not, ◌&&◌,
  none, some, [], ◌∷◌, get_or, Bytes, AreBytes, leb, ◌==◌, if◌then◌else◌, arith,
}
use perun.Base.Bits.{bit_or-shifted}
use perun.Base.Tables.{holds_from, holds_from-passes}
use perun.Plist.Base64.{
  table, joined_bits, base64_encode, position, push_byte, decode_digits, base64_decode,
}

-- A character of the table stands for its place and is no padding.
abbrev reads_back : ℕ → Bool
reads_back v =
    not (get_or table v 0 == b'=')
    && (elim (position 0 (get_or table v 0) table) [ none ↦ false | some w ↦ w == v ])

whole_table : holds_from reads_back 0 64 ≡ true
unfolding holds_from position
whole_table = refl

digit_value :
    (v : ℕ)
    → v < 64
    → ((get_or table v 0 == b'=') ≡ false) × (position 0 (get_or table v 0) table ≡ some v)
digit_value v h =
    let checked = holds_from-passes reads_back 64 0 v (omega arith) (omega arith) whole_table in
    ground (arith, checked)

bit_or-six : (acc v : ℕ) → v < 64 → bit_or (acc * 2 ^ 6 % 2 ^ 32) v ≡ acc % 2 ^ 26 * 64 + v
bit_or-six acc v h =
    let e : acc * 2 ^ 6 % 2 ^ 32 ≡ acc % 2 ^ 26 * 2 ^ 6 = omega arith in
    rw e (bit_or-shifted 6 (acc % 2 ^ 26) v h)

-- One character is taken.
decode_digits-digit :
    (acc bits v : ℕ) (rest : Bytes)
    → v < 64
    → decode_digits acc bits (get_or table v 0 ∷ rest) ≡ (
        let acc' = acc % 2 ^ 26 * 64 + v in
        let left = if leb 8 (bits + 6) then bits + 6 - 8 else bits + 6 in
        let later = decode_digits acc' left rest in
        if leb 8 (bits + 6) then push_byte (acc' / 2 ^ left % 256) later else later)
unfolding decode_digits
decode_digits-digit acc bits v rest h =
    let d = digit_value v h in rw (d.0, d.1, bit_or-six acc v h) refl

joined_sum : (a b c : ℕ) → b < 256 → c < 256 → joined_bits a b c ≡ a * 2 ^ 16 + b * 2 ^ 8 + c
joined_sum a b c hb hc =
    let e : a * 2 ^ 16 ≡ a * 2 ^ 8 * 2 ^ 8 = omega arith in
    let inner : bit_or (a * 2 ^ 16) (b * 2 ^ 8) ≡ (a * 2 ^ 8 + b) * 2 ^ 8 =
      bit_or-shifted 16 a (b * 2 ^ 8) (omega arith) ∙ omega arith in
    rw inner (bit_or-shifted 8 (a * 2 ^ 8 + b) c hc ∙ omega arith)

-- The accumulator after one more character.
abbrev taken : ℕ → ℕ → ℕ
taken acc v = acc % 2 ^ 26 * 64 + v

-- The bytes that the second, third and fourth character of a group complete.
first_byte : (acc x y : ℕ) → y < 64 → taken (taken acc x) y / 2 ^ 4 % 256 ≡ (x * 4 + y / 16) % 256
first_byte acc x y h = omega arith

second_byte : (acc y z : ℕ) → z < 64 → taken (taken acc y) z / 2 ^ 2 % 256 ≡ (y * 16 + z / 4) % 256
second_byte acc y z h = omega arith

third_byte : (acc z w : ℕ) → w < 64 → taken (taken acc z) w / 2 ^ 0 % 256 ≡ (z * 64 + w) % 256
third_byte acc z w h = omega arith

module _ (acc x y : ℕ) (hx : x < 64) (hy : y < 64) where
  decode_digits-two :
      (rest : Bytes)
      → decode_digits acc 0 (get_or table x 0 ∷ get_or table y 0 ∷ rest)
        ≡ push_byte ((x * 4 + y / 16) % 256) (decode_digits (taken (taken acc x) y) 4 rest)
  decode_digits-two rest =
      decode_digits-digit acc 0 x (get_or table y 0 ∷ rest) hx
      ∙ decode_digits-digit (taken acc x) 6 y rest hy
      ∙ ap (λ b. push_byte b (decode_digits (taken (taken acc x) y) 4 rest)) (first_byte acc x y hy)

  decode_digits-three :
      (z : ℕ) (rest : Bytes)
      → z < 64
      → decode_digits acc 0 (get_or table x 0 ∷ get_or table y 0 ∷ get_or table z 0 ∷ rest)
        ≡ push_byte ((x * 4 + y / 16) % 256) (
            push_byte
              ((y * 16 + z / 4) % 256)
              (decode_digits (taken (taken (taken acc x) y) z) 2 rest))
  decode_digits-three z rest hz =
      let two = taken (taken acc x) y in
      decode_digits-two (get_or table z 0 ∷ rest)
      ∙ ap (push_byte ((x * 4 + y / 16) % 256)) (
          decode_digits-digit two 4 z rest hz
          ∙ ap (λ b. push_byte b (decode_digits (taken two z) 2 rest))
              (second_byte (taken acc x) y z hz))

  decode_digits-four :
      (z w : ℕ) (rest : Bytes)
      → z < 64
      → w < 64
      → decode_digits acc 0
          (get_or table x 0 ∷ get_or table y 0 ∷ get_or table z 0 ∷ get_or table w 0 ∷ rest)
        ≡ push_byte ((x * 4 + y / 16) % 256) (
            push_byte ((y * 16 + z / 4) % 256) (
              push_byte
                ((z * 64 + w) % 256)
                (decode_digits (taken (taken (taken (taken acc x) y) z) w) 0 rest)))
  decode_digits-four z w rest hz hw =
      let three = taken (taken (taken acc x) y) z in
      decode_digits-three z (get_or table w 0 ∷ rest) hz
      ∙ ap (λ t. push_byte ((x * 4 + y / 16) % 256) (push_byte ((y * 16 + z / 4) % 256) t))
          (decode_digits-digit three 2 w rest hw
            ∙ ap (λ b. push_byte b (decode_digits (taken three w) 0 rest))
                (third_byte (taken (taken acc x) y) z w hw))

-- The padding ends the text.
decode_digits-padding :
    (acc bits : ℕ) (rest : Bytes) → decode_digits acc bits (b'=' ∷ rest) ≡ some []
unfolding decode_digits
decode_digits-padding acc bits rest = refl

decode_digits-nil : (acc : ℕ) → decode_digits acc 0 [] ≡ some []
unfolding decode_digits
decode_digits-nil acc = refl

-- The bytes behind the six-bit digits of their joined bits.
digits_bytes :
    (n a b c : ℕ)
    → a < 256
    → b < 256
    → c < 256
    → n ≡ a * 2 ^ 16 + b * 2 ^ 8 + c
    → ((n / 2 ^ 18 % 64 * 4 + n / 2 ^ 12 % 64 / 16) % 256 ≡ a)
      × ((n / 2 ^ 12 % 64 * 16 + n / 2 ^ 6 % 64 / 4) % 256 ≡ b)
      × ((n / 2 ^ 6 % 64 * 64 + n / 2 ^ 0 % 64) % 256 ≡ c)
digits_bytes n a b c ha hb hc e = (omega arith, omega arith, omega arith)

decode_digits-base64_encode :
    (xs : Bytes) (acc : ℕ) → AreBytes xs → decode_digits acc 0 (base64_encode xs) ≡ some xs
unfolding base64_encode
decode_digits-base64_encode [] acc h = decode_digits-nil acc
decode_digits-base64_encode (a ∷ []) acc h =
    let n = joined_bits a 0 0 in
    let bytes =
      digits_bytes n a 0 0 h.0 (omega arith) (omega arith)
        (joined_sum a 0 0 (omega arith) (omega arith)) in
    let x = n / 2 ^ 18 % 64 in
    let y = n / 2 ^ 12 % 64 in
    decode_digits-two acc x y (omega arith) (omega arith) (b'=' ∷ b'=' ∷ [])
    ∙ rw (bytes.0, decode_digits-padding (taken (taken acc x) y) 4 (b'=' ∷ [])) refl
decode_digits-base64_encode (a ∷ b ∷ []) acc h =
    let n = joined_bits a b 0 in
    let bytes =
      digits_bytes n a b 0 h.0 h.1.0 (omega arith) (joined_sum a b 0 h.1.0 (omega arith)) in
    let x = n / 2 ^ 18 % 64 in
    let y = n / 2 ^ 12 % 64 in
    let z = n / 2 ^ 6 % 64 in
    decode_digits-three acc x y (omega arith) (omega arith) z (b'=' ∷ []) (omega arith)
    ∙ rw (bytes.0, bytes.1, decode_digits-padding (taken (taken (taken acc x) y) z) 2 []) refl
decode_digits-base64_encode (a ∷ b ∷ c ∷ rest) acc h =
    let n = joined_bits a b c in
    let bytes = digits_bytes n a b c h.0 h.1.0 h.1.1.0 (joined_sum a b c h.1.0 h.1.1.0) in
    let x = n / 2 ^ 18 % 64 in
    let y = n / 2 ^ 12 % 64 in
    let z = n / 2 ^ 6 % 64 in
    let w = n / 2 ^ 0 % 64 in
    decode_digits-four acc x y (omega arith) (omega arith) z w (base64_encode rest) (omega arith)
      (omega arith)
    ∙ rw
        (
          bytes.0,
          bytes.1,
          bytes.2,
          decode_digits-base64_encode rest (taken (taken (taken (taken acc x) y) z) w) h.1.1.1,
        )
        refl

-- Bytes come back from their base64 text.
pub base64_decode-base64_encode :
    (xs : Bytes) → AreBytes xs → base64_decode (base64_encode xs) ≡ some xs
unfolding base64_decode
base64_decode-base64_encode xs h = decode_digits-base64_encode xs 0 h
