-- ===== src/Ipa/Bits.antt =====
-- `BitReader` over the bytes `source`: what moves is the place, a byte and a bit in it.
use perun.Base.{
  ℕ, zero, suc, ◌+◌, ◌*◌, ◌/◌, ◌%◌, ◌^◌, bit_or, none, some, Bytes, get_elem?, ◌==◌, if◌then◌else◌,
}

-- The error of `inflate`, one for each of its messages; `out_of_fuel` is the model's own.
pub data InflateError : Type 0 where
  out_of_input length_mismatch no_predecessor bad_length_symbol length_overflow : InflateError
  reserved_block bad_code_length bad_distance distance_before_start bad_literal : InflateError
  bad_huffman_code out_of_fuel : InflateError

-- `panicked` is an index out of range.
pub data Outcome {ℓ} (A : Type ℓ) : Type ℓ where
  done : A → Outcome A
  failed : InflateError → Outcome A
  panicked : Outcome A

infixl 5 ◌>>=◌
abbrev pub ◌>>=◌ {ℓ κ} : {A : Type ℓ} {B : Type κ} → Outcome A → (A → Outcome B) → Outcome B
done a >>= f = f a
failed e >>= f = failed e
panicked >>= f = panicked

pub record Place : Type 0 where
  pub pos : ℕ
  pub bit : ℕ

module _ (source : Bytes) where
  unfoldable pub read_bit : Place → Outcome (ℕ × Place)
  read_bit p = elim (get_elem? source p.pos) [
    | none ↦ failed out_of_input
    | some byte ↦
        let v = byte / 2 ^ p.bit % 2 in
        if p.bit + 1 == 8
        then done (v, record { pos = p.pos + 1; bit = 0 })
        else done (v, record { pos = p.pos; bit = p.bit + 1 })
  ]

  -- The loop of `bits` at bit `i`, with `n` bits left.
  unfoldable pub bits_loop : ℕ → ℕ → ℕ → Place → Outcome (ℕ × Place)
  bits_loop zero i v p = done (v, p)
  bits_loop (suc n) i v p = read_bit p >>= λ r. bits_loop n (i + 1) (bit_or v (r.0 * 2 ^ i)) r.1

  abbrev pub bits : ℕ → Place → Outcome (ℕ × Place)
  bits n p = bits_loop n 0 0 p

  -- The loop of `bytes` at byte `i`.
  unfoldable pub bytes_loop : ℕ → ℕ → ℕ → Place → Outcome (ℕ × Place)
  bytes_loop zero i v p = done (v, p)
  bytes_loop (suc n) i v p = elim (get_elem? source p.pos) [
    | none ↦ failed out_of_input
    | some b ↦
        bytes_loop n (i + 1) (bit_or v (b * 2 ^ (8 * i))) (record { pos = p.pos + 1; bit = p.bit })
  ]

  abbrev pub bytes : ℕ → Place → Outcome (ℕ × Place)
  bytes n p = bytes_loop n 0 0 p

abbrev pub align_byte : Place → Place
align_byte p = if p.bit == 0 then p else record { pos = p.pos + 1; bit = 0 }
