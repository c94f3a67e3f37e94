-- ===== src/Plist/Base64.antt =====
-- `base64_encode` and `base64_decode`. A `u32` that is shifted left keeps its lowest 32 bits.
pub mod RoundTrip
use perun.Base.{
  ℕ, zero, suc, ◌+◌, ◌-◌, ◌*◌, ◌/◌, ◌%◌, ◌^◌, bit_or, Option, none, some, List, [], ◌∷◌, get_or,
  Bytes, codes, leb, ◌==◌, if◌then◌else◌,
}

abbrev pub table : Bytes
table = codes "ABCDEFGHIJKLMNOPQRSTUVWXYZabcdefghijklmnopqrstuvwxyz0123456789+/"

-- The character of the six bits of `n` above `shift`.
abbrev pub digit_at : ℕ → ℕ → ℕ
digit_at n shift = get_or table (n / 2 ^ shift % 64) 0

-- The 24 bits of three bytes.
abbrev pub joined_bits : ℕ → ℕ → ℕ → ℕ
joined_bits a b c = bit_or (bit_or (a * 2 ^ 16) (b * 2 ^ 8)) c

unfoldable pub base64_encode : Bytes → Bytes
base64_encode [] = []
base64_encode (a ∷ []) =
    let n = joined_bits a 0 0 in digit_at n 18 ∷ digit_at n 12 ∷ b'=' ∷ b'=' ∷ []
base64_encode (a ∷ b ∷ []) =
    let n = joined_bits a b 0 in digit_at n 18 ∷ digit_at n 12 ∷ digit_at n 6 ∷ b'=' ∷ []
base64_encode (a ∷ b ∷ c ∷ rest) =
    let n = joined_bits a b c in
    digit_at n 18 ∷ digit_at n 12 ∷ digit_at n 6 ∷ digit_at n 0 ∷ base64_encode rest

-- `position`, counted from `i`.
unfoldable pub position : ℕ → ℕ → Bytes → Option ℕ
position i b [] = none
position i b (t ∷ ts) = let later = position (i + 1) b ts in if t == b then some i else later

abbrev pub push_byte : ℕ → Option Bytes → Option Bytes
push_byte b none = none
push_byte b (some bs) = some (b ∷ bs)

-- The loop of `base64_decode`: `none` is the error.
unfoldable pub decode_digits : ℕ → ℕ → Bytes → Option Bytes
unfolding position
decode_digits acc bits [] = some []
decode_digits acc bits (b ∷ bs) = if b == b'=' then some [] else elim (position 0 b table) [
  | none ↦ none
  | some v ↦
      let acc' = bit_or (acc * 2 ^ 6 % 2 ^ 32) v in
      let whole = leb 8 (bits + 6) in
      let left = if whole then bits + 6 - 8 else bits + 6 in
      let rest = decode_digits acc' left bs in
      if whole then push_byte (acc' / 2 ^ left % 256) rest else rest
]

unfoldable pub base64_decode : Bytes → Option Bytes
unfolding decode_digits
base64_decode input = decode_digits 0 0 input
