-- ===== src/Account/Aes/Lengths.antt =====
-- A block and a round key have 16 bytes.
use perun.Base.{ℕ, zero, suc, min, ◌≡◌, refl, List, [], ◌∷◌, length, drop, All, Bytes, arith}
use perun.Account.Aes.{
  xor_round, sub_bytes, shift_rows, mix_columns, later_rounds, aes_encrypt_block, round_keys,
  extend_key, key_words, aes_key_schedule,
}

abbrev pub IsBlock : Bytes → Type 0
IsBlock b = length b ≡ 16

pub length-xor_round : (a b : Bytes) → length (xor_round a b) ≡ min (length a) (length b)
unfolding xor_round
length-xor_round [] b = omega arith
length-xor_round (x ∷ a) [] = omega arith
length-xor_round (x ∷ a) (y ∷ b) = omega (arith, length-xor_round a b)

pub xor_round-IsBlock : (a b : Bytes) → IsBlock a → IsBlock b → IsBlock (xor_round a b)
xor_round-IsBlock a b h k = omega (arith, length-xor_round a b)

shift_rows-IsBlock : (s : Bytes) → IsBlock (shift_rows s)
unfolding shift_rows
shift_rows-IsBlock s = refl

mixed-IsBlock : (s : Bytes) → IsBlock (mix_columns (shift_rows s))
unfolding shift_rows mix_columns
mixed-IsBlock s = refl

later_rounds-IsBlock :
    (ks : List Bytes) (s : Bytes) → All IsBlock ks → IsBlock s → IsBlock (later_rounds ks s)
unfolding later_rounds
later_rounds-IsBlock [] s a h = h
later_rounds-IsBlock (k ∷ []) s a h =
    xor_round-IsBlock (shift_rows (sub_bytes s)) k (shift_rows-IsBlock (sub_bytes s)) a.0
later_rounds-IsBlock (k ∷ l ∷ ks) s (a, b) h =
    later_rounds-IsBlock (l ∷ ks) (xor_round (mix_columns (shift_rows (sub_bytes s))) k) b
      (xor_round-IsBlock (mix_columns (shift_rows (sub_bytes s))) k (mixed-IsBlock (sub_bytes s)) a)

pub aes_encrypt_block-IsBlock :
    (ks : List Bytes) (block : Bytes)
    → All IsBlock ks
    → IsBlock block
    → IsBlock (aes_encrypt_block ks block)
unfolding aes_encrypt_block
aes_encrypt_block-IsBlock [] block a h = h
aes_encrypt_block-IsBlock (k ∷ ks) block (a, b) h =
    later_rounds-IsBlock ks (xor_round block k) b (xor_round-IsBlock block k h a)

round_keys-All : (n : ℕ) (words : List ℕ) → All IsBlock (round_keys n words)
unfolding round_keys
round_keys-All zero words = tt
round_keys-All (suc n) words = (refl, round_keys-All n (drop 4 words))

pub aes_key_schedule-All : (key : Bytes) → All IsBlock (aes_key_schedule key)
unfolding aes_key_schedule
aes_key_schedule-All key = round_keys-All 15 (extend_key 52 (key_words 8 key))
