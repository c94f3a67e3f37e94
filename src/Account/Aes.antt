-- ===== src/Account/Aes.antt =====
-- AES-256 as account.rs has it: the key schedule and the encryption of one block. A block is a list of
-- 16 bytes, column by column, and a round key is one too.
pub mod Lengths
use perun.Base.{
  ℕ, zero, suc, ◌+◌, ◌-◌, ◌*◌, ◌/◌, ◌%◌, ◌^◌, bit_or, bit_xor, List, [], ◌∷◌, ◌++◌, map, length,
  drop, get_or, Bytes, be32_bytes, from_be, ltb, ◌==◌, if◌then◌else◌,
}

abbrev pub sbox : Bytes
sbox =
    0x63 ∷ 0x7c ∷ 0x77 ∷ 0x7b ∷ 0xf2 ∷ 0x6b ∷ 0x6f ∷ 0xc5 ∷ 0x30 ∷ 0x01 ∷ 0x67 ∷ 0x2b ∷ 0xfe ∷ 0xd7
    ∷ 0xab ∷ 0x76 ∷ 0xca ∷ 0x82 ∷ 0xc9 ∷ 0x7d ∷ 0xfa ∷ 0x59 ∷ 0x47 ∷ 0xf0 ∷ 0xad ∷ 0xd4 ∷ 0xa2
    ∷ 0xaf ∷ 0x9c ∷ 0xa4 ∷ 0x72 ∷ 0xc0 ∷ 0xb7 ∷ 0xfd ∷ 0x93 ∷ 0x26 ∷ 0x36 ∷ 0x3f ∷ 0xf7 ∷ 0xcc
    ∷ 0x34 ∷ 0xa5 ∷ 0xe5 ∷ 0xf1 ∷ 0x71 ∷ 0xd8 ∷ 0x31 ∷ 0x15 ∷ 0x04 ∷ 0xc7 ∷ 0x23 ∷ 0xc3 ∷ 0x18
    ∷ 0x96 ∷ 0x05 ∷ 0x9a ∷ 0x07 ∷ 0x12 ∷ 0x80 ∷ 0xe2 ∷ 0xeb ∷ 0x27 ∷ 0xb2 ∷ 0x75 ∷ 0x09 ∷ 0x83
    ∷ 0x2c ∷ 0x1a ∷ 0x1b ∷ 0x6e ∷ 0x5a ∷ 0xa0 ∷ 0x52 ∷ 0x3b ∷ 0xd6 ∷ 0xb3 ∷ 0x29 ∷ 0xe3 ∷ 0x2f
    ∷ 0x84 ∷ 0x53 ∷ 0xd1 ∷ 0x00 ∷ 0xed ∷ 0x20 ∷ 0xfc ∷ 0xb1 ∷ 0x5b ∷ 0x6a ∷ 0xcb ∷ 0xbe ∷ 0x39
    ∷ 0x4a ∷ 0x4c ∷ 0x58 ∷ 0xcf ∷ 0xd0 ∷ 0xef ∷ 0xaa ∷ 0xfb ∷ 0x43 ∷ 0x4d ∷ 0x33 ∷ 0x85 ∷ 0x45
    ∷ 0xf9 ∷ 0x02 ∷ 0x7f ∷ 0x50 ∷ 0x3c ∷ 0x9f ∷ 0xa8 ∷ 0x51 ∷ 0xa3 ∷ 0x40 ∷ 0x8f ∷ 0x92 ∷ 0x9d
    ∷ 0x38 ∷ 0xf5 ∷ 0xbc ∷ 0xb6 ∷ 0xda ∷ 0x21 ∷ 0x10 ∷ 0xff ∷ 0xf3 ∷ 0xd2 ∷ 0xcd ∷ 0x0c ∷ 0x13
    ∷ 0xec ∷ 0x5f ∷ 0x97 ∷ 0x44 ∷ 0x17 ∷ 0xc4 ∷ 0xa7 ∷ 0x7e ∷ 0x3d ∷ 0x64 ∷ 0x5d ∷ 0x19 ∷ 0x73
    ∷ 0x60 ∷ 0x81 ∷ 0x4f ∷ 0xdc ∷ 0x22 ∷ 0x2a ∷ 0x90 ∷ 0x88 ∷ 0x46 ∷ 0xee ∷ 0xb8 ∷ 0x14 ∷ 0xde
    ∷ 0x5e ∷ 0x0b ∷ 0xdb ∷ 0xe0 ∷ 0x32 ∷ 0x3a ∷ 0x0a ∷ 0x49 ∷ 0x06 ∷ 0x24 ∷ 0x5c ∷ 0xc2 ∷ 0xd3
    ∷ 0xac ∷ 0x62 ∷ 0x91 ∷ 0x95 ∷ 0xe4 ∷ 0x79 ∷ 0xe7 ∷ 0xc8 ∷ 0x37 ∷ 0x6d ∷ 0x8d ∷ 0xd5 ∷ 0x4e
    ∷ 0xa9 ∷ 0x6c ∷ 0x56 ∷ 0xf4 ∷ 0xea ∷ 0x65 ∷ 0x7a ∷ 0xae ∷ 0x08 ∷ 0xba ∷ 0x78 ∷ 0x25 ∷ 0x2e
    ∷ 0x1c ∷ 0xa6 ∷ 0xb4 ∷ 0xc6 ∷ 0xe8 ∷ 0xdd ∷ 0x74 ∷ 0x1f ∷ 0x4b ∷ 0xbd ∷ 0x8b ∷ 0x8a ∷ 0x70
    ∷ 0x3e ∷ 0xb5 ∷ 0x66 ∷ 0x48 ∷ 0x03 ∷ 0xf6 ∷ 0x0e ∷ 0x61 ∷ 0x35 ∷ 0x57 ∷ 0xb9 ∷ 0x86 ∷ 0xc1
    ∷ 0x1d ∷ 0x9e ∷ 0xe1 ∷ 0xf8 ∷ 0x98 ∷ 0x11 ∷ 0x69 ∷ 0xd9 ∷ 0x8e ∷ 0x94 ∷ 0x9b ∷ 0x1e ∷ 0x87
    ∷ 0xe9 ∷ 0xce ∷ 0x55 ∷ 0x28 ∷ 0xdf ∷ 0x8c ∷ 0xa1 ∷ 0x89 ∷ 0x0d ∷ 0xbf ∷ 0xe6 ∷ 0x42 ∷ 0x68
    ∷ 0x41 ∷ 0x99 ∷ 0x2d ∷ 0x0f ∷ 0xb0 ∷ 0x54 ∷ 0xbb ∷ 0x16 ∷ []

-- `state[i] ^= key[i]`
unfoldable pub xor_round : Bytes → Bytes → Bytes
xor_round [] ks = []
xor_round (s ∷ ss) [] = []
xor_round (s ∷ ss) (k ∷ ks) = bit_xor s k ∷ xor_round ss ks

pub sub_bytes : Bytes → Bytes
sub_bytes = map (λ b. get_or sbox b 0)

-- Where row `i % 4` of column `i / 4` comes from.
abbrev shifted : ℕ → ℕ
shifted i = 4 * ((i / 4 + i % 4) % 4) + i % 4

-- The numbers from `i` on.
abbrev pub count_from : ℕ → ℕ → List ℕ
count_from i zero = []
count_from i (suc n) = i ∷ count_from (i + 1) n

pub shift_rows : Bytes → Bytes
shift_rows state = map (λ i. get_or state (shifted i) 0) (count_from 0 16)

-- The loop of `gf2_mul`; a `u8` is 0 after eight shifts.
gf2_loop : ℕ → ℕ → ℕ → ℕ → ℕ
gf2_loop zero m v out = out
gf2_loop (suc n) m v out =
    let out' = if m % 2 == 0 then out else bit_xor out v in
    let v' = if ltb v 0x80 then v * 2 % 256 else bit_xor (v * 2 % 256) 0x1b in
    let rest = gf2_loop n (m / 2) v' out' in if m == 0 then out else rest

pub gf2_mul : ℕ → ℕ → ℕ
unfolding gf2_loop
gf2_mul m v = gf2_loop 8 m v 0

xor4 : ℕ → ℕ → ℕ → ℕ → ℕ
xor4 a b c d = bit_xor (bit_xor (bit_xor a b) c) d

pub mix_columns : Bytes → Bytes
unfolding gf2_mul xor4
mix_columns (a ∷ b ∷ c ∷ d ∷ rest) =
    xor4 (gf2_mul 2 a) (gf2_mul 3 b) c d
    ∷ xor4 a (gf2_mul 2 b) (gf2_mul 3 c) d
    ∷ xor4 a b (gf2_mul 2 c) (gf2_mul 3 d)
    ∷ xor4 (gf2_mul 3 a) b c (gf2_mul 2 d)
    ∷ mix_columns rest
mix_columns _ = []

-- The rounds behind the first key; the last one mixes no columns.
pub later_rounds : List Bytes → Bytes → Bytes
unfolding sub_bytes shift_rows mix_columns xor_round
later_rounds [] state = state
later_rounds (k ∷ []) state = xor_round (shift_rows (sub_bytes state)) k
later_rounds (k ∷ l ∷ ks) state =
    later_rounds (l ∷ ks) (xor_round (mix_columns (shift_rows (sub_bytes state))) k)

unfoldable pub aes_encrypt_block : List Bytes → Bytes → Bytes
unfolding later_rounds xor_round
aes_encrypt_block [] block = block
aes_encrypt_block (k ∷ ks) block = later_rounds ks (xor_round block k)

-- `u32::rotate_left(8)`
abbrev rotate_left_8 : ℕ → ℕ
rotate_left_8 x = bit_or (x * 2 ^ 8 % 2 ^ 32) (x / 2 ^ 24)

sub_word : ℕ → ℕ
unfolding sub_bytes
sub_word w = from_be 0 (sub_bytes (be32_bytes w))

abbrev rcon : List ℕ
rcon = 0x01 ∷ 0x02 ∷ 0x04 ∷ 0x08 ∷ 0x10 ∷ 0x20 ∷ 0x40 ∷ []

-- `words[i]`, from the words before it.
next_key_word : List ℕ → ℕ → ℕ
unfolding sub_word
next_key_word words i =
    let temp = get_or words (i - 1) 0 in
    let temp' =
      if i % 8 == 0
      then bit_xor (sub_word (rotate_left_8 temp)) (get_or rcon (i / 8 - 1) 0 * 2 ^ 24)
      else if i % 8 == 4
      then sub_word temp
      else temp in
    bit_xor (get_or words (i - 8) 0) temp'

-- The loop over `i in 8..60`, with the number of rounds left.
pub extend_key : ℕ → List ℕ → List ℕ
unfolding next_key_word
extend_key zero words = words
extend_key (suc n) words = extend_key n (words ++ next_key_word words (length words) ∷ [])

-- The first `n` words of the key.
pub key_words : ℕ → Bytes → List ℕ
key_words zero key = []
key_words (suc n) key =
    from_be 0 (get_or key 0 0 ∷ get_or key 1 0 ∷ get_or key 2 0 ∷ get_or key 3 0 ∷ [])
    ∷ key_words n (drop 4 key)

-- The round keys, four words each.
pub round_keys : ℕ → List ℕ → List Bytes
round_keys zero words = []
round_keys (suc n) words =
    (be32_bytes (get_or words 0 0)
      ++ (be32_bytes (get_or words 1 0)
          ++ (be32_bytes (get_or words 2 0) ++ be32_bytes (get_or words 3 0))))
    ∷ round_keys n (drop 4 words)

unfoldable pub aes_key_schedule : Bytes → List Bytes
unfolding round_keys extend_key key_words
aes_key_schedule key = round_keys 15 (extend_key 52 (key_words 8 key))
