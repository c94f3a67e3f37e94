-- ===== src/Sha256/Compress.antt =====
-- `K`, the word operations and `compress` of crates/perun-core/src/sha256.rs.
use perun.Base.{
  ℕ, zero, suc, ◌+◌, ◌-◌, ◌*◌, ◌/◌, ◌%◌, ◌^◌, bit_and, bit_or, bit_xor, List, [], ◌∷◌, ◌++◌, length,
  get_or, take, drop, Bytes, from_be,
}

abbrev round_constants : List ℕ
round_constants =
    0x428a2f98 ∷ 0x71374491 ∷ 0xb5c0fbcf ∷ 0xe9b5dba5 ∷ 0x3956c25b ∷ 0x59f111f1 ∷ 0x923f82a4
    ∷ 0xab1c5ed5 ∷ 0xd807aa98 ∷ 0x12835b01 ∷ 0x243185be ∷ 0x550c7dc3 ∷ 0x72be5d74 ∷ 0x80deb1fe
    ∷ 0x9bdc06a7 ∷ 0xc19bf174 ∷ 0xe49b69c1 ∷ 0xefbe4786 ∷ 0x0fc19dc6 ∷ 0x240ca1cc ∷ 0x2de92c6f
    ∷ 0x4a7484aa ∷ 0x5cb0a9dc ∷ 0x76f988da ∷ 0x983e5152 ∷ 0xa831c66d ∷ 0xb00327c8 ∷ 0xbf597fc7
    ∷ 0xc6e00bf3 ∷ 0xd5a79147 ∷ 0x06ca6351 ∷ 0x14292967 ∷ 0x27b70a85 ∷ 0x2e1b2138 ∷ 0x4d2c6dfc
    ∷ 0x53380d13 ∷ 0x650a7354 ∷ 0x766a0abb ∷ 0x81c2c92e ∷ 0x92722c85 ∷ 0xa2bfe8a1 ∷ 0xa81a664b
    ∷ 0xc24b8b70 ∷ 0xc76c51a3 ∷ 0xd192e819 ∷ 0xd6990624 ∷ 0xf40e3585 ∷ 0x106aa070 ∷ 0x19a4c116
    ∷ 0x1e376c08 ∷ 0x2748774c ∷ 0x34b0bcb5 ∷ 0x391c0cb3 ∷ 0x4ed8aa4a ∷ 0x5b9cca4f ∷ 0x682e6ff3
    ∷ 0x748f82ee ∷ 0x78a5636f ∷ 0x84c87814 ∷ 0x8cc70208 ∷ 0x90befffa ∷ 0xa4506ceb ∷ 0xbef9a3f7
    ∷ 0xc67178f2 ∷ []

-- The eight state words, and the eight working registers.
pub record Words : Type 0 where
  pub a : ℕ
  pub b : ℕ
  pub c : ℕ
  pub d : ℕ
  pub e : ℕ
  pub f : ℕ
  pub g : ℕ
  pub hh : ℕ

infixl 65 ◌⊞◌
-- `u32::wrapping_add`
abbrev pub ◌⊞◌ : ℕ → ℕ → ℕ
x ⊞ y = (x + y) % 2 ^ 32

-- `u32::rotate_right`
pub rotate_right : ℕ → ℕ → ℕ
rotate_right x n = bit_or (x / 2 ^ n) (x * 2 ^ (32 - n) % 2 ^ 32)

xor3 : ℕ → ℕ → ℕ → ℕ
xor3 x y z = bit_xor (bit_xor x y) z

-- `!x` on a `u32`
complement : ℕ → ℕ
complement x = 2 ^ 32 - 1 - x

-- The words `w[0..16]`, read big-endian from the block.
first_words : ℕ → Bytes → List ℕ
first_words zero chunk = []
first_words (suc n) chunk = from_be 0 (take 4 chunk) ∷ first_words n (drop 4 chunk)

-- `w[i]`, from the words before it.
next_word : List ℕ → ℕ → ℕ
unfolding rotate_right xor3
next_word w i =
    let w15 = get_or w (i - 15) 0 in
    let w2 = get_or w (i - 2) 0 in
    let s0 = xor3 (rotate_right w15 7) (rotate_right w15 18) (w15 / 2 ^ 3) in
    let s1 = xor3 (rotate_right w2 17) (rotate_right w2 19) (w2 / 2 ^ 10) in
    get_or w (i - 16) 0 ⊞ s0 ⊞ get_or w (i - 7) 0 ⊞ s1

-- The loop over `i in 16..64`, with the number of rounds left.
extend : ℕ → List ℕ → List ℕ
unfolding next_word
extend zero w = w
extend (suc n) w = extend n (w ++ next_word w (length w) ∷ [])

-- One round, at its constant and its message word.
round : Words → ℕ → ℕ → Words
unfolding rotate_right xor3 complement
round r k w =
    let s1 = xor3 (rotate_right r.e 6) (rotate_right r.e 11) (rotate_right r.e 25) in
    let ch = bit_xor (bit_and r.e r.f) (bit_and (complement r.e) r.g) in
    let temp1 = r.hh ⊞ s1 ⊞ ch ⊞ k ⊞ w in
    let s0 = xor3 (rotate_right r.a 2) (rotate_right r.a 13) (rotate_right r.a 22) in
    let maj = xor3 (bit_and r.a r.b) (bit_and r.a r.c) (bit_and r.b r.c) in
    let temp2 = s0 ⊞ maj in
    record {
      a = temp1 ⊞ temp2;
      b = r.a;
      c = r.b;
      d = r.c;
      e = r.d ⊞ temp1;
      f = r.e;
      g = r.f;
      hh = r.g;
    }

-- The loop over `i in 0..64`.
rounds : Words → List ℕ → List ℕ → Words
unfolding round
rounds r (k ∷ ks) (w ∷ ws) = rounds (round r k w) ks ws
rounds r _ _ = r

add_words : Words → Words → Words
add_words h r = record {
  a = h.a ⊞ r.a;
  b = h.b ⊞ r.b;
  c = h.c ⊞ r.c;
  d = h.d ⊞ r.d;
  e = h.e ⊞ r.e;
  f = h.f ⊞ r.f;
  g = h.g ⊞ r.g;
  hh = h.hh ⊞ r.hh;
}

-- `compress`: the new state words after one 64-byte block.
unfoldable pub compress : Words → Bytes → Words
unfolding first_words extend rounds add_words
compress h chunk = add_words h (rounds h round_constants (extend 48 (first_words 16 chunk)))
