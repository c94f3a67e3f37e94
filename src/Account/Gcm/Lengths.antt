-- ===== src/Account/Gcm/Lengths.antt =====
-- A tag has 16 bytes, and the cipher keeps the length of the text.
use perun.Base.{
  ℕ, zero, suc, ◌+◌, ◌-◌, ◌*◌, ◌/◌, ◌%◌, ◌^◌, ◌≤◌, ◌≡◌, refl, inl, inr, List, [], ◌∷◌, ◌++◌, length,
  drop, take, replicate, get_or, All, Bytes, be32_bytes, be64_bytes, ◌==◌, ==→eq, ==→ne, Bool-cases,
  length-append, length-take, length-drop, arith,
}
use perun.Account.Aes.{xor_round, aes_encrypt_block, aes_key_schedule}
use perun.Account.Aes.Lengths.{
  IsBlock, length-xor_round, xor_round-IsBlock, aes_encrypt_block-IsBlock, aes_key_schedule-All,
}
use perun.Account.Gcm.{
  shift_behind, halve, gf_loop, gf_mul, ghash_blocks, ghash_tag, ctr_blocks, ctr, aes_gcm_encrypt,
}

length-shift_behind : (prev : ℕ) (bs : Bytes) → length (shift_behind prev bs) ≡ length bs
unfolding shift_behind
length-shift_behind prev [] = refl
length-shift_behind prev (b ∷ bs) = omega (arith, length-shift_behind b bs)

length-halve : (v : Bytes) → length (halve v) ≡ length v
unfolding halve
length-halve [] = refl
length-halve (b ∷ bs) = omega (arith, length-shift_behind b bs)

gf_loop-IsBlock : (n i : ℕ) (x z v : Bytes) → IsBlock z → IsBlock v → IsBlock (gf_loop n i x z v)
unfolding gf_loop
gf_loop-IsBlock zero i x z v h k = h
gf_loop-IsBlock (suc n) i x z v h k =
    let v' : IsBlock (halve v) = omega (arith, length-halve v) in
    elim (Bool-cases (get_or x (i / 8) 0 / 2 ^ (7 - i % 8) % 2 == 1)) [
      | inl set ↦
          rw set
            (gf_loop-IsBlock n (i + 1) x (xor_round z v) (halve v) (xor_round-IsBlock z v h k) v')
      | inr clear ↦ rw clear (gf_loop-IsBlock n (i + 1) x z (halve v) h v')
    ]

gf_mul-IsBlock : (x y : Bytes) → IsBlock y → IsBlock (gf_mul x y)
unfolding gf_mul
gf_mul-IsBlock x y h = gf_loop-IsBlock 128 0 x (replicate 16 0) y refl h

pub ghash_tag-IsBlock :
    (rounds : List Bytes) (tag_base ciphertext aad : Bytes)
    → All IsBlock rounds
    → IsBlock tag_base
    → IsBlock (ghash_tag rounds tag_base ciphertext aad)
unfolding ghash_tag
ghash_tag-IsBlock rounds tag_base ciphertext aad a h =
    let key = aes_encrypt_block rounds (replicate 16 0) in
    let x = ghash_blocks (length aad) key (replicate 16 0) aad in
    let y = ghash_blocks (length ciphertext) key x ciphertext in
    let lengths =
      be64_bytes (length aad * 8 % 2 ^ 64) ++ be64_bytes (length ciphertext * 8 % 2 ^ 64) in
    xor_round-IsBlock (gf_mul (xor_round y lengths) key) tag_base
      (gf_mul-IsBlock (xor_round y lengths) (aes_encrypt_block rounds (replicate 16 0))
        (aes_encrypt_block-IsBlock rounds (replicate 16 0) a refl))
      h

module _ (rounds : List Bytes) (iv : Bytes) (keys : All IsBlock rounds)
    (whole : length iv ≡ 12) where
  pub stream-IsBlock : (idx : ℕ) → IsBlock (aes_encrypt_block rounds (iv ++ be32_bytes idx))
  stream-IsBlock idx =
      aes_encrypt_block-IsBlock rounds (iv ++ be32_bytes idx) keys
        (omega (arith, length-append iv (be32_bytes idx)))

  pub length-ctr_blocks :
      (n idx : ℕ) (xs : Bytes) → length xs ≤ n → length (ctr_blocks n rounds iv idx xs) ≡ length xs
  unfolding ctr_blocks
  length-ctr_blocks zero idx xs h = omega arith
  length-ctr_blocks (suc n) idx xs h = elim (Bool-cases (length xs == 0)) [
    | inl empty ↦ rw empty (omega (arith, ==→eq (length xs) 0 empty))
    | inr more ↦
        let stream = aes_encrypt_block rounds (iv ++ be32_bytes idx) in
        let next = (idx + 1) % 2 ^ 32 in
        rw more (
          omega (
            arith,
            length-append (xor_round (take 16 xs) stream)
                (ctr_blocks n rounds iv next (drop 16 xs)),
            length-xor_round (take 16 xs) stream,
            stream-IsBlock idx,
            length-take 16 xs,
            length-drop 16 xs,
            ==→ne (length xs) 0 more,
            length-ctr_blocks n next (drop 16 xs)
                (omega (arith, length-drop 16 xs, ==→ne (length xs) 0 more)),
          ))
  ]

pub aes_gcm_encrypt-IsBlock :
    (key iv plaintext : Bytes) → length iv ≡ 12 → IsBlock (aes_gcm_encrypt key iv plaintext).1
unfolding aes_gcm_encrypt
aes_gcm_encrypt-IsBlock key iv plaintext whole =
    let rounds = aes_key_schedule key in
    let keys = aes_key_schedule-All key in
    ghash_tag-IsBlock rounds _ (ctr rounds iv plaintext) [] keys
      (stream-IsBlock rounds iv keys whole 1)
