-- ===== src/Account/Gcm/RoundTrip.antt =====
-- Decryption undoes encryption, and a wrong tag is refused.
use perun.Base.{
  ℕ, zero, suc, ◌+◌, ◌%◌, ◌^◌, ◌≤◌, min, bit_or, bit_xor, ◌≡◌, refl, sym, ap, ap₂, ◌∙◌, ◌⊎◌, inl,
  inr, false, some, List, [], ◌∷◌, ◌++◌, append-nil, length, length-zero, drop, take, All, Bytes,
  be32_bytes, ltb, ltb→lt, ltb→ge, ◌==◌, ==→eq, ==→ne, ne→==, Bool-cases, length-append,
  length-take, length-drop, take-length, drop-length, take-append_at, drop-append_at,
  take-append-drop, arith,
}
use perun.Base.Xor.{bit_xor_self, bit_xor_cancel, bit_xor-eq, bit_or-zero}
use perun.Account.Aes.{xor_round, aes_encrypt_block, aes_key_schedule}
use perun.Account.Aes.Lengths.{IsBlock, length-xor_round, aes_key_schedule-All}
use perun.Account.Gcm.{ctr_blocks, ctr, ghash_tag, tag_diff, aes_gcm_encrypt, aes_gcm_decrypt}
use perun.Account.Gcm.Lengths.{stream-IsBlock, length-ctr_blocks, ghash_tag-IsBlock}

xor_round_cancel : (xs ks : Bytes) → length xs ≤ length ks → xor_round (xor_round xs ks) ks ≡ xs
unfolding xor_round
xor_round_cancel [] ks h = refl
xor_round_cancel (x ∷ xs) [] h = absurd (omega arith)
xor_round_cancel (x ∷ xs) (k ∷ ks) h =
    ap₂ (λ (y : ℕ) ys. y ∷ ys) (bit_xor_cancel x k) (xor_round_cancel xs ks (omega arith))

-- A block of 16 bytes, or a shorter one at the end.
first_block :
    (b r : Bytes)
    → (length b ≡ 16) ⊎ ((length b ≤ 16) × (r ≡ []))
    → (take 16 (b ++ r) ≡ b) × (drop 16 (b ++ r) ≡ r)
first_block b r (inl e) = (take-append_at 16 b r e, drop-append_at 16 b r e)
first_block b r (inr (h, e)) = rw (e, append-nil) (take-length 16 b h, drop-length 16 b h)

module _ (rounds : List Bytes) (iv : Bytes) (keys : All IsBlock rounds)
    (whole : length iv ≡ 12) where
  ctr_blocks-nil : (n idx : ℕ) → ctr_blocks n rounds iv idx [] ≡ []
  unfolding ctr_blocks
  ctr_blocks-nil zero idx = refl
  ctr_blocks-nil (suc n) idx = refl

  -- The keystream does not depend on the text, so a second pass undoes the first.
  ctr_blocks_twice :
      (n idx : ℕ) (xs : Bytes)
      → length xs ≤ n
      → ctr_blocks n rounds iv idx (ctr_blocks n rounds iv idx xs) ≡ xs
  unfolding ctr_blocks
  ctr_blocks_twice zero idx xs h = sym (length-zero xs (omega arith))
  ctr_blocks_twice (suc n) idx xs h = elim (Bool-cases (length xs == 0)) [
    | inl empty ↦ rw empty (sym (length-zero xs (==→eq (length xs) 0 empty)))
    | inr more ↦
        let stream = aes_encrypt_block rounds (iv ++ be32_bytes idx) in
        let next = (idx + 1) % 2 ^ 32 in
        let b = xor_round (take 16 xs) stream in
        let r = ctr_blocks n rounds iv next (drop 16 xs) in
        let size : length b ≡ min 16 (length xs) = omega (
          arith,
          length-xor_round (take 16 xs) stream,
          stream-IsBlock rounds iv keys whole idx,
          length-take 16 xs,
        ) in
        let ne = ==→ne (length xs) 0 more in
        let filled : (length (b ++ r) == 0) ≡ false =
          ne→== (length (b ++ r)) 0 (omega (arith, length-append b r, size, ne)) in
        let shape : (length b ≡ 16) ⊎ ((length b ≤ 16) × (r ≡ [])) =
          elim (Bool-cases (ltb (length xs) 16)) [
            | inl short ↦ inr (
              omega (arith, size),
              ap (ctr_blocks n rounds iv next)
                    (drop-length 16 xs (omega (arith, ltb→lt (length xs) 16 short)))
                  ∙ ctr_blocks-nil n next,
            )
            | inr long ↦ inl (omega (arith, size, ltb→ge (length xs) 16 long))
          ] in
        let parts = first_block b r shape in
        rw more (
          rw (filled, parts.0, parts.1)
            (ap₂ (◌++◌ {A = ℕ})
                (xor_round_cancel (take 16 xs) stream
                  (omega (arith, stream-IsBlock rounds iv keys whole idx, length-take 16 xs)))
                (ctr_blocks_twice n next (drop 16 xs) (omega (arith, length-drop 16 xs, ne)))
              ∙ take-append-drop 16 xs))
  ]

  ctr_twice : (xs : Bytes) → ctr rounds iv (ctr rounds iv xs) ≡ xs
  ctr_twice xs =
      rw (length-ctr_blocks rounds iv keys whole (length xs) 2 xs (omega arith))
        (ctr_blocks_twice (length xs) 2 xs (omega arith))

tag_diff_same : (tag : Bytes) → tag_diff 0 tag tag ≡ 0
unfolding tag_diff
tag_diff_same [] = refl
tag_diff_same (t ∷ tag) = rw (bit_xor_self t) (tag_diff_same tag)

tag_diff-grows : (d : ℕ) (a b : Bytes) → tag_diff d a b ≡ 0 → d ≡ 0
unfolding tag_diff
tag_diff-grows d [] b h = h
tag_diff-grows d (x ∷ a) [] h = h
tag_diff-grows d (x ∷ a) (y ∷ b) h =
    (bit_or-zero d (bit_xor x y) (tag_diff-grows (bit_or d (bit_xor x y)) a b h)).0

tag_diff-eq : (d : ℕ) (a b : Bytes) → length a ≡ length b → tag_diff d a b ≡ 0 → a ≡ b
unfolding tag_diff
tag_diff-eq d [] [] l h = refl
tag_diff-eq d [] (y ∷ b) l h = absurd (omega arith)
tag_diff-eq d (x ∷ a) [] l h = absurd (omega arith)
tag_diff-eq d (x ∷ a) (y ∷ b) l h =
    let gone = bit_or-zero d (bit_xor x y) (tag_diff-grows (bit_or d (bit_xor x y)) a b h) in
    ap₂ (λ (t : ℕ) ts. t ∷ ts) (bit_xor-eq x y gone.1)
      (tag_diff-eq (bit_or d (bit_xor x y)) a b (omega arith) h)

-- Under any key, a text encrypted with a 12-byte IV is decrypted by the same key and IV with its tag.
pub aes_gcm_decrypt-aes_gcm_encrypt :
    (key iv plaintext : Bytes)
    → length iv ≡ 12
    → aes_gcm_decrypt key iv
        (aes_gcm_encrypt key iv plaintext).0
        (aes_gcm_encrypt key iv plaintext).1
      ≡ some plaintext
unfolding aes_gcm_encrypt aes_gcm_decrypt
aes_gcm_decrypt-aes_gcm_encrypt key iv plaintext whole =
    let rounds = aes_key_schedule key in
    let tag_base = aes_encrypt_block rounds (iv ++ be32_bytes 1) in
    rw (tag_diff_same (ghash_tag rounds tag_base (ctr rounds iv plaintext) []))
      (ap some (ctr_twice rounds iv (aes_key_schedule-All key) whole plaintext))

-- The tag that belongs to a ciphertext.
abbrev pub gcm_tag : Bytes → Bytes → Bytes → Bytes
gcm_tag key iv ciphertext =
    let rounds = aes_key_schedule key in
    ghash_tag rounds (aes_encrypt_block rounds (iv ++ be32_bytes 1)) ciphertext []

-- Only the ciphertext's own tag is accepted.
pub aes_gcm_decrypt-tag :
    (key iv ciphertext tag plaintext : Bytes)
    → length iv ≡ 12
    → length tag ≡ 16
    → aes_gcm_decrypt key iv ciphertext tag ≡ some plaintext
    → tag ≡ gcm_tag key iv ciphertext
unfolding aes_gcm_decrypt
aes_gcm_decrypt-tag key iv ciphertext tag plaintext whole l h =
    let rounds = aes_key_schedule key in
    let keys = aes_key_schedule-All key in
    let tag_base = aes_encrypt_block rounds (iv ++ be32_bytes 1) in
    let expected = ghash_tag rounds tag_base ciphertext [] in
    elim (Bool-cases (tag_diff 0 expected tag == 0)) [
      | inl same ↦ sym (
          tag_diff-eq 0 expected tag
            (omega (
              arith,
              ghash_tag-IsBlock rounds tag_base ciphertext [] keys
                  (stream-IsBlock rounds iv keys whole 1),
            ))
            (==→eq (tag_diff 0 expected tag) 0 same))
      | inr other ↦ cc
    ]
