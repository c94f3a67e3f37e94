-- ===== src/Account/Vault/RoundTrip.antt =====
-- A vault is opened by the machine and the passphrase that sealed it, and only a whole blob with its own
-- tag is opened.
use perun.Base.{
  ℕ, ◌+◌, ◌-◌, ◌≤◌, ◌≡◌, refl, sym, ap, ◌∙◌, true, false, Option, none, some, [], ◌∷◌, ◌++◌, length,
  take, drop, replicate, Bytes, be32_bytes, from_be, ltb, length-append, length-take, length-drop,
  length-replicate, take-append_at, drop-append_at, drop-at, drop-split, arith,
}
use perun.Base.Utf8.{is_utf8}
use perun.Account.Gcm.{aes_gcm_encrypt, aes_gcm_decrypt}
use perun.Account.Gcm.Lengths.{aes_gcm_encrypt-IsBlock}
use perun.Account.Gcm.RoundTrip.{gcm_tag, aes_gcm_decrypt-tag, aes_gcm_decrypt-aes_gcm_encrypt}
use perun.Account.Kdf.{derive_key}
use perun.Account.Vault.{format_byte, opened, fill_random, encrypt, opened_text, decrypt}

length-fill_random : (n : ℕ) (source : Bytes) → length (fill_random n source) ≡ n
unfolding fill_random
length-fill_random n source = omega (
  arith,
  length-append (take n source) (replicate (n - length source) 0),
  length-take n source,
  length-replicate {A = ℕ} (n - length source) 0,
)

-- The parts of a blob behind its five bytes in front, by their lengths.
blob_parts :
    (salt iv tag ciphertext body : Bytes)
    → body ≡ salt ++ (iv ++ (tag ++ ciphertext))
    → length salt ≡ 16
    → length iv ≡ 12
    → length tag ≡ 16
    → (take 16 body ≡ salt)
      × (take 12 (drop 16 body) ≡ iv)
      × (take 16 (drop 28 body) ≡ tag)
      × (drop 44 body ≡ ciphertext)
blob_parts salt iv tag ciphertext body e s i t =
    let d16 : drop 16 body ≡ iv ++ (tag ++ ciphertext) =
      rw e (drop-append_at 16 salt (iv ++ (tag ++ ciphertext)) s) in
    let d28 : drop 28 body ≡ tag ++ ciphertext =
      ap (λ n. drop (16 + n) body) (sym i) ∙ drop-at 16 body iv (tag ++ ciphertext) d16 in
    let d44 : drop 44 body ≡ ciphertext =
      ap (λ n. drop (28 + n) body) (sym t) ∙ drop-at 28 body tag ciphertext d28 in
    (
      rw e (take-append_at 16 salt (iv ++ (tag ++ ciphertext)) s),
      ap (take 12) d16 ∙ take-append_at 12 iv (tag ++ ciphertext) i,
      ap (take 16) d28 ∙ take-append_at 16 tag ciphertext t,
      d44,
    )

-- A blob made of parts of the right lengths reaches the decryption of its parts.
decrypt-parts :
    (salt iv tag ciphertext machine passphrase : Bytes)
    → length salt ≡ 16
    → length iv ≡ 12
    → length tag ≡ 16
    → decrypt
        (format_byte ∷ (be32_bytes 16 ++ (salt ++ (iv ++ (tag ++ ciphertext)))))
        machine
        passphrase
      ≡ opened_text (aes_gcm_decrypt (derive_key machine passphrase salt) iv ciphertext tag)
unfolding decrypt
decrypt-parts salt iv tag ciphertext machine passphrase s i t =
    let body = salt ++ (iv ++ (tag ++ ciphertext)) in
    let parts = blob_parts salt iv tag ciphertext body refl s i t in
    let long : 44 ≤ length body = omega (
      arith,
      length-append salt (iv ++ (tag ++ ciphertext)),
      length-append iv (tag ++ ciphertext),
      length-append tag ciphertext,
    ) in
    let size : ltb (length (format_byte ∷ (be32_bytes 16 ++ body))) 49 ≡ false =
      ground (arith, long) in
    rw (size, ltb) (rw (parts.0, parts.1, parts.2, parts.3) refl)

-- Whatever could be read of `/dev/urandom`, the blob of a UTF-8 text is opened to that text by the
-- machine and the passphrase it was sealed with.
pub decrypt-encrypt :
    (salt_source iv_source plaintext machine passphrase : Bytes)
    → is_utf8 plaintext ≡ true
    → decrypt (encrypt salt_source iv_source plaintext machine passphrase) machine passphrase
      ≡ opened plaintext
unfolding encrypt
decrypt-encrypt salt_source iv_source plaintext machine passphrase valid =
    let salt = fill_random 16 salt_source in
    let iv = fill_random 12 iv_source in
    let whole = length-fill_random 12 iv_source in
    let key = derive_key machine passphrase salt in
    let sealed = aes_gcm_encrypt key iv plaintext in
    decrypt-parts salt iv sealed.1 sealed.0 machine passphrase (length-fill_random 16 salt_source)
      whole (aes_gcm_encrypt-IsBlock key iv plaintext whole)
    ∙ rw (aes_gcm_decrypt-aes_gcm_encrypt key iv plaintext whole, valid) refl

-- A blob that keeps the parts `salt`, `iv`, `tag` and `ciphertext`, the tag being the ciphertext's own.
pub record IsSealed (blob machine passphrase text : Bytes) : Type 0 where
  pub salt : Bytes
  pub iv : Bytes
  pub tag : Bytes
  pub ciphertext : Bytes
  pub marked : take 1 blob ≡ format_byte ∷ []
  pub sized : from_be 0 (take 4 (drop 1 blob)) ≡ 16
  pub parts : drop 5 blob ≡ salt ++ (iv ++ (tag ++ ciphertext))
  pub salt_size : length salt ≡ 16
  pub iv_size : length iv ≡ 12
  pub own_tag : tag ≡ gcm_tag (derive_key machine passphrase salt) iv ciphertext
  pub valid : is_utf8 text ≡ true
  pub decrypted : aes_gcm_decrypt (derive_key machine passphrase salt) iv ciphertext tag ≡ some text

opened_text-opened :
    (r : Option Bytes) (text : Bytes)
    → opened_text r ≡ opened text
    → (r ≡ some text) × (is_utf8 text ≡ true)
opened_text-opened none text h = cc
opened_text-opened (some t) text h = ground (arith, h)

-- A blob is opened only if it is whole and carries the tag of its own ciphertext under the key of the
-- machine and the passphrase; the text is then valid UTF-8.
pub decrypt-IsSealed :
    (blob machine passphrase text : Bytes)
    → decrypt blob machine passphrase ≡ opened text
    → IsSealed blob machine passphrase text
unfolding decrypt
decrypt-IsSealed [] machine passphrase text h = cc
decrypt-IsSealed (b ∷ rest) machine passphrase text h =
    let size = from_be 0 (take 4 rest) in
    let facts : (b ≡ format_byte)
        × (size ≡ 16)
        × (48 ≤ length rest)
        × (opened_text (
              aes_gcm_decrypt (derive_key machine passphrase (take size (drop 4 rest)))
                (take 12 (drop (4 + size) rest)) (drop (32 + size) rest)
                (take 16 (drop (16 + size) rest)))
            ≡ opened text) =
      ground (arith, h) in
    let opens = opened_text-opened _ text (rw facts.1 at facts.3) in
    let salt = take 16 (drop 4 rest) in
    let iv = take 12 (drop 20 rest) in
    let iv_size : length iv ≡ 12 =
      omega (arith, facts.2, length-take 12 (drop 20 rest), length-drop 20 rest) in
    let tag_size : length (take 16 (drop 32 rest)) ≡ 16 =
      omega (arith, facts.2, length-take 16 (drop 32 rest), length-drop 32 rest) in
    record {
      salt = salt;
      iv = iv;
      tag = take 16 (drop 32 rest);
      ciphertext = drop 48 rest;
      marked = ap (λ (t : ℕ). t ∷ []) facts.0;
      sized = facts.1;
      parts =
          drop-split 4 16 rest
          ∙ ap (◌++◌ salt) (drop-split 20 12 rest ∙ ap (◌++◌ iv) (drop-split 32 16 rest));
      salt_size = omega (arith, facts.2, length-take 16 (drop 4 rest), length-drop 4 rest);
      iv_size = iv_size;
      own_tag =
          aes_gcm_decrypt-tag (derive_key machine passphrase salt) iv (drop 48 rest) _ text iv_size
            tag_size opens.0;
      valid = opens.1;
      decrypted = opens.0;
    }
