-- ===== src/Account/Vault.antt =====
-- The vault blob of account.rs: `[FORMAT][salt length][salt][IV][tag][ciphertext]`. A text is the list
-- of its UTF-8 bytes. What `/dev/urandom` gives is an argument, the bytes that could be read.
pub mod RoundTrip
use perun.Base.{
  ℕ, ◌+◌, ◌-◌, Bool, true, false, not, ◌||◌, Option, none, some, List, [], ◌∷◌, ◌++◌, length, take,
  drop, replicate, Bytes, be32_bytes, from_be, ltb, ◌==◌, if◌then◌else◌,
}
use perun.Base.Utf8.{is_utf8}
use perun.Account.Gcm.{aes_gcm_encrypt, aes_gcm_decrypt}
use perun.Account.Kdf.{derive_key}

abbrev pub format_byte : ℕ
format_byte = 0x04

abbrev pub salt_len : ℕ
salt_len = 16

abbrev pub iv_len : ℕ
iv_len = 12

abbrev pub tag_len : ℕ
tag_len = 16

-- The error of `decrypt`, one for each of its messages.
pub data VaultError : Type 0 where
  unencrypted unsupported too_short corrupted bad_tag invalid_utf8 : VaultError

pub data Opened : Type 0 where
  opened : Bytes → Opened
  refused : VaultError → Opened

-- The buffer of `n` bytes after `fill_random`, when `source` is what could be read.
pub fill_random : ℕ → Bytes → Bytes
fill_random n source = take n source ++ replicate (n - length source) 0

abbrev first_is : ℕ → Bytes → Bool
first_is b [] = false
first_is b (x ∷ xs) = x == b

unfoldable pub encrypt : Bytes → Bytes → Bytes → Bytes → Bytes → Bytes
encrypt salt_source iv_source plaintext machine passphrase =
    let salt = fill_random salt_len salt_source in
    let iv = fill_random iv_len iv_source in
    let sealed = aes_gcm_encrypt (derive_key machine passphrase salt) iv plaintext in
    format_byte ∷ (be32_bytes salt_len ++ (salt ++ (iv ++ (sealed.1 ++ sealed.0))))

-- What is returned of a decryption: a tag that does not match, or a text that may not be UTF-8.
abbrev pub opened_text : Option Bytes → Opened
opened_text none = refused bad_tag
opened_text (some text) = if is_utf8 text then opened text else refused invalid_utf8

unfoldable pub decrypt : Bytes → Bytes → Bytes → Opened
decrypt blob machine passphrase =
    let size = from_be 0 (take 4 (drop 1 blob)) in
    let salt = take size (drop 5 blob) in
    let iv = take iv_len (drop (5 + size) blob) in
    let tag = take tag_len (drop (5 + size + iv_len) blob) in
    let ciphertext = drop (5 + size + iv_len + tag_len) blob in
    if first_is b'{' blob
    then refused unencrypted
    else if not (first_is format_byte blob)
    then refused unsupported
    else if ltb (length blob) (1 + 4 + salt_len + iv_len + tag_len)
    then refused too_short
    else if not (size == salt_len) || ltb (length blob) (5 + size + iv_len + tag_len)
    then refused corrupted
    else opened_text (aes_gcm_decrypt (derive_key machine passphrase salt) iv ciphertext tag)
