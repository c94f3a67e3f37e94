-- ===== src/Account/Kdf.antt =====
-- HMAC-SHA256 and PBKDF2 as account.rs has them, and the key of the vault. The number of rounds stays
-- shut: 10000 rounds are not for the checker to run.
pub mod Mac
use perun.Base.{
  ℕ, zero, suc, ◌-◌, List, [], ◌∷◌, ◌++◌, length, replicate, Bytes, codes, be32_bytes, ltb,
  if◌then◌else◌,
}
use perun.Account.Aes.{xor_round}
use perun.Account.Digest.{Hasher, new_hasher, hash_update, finalize, digest}

pub record HmacSha256 : Type 0 where
  pub inner : Hasher
  pub outer : Hasher

-- The key filled up to a block; a longer one is digested first.
unfoldable pub block_key : Bytes → Bytes
block_key key =
    let short = if ltb 64 (length key) then digest key else key in
    short ++ replicate (64 - length short) 0

unfoldable pub new_hmac : Bytes → HmacSha256
unfolding block_key
new_hmac key =
    let k = block_key key in
    record {
      inner = hash_update new_hasher (xor_round (replicate 64 0x36) k);
      outer = hash_update new_hasher (xor_round (replicate 64 0x5c) k);
    }

unfoldable pub hmac_update : HmacSha256 → Bytes → HmacSha256
hmac_update mac bytes = record mac { inner = hash_update mac.inner bytes }

unfoldable pub hmac_finalize : HmacSha256 → Bytes
hmac_finalize mac = finalize (hash_update mac.outer (finalize mac.inner))

-- The loop over `1..rounds`, with the rounds that are left.
unfoldable pub pbkdf2_rounds : ℕ → Bytes → Bytes → Bytes → Bytes
pbkdf2_rounds zero password u t = t
pbkdf2_rounds (suc n) password u t =
    let next = hmac_finalize (hmac_update (new_hmac password) u) in
    pbkdf2_rounds n password next (xor_round t next)

unfoldable pub pbkdf2_hmac_sha256 : Bytes → Bytes → ℕ → Bytes
pbkdf2_hmac_sha256 password salt rounds =
    let mac = hmac_update (hmac_update (new_hmac password) salt) (be32_bytes 1) in
    let u = hmac_finalize mac in pbkdf2_rounds (rounds - 1) password u u

abbrev pbkdf2_iterations : ℕ
pbkdf2_iterations = 10000

pub derive_key : Bytes → Bytes → Bytes → Bytes
derive_key machine passphrase salt =
    pbkdf2_hmac_sha256 (machine ++ codes "nice_token_is_nice" ++ passphrase) salt pbkdf2_iterations
