-- ===== src/Account/Tests.antt =====
-- The published vectors of the ciphers, run in the model.
use perun.Base.{
  false, ◌≡◌, ◌⊎◌, refl, true, Option, some, none, [], ◌∷◌, ◌++◌, replicate, Bytes, codes,
  be64_bytes,
}
use perun.Base.Utf8.{is_utf8, utf8_from, lead}
use perun.Sha256.{new, finish, compress, splice}
use perun.Sha256.Padding.{update_all}
use perun.Account.Aes.{aes_key_schedule, aes_encrypt_block, count_from, xor_round}
use perun.Account.Gcm.{aes_gcm_encrypt, ghash_tag, ctr_blocks}
use perun.Account.Digest.{new_hasher, hash_update, finalize, digest}
use perun.Account.Digest.Agree.{hash_all, finalize-hash_all}
use perun.Account.Kdf.{
  new_hmac, hmac_update, hmac_finalize, block_key, pbkdf2_rounds, pbkdf2_hmac_sha256,
}
use perun.Account.Kdf.Mac.{hmac_all, hmac_finalize-hmac_all}
use perun.Account.Vault.{encrypt, decrypt, opened}
use perun.Account.Vault.RoundTrip.{decrypt-encrypt, IsSealed, decrypt-IsSealed}
use perun.Account.{Account, to_json}
use perun.Account.Fields.{IsText}
use perun.Account.Session.{
  Disk, Machine, SaveCalls, SessionError, no_state_dir, create_state_dir, write_failed,
  no_directory, torn, written, save, load, loaded,
}
use perun.Account.Session.RoundTrip.{load-encrypt, IsSidecarOf, save-outcome}

-- FIPS 197, appendix C.3.
fips_197 :
    aes_encrypt_block (aes_key_schedule (count_from 0 32)) (
      0x00 ∷ 0x11 ∷ 0x22 ∷ 0x33 ∷ 0x44 ∷ 0x55 ∷ 0x66 ∷ 0x77 ∷ 0x88 ∷ 0x99 ∷ 0xaa ∷ 0xbb ∷ 0xcc
      ∷ 0xdd ∷ 0xee ∷ 0xff ∷ [])
    ≡ be64_bytes 0x8ea2b7ca516745bf ++ be64_bytes 0xeafc49904b496089
unfolding aes_key_schedule aes_encrypt_block
fips_197 = refl

-- An empty plaintext under the zero key, and one zero block.
gcm_empty :
    aes_gcm_encrypt (replicate 32 0) (replicate 12 0) []
    ≡ ([], be64_bytes 0x530f8afbc74536b9 ++ be64_bytes 0xa963b4f1c4cb738b)
unfolding aes_gcm_encrypt ghash_tag ctr_blocks aes_key_schedule aes_encrypt_block xor_round
gcm_empty = refl

gcm_block :
    (aes_gcm_encrypt (replicate 32 0) (replicate 12 0) (replicate 16 0)).0
    ≡ 0xce ∷ 0xa7 ∷ 0x40 ∷ 0x3d ∷ 0x4d ∷ 0x60 ∷ 0x6b ∷ 0x6e ∷ 0x07 ∷ 0x4e ∷ 0xc5 ∷ 0xd3 ∷ 0xba
      ∷ 0xf3 ∷ 0x9d ∷ 0x18 ∷ []
unfolding aes_gcm_encrypt ghash_tag ctr_blocks aes_key_schedule aes_encrypt_block xor_round
gcm_block = refl

-- PBKDF2 with one round, the published vector for "password" and "salt".
pbkdf2_vector :
    pbkdf2_hmac_sha256 (codes "password") (codes "salt") 1
    ≡ be64_bytes 0x120fb6cffcf8b32c
      ++ be64_bytes 0x43e7225256c4f837
      ++ be64_bytes 0xa86548c92ccc3548
      ++ be64_bytes 0x0805987cb70be17b
unfolding pbkdf2_hmac_sha256 pbkdf2_rounds hmac_finalize hmac_update new_hmac xor_round hash_update
    finalize compress splice
pbkdf2_vector = refl

abbrev someone : Account
someone = record {
  email = codes "a@b.c";
  name = codes "A \"B\"";
  directory_services_id = codes "1";
  password_token = codes "t";
  store_front = codes "143441";
  pod = [];
  password = [];
}

someone-IsText : IsText someone
unfolding utf8_from lead
someone-IsText = record {
  email = refl;
  name = refl;
  directory_services_id = refl;
  password_token = refl;
  store_front = refl;
  pod = refl;
  password = refl;
}

abbrev here : Machine
here = record { has_dir = true; id = codes "02:00:00:00:00:01" }

abbrev calls : SaveCalls
calls = record {
  salt_source = codes "0123456789abcdef";
  iv_source = codes "0123";
  write_account = written;
  write_sidecar = no_directory;
}

abbrev empty_disk : Disk
empty_disk = record { account = none; storefront = none; cookies = none }

abbrev saved_disk : Disk
saved_disk = (save here calls someone (codes "secret") empty_disk).0

small_utf8 : is_utf8 (codes "{}") ≡ true
unfolding utf8_from lead
small_utf8 = refl

abbrev small_blob : Bytes
small_blob = encrypt (codes "0123456789abcdef") (codes "0123") (codes "{}") here.id (codes "secret")

decrypt-encrypt_example : decrypt small_blob here.id (codes "secret") ≡ opened (codes "{}")
decrypt-encrypt_example =
    decrypt-encrypt (codes "0123456789abcdef") (codes "0123") (codes "{}") here.id (codes "secret")
      small_utf8

decrypt-IsSealed_example : IsSealed small_blob here.id (codes "secret") (codes "{}")
decrypt-IsSealed_example = decrypt-IsSealed small_blob here.id (codes "secret") (codes "{}") (
    decrypt-encrypt (codes "0123456789abcdef") (codes "0123") (codes "{}") here.id (codes "secret")
      small_utf8)

finalize-hash_all_example :
    finish (update_all new (codes "ab" ∷ codes "c" ∷ []))
    ≡ some (finalize (hash_all new_hasher (codes "ab" ∷ codes "c" ∷ [])))
finalize-hash_all_example = finalize-hash_all (codes "ab" ∷ codes "c" ∷ [])

hmac_finalize-hmac_all_example :
    hmac_finalize (hmac_all (new_hmac (codes "key")) (codes "ab" ∷ codes "c" ∷ []))
    ≡ digest (
        xor_round (replicate 64 0x5c) (block_key (codes "key"))
        ++ digest (xor_round (replicate 64 0x36) (block_key (codes "key")) ++ codes "abc"))
hmac_finalize-hmac_all_example = hmac_finalize-hmac_all (codes "key") (codes "ab" ∷ codes "c" ∷ [])

abbrev Saved : Disk × Option SessionError → Type 0
Saved r =
    ((here.has_dir ≡ true)
      × (calls.write_account ≡ written)
      × (r.1 ≡ none)
      × (load here (codes "secret") r.0 ≡ loaded someone)
      × (r.0.cookies ≡ none)
      × IsSidecarOf someone no_directory none r.0.storefront)
    ⊎ ((here.has_dir ≡ false) × (r ≡ (empty_disk, some no_state_dir)))
    ⊎ ((here.has_dir ≡ true)
        × (calls.write_account ≡ no_directory)
        × (r ≡ (empty_disk, some create_state_dir)))
    ⊎ ((left : Option Bytes) × (here.has_dir ≡ true)
        × (calls.write_account ≡ torn left)
        × (r ≡ (record empty_disk { account = left }, some write_failed)))

save-outcome_example : Saved (save here calls someone (codes "secret") empty_disk)
save-outcome_example = save-outcome here calls someone (codes "secret") empty_disk someone-IsText

abbrev lost_sidecar : Disk
lost_sidecar = record empty_disk {
  account = some (
      encrypt (codes "0123456789abcdef") (codes "0123") (to_json someone) here.id (codes "secret"));
}

abbrev filled_sidecar : Disk
filled_sidecar = record lost_sidecar { storefront = some (codes "143441\n") }

vault_opens : load here (codes "secret") lost_sidecar ≡ loaded someone
vault_opens = load-encrypt here calls someone (codes "secret") lost_sidecar refl someone-IsText refl
