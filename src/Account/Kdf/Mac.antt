-- ===== src/Account/Kdf/Mac.antt =====
-- The HMAC of account.rs is that of RFC 2104, over any pieces.
use perun.Base.{◌≡◌, refl, sym, ap, ◌∙◌, some, List, [], ◌∷◌, ◌++◌, append-nil, Bytes, replicate}
use mathlib.Core.Option.{some_inj}
use perun.Sha256.{new, finish, words_bytes}
use perun.Sha256.Padding.{update_all}
use perun.Sha256.Machine.{Machine, absorb_all, start}
use perun.Sha256.Padding.{Holds-update_all, Holds-new, Holds-Finishes, padded, joined}
use perun.Account.Aes.{xor_round}
use perun.Account.Digest.{new_hasher, hash_update, finalize, digest}
use perun.Account.Digest.Agree.{hash_all, finalize-hash_all}
use perun.Account.Kdf.{HmacSha256, block_key, new_hmac, hmac_update, hmac_finalize}

-- The digest of perun-core depends on the joined message alone.
finish-joined :
    (pieces : List Bytes) (m : Bytes)
    → joined pieces ≡ m
    → finish (update_all new pieces) ≡ some (words_bytes (absorb_all start (padded m)).words)
unfolding finish
finish-joined pieces m e =
    let f =
      Holds-Finishes (update_all new pieces) (joined pieces)
        (Holds-update_all pieces new [] Holds-new) in
    rw (f.returns, finish)
      (ap (λ (k : Machine). some (words_bytes k.words))
        (f.machine ∙ ap (λ t. absorb_all start (padded t)) e))

finalize-joined :
    (pieces : List Bytes) → finalize (hash_all new_hasher pieces) ≡ digest (joined pieces)
unfolding digest
finalize-joined pieces = some_inj.0 (
    sym (finalize-hash_all pieces)
    ∙ finish-joined pieces (joined pieces) refl
    ∙ sym (finish-joined (joined pieces ∷ []) (joined pieces) (append-nil (joined pieces)))
    ∙ finalize-hash_all (joined pieces ∷ []))

-- `update` on each of the pieces.
abbrev pub hmac_all : HmacSha256 → List Bytes → HmacSha256
hmac_all mac [] = mac
hmac_all mac (c ∷ cs) = hmac_all (hmac_update mac c) cs

-- The parts of an HMAC after some pieces.
hmac_all-inner :
    (pieces : List Bytes) (mac : HmacSha256)
    → hmac_all mac pieces ≡ record mac { inner = hash_all mac.inner pieces }
unfolding hmac_update
hmac_all-inner [] mac = refl
hmac_all-inner (c ∷ cs) mac = hmac_all-inner cs (hmac_update mac c)

new_hmac-pads :
    (key : Bytes)
    → new_hmac key ≡ record {
      inner = hash_update new_hasher (xor_round (replicate 64 0x36) (block_key key));
      outer = hash_update new_hasher (xor_round (replicate 64 0x5c) (block_key key));
    }
unfolding new_hmac
new_hmac-pads key = refl

-- However the message is cut into pieces, the result is the one that RFC 2104 defines: the digest of
-- the outer key and the digest of the inner key and the message, the keys being the key, digested if it
-- has more than 64 bytes and filled up with zeros, under the two pads.
pub hmac_finalize-hmac_all :
    (key : Bytes) (pieces : List Bytes)
    → hmac_finalize (hmac_all (new_hmac key) pieces)
      ≡ digest (
          xor_round (replicate 64 0x5c) (block_key key)
          ++ digest (xor_round (replicate 64 0x36) (block_key key) ++ joined pieces))
unfolding hmac_finalize
hmac_finalize-hmac_all key pieces =
    let inner_key = xor_round (replicate 64 0x36) (block_key key) in
    let outer_key = xor_round (replicate 64 0x5c) (block_key key) in
    let made : new_hmac key ≡ record {
      inner = hash_update new_hasher inner_key;
      outer = hash_update new_hasher outer_key;
    } =
      new_hmac-pads key in
    rw (hmac_all-inner pieces (new_hmac key), made)
      (ap (λ d. finalize (hash_all new_hasher (outer_key ∷ d ∷ [])))
          (finalize-joined (inner_key ∷ pieces))
        ∙ finalize-joined (outer_key ∷ digest (inner_key ++ joined pieces) ∷ [])
        ∙ ap (λ t. digest (outer_key ++ t)) (append-nil (digest (inner_key ++ joined pieces))))
