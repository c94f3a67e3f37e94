-- ===== src/Account/Gcm.antt =====
-- AES-256-GCM without additional data, as account.rs has it. Keys, counters and tags are byte lists.
pub mod Lengths
pub mod RoundTrip
use perun.Base.{
  ℕ, zero, suc, ◌+◌, ◌-◌, ◌*◌, ◌/◌, ◌%◌, ◌^◌, bit_or, bit_xor, Bool, not, ◌&&◌, Option, none, some,
  List, [], ◌∷◌, ◌++◌, length, take, drop, get_or, replicate, Bytes, be32_bytes, be64_bytes, ◌==◌,
  if◌then◌else◌,
}
use perun.Account.Aes.{xor_round, aes_encrypt_block, aes_key_schedule}

-- `v[j] = (v[j] >> 1) | (v[j - 1] << 7)`, behind the byte `prev`.
pub shift_behind : ℕ → Bytes → Bytes
shift_behind prev [] = []
shift_behind prev (b ∷ bs) = bit_or (b / 2) (prev * 2 ^ 7 % 256) ∷ shift_behind b bs

-- `v >> 1`, reduced by the low bit that was shifted out.
pub halve : Bytes → Bytes
unfolding shift_behind
halve [] = []
halve (b ∷ bs) =
    let lsb = get_or (b ∷ bs) 15 0 % 2 in
    (if lsb == 1 then bit_xor (b / 2) 0xe1 else b / 2) ∷ shift_behind b bs

-- The loop of `gf_mul` at bit `i`, with `n` bits left.
pub gf_loop : ℕ → ℕ → Bytes → Bytes → Bytes → Bytes
gf_loop zero i x z v = z
gf_loop (suc n) i x z v =
    let bit = get_or x (i / 8) 0 / 2 ^ (7 - i % 8) % 2 in
    gf_loop n (i + 1) x (if bit == 1 then xor_round z v else z) (halve v)

pub gf_mul : Bytes → Bytes → Bytes
unfolding gf_loop
gf_mul x y = gf_loop 128 0 x (replicate 16 0) y

-- A block of at most 16 bytes, filled up with zeros.
abbrev pub zero_filled : Bytes → Bytes
zero_filled bytes = bytes ++ replicate (16 - length bytes) 0

-- The closure `absorb` of `ghash_tag`, on fuel: the length of the data is enough.
pub ghash_blocks : ℕ → Bytes → Bytes → Bytes → Bytes
unfolding gf_mul
ghash_blocks zero h x bytes = x
ghash_blocks (suc n) h x bytes =
    let next =
      ghash_blocks n h (gf_mul (xor_round x (zero_filled (take 16 bytes))) h) (drop 16 bytes) in
    if length bytes == 0 then x else next

unfoldable pub ghash_tag : List Bytes → Bytes → Bytes → Bytes → Bytes
unfolding ghash_blocks
ghash_tag rounds tag_base ciphertext aad =
    let h = aes_encrypt_block rounds (replicate 16 0) in
    let x = ghash_blocks (length aad) h (replicate 16 0) aad in
    let y = ghash_blocks (length ciphertext) h x ciphertext in
    let lengths =
      be64_bytes (length aad * 8 % 2 ^ 64) ++ be64_bytes (length ciphertext * 8 % 2 ^ 64) in
    xor_round (gf_mul (xor_round y lengths) h) tag_base

-- The loop over `chunks(16)`, from block number `block_idx`, on fuel.
unfoldable pub ctr_blocks : ℕ → List Bytes → Bytes → ℕ → Bytes → Bytes
ctr_blocks zero rounds iv block_idx bytes = []
ctr_blocks (suc n) rounds iv block_idx bytes =
    let stream = aes_encrypt_block rounds (iv ++ be32_bytes block_idx) in
    let rest = ctr_blocks n rounds iv ((block_idx + 1) % 2 ^ 32) (drop 16 bytes) in
    if length bytes == 0 then [] else xor_round (take 16 bytes) stream ++ rest

abbrev pub ctr : List Bytes → Bytes → Bytes → Bytes
ctr rounds iv bytes = ctr_blocks (length bytes) rounds iv 2 bytes

-- The ciphertext and the tag.
unfoldable pub aes_gcm_encrypt : Bytes → Bytes → Bytes → Bytes × Bytes
aes_gcm_encrypt key iv plaintext =
    let rounds = aes_key_schedule key in
    let tag_base = aes_encrypt_block rounds (iv ++ be32_bytes 1) in
    let ciphertext = ctr rounds iv plaintext in
    (ciphertext, ghash_tag rounds tag_base ciphertext [])

-- The loop that gathers the differences of the two tags.
pub tag_diff : ℕ → Bytes → Bytes → ℕ
tag_diff diff (x ∷ xs) (y ∷ ys) = tag_diff (bit_or diff (bit_xor x y)) xs ys
tag_diff diff _ _ = diff

-- `none` is a tag that does not match. The check of UTF-8 at the end is `decrypt`'s here.
unfoldable pub aes_gcm_decrypt : Bytes → Bytes → Bytes → Bytes → Option Bytes
aes_gcm_decrypt key iv ciphertext tag =
    let rounds = aes_key_schedule key in
    let tag_base = aes_encrypt_block rounds (iv ++ be32_bytes 1) in
    let expected = ghash_tag rounds tag_base ciphertext [] in
    if tag_diff 0 expected tag == 0 then some (ctr rounds iv ciphertext) else none
