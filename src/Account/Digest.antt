-- ===== src/Account/Digest.antt =====
-- The SHA-256 of account.rs, a second implementation beside that of perun-core. Its `compress` is the
-- same computation as there, line by line; its padding does not go through `update`.
pub mod Agree
use perun.Base.{
  ℕ, zero, suc, ◌+◌, ◌-◌, ◌*◌, ◌%◌, ◌^◌, min, Bool, List, [], ◌∷◌, length, take, drop, replicate,
  Bytes, be64_bytes, ltb, ◌==◌, if◌then◌else◌,
}
use perun.Sha256.{Words, initial_words, compress, splice, words_bytes}

pub record Hasher : Type 0 where
  pub state : Words
  pub buffer : Bytes
  pub buffered : ℕ
  pub total : ℕ

abbrev pub new_hasher : Hasher
new_hasher = record { state = initial_words; buffer = replicate 64 0; buffered = 0; total = 0 }

-- The first part of `update`: fill up a buffer that is in use. Returns the data from `offset` on.
pub fill_buffer : Hasher → Bytes → Hasher × Bytes
fill_buffer s xs =
    let n = min (64 - s.buffered) (length xs) in
    let buffer = splice s.buffer s.buffered (take n xs) in
    if s.buffered == 0
    then (s, xs)
    else if s.buffered + n == 64
    then (record s { state = compress s.state buffer; buffer = buffer; buffered = 0 }, drop n xs)
    else (record s { buffer = buffer; buffered = s.buffered + n }, drop n xs)

-- `while offset + 64 <= data.len()`, on fuel: the state and the data that is left.
pub whole_blocks : ℕ → Words → Bytes → Words × Bytes
whole_blocks zero state xs = (state, xs)
whole_blocks (suc n) state xs =
    let later = whole_blocks n (compress state (take 64 xs)) (drop 64 xs) in
    if ltb (length xs) 64 then (state, xs) else later

-- The rest of `update`: compress the whole blocks and keep what is left.
pub store_rest : Hasher → Bytes → Hasher
store_rest s xs =
    let run = whole_blocks (length xs) s.state xs in
    if length run.1 == 0
    then record s { state = run.0 }
    else record s { state = run.0; buffer = splice s.buffer 0 run.1; buffered = length run.1 }

unfoldable pub hash_update : Hasher → Bytes → Hasher
unfolding fill_buffer whole_blocks store_rest
hash_update s xs =
    let filled = fill_buffer (record s { total = (s.total + length xs) % 2 ^ 64 }) xs in
    store_rest filled.0 filled.1

-- The part of `finalize` that makes room for the length: the state, the buffer and how much of it is
-- used.
pub make_room : Hasher → Words × Bytes × ℕ
make_room s =
    let opened = splice s.buffer s.buffered (0x80 ∷ []) in
    let used = s.buffered + 1 in
    let closed = splice opened used (replicate (64 - used) 0) in
    if ltb 56 used then (compress s.state closed, closed, 0) else (s.state, opened, used)

-- The state after the last block.
pub last_state : Hasher → Words
unfolding make_room
last_state s =
    let room = make_room s in
    let buffer = splice room.1 room.2 (replicate (56 - room.2) 0) in
    compress room.0 (splice buffer 56 (be64_bytes (s.total * 8 % 2 ^ 64)))

unfoldable pub finalize : Hasher → Bytes
unfolding last_state
finalize s = words_bytes (last_state s)

-- `Sha256::digest`
unfoldable pub digest : Bytes → Bytes
unfolding hash_update finalize
digest bytes = finalize (hash_update new_hasher bytes)
