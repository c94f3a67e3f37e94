-- ===== src/Sha256.antt =====
-- crates/perun-core/src/sha256.rs: the streaming SHA-256 of `perun-core`, on the portable path (a
-- build where `have_sha_ni` is false). A `u32` is a natural number below 2 ^ 32.
mod Compress
pub mod Machine
pub mod Stream
pub mod Padding
mod Tests
use perun.Base.{
  ℕ, zero, suc, ◌+◌, ◌-◌, ◌*◌, ◌%◌, ◌^◌, min, Bool, Option, none, some, List, [], ◌∷◌, ◌++◌, length,
  take, drop, replicate, Bytes, be32_bytes, be64_bytes, ltb, ◌==◌, if◌then◌else◌,
}
unfoldable pub use Compress.{compress}
pub use Compress.{Words}

-- `struct Sha256`, less `force_scalar`, which no code but the tests reads.
pub record Sha256 : Type 0 where
  pub h : Words
  pub buf : Bytes
  pub buf_len : ℕ
  pub total : ℕ

abbrev pub initial_words : Words
initial_words = record {
  a = 0x6a09e667;
  b = 0xbb67ae85;
  c = 0x3c6ef372;
  d = 0xa54ff53a;
  e = 0x510e527f;
  f = 0x9b05688c;
  g = 0x1f83d9ab;
  hh = 0x5be0cd19;
}

abbrev pub new : Sha256
new = record { h = initial_words; buf = replicate 64 0; buf_len = 0; total = 0 }

-- `buf[at..at + xs.len()].copy_from_slice(xs)`
unfoldable pub splice : Bytes → ℕ → Bytes → Bytes
splice buf at xs = take at buf ++ xs ++ drop (at + length xs) buf

-- `data.as_chunks::<64>()`, on fuel: the whole blocks and the rest.
unfoldable pub as_chunks : ℕ → Bytes → List Bytes × Bytes
as_chunks zero xs = ([], xs)
as_chunks (suc n) xs =
    let later = as_chunks n (drop 64 xs) in
    if ltb (length xs) 64 then ([], xs) else (take 64 xs ∷ later.0, later.1)

-- `compress_blocks_scalar`
unfoldable pub compress_blocks : Words → List Bytes → Words
compress_blocks h [] = h
compress_blocks h (b ∷ bs) = compress_blocks (compress h b) bs

-- The first half of `update`: top up a partly filled buffer. Returns the data that is left.
unfoldable pub top_up : Sha256 → Bytes → Sha256 × Bytes
unfolding splice
top_up s xs =
    let n = min (64 - s.buf_len) (length xs) in
    let buf = splice s.buf s.buf_len (take n xs) in
    if s.buf_len == 0
    then (s, xs)
    else if s.buf_len + n == 64
    then (record s { h = compress s.h buf; buf = buf; buf_len = 0 }, drop n xs)
    else (record s { buf = buf; buf_len = s.buf_len + n }, drop n xs)

-- The second half: compress the whole blocks and keep the rest. A block has 64 bytes, so the
-- length of the data is fuel enough.
unfoldable pub absorb_blocks : Sha256 → Bytes → Sha256
unfolding as_chunks splice compress_blocks
absorb_blocks s xs =
    let chunks = as_chunks (length xs) xs in
    let h = compress_blocks s.h chunks.0 in
    if length chunks.1 == 0
    then record s { h = h }
    else record s { h = h; buf = splice s.buf 0 chunks.1; buf_len = length chunks.1 }

unfoldable pub update : Sha256 → Bytes → Sha256
unfolding top_up absorb_blocks
update s xs =
    let counted = record s { total = (s.total + length xs) % 2 ^ 64 } in
    let topped = top_up counted xs in absorb_blocks topped.0 topped.1

-- `while self.buf_len != 56 { self.update(&[0]) }`; `none` means that the fuel ran out.
pub pad_loop : ℕ → Sha256 → Option Sha256
unfolding update
pad_loop zero s = none
pad_loop (suc n) s =
    let rest = pad_loop n (update s (0 ∷ [])) in if s.buf_len == 56 then some s else rest

abbrev pub words_bytes : Words → Bytes
words_bytes h =
    be32_bytes h.a
    ++ be32_bytes h.b
    ++ be32_bytes h.c
    ++ be32_bytes h.d
    ++ be32_bytes h.e
    ++ be32_bytes h.f
    ++ be32_bytes h.g
    ++ be32_bytes h.hh

-- `finish` up to the output: the state after the padding and the length field. A buffer has 64
-- places, so 64 rounds of the loop are enough.
pub finish_state : Sha256 → Option Sha256
finish_state s =
    let bitlen = s.total * 8 % 2 ^ 64 in
    elim (pad_loop 64 (update s (0x80 ∷ []))) [
      | none ↦ none
      | some padded ↦ some (update padded (be64_bytes bitlen))
    ]

unfoldable pub finish : Sha256 → Option Bytes
finish s = elim (finish_state s) [ none ↦ none | some done ↦ some (words_bytes done.h) ]
