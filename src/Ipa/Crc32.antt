-- ===== src/Ipa/Crc32.antt =====
-- `crc32_ieee`: the checksum of a stored entry, by a table of 256 words.
pub mod Bitwise
use perun.Base.{
  ℕ, zero, suc, ◌+◌, ◌-◌, ◌/◌, ◌%◌, ◌^◌, bit_xor, List, [], ◌∷◌, get_or, Bytes, ◌==◌, if◌then◌else◌,
}

abbrev pub polynomial : ℕ
polynomial = 0xedb88320

abbrev pub crc_step : ℕ → ℕ
crc_step c = if c % 2 == 0 then c / 2 else bit_xor polynomial (c / 2)

-- The loop `for _ in 0..8`.
unfoldable pub crc_steps : ℕ → ℕ → ℕ
crc_steps zero c = c
crc_steps (suc n) c = crc_steps n (crc_step c)

-- `TABLE`, from the word at `i` on.
unfoldable pub table_from : ℕ → ℕ → List ℕ
unfolding crc_steps
table_from i zero = []
table_from i (suc n) = crc_steps 8 i ∷ table_from (i + 1) n

unfoldable pub crc_loop : ℕ → Bytes → ℕ
crc_loop crc [] = crc
crc_loop crc (b ∷ bs) =
    crc_loop (bit_xor (get_or (table_from 0 256) (bit_xor crc b % 256) 0) (crc / 2 ^ 8)) bs

unfoldable pub crc32_ieee : Bytes → ℕ
crc32_ieee bytes = 0xffffffff - crc_loop 0xffffffff bytes
