-- ===== src/Ipa/Inflate.antt =====
-- `inflate`, a decoder of DEFLATE streams. Each loop runs on fuel; a turn takes a bit at least.
pub mod Reading
pub mod Lookups
pub mod Blocks
pub mod Lengths
pub mod Fuel
pub mod Stored
use perun.Base.{
  ℕ, zero, suc, ◌+◌, ◌-◌, ◌*◌, ◌%◌, ◌^◌, bit_or, Bool, true, false, Option, none, some, List, [],
  ◌∷◌, ◌++◌, length, take, drop, get_elem?, get_or, replicate, Bytes, ltb, leb, within, ◌==◌,
  if◌then◌else◌,
}
use perun.Ipa.Bits.{
  InflateError, length_mismatch, no_predecessor, bad_length_symbol, length_overflow, reserved_block,
  bad_distance, distance_before_start, bad_literal, out_of_fuel, Outcome, done, failed, panicked,
  ◌>>=◌, Place, read_bit, bits_loop, bits, bytes_loop, bytes, align_byte,
}
use perun.Ipa.Huffman.{Huffman, set_at, build_huffman_table, decode_lengths, decode}

abbrev pub len_table : List (ℕ × ℕ)
len_table =
    (3, 0)
    ∷ (4, 0)
    ∷ (5, 0)
    ∷ (6, 0)
    ∷ (7, 0)
    ∷ (8, 0)
    ∷ (9, 0)
    ∷ (10, 0)
    ∷ (11, 1)
    ∷ (13, 1)
    ∷ (15, 1)
    ∷ (17, 1)
    ∷ (19, 2)
    ∷ (23, 2)
    ∷ (27, 2)
    ∷ (31, 2)
    ∷ (35, 3)
    ∷ (43, 3)
    ∷ (51, 3)
    ∷ (59, 3)
    ∷ (67, 4)
    ∷ (83, 4)
    ∷ (99, 4)
    ∷ (115, 4)
    ∷ (131, 5)
    ∷ (163, 5)
    ∷ (195, 5)
    ∷ (227, 5)
    ∷ (258, 0)
    ∷ []

abbrev pub dist_table : List (ℕ × ℕ)
dist_table =
    (1, 0)
    ∷ (2, 0)
    ∷ (3, 0)
    ∷ (4, 0)
    ∷ (5, 1)
    ∷ (7, 1)
    ∷ (9, 2)
    ∷ (13, 2)
    ∷ (17, 3)
    ∷ (25, 3)
    ∷ (33, 4)
    ∷ (49, 4)
    ∷ (65, 5)
    ∷ (97, 5)
    ∷ (129, 6)
    ∷ (193, 6)
    ∷ (257, 7)
    ∷ (385, 7)
    ∷ (513, 8)
    ∷ (769, 8)
    ∷ (1025, 9)
    ∷ (1537, 9)
    ∷ (2049, 10)
    ∷ (3073, 10)
    ∷ (4097, 11)
    ∷ (6145, 11)
    ∷ (8193, 12)
    ∷ (12289, 12)
    ∷ (16385, 13)
    ∷ (24577, 13)
    ∷ []

-- The loop that repeats `n` bytes from `at` on; what it pushes can be read again.
unfoldable pub copy_back : ℕ → ℕ → Bytes → Outcome Bytes
copy_back zero at out = done out
copy_back (suc n) at out = elim (get_elem? out at) [
  | none ↦ panicked
  | some b ↦ copy_back n (at + 1) (out ++ b ∷ [])
]

abbrev pub table_row : List (ℕ × ℕ) → ℕ → Outcome (ℕ × ℕ)
table_row rows i = elim (get_elem? rows i) [ none ↦ panicked | some row ↦ done row ]

abbrev pub order : List ℕ
order = 16 ∷ 17 ∷ 18 ∷ 0 ∷ 8 ∷ 7 ∷ 9 ∷ 6 ∷ 10 ∷ 5 ∷ 11 ∷ 4 ∷ 12 ∷ 3 ∷ 13 ∷ 2 ∷ 14 ∷ 1 ∷ 15 ∷ []

-- The lengths of the fixed code.
abbrev pub fixed_lens : List ℕ
fixed_lens = replicate 144 8 ++ replicate 112 9 ++ replicate 24 7 ++ replicate 8 8

abbrev pub dist_lens : List ℕ
dist_lens = replicate 30 5

module _ (source : Bytes) where
  -- The length and distance of a repetition, behind its length symbol.
  unfoldable pub repetition : ℕ → Huffman → Bytes → Place → Outcome (Bytes × Place)
  unfolding copy_back decode_lengths bits_loop
  repetition symbol dist out p = table_row len_table (symbol - 257) >>= λ row.
      bits source row.1 p >>= λ extra. decode source dist extra.1 >>= λ dsym.
      if leb 30 dsym.0
      then failed bad_distance
      else (table_row dist_table dsym.0 >>= λ drow. bits source drow.1 dsym.1 >>= λ dextra.
          let distance = drow.0 + dextra.0 in
          if ltb (length out) distance
          then failed distance_before_start
          else (copy_back (row.0 + extra.0) (length out - distance) out >>= λ out'.
              done (out', dextra.1)))

  unfoldable pub inflate_block : ℕ → Huffman → Huffman → Bytes → Place → Outcome (Bytes × Place)
  unfolding repetition
  inflate_block zero lit dist out p = failed out_of_fuel
  inflate_block (suc n) lit dist out p = decode source lit p >>= λ r. elim (ltb r.0 256) [
    | true ↦ inflate_block n lit dist (out ++ r.0 ∷ []) r.1
    | false ↦ if r.0 == 256 then done (out, r.1) else elim (within 257 285 r.0) [
      | false ↦ failed bad_literal
      | true ↦ repetition r.0 dist out r.1 >>= λ s. inflate_block n lit dist s.0 s.1
    ]
  ]

  -- `for _ in 0..len { out.push(br.bytes(1)? as u8) }`
  unfoldable pub stored : ℕ → Bytes → Place → Outcome (Bytes × Place)
  unfolding bytes_loop
  stored zero out p = done (out, p)
  stored (suc n) out p = bytes source 1 p >>= λ r. stored n (out ++ r.0 ∷ []) r.1

  unfoldable pub stored_block : Bytes → Place → Outcome (Bytes × Place)
  unfolding bytes_loop stored
  stored_block out p = bytes source 2 (align_byte p) >>= λ len. bytes source 2 len.1 >>= λ nlen.
      if len.0 == 0xffff - nlen.0 then stored len.0 out nlen.1 else failed length_mismatch

  unfoldable pub five_loop : ℕ → ℕ → ℕ → Place → Outcome (ℕ × Place)
  unfolding read_bit
  five_loop zero i v p = done (v, p)
  five_loop (suc n) i v p =
      read_bit source p >>= λ r. five_loop n (i + 1) (bit_or v (r.0 * 2 ^ i)) r.1

  abbrev pub five_bits : Place → Outcome (ℕ × Place)
  five_bits p = five_loop 5 0 0 p

  -- The loop over the places in `ORDER`.
  unfoldable pub code_lengths : List ℕ → List ℕ → Place → Outcome (List ℕ × Place)
  unfolding bits_loop set_at
  code_lengths [] lens p = done (lens, p)
  code_lengths (idx ∷ rest) lens p = bits source 3 p >>= λ r. elim (set_at idx r.0 lens) [
    | none ↦ panicked
    | some lens' ↦ code_lengths rest lens' r.1
  ]

  -- The lengths behind one symbol of the code-length alphabet.
  unfoldable pub add_lengths : ℕ → List ℕ → Place → Outcome (List ℕ × Place)
  unfolding bits_loop
  add_lengths sym lens p =
      if ltb sym 16
      then done (lens ++ sym ∷ [], p)
      else if sym == 16
      then elim (length lens) [
        | zero ↦ failed no_predecessor
        | suc last ↦
            bits source 2 p >>= λ r. done (lens ++ replicate (3 + r.0) (get_or lens last 0), r.1)
      ]
      else if sym == 17
      then (bits source 3 p >>= λ r. done (lens ++ replicate (3 + r.0) 0, r.1))
      else if sym == 18
      then (bits source 7 p >>= λ r. done (lens ++ replicate (11 + r.0) 0, r.1))
      else failed bad_length_symbol

  -- `while lens.len() < hlit + hdist`
  unfoldable pub read_lengths : ℕ → ℕ → Huffman → List ℕ → Place → Outcome (List ℕ × Place)
  unfolding decode_lengths add_lengths
  read_lengths zero wanted h lens p = failed out_of_fuel
  read_lengths (suc n) wanted h lens p = elim (ltb (length lens) wanted) [
    | false ↦ done (lens, p)
    | true ↦ decode source h p >>= λ sym.
        add_lengths sym.0 lens sym.1 >>= λ r. read_lengths n wanted h r.0 r.1
  ]

  -- Room for the turns that the source can pay for, each with a bit.
  abbrev pub turns : ℕ
  turns = suc (8 * length source)

  unfoldable pub fixed_block : Bytes → Place → Outcome (Bytes × Place)
  unfolding inflate_block build_huffman_table
  fixed_block out p = build_huffman_table fixed_lens >>= λ lit.
      build_huffman_table dist_lens >>= λ dist. inflate_block turns lit dist out p

  unfoldable pub dynamic_block : Bytes → Place → Outcome (Bytes × Place)
  unfolding five_loop bits_loop code_lengths build_huffman_table read_lengths inflate_block
  dynamic_block out p = five_bits p >>= λ r1. five_bits r1.1 >>= λ r2. bits source 4 r2.1 >>= λ r3.
      let hlit = r1.0 + 257 in
      let wanted = hlit + (r2.0 + 1) in
      code_lengths (take (r3.0 + 4) order) (replicate 19 0) r3.1 >>= λ cl.
      build_huffman_table cl.0 >>= λ cl_huff. read_lengths turns wanted cl_huff [] cl.1 >>= λ r.
      if length r.0 == wanted
      then (build_huffman_table (take hlit r.0) >>= λ lit.
          build_huffman_table (drop hlit r.0) >>= λ dist. inflate_block turns lit dist out r.1)
      else failed length_overflow

  unfoldable pub block : ℕ → Bytes → Place → Outcome (Bytes × Place)
  block btype out p =
      if btype == 0
      then stored_block out p
      else if btype == 1
      then fixed_block out p
      else if btype == 2
      then dynamic_block out p
      else failed reserved_block

  unfoldable pub inflate_loop : ℕ → Bytes → Place → Outcome Bytes
  unfolding read_bit block
  inflate_loop zero out p = failed out_of_fuel
  inflate_loop (suc n) out p = read_bit source p >>= λ final. read_bit source final.1 >>= λ low.
      read_bit source low.1 >>= λ high. block (bit_or low.0 (high.0 * 2)) out high.1 >>= λ r.
      elim (final.0 == 1) [ true ↦ done r.0 | false ↦ inflate_loop n r.0 r.1 ]

  unfoldable pub inflate : Outcome Bytes
  unfolding inflate_loop
  inflate = inflate_loop turns [] (record { pos = 0; bit = 0 })
