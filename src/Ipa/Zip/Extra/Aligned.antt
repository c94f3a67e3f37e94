-- ===== src/Ipa/Zip/Extra/Aligned.antt =====
-- The padding in front of the payload of an executable.
use perun.Base.{
  ℕ, ◌+◌, ◌-◌, ◌%◌, ◌/◌, ◌^◌, ◌≤◌, ◌<◌, ◌≡◌, ◌⊎◌, inl, inr, refl, true, false, ◌++◌, length,
  length-append, length-replicate, replicate, Bytes, ◌==◌, Bool-cases, ==→eq, ==→ne, arith,
}
use perun.Ipa.Zip.{code_alignment, pad_extra_id}
use perun.Ipa.Zip.Extra.{pad_total, align_payload_extra}
use perun.Ipa.Zip.Extra.Blocks.{Block, IsBlock, block_bytes}

pad_total-aligned : (base : ℕ) → (base + pad_total base) % code_alignment ≡ 0
unfolding pad_total
pad_total-aligned base = ground arith

pad_total-bounds :
    (base : ℕ)
    → ¬ (pad_total base ≡ 0)
    → (4 ≤ pad_total base) × (pad_total base < code_alignment + 4)
unfolding pad_total
pad_total-bounds base h = (ground arith, ground arith)

-- The padding of `n` bytes as a block.
abbrev pub pad_block : ℕ → Block
pad_block n = record {
  id_low = pad_extra_id % 256;
  id_high = pad_extra_id / 2 ^ 8 % 256;
  size_low = (n - 4) % 256;
  size_high = (n - 4) / 2 ^ 8 % 256;
  body = replicate (n - 4) 0;
}

-- Behind a header at `offset` with a name of `name_len` bytes the payload starts on a 16 KiB
-- boundary; the extra field is the given one, and where that is off the boundary, one block behind
-- it of at most 16387 bytes.
pub align_payload_extra-IsAligned :
    (extra : Bytes) (offset name_len : ℕ)
    → ((offset + 30 + name_len + length (align_payload_extra extra offset name_len).0) % 16384 ≡ 0)
      × ((align_payload_extra extra offset name_len ≡ (extra, false))
          ⊎ ((n : ℕ) × (n < 16388)
              × IsBlock (pad_block n)
              × (align_payload_extra extra offset name_len
                  ≡ (extra ++ block_bytes (pad_block n), true))))
unfolding align_payload_extra
align_payload_extra-IsAligned extra offset name_len =
    let base = offset + 30 + name_len + length extra in
    let n = pad_total base in
    elim (Bool-cases (n == 0)) [
      | inl level ↦
          let e = ==→eq n 0 level in rw level (omega (arith, pad_total-aligned base, e), inl refl)
      | inr off ↦
          let bounds = pad_total-bounds base (==→ne n 0 off) in
          let block : length (block_bytes (pad_block n)) ≡ n =
            omega (arith, bounds.0, length-replicate {A = ℕ} (n - 4) 0) in
          rw off (
            omega (
              arith,
              block,
              pad_total-aligned base,
              length-append extra (block_bytes (pad_block n)),
            ),
            inr (
              n,
              bounds.1,
              omega (arith, bounds.0, bounds.1, length-replicate {A = ℕ} (n - 4) 0),
              refl,
            ),
          )
    ]
