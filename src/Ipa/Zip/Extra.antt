-- ===== src/Ipa/Zip/Extra.antt =====
-- The extra fields of a header: ZIP64 blocks taken out and built anew, and the padding that aligns
-- the payload of an executable.
pub mod Blocks
pub mod Aligned
use perun.Base.{
  ℕ, zero, suc, ◌+◌, ◌-◌, ◌*◌, ◌/◌, ◌%◌, ◌≤◌, ◌<◌, Bool, true, false, not, ◌&&◌, ◌||◌, [], ◌∷◌,
  ◌++◌, length, take, drop, replicate, Bytes, ltb, leb, ◌==◌, if◌then◌else◌,
}
use perun.Ipa.Zip.{zip64_extra_id, code_alignment, pad_extra_id, u16_at, le16, le64, is_large}

-- The loop of `strip_zip64_extra` over the bytes from `i` on; each turn passes four bytes at least.
unfoldable pub strip_loop : ℕ → Bytes → Bytes
strip_loop zero extra = extra
strip_loop (suc n) extra =
    if ltb (length extra) 4
    then extra
    else let end = 4 + u16_at extra 2 in
      let rest = strip_loop n (drop end extra) in
      if ltb (length extra) end
      then extra
      else if u16_at extra 0 == zip64_extra_id
      then rest
      else take end extra ++ rest

unfoldable pub strip_zip64_extra : Bytes → Bytes
strip_zip64_extra extra = strip_loop (length extra) extra

-- A 64-bit field, for a value that overflows 32 bits.
abbrev pub large_field : ℕ → Bytes
large_field n = if is_large n then le64 n else []

abbrev pub zip64_block : Bytes → Bytes
zip64_block [] = []
zip64_block (b ∷ fields) = le16 zip64_extra_id ++ le16 (length (b ∷ fields)) ++ (b ∷ fields)

unfoldable pub zip64_central_extra : ℕ → ℕ → ℕ → Bytes
zip64_central_extra uncompressed compressed offset =
    zip64_block (large_field uncompressed ++ large_field compressed ++ large_field offset)

unfoldable pub zip64_local_extra : ℕ → ℕ → Bytes
zip64_local_extra uncompressed compressed =
    zip64_block (large_field uncompressed ++ large_field compressed)

-- How many bytes `align_payload_extra` adds, none on a boundary.
unfoldable pub pad_total : ℕ → ℕ
pad_total base =
    let residue = base % code_alignment in
    let pad = code_alignment - residue in
    if residue == 0 then 0 else if ltb pad 4 then pad + code_alignment else pad

-- The extra field and whether it was padded.
unfoldable pub align_payload_extra : Bytes → ℕ → ℕ → Bytes × Bool
align_payload_extra extra local_offset name_len =
    let total = pad_total (local_offset + 30 + name_len + length extra) in
    if total == 0
    then (extra, false)
    else (extra ++ (le16 pad_extra_id ++ le16 (total - 4) ++ replicate (total - 4) 0), true)
