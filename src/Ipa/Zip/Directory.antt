-- ===== src/Ipa/Zip/Directory.antt =====
-- Reading the central directory: the record at the end of the archive and the entries it names.
pub mod Entries
pub mod EndRecord
use perun.Base.{
  ℕ, zero, suc, ◌+◌, Bool, true, false, not, ◌&&◌, ◌||◌, Option, none, some, List, [], ◌∷◌, length,
  take, drop, Bytes, eq_bytes, ltb, leb, ◌==◌, if◌then◌else◌,
}
use perun.Base.Utf8.{from_utf8_lossy}
use perun.Ipa.Zip.{
  eocd_sig, cen_sig, CentralEntry, Eocd, no_end_record, multi_disk, zip64_directory,
  truncated_directory, bad_directory_signature, truncated_name, Zipped, done, failed, ◌>>=◌, u16_at,
  u32_at,
}

unfoldable pub candidate_is_plausible : Bytes → ℕ → Bool
candidate_is_plausible eocd at =
    let cd_size = u32_at eocd 12 in
    let cd_offset = u32_at eocd 16 in
    if cd_size == 0xffffffff || cd_offset == 0xffffffff then true else leb (cd_offset + cd_size) at

-- The loop at place `i`, over what stands there; the last believed place wins.
unfoldable pub scan_eocd : ℕ → ℕ → Option ℕ → Bytes → Option ℕ
scan_eocd base i pos [] = pos
scan_eocd base i pos (b ∷ bs) =
    let rest = b ∷ bs in
    let believed =
      eq_bytes (take 4 rest) eocd_sig && candidate_is_plausible (take 22 rest) (base + i) in
    let pos' = if believed then some i else pos in
    let later = scan_eocd base (i + 1) pos' bs in if ltb (length rest) 22 then pos else later

-- What the record at a believed place says.
unfoldable pub read_eocd : Bytes → Zipped Eocd
read_eocd eocd =
    if not (u16_at eocd 4 == 0) || not (u16_at eocd 6 == 0)
    then failed multi_disk
    else let entry_count = u16_at eocd 10 in
      let cd_size = u32_at eocd 12 in
      let cd_offset = u32_at eocd 16 in
      if cd_offset == 0xffffffff || (cd_size == 0xffffffff || (entry_count == 0xffff))
      then failed zip64_directory
      else done (record { entry_count = entry_count; cd_offset = cd_offset; cd_size = cd_size })

unfoldable pub find_eocd_at : Bytes → ℕ → Zipped (ℕ × Eocd)
find_eocd_at data' base = elim (scan_eocd base 0 none data') [
  | none ↦ failed no_end_record
  | some i ↦ read_eocd (take 22 (drop i data')) >>= λ eocd. done (base + i, eocd)
]

unfoldable pub find_eocd : Bytes → Zipped (ℕ × Eocd)
find_eocd data' = find_eocd_at data' 0

-- One turn of `parse_central_at`, over the bytes from `pos` on: the entry and what follows it.
unfoldable pub parse_entry : Bytes → Zipped (CentralEntry × Bytes)
parse_entry r =
    if ltb (length r) 46
    then failed truncated_directory
    else if not (eq_bytes (take 4 r) cen_sig)
    then failed bad_directory_signature
    else let name_len = u16_at r 28 in
      let extra_len = u16_at r 30 in
      let comment_len = u16_at r 32 in
      let name_end = 46 + name_len in
      if ltb (length r) name_end
      then failed truncated_name
      else done (
        record {
          name = from_utf8_lossy (take name_len (drop 46 r));
          method = u16_at r 10;
          flags = u16_at r 8;
          crc32 = u32_at r 16;
          compressed_size = u32_at r 20;
          uncompressed_size = u32_at r 24;
          local_offset = u32_at r 42;
          external_attrs = u32_at r 38;
          date = u16_at r 14;
          time = u16_at r 12;
          central_extra =
              if ltb (length r) (name_end + extra_len)
              then []
              else take extra_len (drop name_end r);
        },
        drop (name_end + extra_len + comment_len) r,
      )

unfoldable pub parse_entries : ℕ → Bytes → Zipped (List CentralEntry)
parse_entries zero r = done []
parse_entries (suc n) r =
    parse_entry r >>= λ e. parse_entries n e.1 >>= λ entries. done (e.0 ∷ entries)

unfoldable pub parse_central_at : Bytes → ℕ → Eocd → Zipped (List CentralEntry)
parse_central_at data' start eocd = parse_entries eocd.entry_count (drop start data')
