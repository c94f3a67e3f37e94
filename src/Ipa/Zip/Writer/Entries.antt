-- ===== src/Ipa/Zip/Writer/Entries.antt =====
-- The entries of the package that is written: those copied from the source and those added.
use perun.Base.{
  ℕ, ◌+◌, ◌-◌, ◌*◌, ◌^◌, Bool, true, false, not, ◌&&◌, ◌||◌, Option, none, some, [], ◌∷◌, ◌++◌,
  length, take, drop, bit_and, bit_or, Bytes, codes, ltb, ◌==◌, if◌then◌else◌,
}
use perun.CookieJar.Strings.{ends_with}
use perun.Ipa.Crc32.{crc32_ieee}
use perun.Ipa.Names.{is_executable_macho}
use perun.Ipa.Zip.{
  loc_sig, zip64_sub, CentralEntry, local_extra_too_long, name_too_long, header_too_short,
  entry_header_out_of_range, entry_data_out_of_range, Zipped, done, failed, ◌>>=◌, u16_at, le16,
  le32, le64, get_range, is_large,
}
use perun.Ipa.Zip.Extra.{strip_zip64_extra, zip64_local_extra, align_payload_extra}
use perun.Ipa.Zip.Package.{read_at, local_span, local_span_file, copy_range_to}
use perun.Ipa.Zip.Writer.{ZipWriter, raw}

-- Deflated entries that are not directories get a data descriptor.
unfoldable pub is_streaming : CentralEntry → Bool
is_streaming entry = (entry.method == 8) && not (ends_with entry.name (codes "/"))

abbrev pub framed_flags : CentralEntry → Bool → ℕ
framed_flags entry streaming =
    if streaming then bit_or entry.flags 8 else bit_and entry.flags 0xfff7

abbrev pub sizes64 : CentralEntry → Bool
sizes64 entry = is_large entry.compressed_size || is_large entry.uncompressed_size

-- The checksum and the sizes of a local header.
abbrev pub header_sizes : CentralEntry → Bool → Bytes
header_sizes entry streaming =
    if streaming
    then le32 0 ++ le32 0 ++ le32 0
    else if sizes64 entry
    then le32 entry.crc32 ++ le32 zip64_sub ++ le32 zip64_sub
    else le32 entry.crc32 ++ le32 entry.compressed_size ++ le32 entry.uncompressed_size

-- The extra field of a rebuilt header, for a header that will stand at `offset`.
unfoldable pub local_extra : ℕ → Bytes → CentralEntry → Bool → ℕ → Bytes
local_extra offset src_extra entry streaming name_len =
    let stripped = strip_zip64_extra src_extra in
    let sized =
      if streaming
      then stripped
      else stripped ++ zip64_local_extra entry.uncompressed_size entry.compressed_size in
    if is_executable_macho entry.name then (align_payload_extra sized offset name_len).0 else sized

-- A local header up to the two lengths.
abbrev pub header_front : Bytes → CentralEntry → Bool → Bytes
header_front src_header entry streaming =
    loc_sig
    ++ le16 (if sizes64 entry && not streaming then 45 else u16_at src_header 4)
    ++ le16 (framed_flags entry streaming)
    ++ le16 entry.method
    ++ take 4 (drop 12 src_header)
    ++ header_sizes entry streaming

abbrev pub local_header : Bytes → CentralEntry → Bool → Bytes → Bytes → Bytes
local_header src_header entry streaming name_bytes extra =
    header_front src_header entry streaming
    ++ (le16 (length name_bytes) ++ le16 (length extra) ++ (name_bytes ++ extra))

-- The header and whether a descriptor follows; `need64` is `sizes64 entry`.
unfoldable pub build_local_header : ℕ → Bytes → CentralEntry → Zipped (Bytes × Bool)
build_local_header offset src_header entry =
    if ltb (length src_header) 30
    then failed header_too_short
    else let name_len = u16_at src_header 26 in
      let src_extra = drop (30 + name_len) src_header in
      let name_bytes =
        if ltb (length src_header) (30 + name_len)
        then []
        else take name_len (drop 30 src_header) in
      let streaming = is_streaming entry in
      let extra = local_extra offset src_extra entry streaming (length name_bytes) in
      if ltb 0xffff (length extra)
      then failed local_extra_too_long
      else if ltb 0xffff (length name_bytes)
      then failed name_too_long
      else done (local_header src_header entry streaming name_bytes extra, streaming)

abbrev pub descriptor : CentralEntry → Bool → Bytes
descriptor entry need64 =
    le32 0x08074b50
    ++ le32 entry.crc32
    ++ (if need64
        then le64 entry.compressed_size ++ le64 entry.uncompressed_size
        else le32 entry.compressed_size ++ le32 entry.uncompressed_size)

unfoldable pub record_entry : ZipWriter → CentralEntry → Bool → ℕ → ZipWriter
record_entry z entry streaming local_offset = record z {
  entries =
      z.entries
      ++ record entry { flags = framed_flags entry streaming; local_offset = local_offset } ∷ [];
}

-- The header of a stored entry, up to the two lengths and whole.
abbrev pub stored_front : ℕ → ℕ → ℕ → ℕ → Bytes
stored_front date time crc size =
    loc_sig
    ++ le16 (if is_large size then 45 else 0)
    ++ le16 0
    ++ le16 0
    ++ le16 time
    ++ le16 date
    ++ le32 crc
    ++ le32 (if is_large size then zip64_sub else size)
    ++ le32 (if is_large size then zip64_sub else size)

abbrev pub stored_header : Bytes → Bytes → ℕ → ℕ → ℕ → ℕ → Bytes
stored_header name extra date time crc size =
    stored_front date time crc size
    ++ (le16 (length name) ++ le16 (length extra) ++ (name ++ extra))

-- What is recorded of it.
abbrev pub stored_entry : Bytes → Bytes → ℕ → ℕ → ℕ → CentralEntry
stored_entry name data' date time offset = record {
  name = name;
  method = 0;
  flags = 0;
  crc32 = crc32_ieee data';
  compressed_size = length data';
  uncompressed_size = length data';
  local_offset = offset;
  external_attrs = 33188 * 2 ^ 16;
  date = date;
  time = time;
  central_extra = [];
}

module _ (write_all : Bytes → Bytes → Option Bytes) where
  unfoldable pub write_descriptor : Bool → ZipWriter → CentralEntry → Zipped ZipWriter
  write_descriptor false z entry = done z
  write_descriptor true z entry = raw write_all z (descriptor entry (sizes64 entry))

  -- `copy_raw`, from an archive in memory.
  unfoldable pub copy_raw : ZipWriter → Bytes → CentralEntry → Zipped ZipWriter
  copy_raw z src entry = local_span src entry >>= λ (data_start, compressed).
      elim (get_range src entry.local_offset (data_start - entry.local_offset)) [
        | none ↦ failed entry_header_out_of_range
        | some src_header ↦ build_local_header z.offset src_header entry >>= λ (header, streaming).
            raw write_all z header >>= λ z1. elim (get_range src data_start compressed) [
              | none ↦ failed entry_data_out_of_range
              | some body ↦ raw write_all z1 body >>= λ z2.
                  write_descriptor streaming z2 entry >>= λ z3.
                  done (record_entry z3 entry streaming z.offset)
            ]
      ]

  -- `copy_raw_from_file`; the body goes to the sink past the writer, which counts it afterwards.
  unfoldable pub copy_raw_from_file :
      (ℕ → ℕ → Option Bytes) → ℕ → ZipWriter → CentralEntry → Zipped ZipWriter
  copy_raw_from_file read pkg_len z entry =
      local_span_file read pkg_len entry >>= λ (data_start, compressed).
      read_at read entry.local_offset (data_start - entry.local_offset) >>= λ src_header.
      build_local_header z.offset src_header entry >>= λ (header, streaming).
      raw write_all z header >>= λ z1.
      copy_range_to read write_all data_start compressed z1.out >>= λ out'.
      write_descriptor streaming (record z1 { out = out'; offset = z1.offset + compressed }) entry
      >>= λ z3. done (record_entry z3 entry streaming z.offset)

  unfoldable pub add_stored : ZipWriter → Bytes → Bytes → ℕ → ℕ → Zipped ZipWriter
  add_stored z name data' date time =
      let size = length data' in
      let extra = zip64_local_extra size size in
      if ltb 0xffff (length name)
      then failed name_too_long
      else if ltb 0xffff (length extra)
      then failed local_extra_too_long
      else (raw write_all z (stored_header name extra date time (crc32_ieee data') size) >>= λ z1.
          raw write_all z1 data' >>= λ z2.
          done
            (record z2 { entries = z2.entries ++ stored_entry name data' date time z.offset ∷ [] }))
