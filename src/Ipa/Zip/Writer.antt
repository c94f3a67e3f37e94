-- ===== src/Ipa/Zip/Writer.antt =====
-- `ZipWriter`: the bytes written so far, their count and the entries for the central directory.
-- `write_all` stands for the sink: what it holds after a write, or nothing when the write fails.
pub mod Entries
pub mod Reread
pub mod Copies
pub mod Headers
pub mod Payload
pub mod Sizes
pub mod Placed
pub mod Additions
pub mod Steps
use perun.Base.{
  ℕ, zero, suc, ◌+◌, ◌-◌, ◌*◌, ◌/◌, ◌%◌, ◌^◌, Bool, true, false, not, ◌&&◌, ◌||◌, Option, none,
  some, List, [], ◌∷◌, ◌++◌, length, take, drop, bit_or, Bytes, codes, ltb, leb, ◌==◌,
  if◌then◌else◌,
}
use perun.CookieJar.Strings.{ends_with}
use perun.Ipa.Names.{is_executable_macho}
use perun.Ipa.Zip.{
  eocd_sig, cen_sig, loc_sig, zip64_eocd_sig, zip64_loc_sig, zip64_sub, zip64_sub16, CentralEntry,
  local_extra_too_long, name_too_long, central_extra_too_long, header_too_short, write_failed,
  Zipped, done, failed, ◌>>=◌, u16_at, le16, le32, le64, is_large,
}
use perun.Ipa.Zip.Extra.{
  strip_zip64_extra, zip64_central_extra, zip64_local_extra, align_payload_extra,
}

-- It has the fields of a central entry.
abbrev pub WrittenEntry : Type 0
WrittenEntry = CentralEntry

pub record ZipWriter : Type 0 where
  pub out : Bytes
  pub offset : ℕ
  pub entries : List WrittenEntry

abbrev pub new_writer : ZipWriter
new_writer = record { out = []; offset = 0; entries = [] }

-- The sizes or the offset of an entry overflow 32 bits.
abbrev pub entry64 : WrittenEntry → Bool
entry64 e = is_large e.compressed_size || (is_large e.uncompressed_size || is_large e.local_offset)

abbrev pub cut32 : ℕ → ℕ
cut32 n = if is_large n then zip64_sub else n

-- One record of the central directory, for an extra field that is ready.
unfoldable pub central_record : WrittenEntry → Bytes → Bytes
central_record e extra =
    cen_sig
    ++ le16 0x0014
    ++ le16 (if entry64 e then 45 else 0x0014)
    ++ le16 e.flags
    ++ le16 e.method
    ++ le16 e.time
    ++ le16 e.date
    ++ le32 e.crc32
    ++ le32 (cut32 e.compressed_size)
    ++ le32 (cut32 e.uncompressed_size)
    ++ le16 (length e.name)
    ++ le16 (length extra)
    ++ le16 0
    ++ le16 0
    ++ le16 0
    ++ le32 e.external_attrs
    ++ le32 (cut32 e.local_offset)
    ++ (e.name ++ extra)

abbrev pub fresh_extra : WrittenEntry → Bytes
fresh_extra e =
    strip_zip64_extra e.central_extra
    ++ zip64_central_extra e.uncompressed_size e.compressed_size e.local_offset

unfoldable pub entry_record : WrittenEntry → Zipped Bytes
entry_record e =
    let extra = fresh_extra e in
    if ltb 0xffff (length e.name)
    then failed name_too_long
    else if ltb 0xffff (length extra)
    then failed central_extra_too_long
    else done (central_record e extra)

unfoldable pub records : List WrittenEntry → Zipped (List Bytes)
unfolding entry_record
records [] = done []
records (e ∷ es) = entry_record e >>= λ r. records es >>= λ rs. done (r ∷ rs)

abbrev pub any_entry64 : List WrittenEntry → Bool
any_entry64 [] = false
any_entry64 (e ∷ es) = if entry64 e then true else any_entry64 es

abbrev pub zip64_eocd : ℕ → ℕ → ℕ → Bytes
zip64_eocd count cd_size cd_start =
    zip64_eocd_sig
    ++ le64 44
    ++ le16 0x0014
    ++ le16 45
    ++ le32 0
    ++ le32 0
    ++ le64 count
    ++ le64 count
    ++ le64 cd_size
    ++ le64 cd_start

abbrev pub zip64_locator : ℕ → Bytes
zip64_locator at = zip64_loc_sig ++ le32 0 ++ le64 at ++ le32 1

abbrev pub end_record : Bool → ℕ → ℕ → ℕ → Bytes
end_record need64 count cd_size cd_start =
    eocd_sig
    ++ le16 0
    ++ le16 0
    ++ (if need64
        then le16 zip64_sub16 ++ le16 zip64_sub16 ++ le32 zip64_sub ++ le32 zip64_sub
        else le16 count ++ le16 count ++ le32 cd_size ++ le32 cd_start)
    ++ le16 0

module _ (write_all : Bytes → Bytes → Option Bytes) where
  unfoldable pub raw : ZipWriter → Bytes → Zipped ZipWriter
  raw z w = elim (write_all z.out w) [
    | none ↦ failed write_failed
    | some out' ↦ done (record z { out = out'; offset = z.offset + length w })
  ]

  unfoldable pub raw_all : ZipWriter → List Bytes → Zipped ZipWriter
  raw_all z [] = done z
  raw_all z (w ∷ ws) = raw z w >>= λ z'. raw_all z' ws

  -- The ZIP64 records, where they are needed.
  unfoldable pub write_zip64 : Bool → ℕ → ℕ → ZipWriter → Zipped ZipWriter
  write_zip64 false cd_size cd_start z = done z
  write_zip64 true cd_size cd_start z =
      raw z (zip64_eocd (length z.entries) cd_size cd_start) >>= λ z'.
      raw z' (zip64_locator z.offset)

  unfoldable pub finish_zip : ZipWriter → Zipped ZipWriter
  finish_zip z =
      let cd_start = z.offset in
      records z.entries >>= λ rs. raw_all z rs >>= λ z'.
      let cd_size = z'.offset - cd_start in
      let need64 =
        leb zip64_sub16 (length z.entries)
        || (any_entry64 z.entries || (is_large cd_size || is_large cd_start)) in
      write_zip64 need64 cd_size cd_start z' >>= λ z''.
      raw z'' (end_record need64 (length z.entries) cd_size cd_start)
