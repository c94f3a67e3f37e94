-- ===== src/Ipa/Zip/Directory/Entries.antt =====
-- An entry of the central directory, from the record that the writer makes of it.
use perun.Base.{
  ℕ, ◌+◌, ◌≤◌, ◌<◌, ◌^◌, ◌≡◌, refl, ap, ◌∙◌, true, false, ◌++◌, append_assoc, length, length-append,
  length-drop, take, drop, take-append_at, drop-at, Bytes, from_le, eq_bytes, ltb, ge→ltb, arith,
}
use perun.Base.Utf8.{is_utf8, from_utf8_lossy, from_utf8_lossy-is_utf8}
use perun.Ipa.Zip.{
  cen_sig, zip64_sub, CentralEntry, done, u16_at, u32_at, le32, from_le-le16, from_le-le32,
}
use perun.Ipa.Zip.Directory.{parse_entry}
use perun.Ipa.Zip.Writer.{cut32, central_record}

-- The entry that a record names, with its name and its extra field given.
abbrev read_entry : Bytes → Bytes → Bytes → CentralEntry
read_entry r name extra = record {
  name = from_utf8_lossy name;
  method = u16_at r 10;
  flags = u16_at r 8;
  crc32 = u32_at r 16;
  compressed_size = u32_at r 20;
  uncompressed_size = u32_at r 24;
  local_offset = u32_at r 42;
  external_attrs = u32_at r 38;
  date = u16_at r 14;
  time = u16_at r 12;
  central_extra = extra;
}

parse_entry-fields :
    (r name extra rest : Bytes)
    → eq_bytes (take 4 r) cen_sig ≡ true
    → u16_at r 28 ≡ length name
    → u16_at r 30 ≡ length extra
    → u16_at r 32 ≡ 0
    → drop 46 r ≡ name ++ (extra ++ rest)
    → 46 ≤ length r
    → parse_entry r ≡ done (read_entry r name extra, rest)
unfolding parse_entry
parse_entry-fields r name extra rest sig names extras comment behind long =
    let sizes = length-append name (extra ++ rest) in
    let size : length r ≡ 46 + length name + length extra + length rest =
      omega (arith, length-drop 46 r, ap length behind, sizes, length-append extra rest) in
    let whole : ltb (length r) 46 ≡ false = ge→ltb (length r) 46 long in
    let named : ltb (length r) (46 + length name) ≡ false = ge→ltb (length r) _ (omega arith) in
    let extended : ltb (length r) (46 + length name + length extra) ≡ false =
      ge→ltb (length r) _ (omega arith) in
    let after = drop-at 46 r name (extra ++ rest) behind in
    let last = drop-at (46 + length name) r extra rest after in
    let none : 46 + length name + length extra + 0 ≡ 46 + length name + length extra =
      omega arith in
    let name_read =
      ap (take (length name)) behind ∙ take-append_at (length name) name (extra ++ rest) refl in
    let extra_read =
      ap (take (length extra)) after ∙ take-append_at (length extra) extra rest refl in
    rw (whole, sig, names, extras, comment, named, extended, none, name_read, extra_read, last) refl

-- An entry whose fields have their widths and which needs no ZIP64 block.
pub record IsEntry (e : CentralEntry) : Type 0 where
  pub flags_fit : e.flags < 2 ^ 16
  pub method_fits : e.method < 2 ^ 16
  pub time_fits : e.time < 2 ^ 16
  pub date_fits : e.date < 2 ^ 16
  pub crc_fits : e.crc32 < 2 ^ 32
  pub attrs_fit : e.external_attrs < 2 ^ 32
  pub compressed_fits : e.compressed_size < zip64_sub
  pub uncompressed_fits : e.uncompressed_size < zip64_sub
  pub offset_fits : e.local_offset < zip64_sub
  pub name_fits : length e.name < 2 ^ 16
  pub name_is_utf8 : is_utf8 e.name ≡ true

from_le-cut32 : (n : ℕ) → n < zip64_sub → from_le (le32 (cut32 n)) ≡ n
from_le-cut32 n h =
    let small : cut32 n ≡ n = ground arith in
    ap (λ (t : ℕ). from_le (le32 t)) small ∙ from_le-le32 n (omega arith)

pub parse_entry-central_record :
    (e : CentralEntry) (extra rest : Bytes)
    → IsEntry e
    → length extra < 2 ^ 16
    → parse_entry (central_record e extra ++ rest) ≡ done (record e { central_extra = extra }, rest)
unfolding central_record eq_bytes
parse_entry-central_record e extra rest fits short =
    let r = central_record e extra ++ rest in
    let read =
      parse_entry-fields r e.name extra rest refl (from_le-le16 (length e.name) fits.name_fits)
        (from_le-le16 (length extra) short) refl (append_assoc e.name extra rest) (omega arith) in
    let method = from_le-le16 e.method fits.method_fits in
    let flags = from_le-le16 e.flags fits.flags_fit in
    let crc = from_le-le32 e.crc32 fits.crc_fits in
    let compressed = from_le-cut32 e.compressed_size fits.compressed_fits in
    let uncompressed = from_le-cut32 e.uncompressed_size fits.uncompressed_fits in
    let offset = from_le-cut32 e.local_offset fits.offset_fits in
    let attrs = from_le-le32 e.external_attrs fits.attrs_fit in
    let date = from_le-le16 e.date fits.date_fits in
    let time = from_le-le16 e.time fits.time_fits in
    let name = from_utf8_lossy-is_utf8 e.name fits.name_is_utf8 in read ∙ cc
