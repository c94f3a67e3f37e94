-- ===== src/Ipa/Tests.antt =====
-- Small streams and packages, unpacked, written and read.
use perun.Base.{
  ℕ, ◌+◌, ◌-◌, ◌*◌, ◌%◌, ◌^◌, ◌≤◌, ◌≡◌, ◌⊎◌, refl, Bool, false, ◌||◌, Option, some, List, [], ◌∷◌,
  ◌++◌, map, length, take, drop, retain, All, Bytes, codes, eq_bytes, if◌then◌else◌, arith,
}
use perun.Base.Decimal.{decimal}
use perun.Base.Utf8.{utf8_from, lead, lossy_from, from_utf8_lossy}
use perun.Calendar.{dos_to_unix}
use perun.CookieJar.Strings.{pos, starts_with, ends_with, split}
use perun.Ipa.Bits.{InflateError, done, failed, out_of_fuel}
use perun.Ipa.Crc32.{table_from, crc_loop, crc32_ieee}
use perun.Ipa.Crc32.Bitwise.{feed_bytes, crc32_ieee-feed_bytes}
use perun.Ipa.Fetch.{
  mtime_loop, extra_mtime_unix, range_spec, http_range, fetch_entry, fetch_info_plist,
}
use perun.Ipa.Fetch.Window.{fetch_info_plist-within, fetch_info_plist-whole}
use perun.Ipa.Inflate.{stored_block, fixed_block, dynamic_block, inflate}
use perun.Ipa.Inflate.Fuel.{inflate-outcome}
use perun.Ipa.Inflate.Stored.{stored_stream, inflate-stored_stream}
use perun.Ipa.Names.{is_executable_macho, is_main_app_info_plist}
use perun.Ipa.Replicate.{fill_package}
use perun.Ipa.Replicate.Filled.{Pairwise, IsCopied, IsStored}
use perun.Ipa.Replicate.Names.{names, firsts}
use perun.Ipa.Replicate.Written.{fill_package-done}
use perun.Ipa.Sinf.{destination, is_seen, add_path, add_items, add_key, sinf_paths, placements}
use perun.Plist.Values.{Plist, dict, array, string, nil, cons, end, entry, get, find_in}
use perun.Ipa.Sinf.Distinct.{has_at, Distinct, sinf_paths-Distinct}
use perun.Ipa.Sinf.Spread.{spread_from, placements-spread_from}
use perun.Ipa.Zip
use perun.Ipa.Zip.{CentralEntry, Eocd, Zipped, loc_sig, zip64_sub, zip64_sub16}
use perun.Ipa.Zip.Directory.{
  candidate_is_plausible, scan_eocd, read_eocd, find_eocd_at, find_eocd, parse_entry, parse_entries,
  parse_central_at,
}
use perun.Ipa.Zip.Extra.{strip_loop, strip_zip64_extra, zip64_local_extra}
use perun.Ipa.Zip.Extra.Blocks.{Block, IsBlock, IsTail, is_other, encode, strip_zip64_extra-blocks}
use perun.Ipa.Zip.Package.{local_span}
use perun.Ipa.Zip.Package.Reads.{ReadsFile}
use perun.Ipa.Zip.Writer.{ZipWriter, new_writer, central_record, raw, finish_zip}
use perun.Ipa.Zip.Writer.Copies.{copy_raw_from_file-copy_raw}
use perun.Ipa.Zip.Writer.Entries.{
  is_streaming, local_extra, local_header, build_local_header, stored_header, stored_entry,
  copy_raw, copy_raw_from_file, add_stored,
}
use perun.Ipa.Zip.Writer.Payload.{copy_raw-payload}
use perun.Ipa.Zip.Writer.Placed.{IsSound}
use perun.Ipa.Zip.Writer.Reread.{IsWritable, kept, directory, eocd_of, finish_zip-reread}
use perun.Ipa.Zip.Writer.Steps.{nothing_yet, added, Reached-IsSound}

-- A stored block.
stored_abc : inflate (0x01 ∷ 3 ∷ 0 ∷ 0xfc ∷ 0xff ∷ b'a' ∷ b'b' ∷ b'c' ∷ []) ≡ done (codes "abc")
unfolding inflate stored_block fixed_block dynamic_block
stored_abc = refl

-- The fixed code, with a repetition.
fixed_repeat : inflate (0x4b ∷ 0x4c ∷ 0x84 ∷ 0x01 ∷ 0x00 ∷ []) ≡ done (codes "aaaaaaaaaa")
unfolding inflate stored_block fixed_block dynamic_block
fixed_repeat = refl

inflate-outcome_example :
    ((out : Bytes) × (inflate (0x4b ∷ 0x4c ∷ []) ≡ done out))
    ⊎ ((e : InflateError) × (inflate (0x4b ∷ 0x4c ∷ []) ≡ failed e) × (¬ (e ≡ out_of_fuel)))
inflate-outcome_example = inflate-outcome (0x4b ∷ 0x4c ∷ [])

inflate-stored_stream_example :
    inflate (stored_stream (codes "ab") (codes "c" ∷ [])) ≡ done (codes "abc")
inflate-stored_stream_example = inflate-stored_stream (codes "ab") (codes "c" ∷ []) (omega arith)

-- The check value of the checksum.
crc_check : crc32_ieee (codes "123456789") ≡ 0xcbf43926
unfolding crc32_ieee crc_loop table_from
crc_check = refl

crc32_ieee-feed_bytes_example :
    crc32_ieee (codes "123456789") ≡ 0xffffffff - feed_bytes 0xffffffff (codes "123456789")
crc32_ieee-feed_bytes_example = crc32_ieee-feed_bytes (codes "123456789") (omega arith)

-- A package with the property list `x` of the app `A`.
abbrev app_entry : CentralEntry
app_entry = record {
  name = codes "Payload/A.app/Info.plist";
  method = 0;
  flags = 0;
  crc32 = 0x8cdc1683;
  compressed_size = 1;
  uncompressed_size = 1;
  local_offset = 0;
  external_attrs = 33188 * 2 ^ 16;
  date = 33;
  time = 0;
  central_extra = [];
}

abbrev app_name : Bytes
app_name = codes "Payload/A.app/Info.plist"

abbrev app_header : Bytes
app_header =
    80 ∷ 75 ∷ 3 ∷ 4 ∷ 0 ∷ 0 ∷ 0 ∷ 0 ∷ 0 ∷ 0 ∷ 0 ∷ 0 ∷ 33 ∷ 0 ∷ 131 ∷ 22 ∷ 220 ∷ 140 ∷ 1 ∷ 0 ∷ 0 ∷ 0
    ∷ 1 ∷ 0 ∷ 0 ∷ 0 ∷ 24 ∷ 0 ∷ 0 ∷ 0 ∷ app_name

abbrev app_directory : Bytes
app_directory =
    80 ∷ 75 ∷ 1 ∷ 2 ∷ 20 ∷ 0 ∷ 20 ∷ 0 ∷ 0 ∷ 0 ∷ 0 ∷ 0 ∷ 0 ∷ 0 ∷ 33 ∷ 0 ∷ 131 ∷ 22 ∷ 220 ∷ 140 ∷ 1
    ∷ 0 ∷ 0 ∷ 0 ∷ 1 ∷ 0 ∷ 0 ∷ 0 ∷ 24 ∷ 0 ∷ 0 ∷ 0 ∷ 0 ∷ 0 ∷ 0 ∷ 0 ∷ 0 ∷ 0 ∷ 0 ∷ 0 ∷ 164 ∷ 129 ∷ 0 ∷ 0
    ∷ 0 ∷ 0 ∷ app_name

abbrev app_end : Bytes
app_end =
    80 ∷ 75 ∷ 5 ∷ 6 ∷ 0 ∷ 0 ∷ 0 ∷ 0 ∷ 1 ∷ 0 ∷ 1 ∷ 0 ∷ 70 ∷ 0 ∷ 0 ∷ 0 ∷ 55 ∷ 0 ∷ 0 ∷ 0 ∷ 0 ∷ 0 ∷ []

abbrev app_package : Bytes
app_package = app_header ++ codes "x" ++ app_directory ++ app_end

-- A server that honours the four ranges that are asked of it.
abbrev app_server : Bytes → Option (ℕ × Bytes)
app_server spec =
    if eq_bytes spec (codes "-66000")
    then some (206, app_package)
    else if eq_bytes spec (codes "55-124")
    then some (206, app_directory)
    else if eq_bytes spec (codes "54-54")
    then some (206, codes "x")
    else some (206, app_package)

fetch_info_plist-within_example :
    (at : ℕ) × (eocd : Eocd) × (find_eocd app_package ≡ Zip.done (at, eocd))
    × (eocd.cd_offset + eocd.cd_size ≤ 65978)
unfolding range_spec http_range fetch_entry fetch_info_plist find_eocd find_eocd_at scan_eocd
    read_eocd candidate_is_plausible parse_central_at parse_entries parse_entry eq_bytes lossy_from
    from_utf8_lossy lead is_main_app_info_plist split ends_with decimal mtime_loop extra_mtime_unix
fetch_info_plist-within_example =
    fetch_info_plist-within app_server app_package (codes "x", pos (dos_to_unix 33 0)) refl
      (omega arith) refl

fetch_info_plist-whole_example :
    ¬ (fetch_info_plist (λ spec. some (200, loc_sig ++ app_package)) ≡ Zip.done (codes "x", pos 0))
unfolding http_range
fetch_info_plist-whole_example =
    fetch_info_plist-whole (λ spec. some (200, loc_sig ++ app_package)) app_package
      (codes "x", pos 0) (λ range. refl)

-- A sink and a file that never fail.
abbrev sink : Bytes → Bytes → Option Bytes
sink out w = some (out ++ w)

abbrev app_reads : ℕ → ℕ → Option Bytes
app_reads off want = some (take want (drop off app_package))

app_reads-ReadsFile : ReadsFile app_reads app_package
app_reads-ReadsFile off want = (want, omega arith, refl, λ h w. w)

-- The writer behind a stored entry `a` with the byte `x`.
abbrev stored_a : ZipWriter
stored_a = record {
  out =
      stored_header (codes "a") (zip64_local_extra 1 1) 0 0 (crc32_ieee (codes "x")) 1 ++ codes "x";
  offset = 32;
  entries = stored_entry (codes "a") (codes "x") 0 0 0 ∷ [];
}

stored_a-added : add_stored sink new_writer (codes "a") (codes "x") 0 0 ≡ Zip.done stored_a
unfolding add_stored raw zip64_local_extra
stored_a-added = refl

Reached-IsSound_example : IsSound stored_a
Reached-IsSound_example =
    Reached-IsSound sink (λ o w o' e. cc)
      (added (codes "a") (codes "x") 0 0 nothing_yet stored_a-added)

-- The header of the app's entry and its bytes, which are stored.
app_span : local_span app_package app_entry ≡ Zip.done (54, 1)
unfolding local_span eq_bytes
app_span = refl

fill_package-done_example :
    (z' : ZipWriter) × (copies : List CentralEntry) × (stored : List CentralEntry) × (fill_package
        sink app_reads
        (length app_package)
        (app_entry ∷ [])
        ((codes "a", codes "x") ∷ [])
        33
        0
      ≡ Zip.done z')
    × (z'.entries ≡ copies ++ stored)
    × Pairwise (IsCopied app_package z'.out) (app_entry ∷ []) copies
    × Pairwise (IsStored 33 0 z'.out) ((codes "a", codes "x") ∷ []) stored
    × (names z'.entries ≡ names (app_entry ∷ []) ++ firsts ((codes "a", codes "x") ∷ []))
    × IsSound z'
fill_package-done_example =
    fill_package-done sink (λ o w. refl) app_reads app_package app_reads-ReadsFile (app_entry ∷ [])
      ((codes "a", codes "x") ∷ []) 33 0 ((54, 1, app_span, omega arith, omega arith), tt)
      (omega arith, tt)

copy_raw_from_file-copy_raw_example :
    copy_raw_from_file sink app_reads (length app_package) new_writer app_entry
    ≡ copy_raw sink new_writer app_package app_entry
copy_raw_from_file-copy_raw_example =
    copy_raw_from_file-copy_raw app_reads app_package app_reads-ReadsFile sink (λ o w. refl)
      new_writer app_entry 54 1 app_span (omega arith)

abbrev built_app : Bytes × Bool
built_app =
    (local_header app_header app_entry false app_name (local_extra 0 [] app_entry false 24), false)

copy_raw-payload_example :
    (z' : ZipWriter) × (e' : CentralEntry) × (start' : ℕ) × (copy_raw sink new_writer app_package
        app_entry
      ≡ Zip.done z')
    × (length z'.out ≡ z'.offset)
    × (z'.entries ≡ [] ++ e' ∷ [])
    × (local_span z'.out e' ≡ Zip.done (start', 1))
    × (take 1 (drop start' z'.out) ≡ take 1 (drop 54 app_package))
    × ((is_executable_macho app_name ≡ false) ⊎ (start' % 16384 ≡ 0))
unfolding build_local_header is_streaming local_extra strip_zip64_extra strip_loop
    is_executable_macho ends_with starts_with zip64_local_extra
copy_raw-payload_example =
    copy_raw-payload sink (λ o w. refl) new_writer app_package app_entry 54 1 built_app refl
      app_span (omega arith) refl

-- A writer behind two bytes and the app's entry.
abbrev app_writer : ZipWriter
app_writer = record { out = 7 ∷ 7 ∷ []; offset = 2; entries = app_entry ∷ [] }

app_entry-IsWritable : IsWritable app_entry
unfolding utf8_from lead strip_zip64_extra strip_loop
app_entry-IsWritable = (
  record {
    flags_fit = omega arith;
    method_fits = omega arith;
    time_fits = omega arith;
    date_fits = omega arith;
    crc_fits = omega arith;
    attrs_fit = omega arith;
    compressed_fits = omega arith;
    uncompressed_fits = omega arith;
    offset_fits = omega arith;
    name_fits = omega arith;
    name_is_utf8 = refl;
  },
  omega arith,
)

finish_zip-reread_example :
    (z' : ZipWriter) × (finish_zip sink app_writer ≡ Zip.done z')
    × (find_eocd_at (drop 1 z'.out) 1
        ≡ Zip.done (2 + length (directory app_writer.entries), eocd_of app_writer))
    × (parse_central_at
          (take (length (directory app_writer.entries)) (drop 2 z'.out))
          0
          (eocd_of app_writer)
        ≡ Zip.done (map kept (app_entry ∷ [])))
unfolding central_record strip_zip64_extra strip_loop
finish_zip-reread_example =
    finish_zip-reread sink (λ o w. refl) app_writer 1 refl (app_entry-IsWritable, tt) (omega arith)
      (omega arith) (omega arith) (omega arith)

-- A ZIP64 block, another block and a tail.
abbrev mixed_extra : Bytes
mixed_extra = 1 ∷ 0 ∷ 1 ∷ 0 ∷ 9 ∷ 2 ∷ 0 ∷ 0 ∷ 0 ∷ 5 ∷ []

stripped_extra : strip_zip64_extra mixed_extra ≡ 2 ∷ 0 ∷ 0 ∷ 0 ∷ 5 ∷ []
unfolding strip_zip64_extra strip_loop
stripped_extra = refl

strip_zip64_extra-blocks_example :
    ((bs : List Block) × (tail : Bytes) × All IsBlock bs
      × IsTail tail
      × (mixed_extra ≡ encode bs ++ tail)
      × (strip_zip64_extra mixed_extra ≡ encode (retain is_other bs) ++ tail))
    × (strip_zip64_extra (strip_zip64_extra mixed_extra) ≡ strip_zip64_extra mixed_extra)
strip_zip64_extra-blocks_example = strip_zip64_extra-blocks mixed_extra

-- A manifest that lists `x` twice.
abbrev manifest : Plist
manifest = dict (
    entry (codes "SinfReplicationPaths") (array (cons (string (codes "x")) nil))
      (entry (codes "SinfPaths") (array (cons (string (codes "x")) nil)) end))

one_destination : (sinf_paths (codes "A") manifest).paths ≡ codes "Payload/A.app/x" ∷ []
unfolding sinf_paths add_key add_items add_path get find_in eq_bytes
one_destination = refl

sinf_paths-Distinct_example :
    ((sinf_paths (codes "A") manifest).paths
      ≡ map (destination (codes "A")) (sinf_paths (codes "A") manifest).seen)
    × Distinct (sinf_paths (codes "A") manifest).seen
    × (is_seen (codes "x") (sinf_paths (codes "A") manifest).seen ≡ (
        has_at (codes "x") manifest (codes "SinfReplicationPaths")
        || has_at (codes "x") manifest (codes "SinfPaths")))
sinf_paths-Distinct_example = sinf_paths-Distinct (codes "A") manifest (codes "x") refl

placements-spread_from_example :
    placements (codes "f") (codes "p" ∷ codes "q" ∷ codes "r" ∷ []) (codes "1" ∷ codes "2" ∷ [])
    ≡ spread_from (codes "1" ∷ codes "2" ∷ []) 0 (codes "p" ∷ codes "q" ∷ codes "r" ∷ [])
placements-spread_from_example =
    placements-spread_from (codes "f") (codes "p") (codes "1") (codes "q" ∷ codes "r" ∷ [])
      (codes "2" ∷ [])
