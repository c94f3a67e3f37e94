-- ===== src/Ipa/Zip/Writer/Reread.antt =====
-- The archive that `finish` completes is found and read back.
use perun.Base.{
  ℕ, zero, suc, ◌+◌, ◌-◌, ◌≤◌, ◌<◌, ◌^◌, ◌≡◌, refl, sym, ap, ◌∙◌, true, false, Option, some, List,
  [], ◌∷◌, ◌++◌, map, append-nil, append_assoc, length, length-append, length-drop, take, drop,
  take-append_at, drop-append_at, All, Bytes, eq_bytes, ltb, leb, ◌==◌, arith,
}
use perun.Ipa.Zip.{
  zip64_sub, zip64_sub16, CentralEntry, Eocd, done, from_le-le16, from_le-le32, is_large,
}
use perun.Ipa.Zip.Extra.{strip_zip64_extra, zip64_central_extra}
use perun.Ipa.Zip.Directory.{
  candidate_is_plausible, read_eocd, find_eocd_at, parse_entries, parse_central_at,
}
use perun.Ipa.Zip.Directory.EndRecord.{find_eocd_at-last}
use perun.Ipa.Zip.Directory.Entries.{IsEntry, parse_entry-central_record}
use perun.Ipa.Zip.Writer.{
  ZipWriter, WrittenEntry, entry64, any_entry64, fresh_extra, central_record, entry_record, records,
  end_record, raw, raw_all, write_zip64, finish_zip,
}

-- An entry as it is read back: its ZIP64 blocks are gone.
abbrev pub kept : WrittenEntry → CentralEntry
kept e = record e { central_extra = strip_zip64_extra e.central_extra }

abbrev pub IsWritable : WrittenEntry → Type 0
IsWritable e = IsEntry e × (length (strip_zip64_extra e.central_extra) < 2 ^ 16)

abbrev joined : List Bytes → Bytes
joined [] = []
joined (b ∷ bs) = b ++ joined bs

abbrev record_of : WrittenEntry → Bytes
record_of e = central_record e (strip_zip64_extra e.central_extra)

-- The central directory of entries.
abbrev pub directory : List WrittenEntry → Bytes
directory es = joined (map record_of es)

fresh_extra-small :
    (e : WrittenEntry) → IsEntry e → fresh_extra e ≡ strip_zip64_extra e.central_extra
unfolding zip64_central_extra
fresh_extra-small e fits =
    let a : is_large e.uncompressed_size ≡ false = ground (arith, fits.uncompressed_fits) in
    let b : is_large e.compressed_size ≡ false = ground (arith, fits.compressed_fits) in
    let c : is_large e.local_offset ≡ false = ground (arith, fits.offset_fits) in
    rw (a, b, c) (append-nil (strip_zip64_extra e.central_extra))

records-IsWritable :
    (es : List WrittenEntry) → All IsWritable es → records es ≡ done (map record_of es)
unfolding records entry_record
records-IsWritable [] h = refl
records-IsWritable (e ∷ es) h =
    let fresh = fresh_extra-small e h.0.0 in
    let named : ltb 0xffff (length e.name) ≡ false = ground (arith, h.0.0.name_fits) in
    let extended : ltb 0xffff (length (strip_zip64_extra e.central_extra)) ≡ false =
      ground (arith, h.0.1) in
    rw (records, entry_record, fresh, named, extended, records-IsWritable es h.1) refl

any_entry64-IsWritable : (es : List WrittenEntry) → All IsWritable es → any_entry64 es ≡ false
any_entry64-IsWritable [] h = refl
any_entry64-IsWritable (e ∷ es) h =
    let fits = h.0.0 in
    let small : entry64 e ≡ false =
      ground (arith, fits.compressed_fits, fits.uncompressed_fits, fits.offset_fits) in
    rw small (any_entry64-IsWritable es h.1)

parse_entries-directory :
    (es : List WrittenEntry) (rest : Bytes)
    → All IsWritable es
    → parse_entries (length es) (directory es ++ rest) ≡ done (map kept es)
unfolding parse_entries
parse_entries-directory [] rest h = refl
parse_entries-directory (e ∷ es) rest h =
    let split = append_assoc (record_of e) (directory es) rest in
    let first =
      parse_entry-central_record e (strip_zip64_extra e.central_extra) (directory es ++ rest) h.0.0
        h.0.1 in
    rw (split, first, parse_entries-directory es rest h.1) refl

-- The writer behind more bytes.
abbrev pub behind : ZipWriter → Bytes → ZipWriter
behind z w = record z { out = z.out ++ w; offset = z.offset + length w }

abbrev pub eocd_of : ZipWriter → Eocd
eocd_of z = record {
  entry_count = length z.entries;
  cd_offset = z.offset;
  cd_size = length (directory z.entries);
}

-- The record at the end says what it is given.
read_eocd-end_record :
    (count size start : ℕ)
    → count < zip64_sub16
    → size < zip64_sub
    → start < zip64_sub
    → read_eocd (end_record false count size start)
      ≡ done (record { entry_count = count; cd_offset = start; cd_size = size })
unfolding read_eocd
read_eocd-end_record count size start few short low =
    let a = from_le-le16 count (omega arith) in
    let b = from_le-le32 size (omega arith) in
    let c = from_le-le32 start (omega arith) in
    let a' : (count == 0xffff) ≡ false = ground arith in
    let b' : (size == 0xffffffff) ≡ false = ground arith in
    let c' : (start == 0xffffffff) ≡ false = ground arith in rw (a, b, c, a', b', c') refl

plausible-end_record :
    (count size start at : ℕ)
    → size < zip64_sub
    → start < zip64_sub
    → start + size ≤ at
    → candidate_is_plausible (end_record false count size start) at ≡ true
unfolding candidate_is_plausible
plausible-end_record count size start at short low inside =
    let b = from_le-le32 size (omega arith) in
    let c = from_le-le32 start (omega arith) in rw (b, c) (ground (arith, inside, short, low))

pub drop-append_le : (n : ℕ) (xs ys : Bytes) → n ≤ length xs → drop n (xs ++ ys) ≡ drop n xs ++ ys
drop-append_le zero xs ys h = refl
drop-append_le (suc n) [] ys h = absurd (omega arith)
drop-append_le (suc n) (x ∷ xs) ys h = drop-append_le n xs ys (omega arith)

module _ (write_all : Bytes → Bytes → Option Bytes)
    (works : (out w : Bytes) → write_all out w ≡ some (out ++ w)) where
  pub raw-behind : (z : ZipWriter) (w : Bytes) → raw write_all z w ≡ done (behind z w)
  unfolding raw
  raw-behind z w = rw (raw, works z.out w) refl

  raw_all-behind :
      (z : ZipWriter) (ws : List Bytes) → raw_all write_all z ws ≡ done (behind z (joined ws))
  unfolding raw_all
  raw_all-behind z [] =
      let nothing = append-nil z.out in let still : z.offset + 0 ≡ z.offset = omega arith in cc
  raw_all-behind z (w ∷ ws) =
      let longer : z.offset + length w + length (joined ws) ≡ z.offset + length (w ++ joined ws) =
        omega (arith, length-append w (joined ws)) in
      let same = append_assoc z.out w (joined ws) in
      rw (raw-behind z w, raw_all-behind (behind z w) ws) cc

  -- What `finish` adds behind the directory of small entries.
  abbrev pub last_record : ZipWriter → Bytes
  last_record z = end_record false (length z.entries) (length (directory z.entries)) z.offset

  pub finish_zip-behind :
      (z : ZipWriter)
      → All IsWritable z.entries
      → length z.entries < zip64_sub16
      → length (directory z.entries) < zip64_sub
      → z.offset < zip64_sub
      → finish_zip write_all z ≡ done (behind (behind z (directory z.entries)) (last_record z))
  unfolding finish_zip write_zip64
  finish_zip-behind z h few short low =
      let dir = directory z.entries in
      let size : z.offset + length dir - z.offset ≡ length dir = omega arith in
      let a : leb zip64_sub16 (length z.entries) ≡ false = ground arith in
      let b : is_large (length dir) ≡ false = ground arith in
      let c : is_large z.offset ≡ false = ground arith in
      rw
        (
          finish_zip,
          records-IsWritable z.entries h,
          raw_all-behind z (map record_of z.entries),
          size,
          a,
          any_entry64-IsWritable z.entries h,
          b,
          c,
        )
        (raw-behind (behind z dir) (last_record z))

  -- Entries with small sizes and offsets, written where the writer stands: `finish` succeeds, the
  -- record at the end is found in every tail of the archive that begins at or before it, and the
  -- directory that it names is parsed to the entries, less their ZIP64 blocks.
  pub finish_zip-reread :
      (z : ZipWriter) (base : ℕ)
      → length z.out ≡ z.offset
      → All IsWritable z.entries
      → length z.entries < zip64_sub16
      → length (directory z.entries) < zip64_sub
      → z.offset < zip64_sub
      → base ≤ z.offset + length (directory z.entries)
      → (z' : ZipWriter) × (finish_zip write_all z ≡ done z')
        × (find_eocd_at (drop base z'.out) base
            ≡ done (z.offset + length (directory z.entries), eocd_of z))
        × (parse_central_at
              (take (length (directory z.entries)) (drop z.offset z'.out))
              0
              (eocd_of z)
            ≡ done (map kept z.entries))
  unfolding parse_central_at eq_bytes
  finish_zip-reread z base counted h few short low inside =
      let dir = directory z.entries in
      let rec = last_record z in
      let front = z.out ++ dir in
      let place : length front ≡ z.offset + length dir =
        omega (arith, counted, length-append z.out dir) in
      let rest = drop base front in
      let tail = drop-append_le base front rec (omega arith) in
      let at : base + length rest ≡ z.offset + length dir =
        omega (arith, place, length-drop base front) in
      let found =
        find_eocd_at-last base rest rec (eocd_of z) refl refl
          (plausible-end_record (length z.entries) (length dir) z.offset (base + length rest) short
            low (omega arith))
          (read_eocd-end_record (length z.entries) (length dir) z.offset few short low) in
      let there : drop z.offset (front ++ rec) ≡ dir ++ rec =
        ap (drop z.offset) (append_assoc z.out dir rec)
        ∙ drop-append_at z.offset z.out (dir ++ rec) counted in
      let block : take (length dir) (drop z.offset (front ++ rec)) ≡ dir =
        ap (take (length dir)) there ∙ take-append_at (length dir) dir rec refl in
      (
        behind (behind z dir) rec,
        finish_zip-behind z h few short low,
        ap (λ t. find_eocd_at t base) tail ∙ found ∙ ap (λ (t : ℕ). done (t, eocd_of z)) at,
        ap (parse_entries (length z.entries)) (block ∙ sym (append-nil dir))
            ∙ parse_entries-directory z.entries [] h,
      )
