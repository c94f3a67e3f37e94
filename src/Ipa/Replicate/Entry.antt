-- ===== src/Ipa/Replicate/Entry.antt =====
-- One entry more in the replicated package: when it is copied, or stored, and what it then is.
use perun.Base.{
  ℕ, ◌+◌, ◌-◌, ◌^◌, ◌≤◌, ◌<◌, ◌≡◌, refl, ap, ◌∙◌, false, Option, some, [], ◌∷◌, ◌++◌, append_assoc,
  append-nil, drop-append_at, sym, length, length-append, length-take, length-drop, take, drop,
  Bytes, ltb, ge→ltb, arith,
}
use perun.Ipa.Crc32.{crc32_ieee}
use perun.Ipa.Zip.{CentralEntry, done}
use perun.Ipa.Zip.Extra.{zip64_local_extra}
use perun.Ipa.Zip.Package.{local_span}
use perun.Ipa.Zip.Package.Reads.{ReadsFile}
use perun.Ipa.Zip.Writer.{ZipWriter}
use perun.Ipa.Zip.Writer.Copies.{local_span-start, copy_raw_from_file-copy_raw}
use perun.Ipa.Zip.Writer.Entries.{
  is_streaming, stored_header, stored_entry, copy_raw_from_file, add_stored,
}
use perun.Ipa.Zip.Writer.Payload.{trailer, copied_entry, copy_raw-IsCopy}
use perun.Ipa.Zip.Writer.Reread.{behind, raw-behind}
use perun.Ipa.Zip.Writer.Headers.{local_span-IsHeader}
use perun.Ipa.Zip.Writer.Steps.{stored_header-IsHeader}
use perun.Ipa.Zip.Writer.Sizes.{length-zip64_local_extra, build_local_header-done}
use perun.Ipa.Replicate.Filled.{Stands, IsCopied, IsStored, Grows}

-- An entry that lies in the package, behind a local header of at most 48 KiB.
abbrev pub IsCopyable : Bytes → CentralEntry → Type 0
IsCopyable file e =
    (start : ℕ) × (size : ℕ) × (local_span file e ≡ done (start, size))
    × (start + size ≤ length file)
    × (start ≤ e.local_offset + 49152)

abbrev pub HasName : Bytes × Bytes → Type 0
HasName a = length a.0 < 2 ^ 16

module _ (write_all : Bytes → Bytes → Option Bytes)
    (works : (out w : Bytes) → write_all out w ≡ some (out ++ w)) where
  pub add_stored-done :
      (date time : ℕ) (a : Bytes × Bytes) (z : ZipWriter)
      → length z.out ≡ z.offset
      → HasName a
      → (z' : ZipWriter) × (e' : CentralEntry) × (add_stored write_all z a.0 a.1 date time
          ≡ done z')
        × Grows z z' (e' ∷ [])
        × IsStored date time z'.out a e'
  unfolding add_stored
  add_stored-done date time (name, data') z counted h =
      let size = length data' in
      let extra = zip64_local_extra size size in
      let named : ltb 0xffff (length name) ≡ false = ground (arith, h) in
      let short : ltb 0xffff (length extra) ≡ false =
        ge→ltb 0xffff (length extra) (omega (arith, length-zip64_local_extra size size)) in
      let head = stored_header name extra date time (crc32_ieee data') size in
      let z1 = behind z head in
      let z2 = behind z1 data' in
      let e' = stored_entry name data' date time z.offset in
      let z3 : ZipWriter = record z2 { entries = z2.entries ++ e' ∷ [] } in
      let out_is : z3.out ≡ z.out ++ (head ++ data') = append_assoc z.out head data' in
      let lens = length-append z.out (head ++ data') in
      let there : drop z.offset z3.out ≡ head ++ (data' ++ []) =
        ap (drop z.offset) out_is
        ∙ drop-append_at z.offset z.out (head ++ data') counted
        ∙ ap (λ t. head ++ t) (sym (append-nil data')) in
      let header =
        stored_header-IsHeader name extra date time (crc32_ieee data') size named short in
      (
        z3,
        e',
        rw
            (
              add_stored,
              named,
              short,
              raw-behind write_all works z head,
              raw-behind write_all works z1 data',
            )
            refl,
        record {
          more = head ++ data';
          out_is = out_is;
          entries_are = refl;
          counted = omega (arith, counted, ap length out_is, lens, length-append head data');
        },
        (
          refl,
          (
            omega (arith, counted, ap length out_is, lens),
            local_span-IsHeader z3.out (data' ++ []) head e' header there,
            ([], there),
          ),
        ),
      )

  module _ (read : ℕ → ℕ → Option Bytes) (file : Bytes) (reads : ReadsFile read file) where
    pub copy_raw_from_file-done :
        (z : ZipWriter) (e : CentralEntry)
        → length z.out ≡ z.offset
        → IsCopyable file e
        → (z' : ZipWriter) × (e' : CentralEntry) × (copy_raw_from_file write_all read
              (length file)
              z
              e
            ≡ done z')
          × Grows z z' (e' ∷ [])
          × IsCopied file z'.out e e'
    copy_raw_from_file-done z e counted (start, size, found, inside, near) =
        let n = start - e.local_offset in
        let header = take n (drop e.local_offset file) in
        let before = local_span-start file e start size found in
        let sizes : length header ≡ n = omega (
          arith,
          before.0,
          inside,
          length-take n (drop e.local_offset file),
          length-drop e.local_offset file,
        ) in
        let s = is_streaming e in
        let (head, built) =
          build_local_header-done z.offset header e (omega (arith, sizes, before.0))
            (omega (arith, sizes, near)) in
        let (z', copied, c) =
          copy_raw-IsCopy write_all works z file e start size head s counted found inside built in
        let same =
          copy_raw_from_file-copy_raw read file reads write_all works z e start size found inside in
        let body = take size (drop start file) in
        let there = c.there ∙ ap (λ t. head ++ (body ++ t)) (sym (append-nil (trailer e s))) in
        let grown : Grows z z' (copied_entry e s z.offset ∷ []) = record {
          more = head ++ (body ++ trailer e s);
          out_is = c.out_is;
          entries_are = c.entries_are;
          counted = c.counted;
        } in
        let le : z.offset ≤ length z'.out =
          omega (arith, counted, ap length c.out_is, length-append z.out grown.more) in
        let stands : Stands z'.out (copied_entry e s z.offset) head body (trailer e s) =
          (le, c.span_is, ([], there)) in
        (
          z',
          copied_entry e s z.offset,
          same ∙ copied,
          grown,
          (start, size, head, found, built, refl, stands, c.aligned),
        )
