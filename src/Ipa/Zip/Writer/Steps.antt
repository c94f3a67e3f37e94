-- ===== src/Ipa/Zip/Writer/Steps.antt =====
-- The packages that the writer can be led to, over any sink and any source.
use perun.Base.{
  ℕ, ◌≡◌, inl, inr, refl, sym, ap, ◌∙◌, false, Option, [], ◌∷◌, ◌++◌, append_assoc, append-nil,
  length, length-append, drop, Bytes, ltb, Bool-cases, arith,
}
use perun.Ipa.Crc32.{crc32_ieee}
use perun.Ipa.Zip.{CentralEntry, Zipped, done, bind_done, ◌>>=◌}
use perun.Ipa.Zip.Extra.{zip64_local_extra}
use perun.Ipa.Zip.Writer.{ZipWriter, new_writer, raw}
use perun.Ipa.Zip.Writer.Entries.{
  copy_raw_from_file, stored_front, stored_header, stored_entry, add_stored,
}
use perun.Ipa.Zip.Writer.Headers.{IsHeader}
use perun.Ipa.Zip.Writer.Placed.{IsSound, IsAdded, IsAdded-IsSound}
use perun.Ipa.Zip.Writer.Reread.{behind}
use perun.Ipa.Zip.Writer.Additions.{Appends, ReadsAtMost, raw_done, copy_raw_from_file-IsAdded}

-- The header of a stored entry.
pub stored_header-IsHeader :
    (name extra : Bytes) (date time crc size : ℕ)
    → ltb 0xffff (length name) ≡ false
    → ltb 0xffff (length extra) ≡ false
    → IsHeader (stored_header name extra date time crc size)
stored_header-IsHeader name extra date time crc size named extended = record {
  front = stored_front date time crc size;
  name_bytes = name;
  extra = extra;
  whole = refl;
  after_sig = drop 4 (stored_front date time crc size);
  signed = refl;
  front_size = refl;
  name_fits = ground (arith, named);
  extra_fits = ground (arith, extended);
}

module _ (write_all : Bytes → Bytes → Option Bytes) (appends : Appends write_all) where
  -- A header and a payload, written one behind the other.
  two_writes-IsAdded :
      (z z1 z2 z' : ZipWriter) (e : CentralEntry) (head body : Bytes)
      → IsHeader head
      → e.local_offset ≡ z.offset
      → length body ≡ e.compressed_size
      → raw write_all z head ≡ done z1
      → raw write_all z1 body ≡ done z2
      → z' ≡ record z2 { entries = z2.entries ++ e ∷ [] }
      → IsAdded z z' e.name
  two_writes-IsAdded z z1 z2 z' e head body header place size first second last =
      let same1 = raw_done write_all appends z z1 head first in
      let same2 = raw_done write_all appends z1 z2 body second in
      let nothing = append-nil body in
      record {
        entry = e;
        named = refl;
        head = head;
        body = body;
        rest = [];
        header = header;
        out_is =
            ap (λ (t : ZipWriter). t.out)
              (last ∙ ap (λ (t : ZipWriter). record t { entries = t.entries ++ e ∷ [] }) same2)
            ∙ ap (λ (t : ZipWriter). t.out ++ body) same1
            ∙ append_assoc z.out head body
            ∙ ap (λ t. z.out ++ (head ++ t)) (sym nothing);
        offset_is = omega (
          arith,
          ap (λ (t : ZipWriter). t.offset) last,
          ap (λ (t : ZipWriter). t.offset) same2,
          ap (λ (t : ZipWriter). t.offset) same1,
          ap length nothing,
          length-append head (body ++ []),
        );
        entries_are =
            ap (λ (t : ZipWriter). t.entries) last
            ∙ ap (λ (t : ZipWriter). t.entries ++ e ∷ [])
                (same2 ∙ ap (λ (t : ZipWriter). behind t body) same1);
        entry_at = place;
        body_size = size;
      }

  pub add_stored-IsAdded :
      (z z' : ZipWriter) (name data' : Bytes) (date time : ℕ)
      → add_stored write_all z name data' date time ≡ done z'
      → IsAdded z z' name
  unfolding add_stored
  add_stored-IsAdded z z' name data' date time h =
      let size = length data' in
      let extra = zip64_local_extra size size in
      let head = stored_header name extra date time (crc32_ieee data') size in
      let e' = stored_entry name data' date time z.offset in
      let finished : ZipWriter → Zipped ZipWriter =
        λ z2. done (record z2 { entries = z2.entries ++ e' ∷ [] }) in
      elim (Bool-cases (ltb 0xffff (length name))) [
        | inl long ↦ cc (rw (add_stored, long) at h)
        | inr named ↦ elim (Bool-cases (ltb 0xffff (length extra))) [
          | inl long ↦ cc (rw (add_stored, named, long) at h)
          | inr extended ↦
              let (z1, first, h1) =
                bind_done (raw write_all z head) (λ z1. raw write_all z1 data' >>= finished) z'
                  (rw (add_stored, named, extended) at h) in
              let (z2, second, h2) = bind_done (raw write_all z1 data') finished z' h1 in
              two_writes-IsAdded z z1 z2 z' e' head data'
                (stored_header-IsHeader name extra date time (crc32_ieee data') size named extended)
                refl refl first second cc
        ]
      ]

  -- The writers that copying and adding lead to from an empty package, whatever the source gives.
  pub data Reached : ZipWriter → Type 0 where
    nothing_yet : Reached new_writer
    copied :
        {z z' : ZipWriter} (read : ℕ → ℕ → Option Bytes) (len : ℕ) (e : CentralEntry)
        → Reached z
        → ReadsAtMost read
        → copy_raw_from_file write_all read len z e ≡ done z'
        → Reached z'
    added :
        {z z' : ZipWriter} (name data' : Bytes) (date time : ℕ)
        → Reached z
        → add_stored write_all z name data' date time ≡ done z'
        → Reached z'

  -- However entries are copied and added, the writer's offset is the length of what it wrote, and
  -- each of its entries has its local header at its offset, which leads to a payload of its
  -- compressed size that ends inside the package.
  pub Reached-IsSound : {z : ZipWriter} → Reached z → IsSound z
  Reached-IsSound nothing_yet = (refl, tt)
  Reached-IsSound (copied {z} {z'} read len e r at_most h) =
      IsAdded-IsSound (Reached-IsSound r)
        (copy_raw_from_file-IsAdded write_all appends read at_most len z z' e h)
  Reached-IsSound (added {z} {z'} name data' date time r h) =
      IsAdded-IsSound (Reached-IsSound r) (add_stored-IsAdded z z' name data' date time h)
