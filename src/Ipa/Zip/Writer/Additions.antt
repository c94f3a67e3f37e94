-- ===== src/Ipa/Zip/Writer/Additions.antt =====
-- What a copy adds to a package, over any sink and any source.
use perun.Base.{
  ℕ, zero, suc, ◌+◌, ◌-◌, ◌≤◌, min, ◌≡◌, inl, inr, refl, sym, ap, ◌∙◌, Bool, true, false, Option,
  some, List, [], ◌∷◌, ◌++◌, append_assoc, append-nil, length, length-append, Bytes, ltb,
  Bool-cases, Option-cases, arith,
}
use perun.Ipa.Zip.{CentralEntry, Zipped, done, bind_done, ◌>>=◌}
use perun.Ipa.Zip.Package.{copy_buffer, read_at, span_of, local_span_file, copy_loop, copy_range_to}
use perun.Ipa.Zip.Writer.{ZipWriter, raw}
use perun.Ipa.Zip.Writer.Copies.{span_of-start}
use perun.Ipa.Zip.Writer.Entries.{
  framed_flags, sizes64, descriptor, build_local_header, write_descriptor, record_entry,
  copy_raw_from_file,
}
use perun.Ipa.Zip.Writer.Headers.{IsHeader, build_local_header-IsHeader}
use perun.Ipa.Zip.Writer.Placed.{IsAdded}
use perun.Ipa.Zip.Writer.Reread.{behind}

-- A sink that takes the bytes of a write that succeeds, and reads that give no more than was asked.
abbrev pub Appends : (Bytes → Bytes → Option Bytes) → Type 0
Appends write_all = (out w out' : Bytes) → write_all out w ≡ some out' → out' ≡ out ++ w

abbrev pub ReadsAtMost : (ℕ → ℕ → Option Bytes) → Type 0
ReadsAtMost read = (off want : ℕ) (got : Bytes) → read off want ≡ some got → length got ≤ want

module _ (write_all : Bytes → Bytes → Option Bytes) (appends : Appends write_all) where
  pub raw_done : (z z' : ZipWriter) (w : Bytes) → raw write_all z w ≡ done z' → z' ≡ behind z w
  unfolding raw
  raw_done z z' w h = elim (Option-cases (write_all z.out w)) [
    | inl bad ↦ cc (rw (raw, bad) at h)
    | inr (o, e) ↦
        let told = rw (raw, e) at h in
        let same = appends z.out w o e in let out_is : z'.out ≡ z.out ++ w = cc in cc
  ]

  -- What a step leaves: the bytes `d` behind, and the entries as they were.
  abbrev Leaves : ZipWriter → Bytes → ZipWriter → Type 0
  Leaves z d z' =
      (z'.out ≡ z.out ++ d) × (z'.offset ≡ z.offset + length d) × (z'.entries ≡ z.entries)

  write_descriptor_done :
      (streaming : Bool) (z z' : ZipWriter) (e : CentralEntry)
      → write_descriptor write_all streaming z e ≡ done z'
      → (d : Bytes) × Leaves z d z'
  unfolding write_descriptor
  write_descriptor_done false z z' e h =
      let same : z ≡ z' = cc in
      (
        [],
        (
          ap (λ (t : ZipWriter). t.out) (sym same) ∙ sym (append-nil z.out),
          omega (arith, ap (λ (t : ZipWriter). t.offset) same),
          ap (λ (t : ZipWriter). t.entries) (sym same),
        ),
      )
  write_descriptor_done true z z' e h =
      let d = descriptor e (sizes64 e) in
      let same = raw_done z z' d h in
      (
        d,
        (
          ap (λ (t : ZipWriter). t.out) same,
          ap (λ (t : ZipWriter). t.offset) same,
          ap (λ (t : ZipWriter). t.entries) same,
        ),
      )

  module _ (read : ℕ → ℕ → Option Bytes) (at_most : ReadsAtMost read) where
    copy_loop_done :
        (n off left : ℕ) (out out' : Bytes)
        → copy_loop read write_all n off left out ≡ done out'
        → (c : Bytes) × (out' ≡ out ++ c) × (length c ≡ left)
    unfolding copy_loop
    copy_loop_done n off zero out out' h =
        let same : out' ≡ out = cc in ([], same ∙ sym (append-nil out), refl)
    copy_loop_done zero off (suc l) out out' h = cc
    copy_loop_done (suc n) off (suc l) out out' h =
        elim (Option-cases (read off (min (suc l) copy_buffer))) [
          | inl bad ↦ cc (rw (copy_loop, bad) at h)
          | inr ([], e) ↦ cc (rw (copy_loop, e) at h)
          | inr (b ∷ bs, e) ↦ elim (Option-cases (write_all out (b ∷ bs))) [
            | inl bad ↦ cc (rw (copy_loop, e, bad) at h)
            | inr (o, written) ↦
                let size = at_most off (min (suc l) copy_buffer) (b ∷ bs) e in
                let (c, same, rest) =
                  copy_loop_done n (off + length (b ∷ bs)) (suc l - length (b ∷ bs)) o out'
                    (rw (copy_loop, e, written) at h) in
                (
                  (b ∷ bs) ++ c,
                  same
                      ∙ ap (λ t. t ++ c) (appends out (b ∷ bs) o written)
                      ∙ append_assoc out (b ∷ bs) c,
                  omega (arith, rest, size, length-append (b ∷ bs) c),
                )
          ]
        ]

    local_span_file_done :
        (len : ℕ) (e : CentralEntry) (start size : ℕ)
        → local_span_file read len e ≡ done (start, size)
        → size ≡ e.compressed_size
    unfolding local_span_file
    local_span_file_done len e start size h = elim (Bool-cases (ltb len (e.local_offset + 30))) [
      | inl short ↦ cc (rw (local_span_file, short) at h)
      | inr long ↦
          let (b, got, told) =
            bind_done (read_at read e.local_offset 30) (span_of e) (start, size)
              (rw (local_span_file, long) at h) in
          (span_of-start e b start size told).1
    ]

    -- What is done behind the span, and behind the header.
    abbrev written_body :
        ZipWriter → CentralEntry → ℕ × ℕ → Bytes × Bool → ZipWriter → Zipped ZipWriter
    written_body z e span built z1 = copy_range_to read write_all span.0 span.1 z1.out >>= λ out'.
        write_descriptor write_all built.1 (record z1 { out = out'; offset = z1.offset + span.1 }) e
        >>= λ z3. done (record_entry z3 e built.1 z.offset)

    abbrev written_entry : ZipWriter → CentralEntry → ℕ × ℕ → Bytes × Bool → Zipped ZipWriter
    written_entry z e span built = raw write_all z built.0 >>= written_body z e span built

    written_entry-IsAdded :
        (z z' : ZipWriter) (e : CentralEntry) (span : ℕ × ℕ) (built : Bytes × Bool)
        → IsHeader built.0
        → span.1 ≡ e.compressed_size
        → written_entry z e span built ≡ done z'
        → IsAdded z z' e.name
    unfolding record_entry copy_range_to
    written_entry-IsAdded z z' e span built header size h =
        let (z1, first, h1) =
          bind_done (raw write_all z built.0) (written_body z e span built) z' h in
        let (out', copied, h2) =
          bind_done (copy_range_to read write_all span.0 span.1 z1.out)
            (λ out'.
              write_descriptor write_all built.1
                (record z1 { out = out'; offset = z1.offset + span.1 }) e
              >>= λ z3. done (record_entry z3 e built.1 z.offset))
            z' h1 in
        let z2 : ZipWriter = record z1 { out = out'; offset = z1.offset + span.1 } in
        let (z3, described, h3) =
          bind_done (write_descriptor write_all built.1 z2 e)
            (λ z3. done (record_entry z3 e built.1 z.offset)) z' h2 in
        let (d, tail) = write_descriptor_done built.1 z2 z3 e described in
        let (body, body_is, body_size) = copy_loop_done span.1 span.0 span.1 z1.out out' copied in
        let same = raw_done z z1 built.0 first in
        let last : z' ≡ record_entry z3 e built.1 z.offset = cc in
        let e' : CentralEntry = record e {
          flags = framed_flags e built.1;
          local_offset = z.offset;
        } in
        record {
          entry = e';
          named = refl;
          head = built.0;
          body = body;
          rest = d;
          header = header;
          out_is =
              ap (λ (t : ZipWriter). t.out) last
              ∙ tail.0
              ∙ ap (λ t. t ++ d) (body_is ∙ ap (λ (t : ZipWriter). t.out ++ body) same)
              ∙ append_assoc (z.out ++ built.0) body d
              ∙ append_assoc z.out built.0 (body ++ d);
          offset_is = omega (
            arith,
            ap (λ (t : ZipWriter). t.offset) last,
            tail.1,
            ap (λ (t : ZipWriter). t.offset) same,
            body_size,
            length-append built.0 (body ++ d),
            length-append body d,
          );
          entries_are =
              ap (λ (t : ZipWriter). t.entries) last
              ∙ ap (λ (es : List CentralEntry). es ++ e' ∷ [])
                  (tail.2 ∙ ap (λ (t : ZipWriter). t.entries) same);
          entry_at = refl;
          body_size = body_size ∙ size;
        }

    pub copy_raw_from_file-IsAdded :
        (len : ℕ) (z z' : ZipWriter) (e : CentralEntry)
        → copy_raw_from_file write_all read len z e ≡ done z'
        → IsAdded z z' e.name
    unfolding copy_raw_from_file
    copy_raw_from_file-IsAdded len z z' e h =
        let (span, found, h1) =
          bind_done (local_span_file read len e)
            (λ span. read_at read e.local_offset (span.0 - e.local_offset) >>= λ src_header.
              build_local_header z.offset src_header e >>= λ built. written_entry z e span built)
            z' h in
        let (src_header, got, h2) =
          bind_done (read_at read e.local_offset (span.0 - e.local_offset))
            (λ src_header.
              build_local_header z.offset src_header e >>= λ built. written_entry z e span built)
            z' h1 in
        let (built, header, h3) =
          bind_done (build_local_header z.offset src_header e) (written_entry z e span) z' h2 in
        written_entry-IsAdded z z' e span built
          (build_local_header-IsHeader z.offset src_header e built.0 built.1 header).0
          (local_span_file_done len e span.0 span.1 found) h3
