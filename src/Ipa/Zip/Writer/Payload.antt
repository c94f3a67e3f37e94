-- ===== src/Ipa/Zip/Writer/Payload.antt =====
-- A copied entry: its payload stands in the package as it stood in the source, and that of an
-- executable on a 16 KiB boundary.
use perun.Base.{
  ℕ, ◌+◌, ◌-◌, ◌%◌, ◌≤◌, ◌≡◌, ◌⊎◌, inl, inr, refl, sym, ap, ◌∙◌, Bool, true, false, Option, some,
  List, [], ◌∷◌, ◌++◌, append_assoc, append-nil, length, length-append, length-take, length-drop,
  take, drop, take-append_at, drop-append_at, drop-at, Bytes, ltb, ge→ltb, if◌then◌else◌, arith,
}
use perun.Ipa.Names.{is_executable_macho}
use perun.Ipa.Zip.{CentralEntry, done, ◌>>=◌, get_range}
use perun.Ipa.Zip.Package.{local_span}
use perun.Ipa.Zip.Writer.{ZipWriter}
use perun.Ipa.Zip.Writer.Copies.{local_span-start}
use perun.Ipa.Zip.Writer.Entries.{
  framed_flags, sizes64, build_local_header, descriptor, write_descriptor, record_entry, copy_raw,
}
use perun.Ipa.Zip.Writer.Reread.{behind, raw-behind}
use perun.Ipa.Zip.Writer.Headers.{
  IsHeader, length-IsHeader, local_span-IsHeader, build_local_header-IsHeader,
}

-- What follows the payload of an entry.
abbrev pub trailer : CentralEntry → Bool → Bytes
trailer e streaming = if streaming then descriptor e (sizes64 e) else []

-- What is recorded of a copied entry.
abbrev pub copied_entry : CentralEntry → Bool → ℕ → CentralEntry
copied_entry e streaming offset = record e {
  flags = framed_flags e streaming;
  local_offset = offset;
}

-- The entry `e` is copied behind what was written: its header, its payload and what follows it.
pub record IsCopy (z z' : ZipWriter) (e : CentralEntry) (head body : Bytes) (streaming : Bool)
    : Type 0 where
  pub out_is : z'.out ≡ z.out ++ (head ++ (body ++ trailer e streaming))
  pub there : drop z.offset z'.out ≡ head ++ (body ++ trailer e streaming)
  pub counted : length z'.out ≡ z'.offset
  pub entries_are : z'.entries ≡ z.entries ++ copied_entry e streaming z.offset ∷ []
  pub span_is :
      local_span z'.out (copied_entry e streaming z.offset)
      ≡ done (z.offset + length head, length body)
  pub aligned : (is_executable_macho e.name ≡ false) ⊎ ((z.offset + length head) % 16384 ≡ 0)

-- Behind some bytes, which may be none, with the same entries.
abbrev IsBehind : ZipWriter → Bytes → ZipWriter → Type 0
IsBehind z d z' =
    (z'.out ≡ z.out ++ d) × (z'.offset ≡ z.offset + length d) × (z'.entries ≡ z.entries)

-- The header and the payload are behind the writer, then what follows them, and the entry is recorded.
IsBehind-IsCopy :
    (z z3 : ZipWriter) (e : CentralEntry) (head body : Bytes) (streaming : Bool)
    (header : IsHeader head)
    → length z.out ≡ z.offset
    → length body ≡ e.compressed_size
    → (is_executable_macho e.name ≡ false)
      ⊎ ((z.offset + 30 + length header.name_bytes + length header.extra) % 16384 ≡ 0)
    → IsBehind (behind (behind z head) body) (trailer e streaming) z3
    → IsCopy z (record_entry z3 e streaming z.offset) e head body streaming
unfolding record_entry
IsBehind-IsCopy z z3 e head body streaming header counted b_size aligned tail =
    let d = trailer e streaming in
    let z' = record_entry z3 e streaming z.offset in
    let e' = copied_entry e streaming z.offset in
    let out_is : z'.out ≡ z.out ++ (head ++ (body ++ d)) =
      tail.0 ∙ append_assoc (z.out ++ head) body d ∙ append_assoc z.out head (body ++ d) in
    let there : drop z.offset z'.out ≡ head ++ (body ++ d) =
      ap (drop z.offset) out_is ∙ drop-append_at z.offset z.out (head ++ (body ++ d)) counted in
    record {
      out_is = out_is;
      there = there;
      counted = omega (
        arith,
        ap length out_is,
        counted,
        tail.1,
        length-append z.out (head ++ (body ++ d)),
        length-append head (body ++ d),
        length-append body d,
      );
      entries_are = ap (λ (es : List CentralEntry). es ++ e' ∷ []) tail.2;
      span_is =
          local_span-IsHeader z'.out (body ++ d) head e' header there
          ∙ ap (λ (m : ℕ). done (z.offset + length head, m)) (sym b_size);
      aligned = elim aligned [
        | inl other ↦ inl other
        | inr boundary ↦ inr (omega (arith, length-IsHeader head header, boundary))
      ];
    }

module _ (write_all : Bytes → Bytes → Option Bytes)
    (works : (out w : Bytes) → write_all out w ≡ some (out ++ w)) where
  write_descriptor-IsBehind :
      (streaming : Bool) (z : ZipWriter) (e : CentralEntry)
      → (z' : ZipWriter) × (write_descriptor write_all streaming z e ≡ done z')
        × IsBehind z (trailer e streaming) z'
  unfolding write_descriptor
  write_descriptor-IsBehind false z e = (z, refl, (sym (append-nil z.out), omega arith, refl))
  write_descriptor-IsBehind true z e =
      let d = descriptor e (sizes64 e) in
      (behind z d, raw-behind write_all works z d, (refl, refl, refl))

  -- An entry whose header is rebuilt is copied.
  pub copy_raw-IsCopy :
      (z : ZipWriter) (src : Bytes) (e : CentralEntry) (start size : ℕ) (head : Bytes)
      (streaming : Bool)
      → length z.out ≡ z.offset
      → local_span src e ≡ done (start, size)
      → start + size ≤ length src
      → build_local_header z.offset (take (start - e.local_offset) (drop e.local_offset src)) e
        ≡ done (head, streaming)
      → (z' : ZipWriter) × (copy_raw write_all z src e ≡ done z')
        × IsCopy z z' e head (take size (drop start src)) streaming
  unfolding copy_raw record_entry
  copy_raw-IsCopy z src e start size head streaming counted found inside built =
      let off = e.local_offset in
      let n = start - off in
      let before = local_span-start src e start size found in
      let h_long : ltb (length src) (off + n) ≡ false =
        ge→ltb (length src) (off + n) (omega (arith, before.0)) in
      let b_long : ltb (length src) (start + size) ≡ false =
        ge→ltb (length src) (start + size) inside in
      let body = take size (drop start src) in
      let b_size : length body ≡ size =
        omega (arith, length-take size (drop start src), length-drop start src) in
      let z1 = behind z head in
      let z2 = behind z1 body in
      let d = trailer e streaming in
      let (z3, described, tail) = write_descriptor-IsBehind streaming z2 e in
      let z' = record_entry z3 e streaming z.offset in
      let copied : copy_raw write_all z src e ≡ done z' =
        rw
          (
            copy_raw,
            ◌>>=◌,
            get_range,
            found,
            h_long,
            built,
            raw-behind write_all works z head,
            b_long,
            raw-behind write_all works z1 body,
            described,
          )
          refl in
      let (header, aligned) =
        build_local_header-IsHeader z.offset (take n (drop off src)) e head streaming built in
      (
        z',
        copied,
        IsBehind-IsCopy z z3 e head body streaming header counted (omega (arith, b_size, before.1))
            aligned tail,
      )

  -- An entry whose header is rebuilt is copied: the writer still counts its bytes, it has one entry
  -- more, whose header in the package leads to a payload that is the source's, and if it is an
  -- executable the payload starts on a 16 KiB boundary.
  pub copy_raw-payload :
      (z : ZipWriter) (src : Bytes) (e : CentralEntry) (start size : ℕ) (built : Bytes × Bool)
      → length z.out ≡ z.offset
      → local_span src e ≡ done (start, size)
      → start + size ≤ length src
      → build_local_header z.offset (take (start - e.local_offset) (drop e.local_offset src)) e
        ≡ done built
      → (z' : ZipWriter) × (e' : CentralEntry) × (start' : ℕ) × (copy_raw write_all z src e
          ≡ done z')
        × (length z'.out ≡ z'.offset)
        × (z'.entries ≡ z.entries ++ e' ∷ [])
        × (local_span z'.out e' ≡ done (start', size))
        × (take size (drop start' z'.out) ≡ take size (drop start src))
        × ((is_executable_macho e.name ≡ false) ⊎ (start' % 16384 ≡ 0))
  copy_raw-payload z src e start size (head, streaming) counted found inside built =
      let body = take size (drop start src) in
      let (z', copied, c) =
        copy_raw-IsCopy z src e start size head streaming counted found inside built in
      let b_size : length body ≡ size =
        omega (arith, length-take size (drop start src), length-drop start src) in
      (
        z',
        copied_entry e streaming z.offset,
        z.offset + length head,
        copied,
        c.counted,
        c.entries_are,
        c.span_is ∙ ap (λ (m : ℕ). done (z.offset + length head, m)) b_size,
        ap (take size) (drop-at z.offset z'.out head (body ++ trailer e streaming) c.there)
            ∙ take-append_at size body (trailer e streaming) b_size,
        c.aligned,
      )
