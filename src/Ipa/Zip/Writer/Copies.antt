-- ===== src/Ipa/Zip/Writer/Copies.antt =====
-- The two ways of copying an entry, from memory and through the file.
use perun.Base.{
  ℕ, ◌+◌, ◌-◌, ◌≤◌, ◌≡◌, inl, inr, refl, sym, ap, false, Option, some, ◌++◌, length, length-take,
  length-drop, take, drop, Bytes, eq_bytes, ltb, ge→ltb, Bool-cases, arith,
}
use perun.Ipa.Zip.{loc_sig, CentralEntry, done, Zipped-cases, ◌>>=◌, u16_at, get_range}
use perun.Ipa.Zip.Package.{span_of, local_span, local_span_file}
use perun.Ipa.Zip.Package.Reads.{ReadsFile, read_at-range, copy_range_to-slice}
use perun.Ipa.Zip.Writer.{ZipWriter}
use perun.Ipa.Zip.Writer.Entries.{
  build_local_header, write_descriptor, record_entry, copy_raw, copy_raw_from_file,
}
use perun.Ipa.Zip.Writer.Reread.{behind, raw-behind}

-- A header that is read lies in the archive, in front of the payload.
pub span_of-start :
    (e : CentralEntry) (h : Bytes) (start size : ℕ)
    → span_of e h ≡ done (start, size)
    → (e.local_offset + 30 ≤ start) × (size ≡ e.compressed_size)
span_of-start e h start size found = elim (Bool-cases (eq_bytes (take 4 h) loc_sig)) [
  | inr bad ↦ cc (rw bad at found)
  | inl good ↦
      let told = rw good at found in
      let place : start ≡ e.local_offset + 30 + u16_at h 26 + u16_at h 28 = cc in
      let same : size ≡ e.compressed_size = cc in (omega (arith, place), same)
]

pub local_span-start :
    (src : Bytes) (e : CentralEntry) (start size : ℕ)
    → local_span src e ≡ done (start, size)
    → (e.local_offset + 30 ≤ start) × (size ≡ e.compressed_size)
unfolding local_span
local_span-start src e start size found =
    elim (Bool-cases (ltb (length src) (e.local_offset + 30))) [
      | inl short ↦ cc (rw (local_span, short) at found)
      | inr long ↦
          span_of-start e (take 30 (drop e.local_offset src)) start size
            (rw (local_span, long) at found)
    ]

module _ (read : ℕ → ℕ → Option Bytes) (file : Bytes) (reads : ReadsFile read file) where
  -- The two readers of a local header agree on every entry.
  local_span_file-local_span :
      (e : CentralEntry) → local_span_file read (length file) e ≡ local_span file e
  unfolding local_span_file local_span
  local_span_file-local_span e = elim (Bool-cases (ltb (length file) (e.local_offset + 30))) [
    | inl short ↦ rw short refl
    | inr long ↦
        let header = read_at-range read file reads e.local_offset 30 (omega arith) in
        rw (long, header, long) refl
  ]

  module _ (write_all : Bytes → Bytes → Option Bytes)
      (works : (out w : Bytes) → write_all out w ≡ some (out ++ w)) where
    -- An entry that lies in the package is copied through the file as it is from memory, errors
    -- of the header included.
    pub copy_raw_from_file-copy_raw :
        (z : ZipWriter) (e : CentralEntry) (start size : ℕ)
        → local_span file e ≡ done (start, size)
        → start + size ≤ length file
        → copy_raw_from_file write_all read (length file) z e ≡ copy_raw write_all z file e
    unfolding copy_raw_from_file copy_raw
    copy_raw_from_file-copy_raw z e start size found inside =
        let off = e.local_offset in
        let n = start - off in
        let before = local_span-start file e start size found in
        let h_fits : off + n ≤ length file = omega (arith, before.0) in
        let header = take n (drop off file) in
        let h_long : ltb (length file) (off + n) ≡ false = ge→ltb (length file) (off + n) h_fits in
        let h_read = read_at-range read file reads off n (omega (arith, before.0)) in
        let body = take size (drop start file) in
        let b_long : ltb (length file) (start + size) ≡ false =
          ge→ltb (length file) (start + size) inside in
        let b_size : length body ≡ size =
          omega (arith, length-take size (drop start file), length-drop start file) in
        elim (Zipped-cases (build_local_header z.offset header e)) [
          | inl (err, bad) ↦
              rw
                (
                  copy_raw_from_file,
                  copy_raw,
                  ◌>>=◌,
                  get_range,
                  local_span_file-local_span e,
                  found,
                  h_read,
                  h_long,
                  bad,
                )
                refl
          | inr ((head, streaming), good) ↦
              let z1 = behind z head in
              let b_read =
                copy_range_to-slice read file reads write_all works start size z1.out inside in
              let counted =
                ap (λ (n : ℕ). record z1 { out = z1.out ++ body; offset = z1.offset + n }) b_size in
              rw
                (
                  copy_raw_from_file,
                  copy_raw,
                  ◌>>=◌,
                  get_range,
                  local_span_file-local_span e,
                  found,
                  h_read,
                  h_long,
                  good,
                  raw-behind write_all works z head,
                  b_read,
                  b_long,
                  raw-behind write_all works z1 body,
                )
                (ap
                  (λ (t : ZipWriter). write_descriptor write_all streaming t e >>= λ z3.
                    done (record_entry z3 e streaming z.offset))
                  (sym counted))
        ]
