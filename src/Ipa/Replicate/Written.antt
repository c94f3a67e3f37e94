-- ===== src/Ipa/Replicate/Written.antt =====
-- When the replicated package is filled.
use perun.Base.{
  ℕ, ◌≡◌, refl, ap, Option, some, List, [], ◌∷◌, ◌++◌, length, length-take, take, drop, All, Bytes,
  arith,
}
use perun.Ipa.Zip.{CentralEntry, done}
use perun.Ipa.Zip.Package.Reads.{ReadsFile}
use perun.Ipa.Zip.Writer.{ZipWriter, new_writer}
use perun.Ipa.Zip.Writer.Additions.{Appends, ReadsAtMost}
use perun.Ipa.Zip.Writer.Placed.{IsSound}
use perun.Ipa.Replicate.Names.{names, firsts, fill_package-names}
use perun.Ipa.Replicate.Filled.{
  Pairwise, IsCopied, IsStored, Grows, Grows-none, Grows-trans, IsCopied-Grows, AreCopied-Grows,
  IsStored-Grows,
}
use perun.Ipa.Replicate.Entry.{IsCopyable, HasName, copy_raw_from_file-done, add_stored-done}
use perun.Ipa.Replicate.{copy_all, add_all, fill_package}

module _ (write_all : Bytes → Bytes → Option Bytes)
    (works : (out w : Bytes) → write_all out w ≡ some (out ++ w)) (read : ℕ → ℕ → Option Bytes)
    (file : Bytes) (reads : ReadsFile read file) where
  copy_all-done :
      (es : List CentralEntry) (z : ZipWriter)
      → length z.out ≡ z.offset
      → All (IsCopyable file) es
      → (z' : ZipWriter) × (es' : List CentralEntry) × (copy_all write_all read (length file) z es
          ≡ done z')
        × Grows z z' es'
        × Pairwise (IsCopied file z'.out) es es'
  unfolding copy_all
  copy_all-done [] z counted h = (z, [], refl, Grows-none z counted, tt)
  copy_all-done (e ∷ es) z counted h =
      let (z1, e', first, g1, c1) =
        copy_raw_from_file-done write_all works read file reads z e counted h.0 in
      let (z', es', later, g, cs) = copy_all-done es z1 g1.counted h.1 in
      (
        z',
        e' ∷ es',
        rw (copy_all, first) later,
        Grows-trans g1 g,
        (IsCopied-Grows file e e' g c1, cs),
      )

  add_all-done :
      (date time : ℕ) (added : List (Bytes × Bytes)) (z : ZipWriter)
      → length z.out ≡ z.offset
      → All HasName added
      → (z' : ZipWriter) × (es' : List CentralEntry) × (add_all write_all date time z added
          ≡ done z')
        × Grows z z' es'
        × Pairwise (IsStored date time z'.out) added es'
  unfolding add_all
  add_all-done date time [] z counted h = (z, [], refl, Grows-none z counted, tt)
  add_all-done date time (a ∷ added) z counted h =
      let (z1, e', first, g1, c1) = add_stored-done write_all works date time a z counted h.0 in
      let (z', es', later, g, cs) = add_all-done date time added z1 g1.counted h.1 in
      (
        z',
        e' ∷ es',
        rw (add_all, first) later,
        Grows-trans g1 g,
        (IsStored-Grows date time a e' g c1, cs),
      )

  appends : Appends write_all
  appends out w out' e = let told = works out w in cc

  at_most : ReadsAtMost read
  at_most off want got e =
      let (n, le, told, more) = reads off want in
      let same : got ≡ take n (drop off file) = cc in
      omega (arith, ap length same, le, length-take n (drop off file))

  -- Into a sink that takes every write, and however the system cuts its reads, a package is filled
  -- whenever each source entry lies in the source behind a local header of at most 48 KiB and each
  -- added name is shorter than 64 KiB. It then has a copy of each entry of the source and, behind
  -- these, a stored entry for each name and content added, in their order and nothing else. A copy
  -- has the rebuilt header, the source's payload and the data descriptor of a streamed entry in the
  -- package, and an executable's payload starts on a 16 KiB boundary; a stored entry has its own
  -- header and the content under that name. Each record has the offset of that header, which leads to
  -- the payload.
  pub fill_package-done :
      (es : List CentralEntry) (added : List (Bytes × Bytes)) (date time : ℕ)
      → All (IsCopyable file) es
      → All HasName added
      → (z' : ZipWriter) × (copies : List CentralEntry) × (stored : List CentralEntry)
        × (fill_package write_all read (length file) es added date time ≡ done z')
        × (z'.entries ≡ copies ++ stored)
        × Pairwise (IsCopied file z'.out) es copies
        × Pairwise (IsStored date time z'.out) added stored
        × (names z'.entries ≡ names es ++ firsts added)
        × IsSound z'
  unfolding fill_package
  fill_package-done es added date time h k =
      let (z1, copies, first, g1, cs) = copy_all-done es new_writer refl h in
      let (z', stored, later, g, ss) = add_all-done date time added z1 g1.counted k in
      let filled : fill_package write_all read (length file) es added date time ≡ done z' =
        rw (fill_package, first) later in
      let (named, sound) =
        fill_package-names write_all appends read at_most (length file) es added date time z'
          filled in
      (
        z',
        copies,
        stored,
        filled,
        (Grows-trans g1 g).entries_are,
        AreCopied-Grows file es copies g cs,
        ss,
        named,
        sound,
      )
