-- ===== src/Ipa/Replicate/Filled.antt =====
-- What a filled package holds for each entry of the source and for each entry added.
use perun.Base.{
  ℕ, ◌+◌, ◌-◌, ◌%◌, ◌*◌, ◌^◌, ◌≤◌, ◌≡◌, ◌⊎◌, sym, ap, ◌∙◌, subst, false, List, [], ◌∷◌, ◌++◌,
  append_assoc, append-nil, length, length-append, take, drop, Bytes, arith,
}
use perun.Ipa.Crc32.{crc32_ieee}
use perun.Ipa.Names.{is_executable_macho}
use perun.Ipa.Zip.{CentralEntry, done}
use perun.Ipa.Zip.Extra.{zip64_local_extra}
use perun.Ipa.Zip.Package.{local_span}
use perun.Ipa.Zip.Writer.{ZipWriter}
use perun.Ipa.Zip.Writer.Entries.{is_streaming, build_local_header, stored_header}
use perun.Ipa.Zip.Writer.Payload.{trailer, copied_entry}
use perun.Ipa.Zip.Writer.Placed.{local_span-append}
use perun.Ipa.Zip.Writer.Reread.{drop-append_le}

module _ {A B : Type 0} where
  -- Two lists of the same length, related element by element.
  abbrev pub Pairwise : (A → B → Type 0) → List A → List B → Type 0
  Pairwise R [] [] = Unit
  Pairwise R [] (y ∷ ys) = ⊥
  Pairwise R (x ∷ xs) [] = ⊥
  Pairwise R (x ∷ xs) (y ∷ ys) = R x y × Pairwise R xs ys

-- At the entry's offset the package holds these bytes: a header, a payload and what follows it; and the
-- header leads to the payload.
abbrev pub Stands : Bytes → CentralEntry → Bytes → Bytes → Bytes → Type 0
Stands out e head payload after =
    (e.local_offset ≤ length out)
    × (local_span out e ≡ done (e.local_offset + length head, length payload))
    × ((rest : Bytes) × (drop e.local_offset out ≡ head ++ (payload ++ (after ++ rest))))

-- The entry `e'` of the package is a copy of the entry `e` of the source file: its header is the one
-- rebuilt from that of `e`, its payload that of `e`, on a 16 KiB boundary if it is an executable.
abbrev pub IsCopied : Bytes → Bytes → CentralEntry → CentralEntry → Type 0
IsCopied file out e e' =
    (start : ℕ) × (size : ℕ) × (head : Bytes) × (local_span file e ≡ done (start, size))
    × (build_local_header e'.local_offset (take (start - e.local_offset) (drop e.local_offset file))
          e
        ≡ done (head, is_streaming e))
    × (e' ≡ copied_entry e (is_streaming e) e'.local_offset)
    × Stands out e' head (take size (drop start file)) (trailer e (is_streaming e))
    × ((is_executable_macho e.name ≡ false) ⊎ ((e'.local_offset + length head) % 16384 ≡ 0))

-- The entry `e'` of the package is a file of mode 0644 that is stored, not compressed, under the name
-- `a.0`, with the bytes `a.1`.
abbrev pub IsStored : ℕ → ℕ → Bytes → Bytes × Bytes → CentralEntry → Type 0
IsStored date time out a e' =
    let n = length a.1 in
    (e' ≡ record {
      name = a.0;
      method = 0;
      flags = 0;
      crc32 = crc32_ieee a.1;
      compressed_size = n;
      uncompressed_size = n;
      local_offset = e'.local_offset;
      external_attrs = 33188 * 2 ^ 16;
      date = date;
      time = time;
      central_extra = [];
    })
    × Stands out e' (stored_header a.0 (zip64_local_extra n n) date time (crc32_ieee a.1) n) a.1 []

-- More bytes behind the package leave all this as it is.
Stands-append :
    (out w : Bytes) (e : CentralEntry) (head payload after : Bytes)
    → Stands out e head payload after
    → Stands (out ++ w) e head payload after
Stands-append out w e head payload after (le, span, (rest, there)) =
    let off = e.local_offset in
    (
      omega (arith, le, length-append out w),
      local_span-append out w e (off + length head) (length payload) span,
      (
        rest ++ w,
        drop-append_le off out w le
            ∙ ap (λ t. t ++ w) there
            ∙ append_assoc head (payload ++ (after ++ rest)) w
            ∙ ap (λ t. head ++ t)
                (append_assoc payload (after ++ rest) w
                  ∙ ap (λ t. payload ++ t) (append_assoc after rest w)),
      ),
    )

IsCopied-append :
    (file out w : Bytes) (e e' : CentralEntry)
    → IsCopied file out e e'
    → IsCopied file (out ++ w) e e'
IsCopied-append file out w e e' (start, size, head, found, built, same, stands, aligned) = (
  start,
  size,
  head,
  found,
  built,
  same,
  Stands-append out w e' head (take size (drop start file)) (trailer e (is_streaming e)) stands,
  aligned,
)

IsStored-append :
    (date time : ℕ) (out w : Bytes) (a : Bytes × Bytes) (e' : CentralEntry)
    → IsStored date time out a e'
    → IsStored date time (out ++ w) a e'
IsStored-append date time out w a e' (same, stands) =
    let n = length a.1 in
    (
      same,
      Stands-append out w e'
          (stored_header a.0 (zip64_local_extra n n) date time (crc32_ieee a.1) n) a.1 [] stands,
    )

-- The writer counts its bytes and has written something more, and recorded these entries more.
pub record Grows (z z' : ZipWriter) (new : List CentralEntry) : Type 0 where
  pub more : Bytes
  pub out_is : z'.out ≡ z.out ++ more
  pub entries_are : z'.entries ≡ z.entries ++ new
  pub counted : length z'.out ≡ z'.offset

pub Grows-none : (z : ZipWriter) → length z.out ≡ z.offset → Grows z z []
Grows-none z counted = record {
  more = [];
  out_is = sym (append-nil z.out);
  entries_are = sym (append-nil z.entries);
  counted = counted;
}

pub Grows-trans :
    {z z1 z' : ZipWriter} {new new' : List CentralEntry}
    → Grows z z1 new
    → Grows z1 z' new'
    → Grows z z' (new ++ new')
Grows-trans {z} {z1} {z'} {new} {new'} g h = record {
  more = g.more ++ h.more;
  out_is = h.out_is ∙ ap (λ t. t ++ h.more) g.out_is ∙ append_assoc z.out g.more h.more;
  entries_are =
      h.entries_are ∙ ap (λ es. es ++ new') g.entries_are ∙ append_assoc z.entries new new';
  counted = h.counted;
}

pub IsCopied-Grows :
    {z z' : ZipWriter} {new : List CentralEntry} (file : Bytes) (e e' : CentralEntry)
    → Grows z z' new
    → IsCopied file z.out e e'
    → IsCopied file z'.out e e'
IsCopied-Grows {z} {z'} {new} file e e' g c =
    subst (λ out. IsCopied file out e e') (sym g.out_is) (IsCopied-append file z.out g.more e e' c)

pub AreCopied-Grows :
    {z z' : ZipWriter} {new : List CentralEntry} (file : Bytes) (es es' : List CentralEntry)
    → Grows z z' new
    → Pairwise (IsCopied file z.out) es es'
    → Pairwise (IsCopied file z'.out) es es'
AreCopied-Grows file [] [] g c = tt
AreCopied-Grows file [] (e' ∷ es') g c = c
AreCopied-Grows file (e ∷ es) [] g c = c
AreCopied-Grows file (e ∷ es) (e' ∷ es') g c =
    (IsCopied-Grows file e e' g c.0, AreCopied-Grows file es es' g c.1)

pub IsStored-Grows :
    {z z' : ZipWriter} {new : List CentralEntry} (date time : ℕ) (a : Bytes × Bytes)
    (e' : CentralEntry)
    → Grows z z' new
    → IsStored date time z.out a e'
    → IsStored date time z'.out a e'
IsStored-Grows {z} {z'} {new} date time a e' g c =
    subst (λ out. IsStored date time out a e') (sym g.out_is)
      (IsStored-append date time z.out g.more a e' c)
