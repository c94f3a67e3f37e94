-- ===== src/Ipa/Zip/Writer/Headers.antt =====
-- The local header that is rebuilt for an entry, and where it leads.
use perun.Base.{
  ℕ, ◌+◌, ◌%◌, ◌≤◌, ◌<◌, ◌^◌, ◌≡◌, ◌⊎◌, inl, inr, refl, sym, ap, ◌∙◌, Bool, true, false, [], ◌++◌,
  append_assoc, length, length-append, length-take, length-drop, take, drop, take-append_at,
  drop-append_at, drop-at, Bytes, from_le, eq_bytes, ltb, ltb→ge, ge→ltb, Bool-cases, if◌then◌else◌,
  arith,
}
use perun.Ipa.Names.{is_executable_macho}
use perun.Ipa.Zip.{loc_sig, CentralEntry, done, u16_at, le16, from_le-le16}
use perun.Ipa.Zip.Extra.{strip_zip64_extra, zip64_local_extra}
use perun.Ipa.Zip.Extra.Aligned.{align_payload_extra-IsAligned}
use perun.Ipa.Zip.Package.{local_span}
use perun.Ipa.Zip.Writer.Entries.{
  is_streaming, sizes64, header_sizes, header_front, local_extra, build_local_header,
}

length-header_sizes : (e : CentralEntry) (streaming : Bool) → length (header_sizes e streaming) ≡ 12
length-header_sizes e true = refl
length-header_sizes e false = elim (Bool-cases (sizes64 e)) [
  | inl large ↦ rw large refl
  | inr small ↦ rw small refl
]

length-header_front :
    (h : Bytes) (e : CentralEntry) (streaming : Bool)
    → 30 ≤ length h
    → length (header_front h e streaming) ≡ 26
length-header_front h e streaming long =
    let stamp = take 4 (drop 12 h) in
    omega (
      arith,
      length-header_sizes e streaming,
      length-append stamp (header_sizes e streaming),
      length-take 4 (drop 12 h),
      length-drop 12 h,
    )

-- The header that is built and what it says of itself.
pub record IsHeader (head : Bytes) : Type 0 where
  pub front : Bytes
  pub name_bytes : Bytes
  pub extra : Bytes
  pub whole :
      head ≡ front ++ (le16 (length name_bytes) ++ le16 (length extra) ++ (name_bytes ++ extra))
  pub after_sig : Bytes
  pub signed : front ≡ loc_sig ++ after_sig
  pub front_size : length front ≡ 26
  pub name_fits : length name_bytes < 2 ^ 16
  pub extra_fits : length extra < 2 ^ 16

local_extra-aligned :
    (offset : ℕ) (src_extra : Bytes) (e : CentralEntry) (streaming : Bool) (name_len : ℕ)
    → is_executable_macho e.name ≡ true
    → (offset + 30 + name_len + length (local_extra offset src_extra e streaming name_len)) % 16384
      ≡ 0
unfolding local_extra
local_extra-aligned offset src_extra e streaming name_len h =
    let sized =
      if streaming
      then strip_zip64_extra src_extra
      else strip_zip64_extra src_extra ++ zip64_local_extra e.uncompressed_size e.compressed_size in
    rw (local_extra, h) (align_payload_extra-IsAligned sized offset name_len).0

pub build_local_header-IsHeader :
    (offset : ℕ) (h : Bytes) (e : CentralEntry) (head : Bytes) (streaming : Bool)
    → build_local_header offset h e ≡ done (head, streaming)
    → (h' : IsHeader head) × ((is_executable_macho e.name ≡ false)
        ⊎ ((offset + 30 + length h'.name_bytes + length h'.extra) % 16384 ≡ 0))
unfolding build_local_header eq_bytes
build_local_header-IsHeader offset h e head streaming built =
    let name_len = u16_at h 26 in
    let src_extra = drop (30 + name_len) h in
    let name = if ltb (length h) (30 + name_len) then [] else take name_len (drop 30 h) in
    let s = is_streaming e in
    let extra = local_extra offset src_extra e s (length name) in
    elim (Bool-cases (ltb (length h) 30)) [
      | inl short ↦ cc (rw (build_local_header, short) at built)
      | inr long ↦ elim (Bool-cases (ltb 0xffff (length extra))) [
        | inl too_long ↦ cc (rw (build_local_header, long, too_long) at built)
        | inr extended ↦ elim (Bool-cases (ltb 0xffff (length name))) [
          | inl too_long ↦ cc (rw (build_local_header, long, extended, too_long) at built)
          | inr named ↦
              let pair = rw (build_local_header, long, extended, named) at built in
              let header : IsHeader head = record {
                front = header_front h e s;
                name_bytes = name;
                extra = extra;
                whole = cc;
                after_sig = drop 4 (header_front h e s);
                signed = refl;
                front_size = length-header_front h e s (ltb→ge (length h) 30 long);
                name_fits = ground (arith, named);
                extra_fits = ground (arith, extended);
              } in
              (
                header,
                elim (Bool-cases (is_executable_macho e.name)) [
                  | inr other ↦ inl other
                  | inl executable ↦
                      inr (local_extra-aligned offset src_extra e s (length name) executable)
                ],
              )
        ]
      ]
    ]

pub length-IsHeader :
    (head : Bytes) (h : IsHeader head) → length head ≡ 30 + length h.name_bytes + length h.extra
length-IsHeader head h =
    let lens = le16 (length h.name_bytes) ++ le16 (length h.extra) in
    omega (
      arith,
      ap length h.whole,
      h.front_size,
      length-append h.front (lens ++ (h.name_bytes ++ h.extra)),
      length-append h.name_bytes h.extra,
    )

-- A header that stands at its offset leads to what follows it.
pub local_span-IsHeader :
    (out rest head : Bytes) (e' : CentralEntry)
    → IsHeader head
    → drop e'.local_offset out ≡ head ++ rest
    → local_span out e' ≡ done (e'.local_offset + length head, e'.compressed_size)
unfolding local_span eq_bytes
local_span-IsHeader out rest head e' h there =
    let off = e'.local_offset in
    let nl = length h.name_bytes in
    let el = length h.extra in
    let lens = le16 nl ++ le16 el in
    let thirty = h.front ++ lens in
    let more = (h.name_bytes ++ h.extra) ++ rest in
    let split : head ++ rest ≡ thirty ++ more =
      ap (λ t. t ++ rest) h.whole
      ∙ append_assoc h.front (lens ++ (h.name_bytes ++ h.extra)) rest
      ∙ sym (append_assoc h.front lens more) in
    let size : length thirty ≡ 30 = omega (arith, h.front_size, length-append h.front lens) in
    let read : take 30 (drop off out) ≡ thirty =
      ap (take 30) (there ∙ split) ∙ take-append_at 30 thirty more size in
    let header_size = length-IsHeader head h in
    let long : ltb (length out) (off + 30) ≡ false =
      ge→ltb (length out) (off + 30) (
        omega
          (arith, length-drop off out, ap length there, length-append head rest, header_size)) in
    let sig : eq_bytes (take 4 thirty) loc_sig ≡ true =
      ap (λ t. eq_bytes (take 4 (t ++ lens)) loc_sig) h.signed in
    let lens_at = drop-append_at 26 h.front lens h.front_size in
    let names : u16_at thirty 26 ≡ nl =
      ap (λ t. from_le (take 2 t)) lens_at ∙ from_le-le16 nl h.name_fits in
    let extras : u16_at thirty 28 ≡ el =
      ap (λ t. from_le (take 2 t)) (drop-at 26 thirty (le16 nl) (le16 el) lens_at)
      ∙ from_le-le16 el h.extra_fits in
    let sum : off + 30 + nl + el ≡ off + length head = omega (arith, header_size) in
    rw (long, read, sig, names, extras, sum) refl
