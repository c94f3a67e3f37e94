-- ===== src/Ipa/Zip/Writer/Sizes.antt =====
-- How long the extra fields and the headers get.
use perun.Base.{
  ℕ, zero, suc, ◌+◌, ◌-◌, ◌/◌, ◌%◌, ◌^◌, ◌≤◌, ◌≡◌, inl, inr, refl, ap, Bool, true, false, [], ◌∷◌,
  ◌++◌, length, length-append, length-take, length-drop, length-replicate, replicate, take, drop,
  Bytes, ltb, ltb→ge, ge→ltb, ◌==◌, Bool-cases, if◌then◌else◌, arith,
}
use perun.Ipa.Names.{is_executable_macho}
use perun.Ipa.Zip.{CentralEntry, zip64_extra_id, done, u16_at, is_large}
use perun.Ipa.Zip.Extra.{strip_loop, strip_zip64_extra, zip64_local_extra, align_payload_extra}
use perun.Ipa.Zip.Extra.Aligned.{align_payload_extra-IsAligned}
use perun.Ipa.Zip.Writer.Entries.{is_streaming, local_extra, local_header, build_local_header}

length-strip_loop : (n : ℕ) (x : Bytes) → length (strip_loop n x) ≤ length x
unfolding strip_loop
length-strip_loop zero x = omega arith
length-strip_loop (suc n) x =
    let end = 4 + u16_at x 2 in
    let rest = strip_loop n (drop end x) in
    let later = length-strip_loop n (drop end x) in
    elim (Bool-cases (ltb (length x) 4)) [
      | inl short ↦ rw (strip_loop, short) (omega arith)
      | inr long ↦ elim (Bool-cases (ltb (length x) end)) [
        | inl cut ↦ rw (strip_loop, long, cut) (omega arith)
        | inr whole ↦
            let inside = ltb→ge (length x) end whole in
            elim (Bool-cases (u16_at x 0 == zip64_extra_id)) [
              | inl zip64 ↦
                  rw (strip_loop, long, whole, zip64) (omega (arith, later, length-drop end x))
              | inr other ↦
                  rw (strip_loop, long, whole, other)
                    (omega (
                      arith,
                      later,
                      inside,
                      length-drop end x,
                      length-take end x,
                      length-append (take end x) rest,
                    ))
            ]
      ]
    ]

pub length-zip64_local_extra : (u c : ℕ) → length (zip64_local_extra u c) ≤ 20
unfolding zip64_local_extra
length-zip64_local_extra u c = elim (Bool-cases (is_large u)) [
  | inl a ↦ elim (Bool-cases (is_large c)) [
    | inl b ↦ rw (a, b) (omega arith)
    | inr b ↦ rw (a, b) (omega arith)
  ]
  | inr a ↦ elim (Bool-cases (is_large c)) [
    | inl b ↦ rw (a, b) (omega arith)
    | inr b ↦ rw (a, b) (omega arith)
  ]
]

length-align_payload_extra :
    (extra : Bytes) (offset name_len : ℕ)
    → length (align_payload_extra extra offset name_len).0 ≤ length extra + 16388
length-align_payload_extra extra offset name_len =
    elim (align_payload_extra-IsAligned extra offset name_len).1 [
      | inl same ↦ omega (arith, ap (λ (r : Bytes × Bool). length r.0) same)
      | inr (n, small, block, same) ↦
          let pad = replicate {A = ℕ} (n - 4) 0 in
          omega (
            arith,
            small,
            ap (λ (r : Bytes × Bool). length r.0) same,
            length-append extra (0 ∷ 0 ∷ ((n - 4) % 256) ∷ ((n - 4) / 2 ^ 8 % 256) ∷ pad),
            length-replicate {A = ℕ} (n - 4) 0,
          )
    ]

length_sized :
    (src : Bytes) (e : CentralEntry) (streaming : Bool)
    → length (
        if streaming
        then strip_zip64_extra src
        else strip_zip64_extra src ++ zip64_local_extra e.uncompressed_size e.compressed_size)
      ≤ length src + 20
unfolding strip_zip64_extra
length_sized src e true = omega (arith, length-strip_loop (length src) src)
length_sized src e false =
    let more = zip64_local_extra e.uncompressed_size e.compressed_size in
    omega (
      arith,
      length-strip_loop (length src) src,
      length-zip64_local_extra e.uncompressed_size e.compressed_size,
      length-append (strip_loop (length src) src) more,
    )

length-local_extra :
    (offset : ℕ) (src : Bytes) (e : CentralEntry) (streaming : Bool) (name_len : ℕ)
    → length (local_extra offset src e streaming name_len) ≤ length src + 16408
unfolding local_extra strip_zip64_extra
length-local_extra offset src e streaming name_len =
    let stripped = strip_zip64_extra src in
    let more = zip64_local_extra e.uncompressed_size e.compressed_size in
    let sized = if streaming then stripped else stripped ++ more in
    let bound : length sized ≤ length src + 20 = length_sized src e streaming in
    elim (Bool-cases (is_executable_macho e.name)) [
      | inl executable ↦
          rw (local_extra, executable)
            (omega (arith, bound, length-align_payload_extra sized offset name_len))
      | inr other ↦ rw (local_extra, other) (omega (arith, bound))
    ]

name_bounded :
    (h : Bytes) (n : ℕ) (cut : Bool) → length (if cut then [] else take n (drop 30 h)) ≤ length h
name_bounded h n true = omega arith
name_bounded h n false = omega (arith, length-take n (drop 30 h), length-drop 30 h)

-- A header of at most 48 KiB is rebuilt, whatever it says.
pub build_local_header-done :
    (offset : ℕ) (h : Bytes) (e : CentralEntry)
    → 30 ≤ length h
    → length h ≤ 49152
    → (head : Bytes) × (build_local_header offset h e ≡ done (head, is_streaming e))
unfolding build_local_header
build_local_header-done offset h e long short =
    let name_len = u16_at h 26 in
    let src_extra = drop (30 + name_len) h in
    let cut = ltb (length h) (30 + name_len) in
    let name = if cut then [] else take name_len (drop 30 h) in
    let s = is_streaming e in
    let extra = local_extra offset src_extra e s (length name) in
    let name_bound : length name ≤ length h = name_bounded h name_len cut in
    let a : ltb (length h) 30 ≡ false = ge→ltb (length h) 30 long in
    let b : ltb 0xffff (length extra) ≡ false = ge→ltb 0xffff (length extra) (
      omega (
        arith,
        length-local_extra offset src_extra e s (length name),
        length-drop (30 + name_len) h,
      )) in
    let c : ltb 0xffff (length name) ≡ false = ge→ltb 0xffff (length name) (omega arith) in
    (local_header h e s name extra, rw (build_local_header, a, b, c) refl)
