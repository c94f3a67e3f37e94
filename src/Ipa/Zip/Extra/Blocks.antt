-- ===== src/Ipa/Zip/Extra/Blocks.antt =====
-- An extra field as its blocks, and what `strip_zip64_extra` leaves of it.
use perun.Base.{
  ℕ, zero, suc, ◌+◌, ◌*◌, ◌≤◌, ◌<◌, ◌≡◌, ◌⊎◌, inl, inr, refl, sym, ap, ◌∙◌, Bool, true, false, not,
  List, [], ◌∷◌, ◌++◌, append_assoc, length, length-append, length-take, length-drop, take, drop,
  take-append-drop, take-append_at, drop-append_at, retain, All, Bytes, ltb, ◌==◌, Bool-cases,
  if◌then◌else◌, arith,
}
use perun.Ipa.Zip.{zip64_extra_id, u16_at}
use perun.Ipa.Zip.Extra.{strip_loop, strip_zip64_extra}

-- A block: the bytes of its id, those of its size, and its body.
pub record Block : Type 0 where
  pub id_low : ℕ
  pub id_high : ℕ
  pub size_low : ℕ
  pub size_high : ℕ
  pub body : Bytes

abbrev pub IsBlock : Block → Type 0
IsBlock b = length b.body ≡ b.size_low + 256 * b.size_high

-- Not a ZIP64 block.
abbrev pub is_other : Block → Bool
is_other b = not (b.id_low + 256 * (b.id_high + 256 * 0) == zip64_extra_id)

abbrev pub block_bytes : Block → Bytes
block_bytes b = b.id_low ∷ b.id_high ∷ b.size_low ∷ b.size_high ∷ b.body

abbrev pub encode : List Block → Bytes
encode [] = []
encode (b ∷ bs) = block_bytes b ++ encode bs

-- Bytes that hold no block: a header that is cut, or one that asks for more than there is.
abbrev pub IsTail : Bytes → Type 0
IsTail tail = (length tail < 4) ⊎ (length tail < 4 + u16_at tail 2)

strip_loop-tail : (n : ℕ) (tail : Bytes) → IsTail tail → strip_loop n tail ≡ tail
unfolding strip_loop
strip_loop-tail zero tail h = refl
strip_loop-tail (suc n) tail h = elim (Bool-cases (ltb (length tail) 4)) [
  | inl short ↦ rw (strip_loop, short) refl
  | inr long ↦
      let more : ltb (length tail) (4 + u16_at tail 2) ≡ true = ground arith in
      rw (strip_loop, long, more) refl
]

strip_loop-block :
    (n : ℕ) (b : Block) (rest : Bytes)
    → IsBlock b
    → strip_loop (suc n) (block_bytes b ++ rest)
      ≡ (if is_other b then block_bytes b ++ strip_loop n rest else strip_loop n rest)
unfolding strip_loop
strip_loop-block n b rest h =
    let whole = block_bytes b ++ rest in
    let end = 4 + u16_at whole 2 in
    let long : ltb (length whole) 4 ≡ false = ground arith in
    let fits : ltb (length whole) end ≡ false = ground (arith, h, length-append b.body rest) in
    let size : length (block_bytes b) ≡ end = omega (arith, h) in
    let taken = take-append_at end (block_bytes b) rest size in
    let dropped = drop-append_at end (block_bytes b) rest size in
    let id = b.id_low + 256 * (b.id_high + 256 * 0) == zip64_extra_id in
    elim (Bool-cases id) [
      | inl zip64 ↦ rw (strip_loop, long, fits, zip64, dropped) refl
      | inr other ↦ rw (strip_loop, long, fits, other, taken, dropped) refl
    ]

keep :
    (other : Bool) (b : Block) (bs : List Block) (tail : Bytes) {out : Bytes}
    → out ≡ encode (retain is_other bs) ++ tail
    → (if other then block_bytes b ++ out else out)
      ≡ encode (if other then b ∷ retain is_other bs else retain is_other bs) ++ tail
keep true b bs tail h =
    ap (◌++◌ (block_bytes b)) h
    ∙ sym (append_assoc (block_bytes b) (encode (retain is_other bs)) tail)
keep false b bs tail h = h

pub strip_loop-encode :
    (n : ℕ) (bs : List Block) (tail : Bytes)
    → All IsBlock bs
    → IsTail tail
    → length (encode bs ++ tail) ≤ n
    → strip_loop n (encode bs ++ tail) ≡ encode (retain is_other bs) ++ tail
strip_loop-encode n [] tail h t f = strip_loop-tail n tail t
strip_loop-encode zero (b ∷ bs) tail h t f = absurd (omega arith)
strip_loop-encode (suc n) (b ∷ bs) tail h t f =
    let whole = append_assoc (block_bytes b) (encode bs) tail in
    let later = strip_loop-encode n bs tail h.1 t (
      omega (
        arith,
        length-append b.body (encode bs),
        length-append (b.body ++ encode bs) tail,
        length-append (encode bs) tail,
      )) in
    ap (strip_loop (suc n)) whole
    ∙ strip_loop-block n b (encode bs ++ tail) h.0
    ∙ keep (is_other b) b bs tail later

retain-All : (bs : List Block) → All IsBlock bs → All IsBlock (retain is_other bs)
retain-All [] h = h
retain-All (b ∷ bs) h = elim (Bool-cases (is_other b)) [
  | inl other ↦ rw other (h.0, retain-All bs h.1)
  | inr zip64 ↦ rw zip64 (retain-All bs h.1)
]

retain_twice : (bs : List Block) → retain is_other (retain is_other bs) ≡ retain is_other bs
retain_twice [] = refl
retain_twice (b ∷ bs) = elim (Bool-cases (is_other b)) [
  | inl other ↦ rw (other, other) (ap (◌∷◌ b) (retain_twice bs))
  | inr zip64 ↦ rw zip64 (retain_twice bs)
]

-- Every extra field is blocks and a tail.
abbrev pub Parts : Bytes → Type 0
Parts extra =
    (bs : List Block) × (tail : Bytes) × All IsBlock bs × IsTail tail × (extra ≡ encode bs ++ tail)

Parts-below : (n : ℕ) (extra : Bytes) → length extra ≤ n → Parts extra
Parts-below n [] h = ([], [], tt, inl (omega arith), refl)
Parts-below zero (a ∷ extra) h = absurd (omega arith)
Parts-below (suc n) (a ∷ b ∷ c ∷ d ∷ more) h =
    let size = c + 256 * (d + 256 * 0) in
    elim (Bool-cases (ltb (length more) size)) [
      | inl cut ↦ ([], a ∷ b ∷ c ∷ d ∷ more, tt, inr (ground arith), refl)
      | inr fits ↦
          let body = take size more in
          let (bs, tail, blocks, cut, e) =
            Parts-below n (drop size more) (omega (arith, length-drop size more)) in
          let first : Block = record {
            id_low = a;
            id_high = b;
            size_low = c;
            size_high = d;
            body = body;
          } in
          let whole : length body ≡ c + 256 * d = ground (arith, length-take size more) in
          let split : more ≡ body ++ encode bs ++ tail =
            sym (take-append-drop size more)
            ∙ ap (◌++◌ body) e
            ∙ sym (append_assoc body (encode bs) tail) in
          (first ∷ bs, tail, (whole, blocks), cut, ap (λ m. a ∷ b ∷ c ∷ d ∷ m) split)
    ]
Parts-below (suc n) (a ∷ []) h = ([], a ∷ [], tt, inl (omega arith), refl)
Parts-below (suc n) (a ∷ b ∷ []) h = ([], a ∷ b ∷ [], tt, inl (omega arith), refl)
Parts-below (suc n) (a ∷ b ∷ c ∷ []) h = ([], a ∷ b ∷ c ∷ [], tt, inl (omega arith), refl)

pub strip_zip64_extra-encode :
    (bs : List Block) (tail : Bytes)
    → All IsBlock bs
    → IsTail tail
    → strip_zip64_extra (encode bs ++ tail) ≡ encode (retain is_other bs) ++ tail
unfolding strip_zip64_extra
strip_zip64_extra-encode bs tail h t =
    strip_loop-encode (length (encode bs ++ tail)) bs tail h t (omega arith)

-- Any extra field is a list of blocks and a tail that holds none; stripping it drops just its
-- ZIP64 blocks and keeps the others, their order and the tail, and stripping again changes nothing.
pub strip_zip64_extra-blocks :
    (extra : Bytes)
    → ((bs : List Block) × (tail : Bytes) × All IsBlock bs
        × IsTail tail
        × (extra ≡ encode bs ++ tail)
        × (strip_zip64_extra extra ≡ encode (retain is_other bs) ++ tail))
      × (strip_zip64_extra (strip_zip64_extra extra) ≡ strip_zip64_extra extra)
strip_zip64_extra-blocks extra =
    let (bs, tail, blocks, cut, e) = Parts-below (length extra) extra (omega arith) in
    let once = ap strip_zip64_extra e ∙ strip_zip64_extra-encode bs tail blocks cut in
    let kept = retain is_other bs in
    let again =
      ap strip_zip64_extra once
      ∙ strip_zip64_extra-encode kept tail (retain-All bs blocks) cut
      ∙ ap (λ l. encode l ++ tail) (retain_twice bs)
      ∙ sym once in
    ((bs, tail, blocks, cut, e, once), again)
