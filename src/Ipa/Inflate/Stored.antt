-- ===== src/Ipa/Inflate/Stored.antt =====
-- Stored blocks are copied.
use perun.Base.{
  ℕ, zero, suc, ◌+◌, ◌-◌, ◌*◌, ◌/◌, ◌%◌, ◌^◌, ◌<◌, bit_or, ◌≡◌, refl, sym, ap, ◌∙◌, true, false,
  some, List, [], ◌∷◌, ◌++◌, append-nil, append_assoc, length, length-append, drop, drop-at,
  get_elem?, get_elem?-at, All, Bytes, ◌==◌, eq→==, arith,
}
use perun.Base.Bits.{bit_or-zero_left, bit_or-shifted_right}
use perun.Ipa.Bits.{done, Place, read_bit, bytes_loop, bytes}
use perun.Ipa.Inflate.{stored, stored_block, block, inflate_loop, inflate, turns}

-- A stored block: its first byte, the length and its complement, and the bytes.
abbrev pub block_bytes : ℕ → Bytes → Bytes
block_bytes final c =
    final
    ∷ (length c % 256)
    ∷ (length c / 256)
    ∷ (255 - length c % 256)
    ∷ (255 - length c / 256)
    ∷ c

-- A stream of stored blocks, the last one marked.
abbrev pub stored_stream : Bytes → List Bytes → Bytes
stored_stream c [] = block_bytes 1 c
stored_stream c (d ∷ ds) = block_bytes 0 c ++ stored_stream d ds

abbrev pub all_bytes : Bytes → List Bytes → Bytes
all_bytes c [] = c
all_bytes c (d ∷ ds) = c ++ all_bytes d ds

module _ (source : Bytes) where
  abbrev at : ℕ → ℕ → Place
  at pos bit = record { pos = pos; bit = bit }

  -- The byte at a place, and what lies behind it.
  next_byte :
      (pos b : ℕ) (rest : Bytes)
      → drop pos source ≡ b ∷ rest
      → (get_elem? source pos ≡ some b) × (drop (pos + 1) source ≡ rest)
  next_byte pos b rest h = (get_elem?-at pos source h, drop-at pos source (b ∷ []) rest h)

  one_byte :
      (pos b : ℕ) (rest : Bytes)
      → drop pos source ≡ b ∷ rest
      → bytes source 1 (at pos 0) ≡ done (b, at (pos + 1) 0)
  unfolding bytes_loop
  one_byte pos b rest h =
      let e : bit_or 0 (b * 2 ^ 0) ≡ b = bit_or-zero_left (b * 1) ∙ omega arith in
      rw (bytes_loop, (next_byte pos b rest h).0, e) refl

  two_bytes :
      (pos lo hi : ℕ) (rest : Bytes)
      → lo < 256
      → drop pos source ≡ lo ∷ hi ∷ rest
      → bytes source 2 (at pos 0) ≡ done (lo + 256 * hi, at (pos + 2) 0)
  unfolding bytes_loop
  two_bytes pos lo hi rest l h =
      let first = next_byte pos lo (hi ∷ rest) h in
      let second = next_byte (pos + 1) hi rest first.1 in
      let low : bit_or 0 (lo * 2 ^ 0) ≡ lo = bit_or-zero_left (lo * 1) ∙ omega arith in
      let high : bit_or lo (hi * 2 ^ 8) ≡ lo + 256 * hi =
        bit_or-shifted_right 8 hi lo l ∙ omega arith in
      let place : pos + 1 + 1 ≡ pos + 2 = omega arith in
      rw (bytes_loop, first.0, second.0, low, high, place) refl

  stored-copies :
      (c out : Bytes) (pos : ℕ) (rest : Bytes)
      → drop pos source ≡ c ++ rest
      → stored source (length c) out (at pos 0) ≡ done (out ++ c, at (pos + length c) 0)
  unfolding stored
  stored-copies [] out pos rest h = let e : pos + 0 ≡ pos = omega arith in rw (append-nil, e) refl
  stored-copies (b ∷ c) out pos rest h =
      let e : pos + 1 + length c ≡ pos + suc (length c) = omega arith in
      rw (one_byte pos b (c ++ rest) h) (
        stored-copies c (out ++ b ∷ []) (pos + 1) rest (next_byte pos b (c ++ rest) h).1
        ∙ rw (append_assoc out (b ∷ []) c, e) refl)

  stored_block-copies :
      (final : ℕ) (c out : Bytes) (pos : ℕ) (rest : Bytes)
      → length c < 2 ^ 16
      → drop pos source ≡ block_bytes final c ++ rest
      → stored_block source out (at pos 3) ≡ done (out ++ c, at (pos + 5 + length c) 0)
  unfolding stored_block
  stored_block-copies final c out pos rest short h =
      let n = length c in
      let first = next_byte pos final _ h in
      let len = two_bytes (pos + 1) (n % 256) (n / 256) _ (omega arith) first.1 in
      let third = drop-at (pos + 1) source ((n % 256) ∷ (n / 256) ∷ []) _ first.1 in
      let place : pos + 1 + 2 ≡ pos + 3 = omega arith in
      let nlen = two_bytes (pos + 1 + 2) (255 - n % 256) (255 - n / 256) _ (omega arith) third in
      let fifth = drop-at (pos + 1 + 2) source ((255 - n % 256) ∷ (255 - n / 256) ∷ []) _ third in
      let value : n % 256 + 256 * (n / 256) ≡ n = omega arith in
      let agree : (n == 0xffff - (255 - n % 256 + 256 * (255 - n / 256))) ≡ true =
        eq→== n _ (omega arith) in
      let end : pos + 1 + 2 + 2 + n ≡ pos + 5 + n = omega arith in
      rw (len, nlen, value, agree) (stored-copies c out (pos + 1 + 2 + 2) rest fifth ∙ rw end refl)

  one_bit :
      (pos i b : ℕ)
      → (i + 1 == 8) ≡ false
      → get_elem? source pos ≡ some b
      → read_bit source (at pos i) ≡ done (b / 2 ^ i % 2, at pos (i + 1))
  unfolding read_bit
  one_bit pos i b inside h = rw (read_bit, h, inside) refl

  -- The three bits in front of a stored block.
  inflate_turn :
      (n final : ℕ) (c out : Bytes) (pos : ℕ) (rest : Bytes)
      → final < 2
      → length c < 2 ^ 16
      → drop pos source ≡ block_bytes final c ++ rest
      → inflate_loop source (suc n) out (at pos 0) ≡ elim (final == 1) [
        | true ↦ done (out ++ c)
        | false ↦ inflate_loop source n (out ++ c) (at (pos + 5 + length c) 0)
      ]
  unfolding inflate_loop block
  inflate_turn n final c out pos rest small short h =
      let there = (next_byte pos final _ h).0 in
      let b0 : final / 2 ^ 0 % 2 ≡ final = omega arith in
      let b1 : final / 2 ^ 1 % 2 ≡ 0 = omega arith in
      let b2 : final / 2 ^ 2 % 2 ≡ 0 = omega arith in
      rw
        (
          inflate_loop,
          one_bit pos 0 final refl there,
          one_bit pos 1 final refl there,
          one_bit pos 2 final refl there,
          b0,
          b1,
          b2,
          stored_block-copies final c out pos rest short h,
        )
        refl

  inflate_loop-stored :
      (ds : List Bytes) (c out : Bytes) (n pos : ℕ)
      → All (λ b. length b < 2 ^ 16) (c ∷ ds)
      → drop pos source ≡ stored_stream c ds
      → length ds < n
      → inflate_loop source n out (at pos 0) ≡ done (out ++ all_bytes c ds)
  inflate_loop-stored ds c out zero pos short h f = absurd (omega arith)
  inflate_loop-stored [] c out (suc n) pos short h f =
      inflate_turn n 1 c out pos [] (omega arith) short.0 (h ∙ sym (append-nil (block_bytes 1 c)))
  inflate_loop-stored (d ∷ ds) c out (suc n) pos short h f =
      let later = drop-at pos source (block_bytes 0 c) (stored_stream d ds) h in
      let place : pos + length (block_bytes 0 c) ≡ pos + 5 + length c = omega arith in
      let left : drop (pos + 5 + length c) source ≡ stored_stream d ds =
        ap (λ n'. drop n' source) (sym place) ∙ later in
      inflate_turn n 0 c out pos (stored_stream d ds) (omega arith) short.0 h
      ∙ inflate_loop-stored ds d (out ++ c) n (pos + 5 + length c) short.1 left (omega arith)
      ∙ ap done (append_assoc out c (all_bytes d ds))

length-stored_stream : (c : Bytes) (ds : List Bytes) → length ds < length (stored_stream c ds)
length-stored_stream c [] = omega arith
length-stored_stream c (d ∷ ds) =
    omega (arith, length-stored_stream d ds, length-append (block_bytes 0 c) (stored_stream d ds))

-- A stream of stored blocks, each of less than 2 ^ 16 bytes, is inflated to those bytes.
pub inflate-stored_stream :
    (c : Bytes) (ds : List Bytes)
    → All (λ b. length b < 2 ^ 16) (c ∷ ds)
    → inflate (stored_stream c ds) ≡ done (all_bytes c ds)
unfolding inflate
inflate-stored_stream c ds short =
    let stream = stored_stream c ds in
    inflate_loop-stored stream ds c [] (turns stream) 0 short refl
      (omega (arith, length-stored_stream c ds))
