-- ===== src/Ipa/Inflate/Reading.antt =====
-- How far the readers of the bit stream move.
use perun.Base.{
  ℕ, zero, suc, ◌+◌, ◌-◌, ◌*◌, ◌^◌, ◌≤◌, ◌<◌, bit_or, ◌≡◌, inl, inr, length, get_elem?,
  get_elem?-lt, get_or, drop, Bytes, ltb, ltb→lt, ltb→ge, ◌==◌, Bool-cases, Option-cases, arith,
}
use perun.Ipa.Bits.{
  out_of_fuel, Outcome, done, failed, panicked, ◌>>=◌, Place, read_bit, bits_loop, bytes_loop,
}
use perun.Ipa.Huffman.{Huffman, decode_lengths}
use perun.Ipa.Huffman.Arrays.{sum, sum-drop, get_elem?-get_or}
use perun.Ipa.Inflate.{five_loop}
use perun.Base.Bits.{bit_or-ge}

module _ (source : Bytes) where
  -- The bits that are left behind a place.
  abbrev pub room : Place → ℕ
  room p = 8 * (length source - p.pos) - p.bit

  -- A result at least `k` bits further on, or an error of the code: no panic, and fuel
  -- enough.
  abbrev pub Reads {ℓ} : {A : Type ℓ} → (A → Place) → ℕ → Place → Outcome A → Type 0
  Reads place k p (done a) = (room (place a) + k ≤ room p) × ((place a).bit < 8)
  Reads place k p (failed e) = ¬ (e ≡ out_of_fuel)
  Reads place k p panicked = ⊥

  pub Reads-less {ℓ} :
      {A : Type ℓ} (place : A → Place) (k j : ℕ) (p : Place) (m : Outcome A)
      → j ≤ k
      → Reads place k p m
      → Reads place j p m
  Reads-less place k j p (done a) l h = (omega (arith, h.0), h.1)
  Reads-less place k j p (failed e) l h = h
  Reads-less place k j p panicked l h = h

  pub Reads-from {ℓ} :
      {A : Type ℓ} (place : A → Place) (k j : ℕ) (p q : Place) (m : Outcome A)
      → room q + k ≤ room p
      → Reads place j q m
      → Reads place (k + j) p m
  Reads-from place k j p q (done a) l h = (omega (arith, h.0), h.1)
  Reads-from place k j p q (failed e) l h = h
  Reads-from place k j p q panicked l h = h

  pub Reads-bind {ℓ κ} :
      {A : Type ℓ} {B : Type κ} (place : A → Place) (next : B → Place) (k j : ℕ) (p : Place)
      (m : Outcome A) (f : A → Outcome B)
      → Reads place k p m
      → ((a : A) → room (place a) + k ≤ room p → (place a).bit < 8 → Reads next j (place a) (f a))
      → Reads next (k + j) p (m >>= f)
  Reads-bind place next k j p (done a) f h g =
      Reads-from next k j p (place a) (f a) h.0 (g a h.0 h.1)
  Reads-bind place next k j p (failed e) f h g = h
  Reads-bind place next k j p panicked f h g = absurd h

  pub read_bit-Reads : (p : Place) → p.bit < 8 → Reads (λ r. r.1) 1 p (read_bit source p)
  unfolding read_bit
  read_bit-Reads p h = elim (Option-cases (get_elem? source p.pos)) [
    | inl nothing ↦ rw (Reads, nothing) (λ e. cc)
    | inr (b, here) ↦
        let more = get_elem?-lt source p.pos b here in
        elim (Bool-cases (p.bit + 1 == 8)) [
          | inl last ↦ rw (Reads, here, last) (ground (arith, more, last))
          | inr inside ↦ rw (Reads, here, inside) (ground (arith, more, inside, h))
        ]
  ]

  pub bits_loop-Reads :
      (n i v : ℕ) (p : Place) → p.bit < 8 → Reads (λ r. r.1) 0 p (bits_loop source n i v p)
  unfolding bits_loop
  bits_loop-Reads zero i v p h = (omega arith, h)
  bits_loop-Reads (suc n) i v p h = Reads-less _ 1 0 p _ (omega arith) (
      Reads-bind (λ r. r.1) (λ r. r.1) 1 0 p (read_bit source p) _ (read_bit-Reads p h)
        (λ r m b. bits_loop-Reads n (i + 1) (bit_or v (r.0 * 2 ^ i)) r.1 b))

  pub five_loop-Reads :
      (n i v : ℕ) (p : Place) → p.bit < 8 → Reads (λ r. r.1) 0 p (five_loop source n i v p)
  unfolding five_loop
  five_loop-Reads zero i v p h = (omega arith, h)
  five_loop-Reads (suc n) i v p h = Reads-less _ 1 0 p _ (omega arith) (
      Reads-bind (λ r. r.1) (λ r. r.1) 1 0 p (read_bit source p) _ (read_bit-Reads p h)
        (λ r m b. five_loop-Reads n (i + 1) (bit_or v (r.0 * 2 ^ i)) r.1 b))

  pub bytes_loop-Reads :
      (n i v : ℕ) (p : Place) → p.bit < 8 → Reads (λ r. r.1) 0 p (bytes_loop source n i v p)
  unfolding bytes_loop
  bytes_loop-Reads zero i v p h = (omega arith, h)
  bytes_loop-Reads (suc n) i v p h = elim (Option-cases (get_elem? source p.pos)) [
    | inl nothing ↦ rw (Reads, nothing) (λ e. cc)
    | inr (b, here) ↦
        rw (Reads, here)
          (Reads-from (λ r. r.1) 0 0 p (record { pos = p.pos + 1; bit = p.bit }) _ (omega arith)
            (bytes_loop-Reads n (i + 1) (bit_or v (b * 2 ^ (8 * i)))
              (record { pos = p.pos + 1; bit = p.bit }) h))
  ]

  -- The symbol is in the table: the code is never below the first one of its length, and the symbols
  -- are enough for the counts.
  pub decode_lengths-Reads :
      (n len code first index : ℕ) (t : Huffman) (p : Place)
      → p.bit < 8
      → first ≤ code
      → index + sum (drop len t.counts) ≤ length t.symbols
      → Reads (λ r. r.1) 1 p (decode_lengths source n len code first index t p)
  unfolding decode_lengths
  decode_lengths-Reads zero len code first index t p h low fits = λ e. cc
  decode_lengths-Reads (suc n) len code first index t p h low fits =
      Reads-bind (λ r. r.1) (λ r. r.1) 1 0 p (read_bit source p) _ (read_bit-Reads p h)
        (λ r m b.
          let code' = bit_or code r.0 in
          let count = get_or t.counts len 0 in
          let more = bit_or-ge code r.0 in
          let split = sum-drop len t.counts in
          elim (Bool-cases (ltb code' (first + count))) [
            | inr longer ↦
                let ge = ltb→ge code' (first + count) longer in
                rw longer (
                  Reads-less _ 1 0 r.1 _ (omega arith) (
                    decode_lengths-Reads n (len + 1) (code' * 2) ((first + count) * 2)
                      (index + count) t r.1 b (omega (arith, ge)) (omega (arith, fits, split))))
            | inl found ↦
                let lt = ltb→lt code' (first + count) found in
                let inside : index + code' - first < length t.symbols =
                  omega (arith, lt, low, more, fits, split) in
                rw (found, get_elem?-get_or (index + code' - first) t.symbols inside)
                  (omega arith, b)
          ])
