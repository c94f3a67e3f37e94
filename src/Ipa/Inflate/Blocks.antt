-- ===== src/Ipa/Inflate/Blocks.antt =====
-- The blocks of a stream, stored and compressed, within their fuel and without a panic.
use perun.Base.{
  ℕ, zero, suc, ◌+◌, ◌-◌, ◌≤◌, ◌<◌, inl, inr, [], ◌∷◌, ◌++◌, length, if◌then◌else◌, Bytes, ltb,
  ltb→ge, leb, within, ◌==◌, Bool-cases, arith,
}
use perun.Ipa.Bits.{
  Outcome, done, failed, panicked, distance_before_start, ◌>>=◌, Place, bits, bytes, align_byte,
}
use perun.Ipa.Huffman.{Huffman, decode}
use perun.Ipa.Huffman.Tables.{Yields, IsTable}
use perun.Ipa.Inflate.{
  copy_back, table_row, len_table, dist_table, repetition, inflate_block, stored, stored_block,
}
use perun.Ipa.Inflate.Reading.{
  room, Reads, Reads-less, Reads-from, Reads-bind, bits_loop-Reads, bytes_loop-Reads,
  decode_lengths-Reads,
}
use perun.Ipa.Inflate.Lookups.{copy_back-Yields, table_row-Yields, dist_row-Yields}

module _ (source : Bytes) where
  -- A part that reads nothing, in front of one that reads.
  pub after {ℓ κ} :
      {A : Type ℓ} {B : Type κ} (P : A → Type 0) (next : B → Place) (j : ℕ) (p : Place)
      (m : Outcome A) (f : A → Outcome B)
      → Yields P m
      → ((a : A) → P a → Reads source next j p (f a))
      → Reads source next j p (m >>= f)
  after P next j p (done a) f h g = g a h
  after P next j p (failed e) f h g = h
  after P next j p panicked f h g = absurd h

  pub decode-Reads :
      (t : Huffman) (p : Place)
      → p.bit < 8
      → IsTable t
      → Reads source (λ r. r.1) 1 p (decode source t p)
  decode-Reads t p h k =
      decode_lengths-Reads source 15 1 0 0 0 t p h (omega arith) (omega (arith, k))

  -- The distance is read and the bytes that far back are repeated.
  distance_copied :
      (len dbase dbits extra : ℕ) (out : Bytes) (q : Place)
      → q.bit < 8
      → 1 ≤ dbase
      → Reads source {A = Bytes × Place}
          (λ r. r.1)
          0
          q
          (bits source dbits q >>= λ dextra.
            if ltb (length out) (dbase + dextra.0)
            then failed distance_before_start
            else (copy_back (len + extra) (length out - (dbase + dextra.0)) out >>= λ out'.
                done (out', dextra.1)))
  distance_copied len dbase dbits extra out q b one =
      Reads-bind source (λ r. r.1) (λ r. r.1) 0 0 q (bits source dbits q) _
        (bits_loop-Reads source dbits 0 0 q b)
        (λ dextra m2 b2. elim (Bool-cases (ltb (length out) (dbase + dextra.0))) [
          | inl before ↦ rw before (λ e. cc)
          | inr inside ↦
              let ge = ltb→ge (length out) (dbase + dextra.0) inside in
              rw inside (
                after (λ o. Unit) (λ r. r.1) 0 dextra.1
                  (copy_back (len + extra) (length out - (dbase + dextra.0)) out) _
                  (copy_back-Yields (len + extra) (length out - (dbase + dextra.0)) out
                    (omega (arith, one, ge)))
                  (λ o u. (omega arith, b2)))
        ])

  repetition-Reads :
      (symbol : ℕ) (dist : Huffman) (out : Bytes) (p : Place)
      → p.bit < 8
      → symbol ≤ 285
      → IsTable dist
      → Reads source (λ r. r.1) 0 p (repetition source symbol dist out p)
  unfolding repetition
  repetition-Reads symbol dist out p h top k =
      after (λ r. Unit) (λ r. r.1) 0 p (table_row len_table (symbol - 257)) _
        (table_row-Yields len_table (symbol - 257) (omega (arith, top)))
        (λ row u.
          Reads-bind source (λ r. r.1) (λ r. r.1) 0 0 p (bits source row.1 p) _
            (bits_loop-Reads source row.1 0 0 p h)
            (λ extra m b. Reads-less source _ 1 0 extra.1 _ (omega arith) (
              Reads-bind source (λ r. r.1) (λ r. r.1) 1 0 extra.1 (decode source dist extra.1) _
                (decode-Reads dist extra.1 b k)
                (λ dsym m1 b1. elim (Bool-cases (leb 30 dsym.0)) [
                  | inl bad ↦ rw bad (λ e. cc)
                  | inr fits ↦ rw fits (
                      after (λ (r : ℕ × ℕ). 1 ≤ r.0) (λ r. r.1) 0 dsym.1
                        (table_row dist_table dsym.0) _
                        (dist_row-Yields dsym.0 (ground (arith, fits)))
                        (λ drow one. distance_copied row.0 drow.0 drow.1 extra.0 out dsym.1 b1 one))
                ]))))

  pub inflate_block-Reads :
      (n : ℕ) (lit dist : Huffman) (out : Bytes) (p : Place)
      → p.bit < 8
      → room source p < n
      → IsTable lit
      → IsTable dist
      → Reads source (λ r. r.1) 0 p (inflate_block source n lit dist out p)
  unfolding inflate_block
  inflate_block-Reads zero lit dist out p h f kl kd = absurd (omega arith)
  inflate_block-Reads (suc n) lit dist out p h f kl kd = Reads-less source _ 1 0 p _ (omega arith) (
      Reads-bind source (λ r. r.1) (λ r. r.1) 1 0 p (decode source lit p) _
        (decode-Reads lit p h kl)
        (λ r m b. elim (Bool-cases (ltb r.0 256)) [
          | inl literal ↦
              rw (Reads, literal)
                (inflate_block-Reads n lit dist (out ++ r.0 ∷ []) r.1 b (omega (arith, f, m)) kl kd)
          | inr above ↦ elim (Bool-cases (r.0 == 256)) [
            | inl final ↦ rw (Reads, above, final) (omega arith, b)
            | inr other ↦ elim (Bool-cases (within 257 285 r.0)) [
              | inr bad ↦ rw (Reads, above, other, bad) (λ e. cc)
              | inl repeated ↦
                  rw (Reads, above, other, repeated)
                    (Reads-bind source (λ r. r.1) (λ r. r.1) 0 0 r.1
                      (repetition source r.0 dist out r.1) _
                      (repetition-Reads r.0 dist out r.1 b (ground (arith, repeated)) kd)
                      (λ s m1 b1.
                        inflate_block-Reads n lit dist s.0 s.1 b1 (omega (arith, f, m, m1)) kl kd))
            ]
          ]
        ]))

  stored-Reads :
      (n : ℕ) (out : Bytes) (p : Place)
      → p.bit < 8
      → Reads source (λ r. r.1) 0 p (stored source n out p)
  unfolding stored
  stored-Reads zero out p h = (omega arith, h)
  stored-Reads (suc n) out p h =
      Reads-bind source (λ r. r.1) (λ r. r.1) 0 0 p (bytes source 1 p) _
        (bytes_loop-Reads source 1 0 0 p h) (λ r m b. stored-Reads n (out ++ r.0 ∷ []) r.1 b)

  align_byte-room :
      (p : Place)
      → p.bit < 8
      → (room source (align_byte p) ≤ room source p) × ((align_byte p).bit < 8)
  align_byte-room p h = elim (Bool-cases (p.bit == 0)) [
    | inl whole ↦ rw (align_byte, whole) (omega arith, h)
    | inr part ↦ rw (align_byte, part) (omega (arith, h), omega arith)
  ]

  pub stored_block-Reads :
      (out : Bytes) (p : Place)
      → p.bit < 8
      → Reads source (λ r. r.1) 0 p (stored_block source out p)
  unfolding stored_block
  stored_block-Reads out p h =
      let q = align_byte p in
      let moved = align_byte-room p h in
      Reads-from source (λ r. r.1) 0 0 p q _ (omega (arith, moved.0))
        (Reads-bind source (λ r. r.1) (λ r. r.1) 0 0 q (bytes source 2 q) _
          (bytes_loop-Reads source 2 0 0 q moved.1)
          (λ len m b.
            Reads-bind source (λ r. r.1) (λ r. r.1) 0 0 len.1 (bytes source 2 len.1) _
              (bytes_loop-Reads source 2 0 0 len.1 b)
              (λ nlen m1 b1. elim (Bool-cases (len.0 == 0xffff - nlen.0)) [
                | inl same ↦ rw same (stored-Reads len.0 out nlen.1 b1)
                | inr other ↦ rw other (λ e. cc)
              ])))
