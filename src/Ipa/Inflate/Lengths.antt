-- ===== src/Ipa/Inflate/Lengths.antt =====
-- The code lengths of a dynamic block.
use perun.Base.{
  ℕ, zero, suc, ◌+◌, ◌<◌, sym, subst, All, inl, inr, List, [], ◌∷◌, ◌++◌, length, get_or, replicate,
  Bytes, ltb, ◌==◌, Bool-cases, arith,
}
use perun.Ipa.Bits.{no_predecessor, done, failed, ◌>>=◌, Place, bits}
use perun.Ipa.Huffman.{Huffman, decode}
use perun.Ipa.Inflate.{code_lengths, add_lengths, read_lengths}
use perun.Ipa.Inflate.Reading.{room, Reads, Reads-less, Reads-bind, bits_loop-Reads}
use perun.Ipa.Inflate.Blocks.{decode-Reads}
use perun.Ipa.Huffman.Tables.{IsTable}
use perun.Ipa.Huffman.Arrays.{set_at-IsWritten}

module _ (source : Bytes) where
  pub code_lengths-Reads :
      (idxs lens : List ℕ) (p : Place)
      → p.bit < 8
      → All (λ i. i < length lens) idxs
      → Reads source (λ r. r.1) 0 p (code_lengths source idxs lens p)
  unfolding code_lengths
  code_lengths-Reads [] lens p h a = (omega arith, h)
  code_lengths-Reads (idx ∷ rest) lens p h a =
      Reads-bind source (λ r. r.1) (λ r. r.1) 0 0 p (bits source 3 p) _
        (bits_loop-Reads source 3 0 0 p h)
        (λ r m b.
          let k = set_at-IsWritten idx r.0 lens a.0 in
          rw (Reads, k.returns)
            (code_lengths-Reads rest k.ys r.1 b
              (subst (λ n. All (λ i. i < n) rest) (sym k.same_length) a.1)))

  -- A run of lengths, its number read from `n` bits.
  run-Reads :
      (n : ℕ) (f : ℕ → List ℕ) (p : Place)
      → p.bit < 8
      → Reads source {A = List ℕ × Place}
          (λ r. r.1)
          0
          p
          (bits source n p >>= λ r. done (f r.0, r.1))
  run-Reads n f p h =
      Reads-bind source (λ r. r.1) (λ r. r.1) 0 0 p (bits source n p) _
        (bits_loop-Reads source n 0 0 p h) (λ r m b. (omega arith, b))

  add_lengths-Reads :
      (sym : ℕ) (lens : List ℕ) (p : Place)
      → p.bit < 8
      → Reads source (λ r. r.1) 0 p (add_lengths source sym lens p)
  unfolding add_lengths
  add_lengths-Reads sym lens p h = elim (Bool-cases (ltb sym 16)) [
    | inl literal ↦ rw literal (omega arith, h)
    | inr a ↦ elim (Bool-cases (sym == 16)) [
      | inl again ↦ rw (a, again) (previous lens)
      | inr c ↦ elim (Bool-cases (sym == 17)) [
        | inl zeros ↦ rw (a, c, zeros) (run-Reads 3 (λ n. lens ++ replicate (3 + n) 0) p h)
        | inr d ↦ elim (Bool-cases (sym == 18)) [
          | inl zeros ↦ rw (a, c, d, zeros) (run-Reads 7 (λ n. lens ++ replicate (11 + n) 0) p h)
          | inr bad ↦ rw (a, c, d, bad) (λ e. cc)
        ]
      ]
    ]
  ]
    where
      previous :
          (ls : List ℕ)
          → Reads source {A = List ℕ × Place}
              (λ r. r.1)
              0
              p
              (elim (length ls) [
                | zero ↦ failed no_predecessor
                | suc last ↦ bits source 2 p >>= λ r.
                    done (ls ++ replicate (3 + r.0) (get_or ls last 0), r.1)
              ])
      previous [] = λ e. cc
      previous (l ∷ ls) =
          run-Reads 2 (λ n. l ∷ ls ++ replicate (3 + n) (get_or (l ∷ ls) (length ls) 0)) p h

  pub read_lengths-Reads :
      (n wanted : ℕ) (t : Huffman) (lens : List ℕ) (p : Place)
      → p.bit < 8
      → room source p < n
      → IsTable t
      → Reads source (λ r. r.1) 0 p (read_lengths source n wanted t lens p)
  unfolding read_lengths
  read_lengths-Reads zero wanted t lens p h f k = absurd (omega arith)
  read_lengths-Reads (suc n) wanted t lens p h f k = elim (Bool-cases (ltb (length lens) wanted)) [
    | inr enough ↦ rw (Reads, enough) (omega arith, h)
    | inl more ↦
        rw (Reads, more)
          (Reads-less source _ 1 0 p _ (omega arith) (
            Reads-bind source (λ r. r.1) (λ r. r.1) 1 0 p (decode source t p) _
              (decode-Reads source t p h k)
              (λ sym m b.
                Reads-bind source (λ r. r.1) (λ r. r.1) 0 0 sym.1
                  (add_lengths source sym.0 lens sym.1) _ (add_lengths-Reads sym.0 lens sym.1 b)
                  (λ r m1 b1.
                    read_lengths-Reads n wanted t r.0 r.1 b1 (omega (arith, f, m, m1)) k))))
  ]
