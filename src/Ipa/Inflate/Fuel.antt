-- ===== src/Ipa/Inflate/Fuel.antt =====
-- What is left of the source pays for every turn of the loops of `inflate`, and no index is out of range.
use perun.Base.{
  ℕ, zero, suc, ◌+◌, ◌*◌, ◌≤◌, ◌<◌, bit_or, ◌≡◌, refl, inl, inr, ◌⊎◌, List, [], length, take, drop,
  replicate, Bytes, ◌==◌, if◌then◌else◌, Bool-cases, arith,
}
use perun.Ipa.Bits.{
  InflateError, out_of_fuel, length_overflow, Outcome, done, failed, panicked, ◌>>=◌, Place,
  read_bit, bits,
}
use perun.Ipa.Huffman.{build_huffman_table}
use perun.Ipa.Inflate.{
  order, fixed_lens, dist_lens, turns, inflate_block, five_bits, code_lengths, read_lengths,
  fixed_block, dynamic_block, block, inflate_loop, inflate,
}
use perun.Ipa.Inflate.Reading.{
  room, Reads, Reads-bind, read_bit-Reads, bits_loop-Reads, five_loop-Reads,
}
use perun.Ipa.Inflate.Lookups.{All-take}
use perun.Ipa.Inflate.Blocks.{after, inflate_block-Reads, stored_block-Reads}
use perun.Ipa.Huffman.Tables.{Yields, IsTable, build_huffman_table-IsTable}
use perun.Ipa.Inflate.Lengths.{code_lengths-Reads, read_lengths-Reads}

-- A part that reads, in front of one whose place does not matter.
Yields-behind {ℓ κ} :
    (source : Bytes) {A : Type ℓ} {B : Type κ} (place : A → Place) (k : ℕ) (p : Place)
    (m : Outcome A) (f : A → Outcome B)
    → Reads source place k p m
    → ((a : A)
        → room source (place a) + k ≤ room source p
        → (place a).bit < 8
        → Yields (λ b. Unit) (f a))
    → Yields (λ b. Unit) (m >>= f)
Yields-behind source place k p (done a) f h g = g a h.0 h.1
Yields-behind source place k p (failed e) f h g = h
Yields-behind source place k p panicked f h g = absurd h

returned :
    (m : Outcome Bytes)
    → Yields (λ o. Unit) m
    → ((out : Bytes) × (m ≡ done out))
      ⊎ ((e : InflateError) × (m ≡ failed e) × (¬ (e ≡ out_of_fuel)))
returned (done out) h = inl (out, refl)
returned (failed e) h = inr (e, refl, h)
returned panicked h = absurd h

module _ (source : Bytes) where
  -- The turns that a loop is given are more than the bits that are left.
  room-turns : (p : Place) → room source p < turns source
  room-turns p = omega arith

  fixed_block-Reads :
      (out : Bytes) (p : Place) → p.bit < 8 → Reads source (λ r. r.1) 0 p (fixed_block source out p)
  unfolding fixed_block
  fixed_block-Reads out p h =
      after source IsTable (λ r. r.1) 0 p (build_huffman_table fixed_lens) _
        (build_huffman_table-IsTable fixed_lens)
        (λ lit kl.
          after source IsTable (λ r. r.1) 0 p (build_huffman_table dist_lens) _
            (build_huffman_table-IsTable dist_lens)
            (λ dist kd.
              inflate_block-Reads source (turns source) lit dist out p h (room-turns p) kl kd))

  -- The two trees of a dynamic block and what they code.
  trees-Reads :
      (hlit wanted : ℕ) (lens : List ℕ) (out : Bytes) (p : Place)
      → p.bit < 8
      → Reads source
          (λ r. r.1)
          0
          p
          (if length lens == wanted
            then (build_huffman_table (take hlit lens) >>= λ lit.
                build_huffman_table (drop hlit lens) >>= λ dist.
                inflate_block source (turns source) lit dist out p)
            else failed length_overflow)
  trees-Reads hlit wanted lens out p h = elim (Bool-cases (length lens == wanted)) [
    | inr over ↦ rw over (λ e. cc)
    | inl whole ↦ rw whole (
        after source IsTable (λ r. r.1) 0 p (build_huffman_table (take hlit lens)) _
          (build_huffman_table-IsTable (take hlit lens))
          (λ lit kl.
            after source IsTable (λ r. r.1) 0 p (build_huffman_table (drop hlit lens)) _
              (build_huffman_table-IsTable (drop hlit lens))
              (λ dist kd.
                inflate_block-Reads source (turns source) lit dist out p h (room-turns p) kl kd)))
  ]

  dynamic_block-Reads :
      (out : Bytes) (p : Place)
      → p.bit < 8
      → Reads source (λ r. r.1) 0 p (dynamic_block source out p)
  unfolding dynamic_block
  dynamic_block-Reads out p h =
      Reads-bind source (λ r. r.1) (λ r. r.1) 0 0 p (five_bits source p) _
        (five_loop-Reads source 5 0 0 p h)
        (λ r1 m1 b1.
          Reads-bind source (λ r. r.1) (λ r. r.1) 0 0 r1.1 (five_bits source r1.1) _
            (five_loop-Reads source 5 0 0 r1.1 b1)
            (λ r2 m2 b2.
              Reads-bind source (λ r. r.1) (λ r. r.1) 0 0 r2.1 (bits source 4 r2.1) _
                (bits_loop-Reads source 4 0 0 r2.1 b2)
                (λ r3 m3 b3.
                  let idxs = take (r3.0 + 4) order in
                  Reads-bind source (λ r. r.1) (λ r. r.1) 0 0 r3.1
                    (code_lengths source idxs (replicate 19 0) r3.1) _
                    (code_lengths-Reads source idxs (replicate 19 0) r3.1 b3
                      (All-take _ (r3.0 + 4) order (omega arith)))
                    (λ cl m4 b4.
                      after source IsTable (λ r. r.1) 0 cl.1 (build_huffman_table cl.0) _
                        (build_huffman_table-IsTable cl.0)
                        (λ t k.
                          let wanted = r1.0 + 257 + (r2.0 + 1) in
                          Reads-bind source (λ r. r.1) (λ r. r.1) 0 0 cl.1
                            (read_lengths source (turns source) wanted t [] cl.1) _
                            (read_lengths-Reads source (turns source) wanted t [] cl.1 b4
                              (room-turns cl.1) k)
                            (λ r m5 b5. trees-Reads (r1.0 + 257) wanted r.0 out r.1 b5))))))

  block-Reads :
      (btype : ℕ) (out : Bytes) (p : Place)
      → p.bit < 8
      → Reads source (λ r. r.1) 0 p (block source btype out p)
  unfolding block
  block-Reads btype out p h = elim (Bool-cases (btype == 0)) [
    | inl e ↦ rw e (stored_block-Reads source out p h)
    | inr a ↦ elim (Bool-cases (btype == 1)) [
      | inl e ↦ rw (a, e) (fixed_block-Reads out p h)
      | inr b ↦ elim (Bool-cases (btype == 2)) [
        | inl e ↦ rw (a, b, e) (dynamic_block-Reads out p h)
        | inr c ↦ rw (a, b, c) (λ e. cc)
      ]
    ]
  ]

  inflate_loop-Yields :
      (n : ℕ) (out : Bytes) (p : Place)
      → p.bit < 8
      → room source p < n
      → Yields (λ o. Unit) (inflate_loop source n out p)
  unfolding inflate_loop
  inflate_loop-Yields zero out p h f = absurd (omega arith)
  inflate_loop-Yields (suc n) out p h f =
      Yields-behind source (λ r. r.1) 1 p (read_bit source p) _ (read_bit-Reads source p h)
        (λ final m b.
          Yields-behind source (λ r. r.1) 1 final.1 (read_bit source final.1) _
            (read_bit-Reads source final.1 b)
            (λ low m1 b1.
              Yields-behind source (λ r. r.1) 1 low.1 (read_bit source low.1) _
                (read_bit-Reads source low.1 b1)
                (λ high m2 b2.
                  Yields-behind source (λ r. r.1) 0 high.1
                    (block source (bit_or low.0 (high.0 * 2)) out high.1) _
                    (block-Reads (bit_or low.0 (high.0 * 2)) out high.1 b2)
                    (λ r m3 b3. elim (Bool-cases (final.0 == 1)) [
                      | inl last ↦ rw (Yields, last) tt
                      | inr more ↦
                          rw (Yields, more)
                            (inflate_loop-Yields n r.0 r.1 b3 (omega (arith, f, m, m1, m2, m3)))
                    ]))))

-- Inflating ends on every input, with bytes or with an error of the code: no index is out of range, and
-- no loop needs more turns than the source has bits, and one.
pub inflate-outcome :
    (source : Bytes)
    → ((out : Bytes) × (inflate source ≡ done out))
      ⊎ ((e : InflateError) × (inflate source ≡ failed e) × (¬ (e ≡ out_of_fuel)))
unfolding inflate
inflate-outcome source = returned (inflate source) (
    inflate_loop-Yields source (turns source) [] (record { pos = 0; bit = 0 }) (omega arith)
      (omega arith))
