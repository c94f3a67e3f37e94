-- ===== src/Ipa/Huffman.antt =====
-- The canonical Huffman tables of `inflate`, and the decoding of one symbol.
pub mod Arrays
pub mod Tables
use perun.Base.{
  ℕ, zero, suc, ◌+◌, ◌-◌, ◌*◌, bit_or, true, false, Option, none, some, List, [], ◌∷◌, length,
  get_elem?, get_or, retain, not, replicate, Bytes, ltb, leb, ◌==◌, if◌then◌else◌,
}
use perun.Ipa.Bits.{
  Outcome, done, failed, panicked, ◌>>=◌, bad_code_length, bad_huffman_code, Place, read_bit,
}

pub record Huffman : Type 0 where
  pub counts : List ℕ
  pub symbols : List ℕ

-- `xs[i] = v`; `none` is an index out of range.
unfoldable pub set_at : ℕ → ℕ → List ℕ → Option (List ℕ)
set_at i v [] = none
set_at zero v (x ∷ xs) = some (v ∷ xs)
set_at (suc i) v (x ∷ xs) = elim (set_at i v xs) [ none ↦ none | some ys ↦ some (x ∷ ys) ]

abbrev pub or_panic : Option (List ℕ) → Outcome (List ℕ)
or_panic none = panicked
or_panic (some xs) = done xs

-- The loop that counts the codes of each length.
unfoldable pub count_lens : List ℕ → List ℕ → Outcome (List ℕ)
unfolding set_at
count_lens counts [] = done counts
count_lens counts (l ∷ lens) =
    if leb (length counts) l
    then failed bad_code_length
    else (or_panic (set_at l (get_or counts l 0 + 1) counts) >>= λ counts'. count_lens counts' lens)

-- `offsets[i] = offsets[i - 1] + counts[i - 1]`
unfoldable pub offsets_from : ℕ → List ℕ → List ℕ
offsets_from acc [] = []
offsets_from acc (c ∷ cs) = acc ∷ offsets_from (acc + c) cs

-- The loop that places the symbols, from symbol `sym` on.
unfoldable pub place_symbols : ℕ → List ℕ → List ℕ → List ℕ → Outcome (List ℕ)
unfolding set_at
place_symbols sym offsets symbols [] = done symbols
place_symbols sym offsets symbols (l ∷ lens) = elim (l == 0) [
  | true ↦ place_symbols (sym + 1) offsets symbols lens
  | false ↦ elim (get_elem? offsets l) [
    | none ↦ panicked
    | some at ↦ or_panic (set_at at sym symbols) >>= λ symbols'.
        or_panic (set_at l (at + 1) offsets) >>= λ offsets'.
        place_symbols (sym + 1) offsets' symbols' lens
  ]
]

unfoldable pub build_huffman_table : List ℕ → Outcome Huffman
unfolding count_lens offsets_from place_symbols
build_huffman_table lens = count_lens (replicate 16 0) lens >>= λ raw.
    or_panic (set_at 0 0 raw) >>= λ counts.
    let used = length (retain (λ l. not (l == 0)) lens) in
    place_symbols 0 (offsets_from 0 counts) (replicate used 0) lens >>= λ symbols.
    done (record { counts = counts; symbols = symbols })

module _ (source : Bytes) where
  -- The loop of `decode` over `1..16`, with `n` lengths left. `code` is never below `first`.
  unfoldable pub decode_lengths : ℕ → ℕ → ℕ → ℕ → ℕ → Huffman → Place → Outcome (ℕ × Place)
  unfolding read_bit
  decode_lengths zero len code first index h p = failed bad_huffman_code
  decode_lengths (suc n) len code first index h p = read_bit source p >>= λ r.
      let code' = bit_or code r.0 in
      let count = get_or h.counts len 0 in
      if ltb code' (first + count)
      then elim (get_elem? h.symbols (index + code' - first)) [
        | none ↦ panicked
        | some s ↦ done (s, r.1)
      ]
      else decode_lengths n (len + 1) (code' * 2) ((first + count) * 2) (index + count) h r.1

  abbrev pub decode : Huffman → Place → Outcome (ℕ × Place)
  decode h p = decode_lengths 15 1 0 0 0 h p
