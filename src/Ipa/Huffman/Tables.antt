-- ===== src/Ipa/Huffman/Tables.antt =====
-- Building a table never indexes out of range, and its symbols are as many as its counts say.
use perun.Base.{
  ℕ, zero, suc, ◌+◌, ◌≤◌, ◌<◌, ◌≡◌, refl, sym, subst, ap, ◌∙◌, inl, inr, not, List, [], ◌∷◌, All,
  length, get_or, drop, retain, replicate, length-replicate, leb, ◌==◌, ==→eq, ==→ne, Bool-cases,
  arith,
}
use perun.Ipa.Bits.{out_of_fuel, Outcome, done, failed, panicked, ◌>>=◌}
use perun.Ipa.Huffman.{
  Huffman, set_at, or_panic, count_lens, offsets_from, place_symbols, build_huffman_table,
}
use perun.Ipa.Huffman.Arrays.{
  sum, occurrences, IsWritten, set_at-IsWritten, get_elem?-get_or, get_or-offsets_from,
  length-offsets_from, length-retain_used,
}

-- A result with the property, or an error of the code: no panic, and fuel enough.
abbrev pub Yields {ℓ} : {A : Type ℓ} → (A → Type 0) → Outcome A → Type 0
Yields P (done a) = P a
Yields P (failed e) = ¬ (e ≡ out_of_fuel)
Yields P panicked = ⊥

pub Yields-bind {ℓ κ} :
    {A : Type ℓ} {B : Type κ} (P : A → Type 0) (Q : B → Type 0) (m : Outcome A) (f : A → Outcome B)
    → Yields P m
    → ((a : A) → P a → Yields Q (f a))
    → Yields Q (m >>= f)
Yields-bind P Q (done a) f h g = g a h
Yields-bind P Q (failed e) f h g = h
Yields-bind P Q panicked f h g = absurd h

pub Yields-map {ℓ} :
    {A : Type ℓ} (P Q : A → Type 0) (m : Outcome A)
    → ((a : A) → P a → Q a)
    → Yields P m
    → Yields Q m
Yields-map P Q (done a) f h = f a h
Yields-map P Q (failed e) f h = h
Yields-map P Q panicked f h = h

-- A write in range is made.
or_panic-set_at :
    (i v : ℕ) (xs : List ℕ) (Q : List ℕ → Type 0)
    → i < length xs
    → ((k : IsWritten i v xs) → Q k.ys)
    → Yields Q (or_panic (set_at i v xs))
or_panic-set_at i v xs Q h q = let k = set_at-IsWritten i v xs h in rw k.returns (q k)

-- What the counting loop has found.
record IsCounted (counts lens found : List ℕ) : Type 0 where
  same_length : length found ≡ length counts
  each : (l : ℕ) → get_or found l 0 ≡ get_or counts l 0 + occurrences l lens
  total : sum found ≡ sum counts + length lens
  short : All (λ l. l < length counts) lens

-- One more length is counted at its own place.
counted_one :
    (counts c found : List ℕ) (l j : ℕ) (lens : List ℕ)
    → get_or c l 0 ≡ get_or counts l 0 + 1
    → (¬ (j ≡ l) → get_or c j 0 ≡ get_or counts j 0)
    → get_or found j 0 ≡ get_or c j 0 + occurrences j lens
    → get_or found j 0 ≡ get_or counts j 0 + occurrences j (l ∷ lens)
counted_one counts c found l j lens here other each = elim (Bool-cases (l == j)) [
  | inl e ↦
      let same = ==→eq l j e in
      rw e
        (omega (arith, each, here, ap (λ t. get_or c t 0) same, ap (λ t. get_or counts t 0) same))
  | inr ne ↦ rw ne (omega (arith, each, other (λ e. ==→ne l j ne (sym e))))
]

count_lens-IsCounted :
    (counts lens : List ℕ) → Yields (IsCounted counts lens) (count_lens counts lens)
unfolding count_lens
count_lens-IsCounted counts [] = record {
  same_length = refl;
  each = λ l. omega arith;
  total = omega arith;
  short = tt;
}
count_lens-IsCounted counts (l ∷ lens) = elim (Bool-cases (leb (length counts) l)) [
  | inl bad ↦ rw bad (λ e. cc)
  | inr fits ↦ rw fits (
      Yields-bind
        (λ c.
          (length c ≡ length counts)
          × (get_or c l 0 ≡ get_or counts l 0 + 1)
          × ((j : ℕ) → ¬ (j ≡ l) → get_or c j 0 ≡ get_or counts j 0)
          × (sum c ≡ sum counts + 1))
        _ _ _
        (or_panic-set_at l (get_or counts l 0 + 1) counts _ (ground (arith, fits))
          (λ k. (k.same_length, k.there, k.elsewhere, omega (arith, k.total))))
        (λ c h.
          Yields-map (IsCounted c lens) _ (count_lens c lens)
            (λ found k. record {
              same_length = k.same_length ∙ h.0;
              each = λ j. counted_one counts c found l j lens h.1 (h.2 j) (k.each j);
              total = omega (arith, k.total, h.3);
              short = (ground (arith, fits), subst (λ n. All (λ m. m < n) lens) h.0 k.short);
            })
            (count_lens-IsCounted c lens)))
]

-- Each length has room for the symbols that are still to come.
HasRoom : List ℕ → List ℕ → List ℕ → Type 0
HasRoom offsets symbols lens =
    (l : ℕ) → 1 ≤ l → get_or offsets l 0 + occurrences l lens ≤ length symbols

-- The offset of `l` has moved one symbol on.
abbrev IsMoved : ℕ → ℕ → List ℕ → List ℕ → Type 0
IsMoved l at offsets o =
    (length o ≡ length offsets)
    × (get_or o l 0 ≡ at + 1)
    × ((j : ℕ) → ¬ (j ≡ l) → get_or o j 0 ≡ get_or offsets j 0)

room_left :
    (offsets symbols s o : List ℕ) (l j : ℕ) (lens : List ℕ) (at : ℕ)
    → at ≡ get_or offsets l 0
    → length s ≡ length symbols
    → IsMoved l at offsets o
    → get_or offsets j 0 + occurrences j (l ∷ lens) ≤ length symbols
    → get_or o j 0 + occurrences j lens ≤ length s
room_left offsets symbols s o l j lens at e same k r = elim (Bool-cases (l == j)) [
  | inl here ↦
      let at_j = ==→eq l j here in
      let before : get_or offsets j 0 + (1 + occurrences j lens) ≤ length symbols = rw here at r in
      omega (
        arith,
        before,
        same,
        e,
        k.1,
        ap (λ t. get_or o t 0) at_j,
        ap (λ t. get_or offsets t 0) at_j,
      )
  | inr other ↦
      let before : get_or offsets j 0 + (0 + occurrences j lens) ≤ length symbols = rw other at r in
      omega (arith, before, same, k.2 j (λ p. ==→ne l j other (sym p)))
]

place_symbols-length :
    (n : ℕ) (offsets symbols lens : List ℕ)
    → All (λ l. l < length offsets) lens
    → HasRoom offsets symbols lens
    → Yields (λ s. length s ≡ length symbols) (place_symbols n offsets symbols lens)
unfolding place_symbols HasRoom
place_symbols-length n offsets symbols [] a r = refl
place_symbols-length n offsets symbols (l ∷ lens) a r = elim (Bool-cases (l == 0)) [
  | inl unused ↦
      rw (Yields, unused)
        (place_symbols-length (n + 1) offsets symbols lens a.1 (λ j one. omega (arith, r j one)))
  | inr used ↦
      let at = get_or offsets l 0 in
      let own : occurrences l (l ∷ lens) ≡ 1 + occurrences l lens = ground arith in
      let room = r l (omega (arith, ==→ne l 0 used)) in
      rw (Yields, used, get_elem?-get_or l offsets a.0)
        (Yields-bind (λ s. length s ≡ length symbols) _ _ _
          (or_panic-set_at at n symbols _ (omega (arith, own, room)) (λ k. k.same_length))
          (λ s same.
            Yields-bind (IsMoved l at offsets) _ _ _
              (or_panic-set_at l (at + 1) offsets _ a.0
                (λ k. (k.same_length, k.there, k.elsewhere)))
              (λ o k.
                Yields-map (λ t. length t ≡ length s) _ _ (λ t e. e ∙ same)
                  (place_symbols-length (n + 1) o s lens
                    (subst (λ n. All (λ m. m < n) lens) (sym k.0) a.1)
                    (λ j one. room_left offsets symbols s o l j lens at refl same k (r j one))))))
]

-- The symbols of a table are enough for its counts.
abbrev pub IsTable : Huffman → Type 0
IsTable t = sum (drop 1 t.counts) ≤ length t.symbols

sum-drop_le : (xs : List ℕ) → sum (drop 1 xs) ≤ sum xs
sum-drop_le [] = omega arith
sum-drop_le (x ∷ xs) = omega arith

-- The counts without that of length 0.
abbrev IsZeroed : List ℕ → List ℕ → Type 0
IsZeroed raw counts =
    (length counts ≡ length raw)
    × ((j : ℕ) → ¬ (j ≡ 0) → get_or counts j 0 ≡ get_or raw j 0)
    × (sum counts + get_or raw 0 0 ≡ sum raw)

get_or-replicate : (n j : ℕ) → get_or (replicate {A = ℕ} n 0) j 0 ≡ 0
get_or-replicate zero j = refl
get_or-replicate (suc n) zero = refl
get_or-replicate (suc n) (suc j) = get_or-replicate n j

pub build_huffman_table-IsTable : (lens : List ℕ) → Yields IsTable (build_huffman_table lens)
unfolding build_huffman_table HasRoom
build_huffman_table-IsTable lens =
    let used = length (retain (λ l. not (l == 0)) lens) in
    Yields-bind (IsCounted (replicate 16 0) lens) _ _ _ (count_lens-IsCounted (replicate 16 0) lens)
      (λ raw c.
        Yields-bind (IsZeroed raw) _ _ _
          (or_panic-set_at 0 0 raw _ (omega (arith, c.same_length))
            (λ k. (k.same_length, k.elsewhere, omega (arith, k.total))))
          (λ counts z.
            let all_used : sum counts ≡ used =
              omega (arith, z.2, c.total, c.each 0, length-retain_used lens) in
            let size : length (replicate {A = ℕ} used 0) ≡ used = length-replicate used 0 in
            let places = sym (length-offsets_from 0 counts ∙ z.0 ∙ c.same_length) in
            Yields-bind (λ s. length s ≡ length (replicate {A = ℕ} used 0)) _ _ _
              (place_symbols-length 0 (offsets_from 0 counts) (replicate used 0) lens
                (subst (λ n. All (λ m. m < n) lens) places c.short)
                (λ j one. omega (
                  arith,
                  size,
                  all_used,
                  c.each j,
                  get_or-replicate 16 j,
                  one,
                  z.1 j (λ e. omega (arith, one, e)),
                  get_or-offsets_from 0 j counts,
                )))
              (λ symbols e. omega (arith, e, size, all_used, sum-drop_le counts))))
