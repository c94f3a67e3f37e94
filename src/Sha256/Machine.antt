-- ===== src/Sha256/Machine.antt =====
-- A reference machine for SHA-256 that takes one byte at a time, and what it does with runs of bytes.
use mathlib.Core.List.{foldl}
use perun.Base.{
  ℕ, zero, suc, ◌+◌, ◌≤◌, ◌<◌, ◌≡◌, refl, sym, ap, ◌∙◌, inl, inr, [], ◌∷◌, ◌++◌, append-nil,
  append_assoc, length, take, drop, Bytes, ltb, ltb→lt, ltb→ge, ◌==◌, if◌then◌else◌, Bool-cases,
  length-append, length-take, length-drop, take-append-drop, arith,
}
use perun.Sha256.{Words, initial_words, as_chunks, compress_blocks, compress}

-- It compresses as soon as 64 bytes wait.
pub record Machine : Type 0 where
  pub words : Words
  pub pending : Bytes

abbrev pub at : Words → Bytes → Machine
at w p = record { words = w; pending = p }

abbrev pub start : Machine
start = at initial_words []

abbrev pub absorb : Machine → ℕ → Machine
absorb m b =
    let waiting = m.pending ++ b ∷ [] in
    if length waiting == 64 then at (compress m.words waiting) [] else at m.words waiting

abbrev pub absorb_all : Machine → Bytes → Machine
absorb_all = foldl absorb

absorb-short :
    (w : Words) (p : Bytes) (x : ℕ) → length p + 1 < 64 → absorb (at w p) x ≡ at w (p ++ x ∷ [])
absorb-short w p x h = ground (arith, length-append p (x ∷ []))

absorb-full :
    (w : Words) (p : Bytes) (x : ℕ)
    → length p + 1 ≡ 64
    → absorb (at w p) x ≡ at (compress w (p ++ x ∷ [])) []
absorb-full w p x h = ground (arith, length-append p (x ∷ []))

-- Bytes that do not fill the block wait.
pub absorb_all-short :
    (w : Words) (p xs : Bytes) → length p + length xs < 64 → absorb_all (at w p) xs ≡ at w (p ++ xs)
absorb_all-short w p [] h = ap (at w) (sym (append-nil p))
absorb_all-short w p (x ∷ xs) h = rw (absorb-short w p x (omega arith)) (
    absorb_all-short w (p ++ x ∷ []) xs (omega (arith, length-append p (x ∷ [])))
    ∙ ap (at w) (append_assoc p (x ∷ []) xs))

-- Bytes that just fill the block compress it.
pub absorb_all-full :
    (w : Words) (p xs : Bytes)
    → length p < 64
    → length p + length xs ≡ 64
    → absorb_all (at w p) xs ≡ at (compress w (p ++ xs)) []
absorb_all-full w p [] k h = absurd (omega arith)
absorb_all-full w p (x ∷ []) k h = absorb-full w p x h
absorb_all-full w p (x ∷ y ∷ xs) k h = rw (absorb-short w p x (omega arith)) (
    absorb_all-full w (p ++ x ∷ []) (y ∷ xs) (omega (arith, length-append p (x ∷ [])))
      (omega (arith, length-append p (x ∷ [])))
    ∙ ap (λ q. at (compress w q) []) (append_assoc p (x ∷ []) (y ∷ xs)))

pub absorb_all-append :
    (m : Machine) (xs ys : Bytes) → absorb_all m (xs ++ ys) ≡ absorb_all (absorb_all m xs) ys
absorb_all-append m [] ys = refl
absorb_all-append m (x ∷ xs) ys = absorb_all-append (absorb m x) xs ys

-- Cutting a run into blocks and compressing them is what the machine does, byte for byte.
pub absorb_all-as_chunks :
    (n : ℕ) (w : Words) (xs : Bytes)
    → length xs ≤ n
    → absorb_all (at w []) xs ≡ at (compress_blocks w (as_chunks n xs).0) (as_chunks n xs).1
unfolding as_chunks compress_blocks
absorb_all-as_chunks zero w [] h = refl
absorb_all-as_chunks zero w (x ∷ xs) h = absurd (omega arith)
absorb_all-as_chunks (suc n) w xs h = elim (Bool-cases (ltb (length xs) 64)) [
  | inl short ↦ rw short (absorb_all-short w [] xs (omega (arith, ltb→lt (length xs) 64 short)))
  | inr long ↦ rw long (
      ap (absorb_all (at w [])) (sym (take-append-drop 64 xs))
      ∙ absorb_all-append (at w []) (take 64 xs) (drop 64 xs)
      ∙ ap (λ m. absorb_all m (drop 64 xs))
          (absorb_all-full w [] (take 64 xs) (omega arith)
            (omega (arith, length-take 64 xs, ltb→ge (length xs) 64 long)))
      ∙ absorb_all-as_chunks n (compress w (take 64 xs)) (drop 64 xs)
          (omega (arith, length-drop 64 xs, ltb→ge (length xs) 64 long)))
]

-- What is left after the whole blocks does not fill one.
pub as_chunks-rest : (n : ℕ) (xs : Bytes) → length xs ≤ n → length (as_chunks n xs).1 < 64
unfolding as_chunks
as_chunks-rest zero [] h = omega arith
as_chunks-rest zero (x ∷ xs) h = absurd (omega arith)
as_chunks-rest (suc n) xs h = elim (Bool-cases (ltb (length xs) 64)) [
  | inl short ↦ rw short (ltb→lt (length xs) 64 short)
  | inr long ↦
      rw long (
        as_chunks-rest n (drop 64 xs)
          (omega (arith, length-drop 64 xs, ltb→ge (length xs) 64 long)))
]
