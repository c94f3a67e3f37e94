-- ===== src/Ipa/Zip/Package/Reads.antt =====
-- Reading through the file gives its bytes, however the system cuts the reads.
use perun.Base.{
  ℕ, zero, suc, ◌+◌, ◌-◌, ◌≤◌, ◌<◌, min, ◌≡◌, ◌⊎◌, inl, inr, refl, sym, ap, ◌∙◌, Option, some, [],
  ◌∷◌, ◌++◌, append_assoc, append-nil, length, length-take, length-drop, take, drop, take-length,
  drop-length, Bytes, Bool-cases, ltb, ltb→lt, ltb→ge, if◌then◌else◌, arith,
}
use perun.Ipa.Zip.{unexpected_end, done, failed}
use perun.Ipa.Zip.Package.{copy_buffer, read_loop, read_at, copy_loop, copy_range_to}

List-cases : (xs : Bytes) → (xs ≡ []) ⊎ ((b : ℕ) × (bs : Bytes) × (xs ≡ b ∷ bs))
List-cases [] = inl refl
List-cases (b ∷ bs) = inr (b, bs, refl)

take-split : (k m : ℕ) (xs : Bytes) → take k xs ++ take m (drop k xs) ≡ take (k + m) xs
take-split zero m xs = let e : 0 + m ≡ m = omega arith in ap (λ t. take t xs) (sym e)
take-split (suc k) m [] =
    take-length m [] (omega arith) ∙ sym (take-length (suc k + m) [] (omega arith))
take-split (suc k) m (x ∷ xs) =
    let e : suc k + m ≡ suc (k + m) = omega arith in
    ap (◌∷◌ x) (take-split k m xs) ∙ ap (λ t. take t (x ∷ xs)) (sym e)

drop-drop : (n k : ℕ) (xs : Bytes) → drop k (drop n xs) ≡ drop (n + k) xs
drop-drop zero k xs = let e : 0 + k ≡ k = omega arith in ap (λ t. drop t xs) (sym e)
drop-drop (suc n) k [] =
    drop-length k [] (omega arith) ∙ sym (drop-length (suc n + k) [] (omega arith))
drop-drop (suc n) k (x ∷ xs) =
    let e : suc n + k ≡ suc (n + k) = omega arith in
    drop-drop n k xs ∙ ap (λ t. drop t (x ∷ xs)) (sym e)

-- What a read of a file gives: at most the bytes asked for, from the place on, and at least one
-- where there is one.
abbrev pub ReadsFile : (ℕ → ℕ → Option Bytes) → Bytes → Type 0
ReadsFile read file =
    (off want : ℕ)
    → (n : ℕ) × (n ≤ want)
      × (read off want ≡ some (take n (drop off file)))
      × ((off < length file) → (0 < want) → 0 < n)

module _ (read : ℕ → ℕ → Option Bytes) (file : Bytes) (reads : ReadsFile read file) where
  -- One read in front of the end: a cons of `k` bytes.
  a_read :
      (off want : ℕ)
      → off < length file
      → 0 < want
      → (k : ℕ) × (b : ℕ) × (bs : Bytes) × (read off want ≡ some (b ∷ bs))
        × (take k (drop off file) ≡ b ∷ bs)
        × (k ≤ want)
        × (0 < k)
        × (length (b ∷ bs) ≡ min k (length file - off))
  a_read off want inside some_wanted =
      let (k, le, e, more) = reads off want in
      let positive = more inside some_wanted in
      let size : length (take k (drop off file)) ≡ min k (length file - off) =
        omega (arith, length-take k (drop off file), length-drop off file) in
      elim (List-cases (take k (drop off file))) [
        | inl nothing ↦ absurd (omega (arith, size, ap length nothing, positive, inside))
        | inr (b, bs, got) ↦
            (k, b, bs, e ∙ ap some got, got, le, positive, sym (ap length got) ∙ size)
      ]

  next_slice :
      (off k m : ℕ) (got : Bytes)
      → take k (drop off file) ≡ got
      → length got ≡ k
      → got ++ take m (drop (off + length got) file) ≡ take (k + m) (drop off file)
  next_slice off k m got e exact =
      ap (λ t. got ++ take m t) (ap (λ t. drop (off + t) file) exact ∙ sym (drop-drop off k file))
      ∙ ap (λ t. t ++ take m (drop k (drop off file))) (sym e)
      ∙ take-split k m (drop off file)

  read_loop-slice :
      (n off left : ℕ)
      → left ≤ n
      → off + left ≤ length file
      → read_loop read n off left ≡ done (take left (drop off file))
  unfolding read_loop
  read_loop-slice n off zero f h = refl
  read_loop-slice zero off (suc l) f h = absurd (omega arith)
  read_loop-slice (suc n) off (suc l) f h =
      let (k, b, bs, e, got, le, positive, size) = a_read off (suc l) (omega arith) (omega arith) in
      let m = suc l - length (b ∷ bs) in
      let exact : length (b ∷ bs) ≡ k = omega arith in
      let later = read_loop-slice n (off + length (b ∷ bs)) m (omega arith) (omega arith) in
      let sum : k + m ≡ suc l = omega arith in
      let joined = next_slice off k m (b ∷ bs) got exact ∙ ap (λ t. take t (drop off file)) sum in
      rw (read_loop, e, later) (ap done joined)

  read_loop-end :
      (n off left : ℕ)
      → left ≤ n
      → 0 < left
      → length file < off + left
      → read_loop read n off left ≡ failed unexpected_end
  unfolding read_loop
  read_loop-end n off zero f some_left h = absurd (omega arith)
  read_loop-end zero off (suc l) f some_left h = absurd (omega arith)
  read_loop-end (suc n) off (suc l) f some_left h = elim (Bool-cases (ltb off (length file))) [
    | inr past ↦
        let (k, le, e, more) = reads off (suc l) in
        let nothing : take k (drop off file) ≡ [] =
          ap (take k) (drop-length off file (ltb→ge off (length file) past))
          ∙ take-length k [] (omega arith) in
        rw (read_loop, e, nothing) refl
    | inl inside ↦
        let before = ltb→lt off (length file) inside in
        let (k, b, bs, e, got, le, positive, size) = a_read off (suc l) before (omega arith) in
        let later =
          read_loop-end n (off + length (b ∷ bs)) (suc l - length (b ∷ bs)) (omega arith)
            (omega arith) (omega arith) in
        rw (read_loop, e, later) refl
  ]

  -- However the system cuts the reads, `read_at` gives the bytes of the range where the file holds
  -- it, and the error of a file that ends too early elsewhere.
  pub read_at-range :
      (off len : ℕ)
      → 0 < len
      → read_at read off len ≡ (
          if ltb (length file) (off + len)
          then failed unexpected_end
          else done (take len (drop off file)))
  unfolding read_at
  read_at-range off len some_left = elim (Bool-cases (ltb (length file) (off + len))) [
    | inl past ↦
        let outside = ltb→lt (length file) (off + len) past in
        rw past (read_loop-end len off len (omega arith) some_left outside)
    | inr whole ↦
        let inside = ltb→ge (length file) (off + len) whole in
        rw whole (read_loop-slice len off len (omega arith) inside)
  ]

  module _ (write_all : Bytes → Bytes → Option Bytes)
      (works : (out w : Bytes) → write_all out w ≡ some (out ++ w)) where
    copy_loop-slice :
        (n off left : ℕ) (out : Bytes)
        → left ≤ n
        → off + left ≤ length file
        → copy_loop read write_all n off left out ≡ done (out ++ take left (drop off file))
    unfolding copy_loop
    copy_loop-slice n off zero out f h = ap done (sym (append-nil out))
    copy_loop-slice zero off (suc l) out f h = absurd (omega arith)
    copy_loop-slice (suc n) off (suc l) out f h =
        let want = min (suc l) copy_buffer in
        let (k, b, bs, e, got, le, positive, size) = a_read off want (omega arith) (omega arith) in
        let m = suc l - length (b ∷ bs) in
        let exact : length (b ∷ bs) ≡ k = omega arith in
        let later =
          copy_loop-slice n (off + length (b ∷ bs)) m (out ++ b ∷ bs) (omega arith) (omega arith) in
        let sum : k + m ≡ suc l = omega arith in
        let joined = next_slice off k m (b ∷ bs) got exact ∙ ap (λ t. take t (drop off file)) sum in
        rw (copy_loop, e, works out (b ∷ bs), later)
          (ap done (append_assoc out (b ∷ bs) _ ∙ ap (◌++◌ out) joined))

    pub copy_range_to-slice :
        (off len : ℕ) (out : Bytes)
        → off + len ≤ length file
        → copy_range_to read write_all off len out ≡ done (out ++ take len (drop off file))
    unfolding copy_range_to
    copy_range_to-slice off len out h = copy_loop-slice len off len out (omega arith) h
