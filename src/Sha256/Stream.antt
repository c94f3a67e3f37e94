-- ===== src/Sha256/Stream.antt =====
-- The stream laws: `update` feeds the reference machine, whatever the split of the message.
use perun.Base.{
  ℕ, ◌+◌, ◌-◌, ◌%◌, ◌^◌, ◌≤◌, ◌<◌, min, ◌≡◌, refl, sym, ap, ◌∙◌, inl, inr, [], ◌++◌, length, take,
  drop, Bytes, ◌==◌, Bool-cases, ==→eq, ==→ne, take-length, drop-length, ◌≢◌, length-zero,
  length-append, length-take, length-drop, take-append-drop, take-append_at, arith,
}
use perun.Sha256.{Sha256, splice, as_chunks, top_up, absorb_blocks, update, compress}
use perun.Sha256.Machine.{
  Machine, at, absorb_all, absorb_all-short, absorb_all-full, absorb_all-append,
  absorb_all-as_chunks, as_chunks-rest,
}

-- What a state of the program stands for.
abbrev pub machine_of : Sha256 → Machine
machine_of s = at s.h (take s.buf_len s.buf)

pub record IsValid (s : Sha256) : Type 0 where
  pub buffer : length s.buf ≡ 64
  pub partly : s.buf_len < 64

pub take-splice :
    (buf : Bytes) (n : ℕ) (xs : Bytes) (m : ℕ)
    → m ≡ n + length xs
    → m ≤ length buf
    → take m (splice buf n xs) ≡ take n buf ++ xs
unfolding splice
take-splice buf n xs m e h =
    take-append_at m (take n buf ++ xs) (drop (n + length xs) buf)
      (omega (arith, length-append (take n buf) xs, length-take n buf))

pub length-splice :
    (buf : Bytes) (n : ℕ) (xs : Bytes)
    → n + length xs ≤ length buf
    → length (splice buf n xs) ≡ length buf
unfolding splice
length-splice buf n xs h = omega (
  arith,
  length-append (take n buf ++ xs) (drop (n + length xs) buf),
  length-append (take n buf) xs,
  length-take n buf,
  length-drop (n + length xs) buf,
)

module _ (s : Sha256) (xs : Bytes) (v : IsValid s) where
  abbrev rest : Bytes
  rest = (as_chunks (length xs) xs).1

  rest-lt : length rest < 64
  rest-lt = as_chunks-rest (length xs) xs (omega arith)

  -- After the second half of `update`, on a state with an empty buffer.
  absorb_blocks-machine :
      s.buf_len ≡ 0 → machine_of (absorb_blocks s xs) ≡ absorb_all (machine_of s) xs
  unfolding absorb_blocks
  absorb_blocks-machine e =
      let cut = absorb_all-as_chunks (length xs) s.h xs (omega arith) in
      elim (Bool-cases (length rest == 0)) [
        | inl empty ↦
            rw (empty, e) (sym (cut ∙ ap (at _) (length-zero rest (==→eq (length rest) 0 empty))))
        | inr full ↦
            rw (full, e)
              (ap (at _)
                  (take-splice s.buf 0 rest (length rest) (omega arith) (omega (arith, rest-lt)))
                ∙ sym cut)
      ]

  absorb_blocks-IsValid : s.buf_len ≡ 0 → IsValid (absorb_blocks s xs)
  unfolding absorb_blocks
  absorb_blocks-IsValid e = elim (Bool-cases (length rest == 0)) [
    | inl empty ↦ rw empty (omega arith)
    | inr full ↦
        rw full (omega (arith, rest-lt, length-splice s.buf 0 rest (omega (arith, rest-lt))))
  ]

-- The three ways in which `top_up` ends, on a valid state.
module _ (s : Sha256) (xs : Bytes) (v : IsValid s) where
  abbrev moved : ℕ
  moved = min (64 - s.buf_len) (length xs)

  abbrev filled : Bytes
  filled = splice s.buf s.buf_len (take moved xs)

  moved-lem : length (take moved xs) ≡ moved
  moved-lem = omega (arith, length-take moved xs)

  fits : s.buf_len + length (take moved xs) ≤ length s.buf
  fits = omega (arith, moved-lem)

  length-filled : length filled ≡ 64
  length-filled = omega (arith, length-splice s.buf s.buf_len (take moved xs) fits)

  take-filled : take (s.buf_len + moved) filled ≡ take s.buf_len s.buf ++ take moved xs
  take-filled =
      take-splice s.buf s.buf_len (take moved xs) (s.buf_len + moved) (omega (arith, moved-lem))
        (omega (arith, moved-lem, fits))

  -- The buffer fills up: it is compressed, and the rest of the data is left.
  top_up-full :
      s.buf_len + moved ≡ 64
      → absorb_all (at (compress s.h filled) []) (drop moved xs) ≡ absorb_all (machine_of s) xs
  top_up-full e =
      let whole : filled ≡ take s.buf_len s.buf ++ take moved xs =
        sym (take-length 64 filled (omega (arith, length-filled)))
        ∙ ap (λ n. take n filled) (sym e)
        ∙ take-filled in
      rw whole (
        ap (λ m. absorb_all m (drop moved xs))
          (sym (
            absorb_all-full s.h (take s.buf_len s.buf) (take moved xs)
              (omega (arith, length-take s.buf_len s.buf))
              (omega (arith, length-take s.buf_len s.buf, moved-lem))))
        ∙ sym (absorb_all-append (machine_of s) (take moved xs) (drop moved xs))
        ∙ ap (absorb_all (machine_of s)) (take-append-drop moved xs))

  -- It does not: all the data is in it.
  top_up-partial :
      s.buf_len + moved ≢ 64
      → (at s.h (take (s.buf_len + moved) filled) ≡ absorb_all (machine_of s) xs)
        × (drop moved xs ≡ [])
  top_up-partial ne = (
    ap (at s.h)
          (take-filled ∙ ap (◌++◌ (take s.buf_len s.buf)) (take-length moved xs (omega arith)))
        ∙ sym (
            absorb_all-short s.h (take s.buf_len s.buf) xs
              (omega (arith, length-take s.buf_len s.buf))),
    drop-length moved xs (omega arith),
  )

abbrev counted : Sha256 → Bytes → Sha256
counted s xs = record s { total = (s.total + length xs) % 2 ^ 64 }

-- On a valid state `update` does to the state words and the waiting bytes what the machine that
-- takes one byte at a time does over the data, and the state stays valid.
pub update-machine :
    (s : Sha256) (xs : Bytes)
    → IsValid s
    → (machine_of (update s xs) ≡ absorb_all (machine_of s) xs) × IsValid (update s xs)
unfolding update top_up
update-machine s xs v = elim (Bool-cases (s.buf_len == 0)) [
  | inl empty ↦
      let e = ==→eq s.buf_len 0 empty in
      let ok : IsValid (counted s xs) = omega arith in
      rw empty
        (absorb_blocks-machine (counted s xs) xs ok e, absorb_blocks-IsValid (counted s xs) xs ok e)
  | inr waiting ↦ elim (Bool-cases (s.buf_len + moved s xs v == 64)) [
    | inl full ↦
        let e = ==→eq (s.buf_len + moved s xs v) 64 full in
        let s' : Sha256 = record (counted s xs) {
          h = compress s.h (filled s xs v);
          buf = filled s xs v;
          buf_len = 0;
        } in
        let ok : IsValid s' = omega (arith, length-filled s xs v) in
        rw (waiting, full)
          (
            absorb_blocks-machine s' (drop (moved s xs v) xs) ok refl ∙ top_up-full s xs v e,
            absorb_blocks-IsValid s' (drop (moved s xs v) xs) ok refl,
          )
    | inr partial ↦
        let ne = ==→ne (s.buf_len + moved s xs v) 64 partial in
        let (same, none_left) = top_up-partial s xs v ne in
        rw (waiting, partial, none_left) (same, omega (arith, length-filled s xs v))
  ]
]

absorb_blocks-total : (s : Sha256) (xs : Bytes) → (absorb_blocks s xs).total ≡ s.total
unfolding absorb_blocks
absorb_blocks-total s xs = ground arith

top_up-total : (s : Sha256) (xs : Bytes) → (top_up s xs).0.total ≡ s.total
unfolding top_up
top_up-total s xs = ground arith

-- `update` counts the bytes, modulo 2 ^ 64.
pub update-total : (s : Sha256) (xs : Bytes) → (update s xs).total ≡ (s.total + length xs) % 2 ^ 64
unfolding update
update-total s xs =
    absorb_blocks-total (top_up (counted s xs) xs).0 (top_up (counted s xs) xs).1
    ∙ top_up-total (counted s xs) xs
