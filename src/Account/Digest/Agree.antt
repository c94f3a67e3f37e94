-- ===== src/Account/Digest/Agree.antt =====
-- The two implementations of SHA-256 compute the same digests.
use perun.Base.{
  ℕ, zero, suc, ◌+◌, ◌-◌, ◌*◌, ◌%◌, ◌^◌, ◌≤◌, ◌<◌, min, ◌≡◌, refl, sym, ap, ap₂, subst, ◌∙◌, inl,
  inr, some, List, [], ◌∷◌, ◌++◌, append_assoc, length, take, drop, replicate, Bytes, be64_bytes,
  ltb, ltb→lt, ltb→ge, ◌==◌, Bool-cases, length-append, length-take, length-replicate, take-length,
  arith,
}
use perun.Sha256.{
  Words, Sha256, new, compress, splice, as_chunks, compress_blocks, top_up, absorb_blocks, update,
  finish, words_bytes,
}
use perun.Sha256.Machine.{Machine, at, start, absorb_all, absorb_all-append, absorb_all-full}
use perun.Sha256.Stream.{machine_of, IsValid, take-splice, length-splice}
use perun.Sha256.Padding.{
  zeros, update_all, joined, Holds, Holds-new, Holds-update_all, buf_len-Holds, Holds-Finishes,
}
use perun.Account.Digest.{
  Hasher, new_hasher, fill_buffer, whole_blocks, store_rest, hash_update, make_room, last_state,
  finalize,
}

-- The same state of the other implementation.
abbrev pub core : Hasher → Sha256
core s = record { h = s.state; buf = s.buffer; buf_len = s.buffered; total = s.total }

whole_blocks-as_chunks :
    (n : ℕ) (w : Words) (xs : Bytes)
    → whole_blocks n w xs ≡ (compress_blocks w (as_chunks n xs).0, (as_chunks n xs).1)
unfolding whole_blocks as_chunks compress_blocks
whole_blocks-as_chunks zero w xs = refl
whole_blocks-as_chunks (suc n) w xs = elim (Bool-cases (ltb (length xs) 64)) [
  | inl short ↦ rw short refl
  | inr long ↦ rw long (whole_blocks-as_chunks n (compress w (take 64 xs)) (drop 64 xs))
]

core-fill_buffer :
    (s : Hasher) (xs : Bytes)
    → (core (fill_buffer s xs).0 ≡ (top_up (core s) xs).0)
      × ((fill_buffer s xs).1 ≡ (top_up (core s) xs).1)
unfolding fill_buffer top_up
core-fill_buffer s xs = elim (Bool-cases (s.buffered == 0)) [
  | inl empty ↦ rw empty (refl, refl)
  | inr used ↦ elim (Bool-cases (s.buffered + min (64 - s.buffered) (length xs) == 64)) [
    | inl full ↦ rw (used, full) (refl, refl)
    | inr partial ↦ rw (used, partial) (refl, refl)
  ]
]

core-store_rest : (s : Hasher) (xs : Bytes) → core (store_rest s xs) ≡ absorb_blocks (core s) xs
unfolding store_rest absorb_blocks
core-store_rest s xs =
    let blocks = whole_blocks-as_chunks (length xs) s.state xs in
    elim (Bool-cases (length (as_chunks (length xs) xs).1 == 0)) [
      | inl empty ↦ rw (blocks, empty) refl
      | inr left ↦ rw (blocks, left) refl
    ]

core-hash_update : (s : Hasher) (xs : Bytes) → core (hash_update s xs) ≡ update (core s) xs
unfolding hash_update update
core-hash_update s xs =
    let counted : Hasher = record s { total = (s.total + length xs) % 2 ^ 64 } in
    let filled = core-fill_buffer counted xs in
    core-store_rest (fill_buffer counted xs).0 (fill_buffer counted xs).1
    ∙ ap₂ absorb_blocks filled.0 filled.1

abbrev pub hash_all : Hasher → List Bytes → Hasher
hash_all s [] = s
hash_all s (c ∷ cs) = hash_all (hash_update s c) cs

core-hash_all : (cs : List Bytes) (s : Hasher) → core (hash_all s cs) ≡ update_all (core s) cs
core-hash_all [] s = refl
core-hash_all (c ∷ cs) s =
    core-hash_all cs (hash_update s c) ∙ ap (λ t. update_all t cs) (core-hash_update s c)

replicate-add : (m n : ℕ) → ◌≡◌ {A = Bytes} (replicate (m + n) 0) (replicate m 0 ++ replicate n 0)
replicate-add zero n = let same : zero + n ≡ n = omega arith in ap (λ (t : ℕ). replicate t 0) same
replicate-add (suc m) n =
    let next : suc m + n ≡ suc (m + n) = omega arith in rw next (ap (◌∷◌ 0) (replicate-add m n))

-- Writing behind the used part of a block.
whole-splice :
    (buf : Bytes) (n : ℕ) (xs : Bytes)
    → length buf ≡ 64
    → n + length xs ≡ 64
    → splice buf n xs ≡ take n buf ++ xs
whole-splice buf n xs h e =
    sym (take-length 64 (splice buf n xs) (omega (arith, length-splice buf n xs (omega arith))))
    ∙ take-splice buf n xs 64 (omega arith) (omega arith)

-- A block that is full, cut at a byte.
full :
    (w : Words) (p xs : Bytes) (block : Bytes)
    → length p < 64
    → length p + length xs ≡ 64
    → block ≡ p ++ xs
    → absorb_all (at w p) xs ≡ at (compress w block) []
full w p xs block h k e = absorb_all-full w p xs h k ∙ ap (λ b. at (compress w b) []) (sym e)

module _ (w : Words) (buf : Bytes) (n : ℕ) (field : Bytes) (size : length buf ≡ 64) (part : n < 64)
    (eight : length field ≡ 8) where
  abbrev opened : Bytes
  opened = splice buf n (0x80 ∷ [])

  length-opened : length opened ≡ 64
  length-opened = omega (arith, length-splice buf n (0x80 ∷ []) (omega arith))

  take-opened : take (n + 1) opened ≡ take n buf ++ 0x80 ∷ []
  take-opened = take-splice buf n (0x80 ∷ []) (n + 1) (omega arith) (omega arith)

  -- The used part, the one bit and as many zeros.
  marked : (k : ℕ) → take (n + 1) opened ++ replicate k 0 ≡ take n buf ++ (0x80 ∷ replicate k 0)
  marked k =
      ap (λ t. t ++ replicate k 0) take-opened
      ∙ append_assoc (take n buf) (0x80 ∷ []) (replicate k 0)

  fits :
      n + 1 ≤ 56
      → absorb_all (at w (take n buf)) (0x80 ∷ (replicate (56 - (n + 1)) 0 ++ field))
        ≡ at (compress w (splice (splice opened (n + 1) (replicate (56 - (n + 1)) 0)) 56 field)) []
  fits h =
      let k = 56 - (n + 1) in
      let filled = splice opened (n + 1) (replicate k 0) in
      let zs = length-replicate k (zero) in
      let length-filled : length filled ≡ 64 = omega (
        arith,
        length-opened,
        length-splice opened (n + 1) (replicate k 0) (omega (arith, zs, length-opened)),
      ) in
      full w (take n buf) (0x80 ∷ (replicate k 0 ++ field)) (splice filled 56 field)
        (omega (arith, length-take n buf))
        (omega (arith, length-take n buf, length-append (replicate k 0) field, zs))
        (whole-splice filled 56 field length-filled (omega arith)
          ∙ ap (λ t. t ++ field)
              (take-splice opened (n + 1) (replicate k 0) 56 (omega (arith, zs))
                  (omega (arith, length-opened))
                ∙ marked k)
          ∙ append_assoc (take n buf) (0x80 ∷ replicate k 0) field)

  abbrev closed : Bytes
  closed = splice opened (n + 1) (replicate (64 - (n + 1)) 0)

  spills :
      56 < n + 1
      → absorb_all
          (at w (take n buf))
          (0x80 ∷ ((replicate (64 - (n + 1)) 0 ++ replicate 56 0) ++ field))
        ≡ at (compress (compress w closed) (splice (splice closed 0 (replicate 56 0)) 56 field)) []
  spills h =
      let k = 64 - (n + 1) in
      let zs = length-replicate k (zero) in
      let length-closed : length closed ≡ 64 = omega (
        arith,
        length-opened,
        length-splice opened (n + 1) (replicate k 0) (omega (arith, zs, length-opened)),
      ) in
      let filled = splice closed 0 (replicate 56 0) in
      let length-filled : length filled ≡ 64 = omega (
        arith,
        length-closed,
        length-splice closed 0 (replicate 56 0) (omega (arith, length-closed)),
      ) in
      ap (λ t. absorb_all (at w (take n buf)) (0x80 ∷ t))
        (append_assoc (replicate k 0) (replicate 56 0) field)
      ∙ absorb_all-append (at w (take n buf)) (0x80 ∷ replicate k 0) (replicate 56 0 ++ field)
      ∙ ap (λ m. absorb_all m (replicate 56 0 ++ field))
          (full w (take n buf) (0x80 ∷ replicate k 0) closed (omega (arith, length-take n buf))
            (omega (arith, length-take n buf, zs))
            (whole-splice opened (n + 1) (replicate k 0) length-opened (omega (arith, zs))
              ∙ marked k))
      ∙ full (compress w closed) [] (replicate 56 0 ++ field) (splice filled 56 field) (omega arith)
          (omega (arith, length-append (replicate 56 0) field))
          (whole-splice filled 56 field length-filled (omega arith)
            ∙ ap (λ t. t ++ field)
                (take-splice closed 0 (replicate 56 0) 56 refl (omega (arith, length-closed))))

-- The machine run over the padding that `finalize` writes ends with its last state.
padding :
    (s : Hasher)
    → IsValid (core s)
    → absorb_all
        (machine_of (core s))
        (0x80 ∷ (replicate (zeros (s.buffered + 1)) 0 ++ be64_bytes (s.total * 8 % 2 ^ 64)))
      ≡ at (last_state s) []
unfolding last_state make_room
padding s v =
    let field = be64_bytes (s.total * 8 % 2 ^ 64) in
    elim (Bool-cases (ltb 56 (s.buffered + 1))) [
      | inl over ↦
          let more = ltb→lt 56 (s.buffered + 1) over in
          let zs : zeros (s.buffered + 1) ≡ 64 - (s.buffered + 1) + 56 = omega arith in
          let split = ap (λ (t : ℕ). replicate t 0) zs ∙ replicate-add (64 - (s.buffered + 1)) 56 in
          rw over (
            ap (λ t. absorb_all (machine_of (core s)) (0x80 ∷ (t ++ field))) split
            ∙ spills s.state s.buffer s.buffered field v.buffer v.partly refl more)
      | inr room ↦
          let less = ltb→ge 56 (s.buffered + 1) room in
          let zs : zeros (s.buffered + 1) ≡ 56 - (s.buffered + 1) = omega arith in
          rw room (
            ap (λ (t : ℕ). absorb_all (machine_of (core s)) (0x80 ∷ (replicate t 0 ++ field))) zs
            ∙ fits s.state s.buffer s.buffered field v.buffer v.partly refl less)
    ]

-- However a message is cut into pieces, the digest is the one that perun-core's implementation returns
-- for the same pieces.
pub finalize-hash_all :
    (pieces : List Bytes)
    → finish (update_all new pieces) ≡ some (finalize (hash_all new_hasher pieces))
unfolding finish finalize
finalize-hash_all pieces =
    let t = hash_all new_hasher pieces in
    let m = joined pieces in
    let e = core-hash_all pieces new_hasher in
    let k = subst (λ s. Holds s m) (sym e) (Holds-update_all pieces new [] Holds-new) in
    let f = Holds-Finishes (core t) m k in
    let zs : zeros (t.buffered + 1) ≡ zeros ((length m + 1) % 64) =
      omega (arith, buf_len-Holds (core t) m k) in
    let bits : t.total * 8 % 2 ^ 64 ≡ length m * 8 % 2 ^ 64 = omega (arith, k.counts) in
    let field = be64_bytes (length m * 8 % 2 ^ 64) in
    let run : at (last_state t) [] ≡ machine_of f.done =
      sym (padding t k.valid)
      ∙ ap₂ (λ (z b : ℕ). absorb_all (machine_of (core t)) (0x80 ∷ (replicate z 0 ++ be64_bytes b)))
          zs bits
      ∙ ap (λ j. absorb_all j (0x80 ∷ (replicate (zeros ((length m + 1) % 64)) 0 ++ field)))
          k.machine
      ∙ sym
          (absorb_all-append start m (0x80 ∷ (replicate (zeros ((length m + 1) % 64)) 0 ++ field)))
      ∙ sym f.machine in
    ap finish (sym e)
    ∙ rw (f.returns, finish) (ap (λ (j : Machine). some (words_bytes j.words)) (sym run))
