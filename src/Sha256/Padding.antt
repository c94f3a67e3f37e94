-- ===== src/Sha256/Padding.antt =====
-- `finish` against the padding rule of the standard: one bit, zeros, and the length of the message.
use mathlib.Core.List.{foldl}
use perun.Base.{
  ℕ, zero, suc, ◌+◌, ◌-◌, ◌*◌, ◌%◌, ◌^◌, ◌<◌, ◌≡◌, refl, sym, ap, ◌∙◌, inl, inr, List, [], ◌∷◌,
  ◌++◌, append-nil, some, All, length, replicate, Bytes, ◌==◌, Bool-cases, ==→eq, ==→ne,
  length-append, length-take, be64_bytes, append_assoc, arith,
}
use perun.Sha256.{
  Words, Sha256, initial_words, new, update, compress, pad_loop, finish_state, finish, words_bytes,
}
use perun.Sha256.Machine.{
  Machine, at, start, absorb, absorb_all, absorb_all-append, absorb_all-full,
}
use perun.Sha256.Stream.{machine_of, IsValid, update-machine, update-total}

absorb-pending :
    (m : Machine) (x : ℕ)
    → length m.pending < 64
    → length (absorb m x).pending ≡ (length m.pending + 1) % 64
absorb-pending m x h = ground (arith, length-append m.pending (x ∷ []))

-- How many bytes wait after a run.
absorb_all-pending :
    (m : Machine) (xs : Bytes)
    → length m.pending < 64
    → length (absorb_all m xs).pending ≡ (length m.pending + length xs) % 64
absorb_all-pending m [] h = omega arith
absorb_all-pending m (x ∷ xs) h = omega (
  arith,
  absorb-pending m x h,
  absorb_all-pending (absorb m x) xs (omega (arith, absorb-pending m x h)),
)

pending-buf_len : (s : Sha256) → IsValid s → length (machine_of s).pending ≡ s.buf_len
pending-buf_len s v = omega (arith, length-take s.buf_len s.buf)

update-buf_len :
    (s : Sha256) (xs : Bytes) → IsValid s → (update s xs).buf_len ≡ (s.buf_len + length xs) % 64
update-buf_len s xs v =
    let (run, v') = update-machine s xs v in
    omega (
      arith,
      pending-buf_len s v,
      pending-buf_len (update s xs) v',
      ap (λ (m : Machine). length m.pending) run,
      absorb_all-pending (machine_of s) xs (omega (arith, pending-buf_len s v)),
    )

-- The zeros that bring a buffer with `b` bytes to 56.
abbrev pub zeros : ℕ → ℕ
zeros b = (120 - b) % 64

record PadsTo (n : ℕ) (s : Sha256) : Type 0 where
  last : Sha256
  returns : pad_loop n s ≡ some last
  machine : machine_of last ≡ absorb_all (machine_of s) (replicate (zeros s.buf_len) 0)
  valid : IsValid last
  at_56 : last.buf_len ≡ 56

replicate_eq : {m n : ℕ} → m ≡ n → ◌≡◌ {A = Bytes} (replicate m 0) (replicate n 0)
replicate_eq e = ap (λ k. replicate k 0) e

-- The loop ends within its fuel, on exactly that many zeros.
pad_loop-PadsTo : (n : ℕ) (s : Sha256) → IsValid s → zeros s.buf_len < n → PadsTo n s
unfolding pad_loop
pad_loop-PadsTo zero s v h = absurd (omega arith)
pad_loop-PadsTo (suc n) s v h = elim (Bool-cases (s.buf_len == 56)) [
  | inl there ↦ record {
    last = s;
    returns = rw there;
    machine =
        ap (absorb_all (machine_of s))
          (replicate_eq {m = 0} {n = zeros s.buf_len} (omega (arith, ==→eq s.buf_len 56 there)));
    valid = v;
    at_56 = ==→eq s.buf_len 56 there;
  }
  | inr more ↦
      let (run, v') = update-machine s (0 ∷ []) v in
      let b = update-buf_len s (0 ∷ []) v in
      let ne = ==→ne s.buf_len 56 more in
      let later = pad_loop-PadsTo n (update s (0 ∷ [])) v' (omega arith) in
      record {
        last = later.last;
        returns = rw more later.returns;
        machine =
            later.machine
            ∙ ap (λ m. absorb_all m (replicate (zeros (update s (0 ∷ [])).buf_len) 0)) run
            ∙ ap (absorb_all (machine_of s)) (
                replicate_eq {m = suc (zeros (update s (0 ∷ [])).buf_len)} {n = zeros s.buf_len}
                  (omega arith));
        valid = later.valid;
        at_56 = later.at_56;
      }
]

abbrev pub update_all : Sha256 → List Bytes → Sha256
update_all s [] = s
update_all s (c ∷ cs) = update_all (update s c) cs

abbrev pub joined : List Bytes → Bytes
joined [] = []
joined (c ∷ cs) = c ++ joined cs

-- The padded message of FIPS 180-4: a one bit, zeros up to 56 modulo 64, the length in bits.
abbrev pub padded : Bytes → Bytes
padded m =
    m ++ (0x80 ∷ (replicate (zeros ((length m + 1) % 64)) 0 ++ be64_bytes (length m * 8 % 2 ^ 64)))

-- `s` is a valid state that has taken `m`.
pub record Holds (s : Sha256) (m : Bytes) : Type 0 where
  pub valid : IsValid s
  pub machine : machine_of s ≡ absorb_all start m
  pub counts : s.total ≡ length m % 2 ^ 64

pub Holds-new : Holds new []
Holds-new = record { valid = omega arith; machine = refl; counts = refl }

Holds-update : (s : Sha256) (m xs : Bytes) → Holds s m → Holds (update s xs) (m ++ xs)
Holds-update s m xs h =
    let (run, v) = update-machine s xs h.valid in
    record {
      valid = v;
      machine = run ∙ ap (λ k. absorb_all k xs) h.machine ∙ sym (absorb_all-append start m xs);
      counts = omega (arith, update-total s xs, length-append m xs, h.counts);
    }

pub Holds-update_all :
    (cs : List Bytes) (s : Sha256) (m : Bytes)
    → Holds s m
    → Holds (update_all s cs) (m ++ joined cs)
Holds-update_all [] s m h = rw append-nil h
Holds-update_all (c ∷ cs) s m h =
    rw (← append_assoc m c (joined cs))
      (Holds-update_all cs (update s c) (m ++ c) (Holds-update s m c h))

-- The state that `finish` reaches after `m`.
pub record Finishes (s : Sha256) (m : Bytes) : Type 0 where
  pub done : Sha256
  pub returns : finish_state s ≡ some done
  pub machine : machine_of done ≡ absorb_all start (padded m)
  pub valid : IsValid done
  pub emptied : done.buf_len ≡ 0

pub buf_len-Holds : (s : Sha256) (m : Bytes) → Holds s m → s.buf_len ≡ length m % 64
buf_len-Holds s m h = omega (
  arith,
  pending-buf_len s h.valid,
  ap (λ (k : Machine). length k.pending) h.machine,
  absorb_all-pending start m (omega arith),
)

tail_eq :
    (s : Sha256) (m : Bytes)
    → Holds s m
    → m
        ++ (0x80
            ∷ (replicate (zeros (update s (0x80 ∷ [])).buf_len) 0
                ++ be64_bytes (s.total * 8 % 2 ^ 64)))
      ≡ padded m
tail_eq s m h =
    let waiting = buf_len-Holds s m h in
    let zs : zeros (update s (0x80 ∷ [])).buf_len ≡ zeros ((length m + 1) % 64) =
      omega (arith, update-buf_len s (0x80 ∷ []) h.valid) in
    let bits : s.total * 8 % 2 ^ 64 ≡ length m * 8 % 2 ^ 64 = omega (arith, h.counts) in
    rw (zs, bits)

pub Holds-Finishes : (s : Sha256) (m : Bytes) → Holds s m → Finishes s m
unfolding finish_state
Holds-Finishes s m h =
    let (opened, v1) = update-machine s (0x80 ∷ []) h.valid in
    let s1 = update s (0x80 ∷ []) in
    let pad = pad_loop-PadsTo 64 s1 v1 (omega arith) in
    let field = be64_bytes (s.total * 8 % 2 ^ 64) in
    let (closing, v2) = update-machine pad.last field pad.valid in
    record {
      done = update pad.last field;
      returns = rw (pad.returns, finish_state);
      machine =
          closing
          ∙ ap (λ k. absorb_all k field)
              (pad.machine
                ∙ ap (λ k. absorb_all k (replicate (zeros s1.buf_len) 0))
                    (opened ∙ ap (λ k. absorb k 0x80) h.machine))
          ∙ sym (
              absorb_all-append (absorb (absorb_all start m) 0x80) (replicate (zeros s1.buf_len) 0)
                field)
          ∙ sym (absorb_all-append start m (0x80 ∷ (replicate (zeros s1.buf_len) 0 ++ field)))
          ∙ ap (absorb_all start) (tail_eq s m h);
      valid = v2;
      emptied = omega (arith, update-buf_len pad.last field pad.valid, pad.at_56);
    }

-- A run over whole blocks compresses each.
absorb_all-joined :
    (bs : List Bytes) (w : Words)
    → All (λ b. length b ≡ 64) bs
    → absorb_all (at w []) (joined bs) ≡ at (foldl compress w bs) []
absorb_all-joined [] w h = refl
absorb_all-joined (b ∷ bs) w h =
    absorb_all-append (at w []) b (joined bs)
    ∙ ap (λ k. absorb_all k (joined bs)) (absorb_all-full w [] b (omega arith) (omega arith))
    ∙ absorb_all-joined bs (compress w b) h.1

-- However a message is cut into the pieces given to `update`, `finish` returns the digest that
-- FIPS 180-4 defines on the 64-byte blocks of the padded message, whose length field is the
-- length in bits modulo 2 ^ 64.
pub finish-update_all :
    (pieces blocks : List Bytes)
    → All (λ b. length b ≡ 64) blocks
    → joined blocks ≡ padded (joined pieces)
    → finish (update_all new pieces) ≡ some (words_bytes (foldl compress initial_words blocks))
unfolding finish
finish-update_all pieces blocks whole e =
    let f = Holds-Finishes _ _ (Holds-update_all pieces new [] Holds-new) in
    rw (f.returns, finish)
      (ap (λ (m : Machine). some (words_bytes m.words))
        (f.machine ∙ ap (absorb_all start) (sym e) ∙ absorb_all-joined blocks initial_words whole))

-- The padding loop of `finish` ends within its 64 rounds after any pieces; the buffer is then empty,
-- as the assertion in the code says, and the digest has 32 bytes.
pub finish-total :
    (pieces : List Bytes)
    → (done : Sha256) × (finish_state (update_all new pieces) ≡ some done)
      × (done.buf_len ≡ 0)
      × (finish (update_all new pieces) ≡ some (words_bytes done.h))
      × (length (words_bytes done.h) ≡ 32)
unfolding finish
finish-total pieces =
    let f = Holds-Finishes _ _ (Holds-update_all pieces new [] Holds-new) in
    (f.done, f.returns, f.emptied, rw (f.returns, finish), refl)
