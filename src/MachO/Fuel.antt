-- ===== src/MachO/Fuel.antt =====
-- Decoding ends: every opcode moves the position forward, so the fuel never runs out.
use perun.Base.{
  ℕ, zero, suc, ◌+◌, ◌*◌, ◌/◌, ◌%◌, ◌≤◌, ◌<◌, ◌≡◌, ◌≢◌, refl, inl, inr, Bool, true, false, ◌||◌,
  Option, none, some, [], ◌∷◌, length, take, drop, get_elem?, Bytes, ltb, ltb→ge, ◌==◌,
  if◌then◌else◌, Option-cases, arith,
}
use perun.MachO.{
  truncated, out_of_fuel, Checked, done, failed, ◌>>=◌, uleb_loop, read_uleb, sleb_loop, read_sleb,
  before_nul, Stream, push, advance, push_times, with_uleb, rebase_op, bind_op, end_op, step,
  decode_loop, fresh, decode_stream,
}

-- A result that does not report a lack of fuel and, if there is one, satisfies `P`.
abbrev pub Ends {ℓ} : {A : Type ℓ} → (A → Type 0) → Checked A → Type 0
Ends P (done a) = P a
Ends P (failed e) = e ≢ out_of_fuel

if-Ends :
    {A : Type 0} (P : A → Type 0) (b : Bool) (x y : Checked A)
    → (b ≡ true → Ends P x)
    → (b ≡ false → Ends P y)
    → Ends P (if b then x else y)
if-Ends P true x y h k = h refl
if-Ends P false x y h k = k refl

then-Ends :
    {A B : Type 0} (P : A → Type 0) (Q : B → Type 0) (x : Checked A) (f : A → Checked B)
    → Ends P x
    → ((a : A) → P a → Ends Q (f a))
    → Ends Q (x >>= f)
then-Ends P Q (done a) f h k = k a h
then-Ends P Q (failed e) f h k = h

get_elem?-lt : (xs : Bytes) (i b : ℕ) → get_elem? xs i ≡ some b → i < length xs
get_elem?-lt [] i b h = cc
get_elem?-lt (x ∷ xs) zero b h = omega arith
get_elem?-lt (x ∷ xs) (suc i) b h = omega (arith, get_elem?-lt xs i b h)

-- A number that is read at or behind `q` ends behind it.
uleb_loop-Ends :
    (q n : ℕ) (d : Bytes) (p result shift : ℕ)
    → q ≤ p
    → 63 < 7 * n + shift
    → shift ≤ 63
    → Ends (λ r. q < r.1) (uleb_loop n d p result shift)
unfolding uleb_loop
uleb_loop-Ends q zero d p result shift g h k = absurd (omega arith)
uleb_loop-Ends q (suc n) d p result shift g h k = elim (Option-cases (get_elem? d p)) [
  | inl end ↦ rw (end, uleb_loop) (λ e. cc)
  | inr (b, there) ↦
      rw (there, uleb_loop)
        (if-Ends _ (ltb b 128) _ _ (λ _. omega arith)
          (λ _.
            if-Ends _ (ltb 63 (shift + 7)) _ _ (λ _ e. cc)
              (λ more.
                uleb_loop-Ends q n d (p + 1) _ (shift + 7) (omega arith) (omega arith)
                  (ltb→ge 63 (shift + 7) more))))
]

sleb_loop-Ends :
    (q n : ℕ) (d : Bytes) (p result shift : ℕ)
    → q ≤ p
    → 63 < 7 * n + shift
    → shift ≤ 63
    → Ends (λ r. q < r.1) (sleb_loop n d p result shift)
unfolding sleb_loop
sleb_loop-Ends q zero d p result shift g h k = absurd (omega arith)
sleb_loop-Ends q (suc n) d p result shift g h k = elim (Option-cases (get_elem? d p)) [
  | inl end ↦ rw (end, sleb_loop) (λ e. cc)
  | inr (b, there) ↦
      rw (there, sleb_loop)
        (if-Ends _ (ltb b 128) _ _ (λ _. omega arith)
          (λ _.
            if-Ends _ (ltb 63 (shift + 7)) _ _ (λ _ e. cc)
              (λ more.
                sleb_loop-Ends q n d (p + 1) _ (shift + 7) (omega arith) (omega arith)
                  (ltb→ge 63 (shift + 7) more))))
]

push_times-p :
    (n by : ℕ) (bind : Option (Bytes × ℕ)) (s : Stream) → (push_times n by bind s).p ≡ s.p
unfolding push_times
push_times-p zero by bind s = refl
push_times-p (suc n) by bind s = push_times-p n by bind (advance by (push bind s))

module _ (lossy : Bytes → Bytes) (bytes : Bytes) (q : ℕ) where
  -- The position did not go back behind `q`.
  abbrev Moved : Stream → Type 0
  Moved s = q ≤ s.p

  with_uleb-Ends :
      (s : Stream) (f : ℕ → Stream → Checked Stream)
      → Moved s
      → ((v : ℕ) (s1 : Stream) → Moved s1 → Ends Moved (f v s1))
      → Ends Moved (with_uleb lossy bytes s f)
  unfolding with_uleb read_uleb
  with_uleb-Ends s f h k =
      then-Ends (λ r. q < r.1) Moved (uleb_loop 10 bytes s.p 0 0)
        (λ r. f r.0 (record s { p = r.1 }))
        (uleb_loop-Ends q 10 bytes s.p 0 0 h (omega arith) (omega arith))
        (λ r after. k r.0 (record s { p = r.1 }) (omega arith))

  times-Moved :
      (n by : ℕ) (bind : Option (Bytes × ℕ)) (s : Stream) → Moved s → Moved (push_times n by bind s)
  times-Moved n by bind s h = omega (arith, push_times-p n by bind s)

  rebase_op-Ends :
      (opcode imm : ℕ) (s : Stream) → Moved s → Ends Moved (rebase_op lossy bytes opcode imm s)
  unfolding rebase_op
  rebase_op-Ends opcode imm s h =
      if-Ends Moved (opcode == 0x1) _ _ (λ _. if-Ends Moved (imm == 1) _ _ (λ _. h) (λ _ e. cc))
        (λ _.
          if-Ends Moved (opcode == 0x2) _ _ (λ _. with_uleb-Ends s _ h (λ v s1 h1. h1))
            (λ _.
              if-Ends Moved (opcode == 0x3) _ _ (λ _. with_uleb-Ends s _ h (λ v s1 h1. h1))
                (λ _.
                  if-Ends Moved (opcode == 0x4) _ _ (λ _. h)
                    (λ _.
                      if-Ends Moved (opcode == 0x5) _ _ (λ _. times-Moved imm 8 none s h)
                        (λ _.
                          if-Ends Moved (opcode == 0x6) _ _
                            (λ _. with_uleb-Ends s _ h (λ v s1 h1. times-Moved v 8 none s1 h1))
                            (λ _.
                              if-Ends Moved (opcode == 0x7) _ _
                                (λ _. with_uleb-Ends (push none s) _ h (λ v s1 h1. h1))
                                (λ _.
                                  if-Ends Moved (opcode == 0x8) _ _
                                    (λ _. with_uleb-Ends s _ h (λ n s1 h1.
                                      with_uleb-Ends s1 _ h1
                                        (λ v s2 h2. times-Moved n (v + 8) none s2 h2)))
                                    (λ _ e. cc))))))))

  named :
      (s : Stream)
      → Moved s
      → Ends Moved (elim (before_nul (drop s.p bytes)) as (λ _. Checked Stream) [
        | none ↦ failed truncated
        | some name ↦ done (record s { p = s.p + length (lossy name) + 1; symbol = lossy name })
      ])
  named s h = elim (Option-cases (before_nul (drop s.p bytes))) [
    | inl endless ↦ rw endless (λ e. cc)
    | inr (name, closed) ↦ rw closed (omega arith)
  ]

  bind_op-Ends :
      (opcode imm : ℕ) (s : Stream) → Moved s → Ends Moved (bind_op lossy bytes opcode imm s)
  unfolding bind_op read_sleb
  bind_op-Ends opcode imm s h =
      let target = some (s.symbol, s.addend) in
      if-Ends Moved ((opcode == 0x1) || (opcode == 0x3)) _ _ (λ _. h)
        (λ _.
          if-Ends Moved (opcode == 0x2) _ _ (λ _. with_uleb-Ends s _ h (λ v s1 h1. h1))
            (λ _.
              if-Ends Moved (opcode == 0x4) _ _ (λ _. named s h)
                (λ _.
                  if-Ends Moved (opcode == 0x5) _ _
                    (λ _. if-Ends Moved ((imm == 1) || (imm == 0)) _ _ (λ _. h) (λ _ e. cc))
                    (λ _.
                      if-Ends Moved (opcode == 0x6) _ _
                        (λ _.
                          then-Ends (λ r. q < r.1) Moved (sleb_loop 10 bytes s.p 0 0) _
                            (sleb_loop-Ends q 10 bytes s.p 0 0 h (omega arith) (omega arith))
                            (λ r after. omega arith))
                        (λ _.
                          if-Ends Moved (opcode == 0x7) _ _
                            (λ _. with_uleb-Ends s _ h (λ v s1 h1. h1))
                            (λ _.
                              if-Ends Moved (opcode == 0x8) _ _
                                (λ _. with_uleb-Ends s _ h (λ v s1 h1. h1))
                                (λ _.
                                  if-Ends Moved (opcode == 0x9) _ _ (λ _. h)
                                    (λ _.
                                      if-Ends Moved (opcode == 0xa) _ _
                                        (λ _. with_uleb-Ends (push target s) _ h (λ v s1 h1. h1))
                                        (λ _.
                                          if-Ends Moved (opcode == 0xb) _ _ (λ _. h)
                                            (λ _.
                                              if-Ends Moved (opcode == 0xc) _ _
                                                (λ _. with_uleb-Ends s _ h (λ n s1 h1.
                                                  with_uleb-Ends s1 _ h1 (λ v s2 h2.
                                                    times-Moved n (v + 8) target s2 h2)))
                                                (λ _ e. cc)))))))))))

  ended : (is_lazy : Bool) (s : Stream) → Moved s → Moved (end_op lossy bytes is_lazy s)
  unfolding end_op
  ended true s h = h
  ended false s h = h

  step-Ends :
      (binds is_lazy : Bool) (op : ℕ) (s : Stream)
      → Moved s
      → Ends Moved (step lossy bytes binds is_lazy op s)
  unfolding step end_op
  step-Ends binds is_lazy op s h =
      if-Ends Moved (op / 16 == 0) _ _ (λ _. ended is_lazy s h)
        (λ _.
          if-Ends Moved binds _ _ (λ _. bind_op-Ends (op / 16) (op % 16) s h)
            (λ _. rebase_op-Ends (op / 16) (op % 16) s h))

module _ (lossy : Bytes → Bytes) (bytes : Bytes) (binds is_lazy : Bool) where
  decode_loop-Ends :
      (n : ℕ) (s : Stream)
      → length bytes < n + s.p
      → 0 < n
      → Ends (λ _. Unit) (decode_loop lossy bytes n binds is_lazy s)
  unfolding decode_loop
  decode_loop-Ends zero s h k = absurd (omega arith)
  decode_loop-Ends (suc n) s h k =
      if-Ends (λ _. Unit) s.ended _ _ (λ _. tt)
        (λ _. elim (Option-cases (get_elem? bytes s.p)) [
          | inl end ↦ rw end tt
          | inr (op, there) ↦
              let inside = get_elem?-lt bytes s.p op there in
              rw there (
                then-Ends (λ s1. s.p + 1 ≤ s1.p) (λ _. Unit) _
                  (decode_loop lossy bytes n binds is_lazy)
                  (step-Ends lossy bytes (s.p + 1) binds is_lazy op (record s { p = s.p + 1 })
                    (omega arith))
                  (λ s1 after. decode_loop-Ends n s1 (omega arith) (omega arith)))
        ])

-- Read as a statement about the result.
Ends-out_of_fuel : (x : Checked Stream) → Ends (λ _. Unit) x → x ≢ failed out_of_fuel
Ends-out_of_fuel (done s) h e = cc
Ends-out_of_fuel (failed e) h same = h cc

-- Whatever the bytes, decoding a stream never ends for lack of fuel: one turn more than the
-- stream has bytes is enough.
pub decode_stream-out_of_fuel :
    (lossy : Bytes → Bytes) (d : Bytes) (off size : ℕ) (binds is_lazy : Bool) (symbol : Bytes)
    → decode_stream lossy d off size binds is_lazy symbol ≢ failed out_of_fuel
unfolding decode_stream
decode_stream-out_of_fuel lossy d off size binds is_lazy symbol =
    let s = take size (drop off d) in
    Ends-out_of_fuel (decode_stream lossy d off size binds is_lazy symbol) (
      if-Ends (λ _. Unit) (ltb (length d) (off + size)) _ _ (λ _ e. cc)
        (λ _.
          decode_loop-Ends lossy s binds is_lazy (suc (length s)) (fresh symbol) (omega arith)
            (omega arith)))
