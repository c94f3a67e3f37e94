-- ===== src/MachO/Leb.antt =====
-- LEB128: a number that is written is read back.
use native.Mathlib.Nat.{pow-suc}
use perun.Base.{
  ℕ, zero, suc, ◌+◌, ◌-◌, ◌*◌, ◌/◌, ◌%◌, ◌^◌, bit_or, ◌≤◌, ◌<◌, ◌≡◌, refl, ap, ◌∙◌, inl, inr, true,
  false, [], ◌∷◌, ◌++◌, length, drop, get_elem?-at, drop-at, Bytes, ltb, ltb→ge, ltb→lt, ge→ltb,
  if◌then◌else◌, Bool-cases, arith,
}
use perun.Base.Bits.{bit_or-shifted_right}
use perun.MachO.{done, uleb_loop, read_uleb}

-- The bytes of a number, in at most `k` groups of seven bits.
unfoldable pub uleb_bytes : ℕ → ℕ → Bytes
uleb_bytes zero n = []
uleb_bytes (suc k) n =
    let rest = uleb_bytes k (n / 128) in if ltb n 128 then n ∷ [] else (128 + n % 128) ∷ rest

-- Doubling any number once more at every step.
pow-le : (a c : ℕ) → 2 ^ a ≤ 2 ^ (c + a)
pow-le a zero = let same : 0 + a ≡ a = omega arith in omega (arith, ap (λ (t : ℕ). 2 ^ t) same)
pow-le a (suc c) =
    let next : suc c + a ≡ suc (c + a) = omega arith in
    omega (arith, ap (λ (t : ℕ). 2 ^ t) next, pow-suc 2 (c + a), pow-le a c)

pow-lt : (a b : ℕ) → 2 ^ a < 2 ^ b → a < b
pow-lt a b h = elim (Bool-cases (ltb a b)) [
  | inl less ↦ ltb→lt a b less
  | inr more ↦
      let ge = ltb→ge a b more in
      let e : a - b + b ≡ a = omega arith in
      absurd (omega (arith, pow-le b (a - b), ap (λ t. 2 ^ t) e))
]

pow-seven : (s : ℕ) → 2 ^ (s + 7) ≡ 128 * 2 ^ s
pow-seven s =
    let seven : s + 7 ≡ suc (suc (suc (suc (suc (suc (suc s)))))) = omega arith in
    omega (
      arith,
      ap (λ (t : ℕ). 2 ^ t) seven,
      pow-suc 2 s,
      pow-suc 2 (suc s),
      pow-suc 2 (suc (suc s)),
      pow-suc 2 (suc (suc (suc s))),
      pow-suc 2 (suc (suc (suc (suc s)))),
      pow-suc 2 (suc (suc (suc (suc (suc s))))),
      pow-suc 2 (suc (suc (suc (suc (suc (suc s)))))),
    )

-- A number splits at its lowest seven bits, at any scale.
split_low : (n t : ℕ) → n * t ≡ n / 128 * (128 * t) + n % 128 * t
split_low n t =
    let parts : n ≡ n / 128 * 128 + n % 128 = omega arith in
    ap (λ (m : ℕ). m * t) parts ∙ grind arith

times-le : (m n t : ℕ) → m ≤ n → m * t ≤ n * t
times-le m n t h =
    let parts : n ≡ n - m + m = omega arith in grind (arith, ap (λ (u : ℕ). u * t) parts)

uleb_bytes-last : (k n : ℕ) → ltb n 128 ≡ true → uleb_bytes (suc k) n ≡ n ∷ []
unfolding uleb_bytes
uleb_bytes-last k n h = rw h refl

uleb_bytes-more :
    (k n : ℕ) → ltb n 128 ≡ false → uleb_bytes (suc k) n ≡ (128 + n % 128) ∷ uleb_bytes k (n / 128)
unfolding uleb_bytes
uleb_bytes-more k n h = rw h refl

-- What one group adds to the result.
added :
    (n shift result : ℕ)
    → result < 2 ^ shift
    → n % 128 * 2 ^ shift < 2 ^ 64
    → bit_or result (n % 128 * 2 ^ shift % 2 ^ 64) ≡ n % 128 * 2 ^ shift + result
added n shift result small fits =
    let whole : n % 128 * 2 ^ shift % 2 ^ 64 ≡ n % 128 * 2 ^ shift = omega arith in
    rw whole (bit_or-shifted_right shift (n % 128) result small)

uleb_loop-bytes :
    (k : ℕ) (d : Bytes) (n p result shift : ℕ) (rest : Bytes)
    → result < 2 ^ shift
    → n * 2 ^ shift + result < 2 ^ 64
    → 63 < 7 * k + shift
    → shift ≤ 63
    → drop p d ≡ uleb_bytes k n ++ rest
    → uleb_loop k d p result shift ≡ done (n * 2 ^ shift + result, p + length (uleb_bytes k n))
unfolding uleb_loop
uleb_loop-bytes zero d n p result shift rest small fits fuel bound at = absurd (omega arith)
uleb_loop-bytes (suc k) d n p result shift rest small fits fuel bound at =
    let low = times-le (n % 128) n (2 ^ shift) (omega arith) in
    let sum = added n shift result small (omega arith) in
    elim (Bool-cases (ltb n 128)) [
      | inl last ↦
          let e = uleb_bytes-last k n last in
          let same : n % 128 ≡ n = omega (arith, ltb→lt n 128 last) in
          let here = get_elem?-at p d (at ∙ ap (λ bs. bs ++ rest) e) in
          rw (here, uleb_loop) (rw (last, sum, e) (rw same refl))
      | inr more ↦
          let e = uleb_bytes-more k n more in
          let at' = at ∙ ap (λ bs. bs ++ rest) e in
          let here = get_elem?-at p d at' in
          let goes_on : ltb (128 + n % 128) 128 ≡ false =
            ge→ltb (128 + n % 128) 128 (omega arith) in
          let seven : (128 + n % 128) % 128 ≡ n % 128 = omega arith in
          let scale = pow-seven shift in
          let wide = times-le 128 n (2 ^ shift) (ltb→ge n 128 more) in
          let below : shift + 7 < 64 = pow-lt (shift + 7) 64 (omega arith) in
          let no_end : ltb 63 (shift + 7) ≡ false = ge→ltb 63 (shift + 7) (omega arith) in
          let parts = split_low n (2 ^ shift) in
          let room = times-le (n % 128) 127 (2 ^ shift) (omega arith) in
          let later : n / 128 * 2 ^ (shift + 7) + (n % 128 * 2 ^ shift + result)
              ≡ n * 2 ^ shift + result =
            omega (arith, ap (λ (t : ℕ). n / 128 * t) scale) in
          let rec_call =
            uleb_loop-bytes k d (n / 128) (p + 1) (n % 128 * 2 ^ shift + result) (shift + 7) rest
              (omega arith) (omega arith) (omega arith) (omega arith)
              (drop-at p d ((128 + n % 128) ∷ []) (uleb_bytes k (n / 128) ++ rest) at') in
          rw (here, uleb_loop)
            (rw (goes_on, seven, sum)
              (rw (no_end, rec_call, e, later)
                (ap (λ (t : ℕ). done (n * 2 ^ shift + result, t)) (omega arith))))
    ]

-- A 64-bit number written in groups of seven bits is read back wherever it stands, and the position
-- returned is just behind it.
pub read_uleb-bytes :
    (d : Bytes) (n p : ℕ) (rest : Bytes)
    → n < 2 ^ 64
    → drop p d ≡ uleb_bytes 10 n ++ rest
    → read_uleb d p ≡ done (n, p + length (uleb_bytes 10 n))
unfolding read_uleb
read_uleb-bytes d n p rest h at =
    uleb_loop-bytes 10 d n p 0 0 rest (omega arith) (omega arith) (omega arith) (omega arith) at
    ∙ ap (λ (t : ℕ). done (t, p + length (uleb_bytes 10 n))) (omega arith)
