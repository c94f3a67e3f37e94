-- ===== src/Json/Progress.antt =====
-- What the parser reads below the values moves on or fails, and never for want of fuel.
use perun.Base.{
  ℕ, zero, suc, ◌+◌, ◌-◌, ◌≤◌, ◌<◌, ◌≡◌, inl, inr, ◌&&◌, [], ◌++◌, length, take, drop, get_elem?-lt,
  Bytes, ltb, within, ◌==◌, ==→ne, if◌then◌else◌, Bool-cases, Option-cases, arith,
}
use perun.Base.Utf8.{is_utf8}
use perun.Json.Text.{parse_hex}
use perun.Json.{
  Json, JsonError, bad_unicode_escape, bad_surrogate, out_of_fuel, Result, ok, err, ◌>>=◌,
  is_some_byte, run_of, is_number_byte, is_plain, back_up, skip_loop, skip_ws, peek, expect,
  literal, parse_number, hex4, unicode_escape, escape_at, plain_at, string_loop, parse_string,
}

-- A result that is behind the place `pos`, or an error other than the end of the fuel.
abbrev pub Moves {ℓ} : {A : Type ℓ} → (A → ℕ) → ℕ → Result A → Type 0
Moves place pos (ok a) = pos < place a
Moves place pos (err e) = ¬ (e ≡ out_of_fuel)

pub Moves-bind {ℓ κ} :
    {A : Type ℓ} {B : Type κ} (place : A → ℕ) (next : B → ℕ) (pos start : ℕ) (m : Result A)
    (f : A → Result B)
    → Moves place pos m
    → ((a : A) → pos < place a → Moves next start (f a))
    → Moves next start (m >>= f)
Moves-bind place next pos start (ok a) f h k = k a h
Moves-bind place next pos start (err e) f h k = h

pub Moves-later {ℓ} :
    {A : Type ℓ} (place : A → ℕ) (pos pos' : ℕ) (m : Result A)
    → pos ≤ pos'
    → Moves place pos' m
    → Moves place pos m
Moves-later place pos pos' (ok a) h k = omega (arith, h, k)
Moves-later place pos pos' (err e) h k = k

module _ (bytes : Bytes) where
  pub skip_loop-ge : (n pos : ℕ) → pos ≤ skip_loop bytes n pos
  unfolding skip_loop
  skip_loop-ge zero pos = omega arith
  skip_loop-ge (suc n) pos = ground (arith, skip_loop-ge n (pos + 1))

  pub skip_ws-ge : (pos : ℕ) → pos ≤ skip_ws bytes pos
  unfolding skip_ws
  skip_ws-ge pos = skip_loop-ge (suc (length bytes)) pos

  pub expect-Moves : (b pos : ℕ) → Moves (λ p. p) pos (expect bytes b pos)
  unfolding expect
  expect-Moves b pos = ground arith

  pub literal-Moves :
      (text : Bytes) (v : Json) (pos : ℕ)
      → 0 < length text
      → Moves (λ r. r.1) pos (literal bytes text v pos)
  unfolding literal
  literal-Moves text v pos h = ground arith

  pub parse_number-Moves : (start : ℕ) → Moves (λ r. r.1) start (parse_number bytes start)
  unfolding parse_number
  parse_number-Moves start =
      let after_sign = if is_some_byte (peek bytes start) b'-' then start + 1 else start in
      let pos = after_sign + run_of is_number_byte (drop after_sign bytes) in
      let text = take (pos - start) (drop start bytes) in
      let ge : start ≤ after_sign = ground arith in
      elim (Bool-cases (start == pos)) [
        | inl same ↦ rw same (λ h. cc)
        | inr other ↦
            let ne = ==→ne start pos other in
            elim (Bool-cases (is_utf8 text)) [
              | inl valid ↦ rw (other, valid) (omega (arith, ge, ne))
              | inr broken ↦ rw (other, broken) (λ h. cc)
            ]
      ]

  pub hex4-Moves :
      (e : JsonError) (pos : ℕ) → ¬ (e ≡ out_of_fuel) → Moves (λ c. 1) 0 (hex4 bytes e pos)
  unfolding hex4
  hex4-Moves e pos h =
      let hex = take 4 (drop pos bytes) in
      elim (Bool-cases (ltb (length hex) 4)) [
        | inl short ↦ rw short h
        | inr whole ↦ elim (Bool-cases (is_utf8 hex)) [
          | inr broken ↦ rw (whole, broken) (λ k. cc)
          | inl valid ↦ elim (Option-cases (parse_hex hex)) [
            | inl bad ↦ rw (whole, valid, bad) (λ k. cc)
            | inr (cp, read) ↦ rw (whole, valid, read) (omega arith)
          ]
        ]
      ]

  pub unicode_escape-Moves : (pos : ℕ) → Moves (λ r. r.1) pos (unicode_escape bytes pos)
  unfolding unicode_escape
  unicode_escape-Moves pos =
      Moves-bind (λ c. 1) (λ r. r.1) 0 pos (hex4 bytes bad_unicode_escape pos) _
        (hex4-Moves bad_unicode_escape pos (λ h. cc))
        (λ cp k. elim (Bool-cases (within 0xd800 0xdbff cp)) [
          | inr single ↦ rw single (omega arith)
          | inl high ↦
              elim (Bool-cases (
                is_some_byte (peek bytes (pos + 4)) b'\\'
                && is_some_byte (peek bytes (pos + 5)) b'u')) [
                  | inr alone ↦ rw (high, alone) (omega arith)
                  | inl pair ↦
                      rw (high, pair)
                        (Moves-bind (λ c. 1) (λ r. r.1) 0 pos (hex4 bytes bad_surrogate (pos + 6)) _
                          (hex4-Moves bad_surrogate (pos + 6) (λ h. cc)) (λ low l. omega arith))
                ]
        ])

  pub escape_at-Moves : (pos : ℕ) → Moves (λ r. r.1) pos (escape_at bytes pos)
  unfolding escape_at
  escape_at-Moves pos = ground (arith, unicode_escape-Moves (pos + 1))

  pub plain_at-Moves : (pos : ℕ) → Moves (λ r. r.1) pos (plain_at bytes pos)
  unfolding plain_at
  plain_at-Moves start =
      let stop = start + 1 + run_of is_plain (drop (start + 1) bytes) in
      let from = back_up bytes start in
      elim (Bool-cases (is_utf8 (take (stop - from) (drop from bytes)))) [
        | inl valid ↦ rw valid (omega arith)
        | inr broken ↦ rw broken (λ h. cc)
      ]

  pub string_loop-Moves :
      (n pos : ℕ) (out : Bytes)
      → length bytes - pos < n
      → Moves (λ r. r.1) pos (string_loop bytes n pos out)
  unfolding string_loop
  string_loop-Moves zero pos out h = absurd (omega arith)
  string_loop-Moves (suc n) pos out h = elim (Option-cases (peek bytes pos)) [
    | inl none_left ↦ rw (Moves, none_left) (λ k. cc)
    | inr (c, here) ↦ elim (Bool-cases (c == b'"')) [
      | inl quote ↦ rw (Moves, here, quote) (omega arith)
      | inr q ↦ elim (Bool-cases (c == b'\\')) [
        | inl slash ↦
            rw (Moves, here, q, slash)
              (Moves-bind (λ r. r.1) (λ r. r.1) (pos + 1) pos (escape_at bytes (pos + 1)) _
                (escape_at-Moves (pos + 1))
                (λ r k.
                  Moves-later (λ t. t.1) pos r.1 _ (omega (arith, k))
                    (string_loop-Moves n r.1 (out ++ r.0)
                      (omega (arith, h, k, get_elem?-lt bytes pos c here)))))
        | inr s ↦ elim (Bool-cases (ltb c 0x20)) [
          | inl control ↦ rw (Moves, here, q, s, control) (λ k. cc)
          | inr plain ↦
              rw (Moves, here, q, s, plain)
                (Moves-bind (λ r. r.1) (λ r. r.1) pos pos (plain_at bytes pos) _
                  (plain_at-Moves pos)
                  (λ r k.
                    Moves-later (λ t. t.1) pos r.1 _ (omega (arith, k))
                      (string_loop-Moves n r.1 (out ++ r.0)
                        (omega (arith, h, k, get_elem?-lt bytes pos c here)))))
        ]
      ]
    ]
  ]

  pub parse_string-Moves : (pos : ℕ) → Moves (λ r. r.1) pos (parse_string bytes pos)
  unfolding parse_string
  parse_string-Moves pos =
      Moves-bind (λ p. p) (λ r. r.1) pos pos (expect bytes b'"' pos) _ (expect-Moves b'"' pos)
        (λ p k.
          Moves-later (λ r. r.1) pos p _ (omega (arith, k))
            (string_loop-Moves (suc (length bytes)) p [] (omega arith)))
