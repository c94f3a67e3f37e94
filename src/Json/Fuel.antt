-- ===== src/Json/Fuel.antt =====
-- The parser's fuel is enough on every input.
use perun.Base.{
  ℕ, zero, suc, ◌+◌, ◌-◌, ◌*◌, ◌≤◌, ◌<◌, ◌≡◌, refl, subst, inl, inr, true, false, ◌&&◌, ◌||◌, none,
  length, drop, get_elem?-lt, Bytes, codes, ltb, ◌==◌, if◌then◌else◌, Bool-cases, Option-cases,
  arith,
}
use perun.Base.Utf8.{is_utf8}
use perun.Json.Text.{is_whitespace, is_digit}
use perun.Json.{
  bool, null, expected, unexpected_byte, out_of_fuel, err, is_some_byte, run_of, has_bom, skip_ws,
  peek, expect, parse_string, value, parse_object, object_loop, parse_array, array_loop,
  parse_trimmed, parse,
}
use perun.Json.Progress.{
  Moves, Moves-bind, skip_ws-ge, expect-Moves, literal-Moves, parse_number-Moves,
  parse_string-Moves,
}

module _ (bytes : Bytes) where
  abbrev left : ℕ → ℕ
  left pos = length bytes - pos

  -- With fuel `n` for what is left behind `pos`, each of the five functions moves on or fails for
  -- another reason.
  record IsEnough (n : ℕ) : Type 0 where
    at_value : (pos : ℕ) → 3 * left pos + 1 ≤ n → Moves (λ r. r.1) pos (value bytes n pos)
    at_object :
        (pos : ℕ)
        → pos < length bytes
        → 3 * left pos ≤ n
        → Moves (λ r. r.1) pos (parse_object bytes n pos)
    at_array :
        (pos : ℕ)
        → pos < length bytes
        → 3 * left pos ≤ n
        → Moves (λ r. r.1) pos (parse_array bytes n pos)
    at_fields : (pos : ℕ) → 3 * left pos + 2 ≤ n → Moves (λ r. r.1) pos (object_loop bytes n pos)
    at_items : (pos : ℕ) → 3 * left pos + 2 ≤ n → Moves (λ r. r.1) pos (array_loop bytes n pos)

  value-IsEnough :
      (n : ℕ)
      → IsEnough n
      → (pos : ℕ) → 3 * left pos + 1 ≤ suc n
      → Moves (λ r. r.1) pos (value bytes (suc n) pos)
  unfolding value
  value-IsEnough n k pos h = elim (Option-cases (peek bytes pos)) [
    | inl nothing ↦ rw (Moves, nothing) (λ e. cc)
    | inr (c, here) ↦
        let more = get_elem?-lt bytes pos c here in
        elim (Bool-cases (c == b'{')) [
          | inl e ↦ rw (Moves, here, e) (k.at_object pos more (omega arith))
          | inr o ↦ elim (Bool-cases (c == b'[')) [
            | inl e ↦ rw (Moves, here, o, e) (k.at_array pos more (omega arith))
            | inr a ↦ elim (Bool-cases (c == b'"')) [
              | inl e ↦
                  rw (Moves, here, o, a, e)
                    (Moves-bind (λ r. r.1) (λ r. r.1) pos pos (parse_string bytes pos) _
                      (parse_string-Moves bytes pos) (λ r m. m))
              | inr s ↦ elim (Bool-cases (c == b't')) [
                | inl e ↦
                    rw (Moves, here, o, a, s, e)
                      (literal-Moves bytes (codes "true") (bool true) pos (omega arith))
                | inr t ↦ elim (Bool-cases (c == b'f')) [
                  | inl e ↦
                      rw (Moves, here, o, a, s, t, e)
                        (literal-Moves bytes (codes "false") (bool false) pos (omega arith))
                  | inr f ↦ elim (Bool-cases (c == b'n')) [
                    | inl e ↦
                        rw (Moves, here, o, a, s, t, f, e)
                          (literal-Moves bytes (codes "null") null pos (omega arith))
                    | inr z ↦ elim (Bool-cases ((c == b'-') || is_digit c)) [
                      | inl e ↦ rw (Moves, here, o, a, s, t, f, z, e) (parse_number-Moves bytes pos)
                      | inr d ↦ rw (Moves, here, o, a, s, t, f, z, d) (λ i. cc)
                    ]
                  ]
                ]
              ]
            ]
          ]
        ]
  ]

  parse_object-IsEnough :
      (n : ℕ)
      → IsEnough n
      → (pos : ℕ) → pos < length bytes
      → 3 * left pos ≤ suc n
      → Moves (λ r. r.1) pos (parse_object bytes (suc n) pos)
  unfolding parse_object
  parse_object-IsEnough n k pos more h =
      Moves-bind (λ p. p) (λ r. r.1) pos pos (expect bytes b'{' pos) _ (expect-Moves bytes b'{' pos)
        (λ p m.
          let p1 = skip_ws bytes p in
          let ge = skip_ws-ge bytes p in
          elim (Bool-cases (is_some_byte (peek bytes p1) b'}')) [
            | inl closed ↦ rw closed (omega (arith, m, ge))
            | inr going ↦ rw going (
                Moves-bind (λ r. r.1) (λ r. r.1) p1 pos (object_loop bytes n p1) _
                  (k.at_fields p1 (omega (arith, m, ge))) (λ r q. omega (arith, m, ge, q)))
          ])

  parse_array-IsEnough :
      (n : ℕ)
      → IsEnough n
      → (pos : ℕ) → pos < length bytes
      → 3 * left pos ≤ suc n
      → Moves (λ r. r.1) pos (parse_array bytes (suc n) pos)
  unfolding parse_array
  parse_array-IsEnough n k pos more h =
      Moves-bind (λ p. p) (λ r. r.1) pos pos (expect bytes b'[' pos) _ (expect-Moves bytes b'[' pos)
        (λ p m.
          let p1 = skip_ws bytes p in
          let ge = skip_ws-ge bytes p in
          elim (Bool-cases (is_some_byte (peek bytes p1) b']')) [
            | inl closed ↦ rw closed (omega (arith, m, ge))
            | inr going ↦ rw going (
                Moves-bind (λ r. r.1) (λ r. r.1) p1 pos (array_loop bytes n p1) _
                  (k.at_items p1 (omega (arith, m, ge))) (λ r q. omega (arith, m, ge, q)))
          ])

  parse_string-none :
      (pos : ℕ) → peek bytes pos ≡ none → parse_string bytes pos ≡ err (expected b'"' pos)
  unfolding parse_string expect is_some_byte
  parse_string-none pos h = rw h refl

  value-none :
      (n pos : ℕ) → 1 ≤ n → peek bytes pos ≡ none → value bytes n pos ≡ err (unexpected_byte pos)
  unfolding value
  value-none zero pos l h = absurd (omega arith)
  value-none (suc n) pos l h = rw (value, h) refl

  object_loop-IsEnough :
      (n : ℕ)
      → IsEnough n
      → (pos : ℕ) → 3 * left pos + 2 ≤ suc n
      → Moves (λ r. r.1) pos (object_loop bytes (suc n) pos)
  unfolding object_loop
  object_loop-IsEnough n k pos h =
      let at_key = skip_ws bytes pos in
      let ge = skip_ws-ge bytes pos in
      elim (Option-cases (peek bytes at_key)) [
        | inl nothing ↦ rw (Moves, parse_string-none at_key nothing) (λ e. cc)
        | inr (c, here) ↦
            let more = get_elem?-lt bytes at_key c here in
            Moves-bind (λ r. r.1) (λ r. r.1) at_key pos (parse_string bytes at_key) _
              (parse_string-Moves bytes at_key)
              (λ key m.
                let at_colon = skip_ws bytes key.1 in
                let ge1 = skip_ws-ge bytes key.1 in
                Moves-bind (λ p. p) (λ r. r.1) at_colon pos (expect bytes b':' at_colon) _
                  (expect-Moves bytes b':' at_colon)
                  (λ p m1.
                    let ge2 = skip_ws-ge bytes p in
                    Moves-bind (λ r. r.1) (λ r. r.1) (skip_ws bytes p) pos
                      (value bytes n (skip_ws bytes p)) _
                      (k.at_value (skip_ws bytes p) (omega (arith, h, ge, more, m, ge1, m1, ge2)))
                      (λ v m2.
                        let p1 = skip_ws bytes v.1 in
                        let ge3 = skip_ws-ge bytes v.1 in
                        let far : at_key < p1 = omega (arith, m, ge1, m1, ge2, m2, ge3) in
                        elim (Bool-cases (is_some_byte (peek bytes p1) b',')) [
                          | inl comma ↦ rw comma (
                              Moves-bind (λ r. r.1) (λ r. r.1) (p1 + 1) pos
                                (object_loop bytes n (p1 + 1)) _
                                (k.at_fields (p1 + 1) (omega (arith, h, ge, more, far)))
                                (λ r m3. omega (arith, ge, far, m3)))
                          | inr no_comma ↦ elim (Bool-cases (is_some_byte (peek bytes p1) b'}')) [
                            | inl closed ↦ rw (no_comma, closed) (omega (arith, ge, far))
                            | inr other ↦ rw (no_comma, other) (λ e. cc)
                          ]
                        ])))
      ]

  array_loop-IsEnough :
      (n : ℕ)
      → IsEnough n
      → (pos : ℕ) → 3 * left pos + 2 ≤ suc n
      → Moves (λ r. r.1) pos (array_loop bytes (suc n) pos)
  unfolding array_loop
  array_loop-IsEnough n k pos h =
      let start = skip_ws bytes pos in
      let ge = skip_ws-ge bytes pos in
      elim (Option-cases (peek bytes start)) [
        | inl nothing ↦ rw (Moves, value-none n start (omega arith) nothing) (λ e. cc)
        | inr (c, here) ↦
            let more = get_elem?-lt bytes start c here in
            Moves-bind (λ r. r.1) (λ r. r.1) start pos (value bytes n start) _
              (k.at_value start (omega (arith, h, ge)))
              (λ v m.
                let p1 = skip_ws bytes v.1 in
                let ge1 = skip_ws-ge bytes v.1 in
                elim (Bool-cases (is_some_byte (peek bytes p1) b',')) [
                  | inl comma ↦ rw comma (
                      Moves-bind (λ r. r.1) (λ r. r.1) (p1 + 1) pos (array_loop bytes n (p1 + 1)) _
                        (k.at_items (p1 + 1) (omega (arith, h, ge, more, m, ge1)))
                        (λ r m1. omega (arith, ge, m, ge1, m1)))
                  | inr no_comma ↦ elim (Bool-cases (is_some_byte (peek bytes p1) b']')) [
                    | inl closed ↦ rw (no_comma, closed) (omega (arith, ge, m, ge1))
                    | inr other ↦ rw (no_comma, other) (λ e. cc)
                  ]
                ])
      ]

  enough : (n : ℕ) → IsEnough n
  enough zero = record {
    at_value = λ pos h. absurd (omega arith);
    at_object = λ pos more h. absurd (omega arith);
    at_array = λ pos more h. absurd (omega arith);
    at_fields = λ pos h. absurd (omega arith);
    at_items = λ pos h. absurd (omega arith);
  }
  enough (suc n) = record {
    at_value = value-IsEnough n (enough n);
    at_object = parse_object-IsEnough n (enough n);
    at_array = parse_array-IsEnough n (enough n);
    at_fields = object_loop-IsEnough n (enough n);
    at_items = array_loop-IsEnough n (enough n);
  }

parse_trimmed-Moves : (bytes : Bytes) → Moves (λ v. 1) 0 (parse_trimmed bytes)
unfolding parse_trimmed
parse_trimmed-Moves bytes =
    let start = skip_ws bytes 0 in
    elim (Bool-cases (start == length bytes)) [
      | inl empty ↦ rw empty (λ e. cc)
      | inr full ↦ rw full (
          Moves-bind (λ r. r.1) (λ v. 1) start 0 (value bytes (3 * length bytes + 3) start) _
            ((enough bytes (3 * length bytes + 3)).at_value start (omega arith))
            (λ r m. elim (Bool-cases (skip_ws bytes r.1 == length bytes)) [
              | inl whole ↦ rw whole (omega arith)
              | inr trailing ↦ rw trailing (λ e. cc)
            ]))
    ]

parse-Moves : (input : Bytes) → Moves (λ v. 1) 0 (parse input)
unfolding parse
parse-Moves input =
    let body = drop (run_of is_whitespace input) input in
    let trimmed = drop (if ltb 2 (length body) && has_bom body then 3 else 0) body in
    elim (Bool-cases (is_utf8 trimmed)) [
      | inl valid ↦ rw valid (parse_trimmed-Moves trimmed)
      | inr broken ↦ rw broken (λ e. cc)
    ]

-- Parsing ends on every input: the fuel that the model gives its loops never runs out.
pub parse-out_of_fuel : (input : Bytes) → ¬ (parse input ≡ err out_of_fuel)
parse-out_of_fuel input h = subst (Moves (λ v. 1) 0) h (parse-Moves input) refl
