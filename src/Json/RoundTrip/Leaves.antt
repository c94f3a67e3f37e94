-- ===== src/Json/RoundTrip/Leaves.antt =====
-- What a printed value consists of, read at its place.
use perun.Base.{
  ℕ, zero, suc, ◌+◌, ◌-◌, ◌<◌, ◌≡◌, refl, ap, ◌∙◌, inl, inr, Bool, true, false, none, [], ◌∷◌, ◌++◌,
  length, take, drop, get_elem?, Bytes, ◌==◌, Bool-cases, ne→==, get_elem?-at, drop-at, take-append,
  arith,
}
use perun.Base.Utf8.{is_utf8}
use perun.Json.Text.{is_whitespace}
use perun.Json.{
  Json, number, ok, is_number_byte, run_of, starts_with, has_bom, skip_loop, skip_ws, expect,
  literal, parse_number, parse_string, value,
}
use perun.Json.Print.{json_str, print}
use perun.Json.Strings.{parse_string-json_str}
use perun.Json.Strings.Runs.{StopsRun, run_of-append}
use perun.Json.RoundTrip.Shape.{IsNumber, IsWellFormed, head, is_utf8-number}

starts_with-append : (xs ys : Bytes) → starts_with xs (xs ++ ys) ≡ true
unfolding starts_with
starts_with-append [] ys = refl
starts_with-append (x ∷ xs) ys = ground (arith, starts_with-append xs ys)

get_elem?-length : (xs : Bytes) → get_elem? xs (length xs) ≡ none
get_elem?-length [] = refl
get_elem?-length (x ∷ xs) = get_elem?-length xs

pub run_of-stops : (p : ℕ → Bool) (c : ℕ) (rest : Bytes) → p c ≡ false → run_of p (c ∷ rest) ≡ 0
unfolding run_of
run_of-stops p c rest h = rw h refl

module _ (bytes : Bytes) where
  pub no_bom : (c : ℕ) (rest : Bytes) → bytes ≡ c ∷ rest → c < 0x80 → has_bom bytes ≡ false
  unfolding has_bom starts_with
  no_bom c rest e h = rw e (ground arith)

  -- Nothing is skipped in front of an ASCII byte that is not white space.
  pub skip_ws-stays :
      (pos c : ℕ) (rest : Bytes)
      → drop pos bytes ≡ c ∷ rest
      → is_whitespace c ≡ false
      → c < 0x80
      → skip_ws bytes pos ≡ pos
  unfolding skip_ws skip_loop
  skip_ws-stays zero c rest at w h =
      rw (get_elem?-at 0 bytes at, skip_loop) (rw (w, no_bom c rest at h))
  skip_ws-stays (suc pos) c rest at w h =
      let moved : (suc pos == 0) ≡ false = ground arith in
      rw (get_elem?-at (suc pos) bytes at, skip_loop) (rw (w, moved))

  pub skip_ws-end : skip_ws bytes (length bytes) ≡ length bytes
  unfolding skip_ws skip_loop
  skip_ws-end = rw (get_elem?-length bytes, skip_loop) refl

  pub expect-at :
      (b pos : ℕ) (rest : Bytes) → drop pos bytes ≡ b ∷ rest → expect bytes b pos ≡ ok (pos + 1)
  unfolding expect
  expect-at b pos rest at = rw (get_elem?-at pos bytes at) (ground arith)

  pub literal-at :
      (text : Bytes) (v : Json) (pos : ℕ) (rest : Bytes)
      → drop pos bytes ≡ text ++ rest
      → literal bytes text v pos ≡ ok (v, pos + length text)
  unfolding literal
  literal-at text v pos rest at = rw (at, starts_with-append text rest)

  pub parse_number-at :
      (n : Bytes) (pos : ℕ) (rest : Bytes)
      → IsNumber n
      → StopsRun is_number_byte rest
      → drop pos bytes ≡ n ++ rest
      → parse_number bytes pos ≡ ok (number n, pos + length n)
  unfolding parse_number
  parse_number-at [] pos rest w stops at = absurd w
  parse_number-at (c ∷ cs) pos rest w stops at =
      let here = get_elem?-at pos bytes at in
      let behind : drop (pos + 1) bytes ≡ cs ++ rest = drop-at pos bytes (c ∷ []) (cs ++ rest) at in
      let valid = is_utf8-number (c ∷ cs) w in
      let slice : take (suc (length cs)) (drop pos bytes) ≡ c ∷ cs =
        ap (take (suc (length cs))) at ∙ take-append (c ∷ cs) rest in
      elim (Bool-cases (c == b'-')) [
        | inl minus ↦
            let size : pos + 1 + length cs - pos ≡ suc (length cs) = omega arith in
            let moved : (pos == pos + 1 + length cs) ≡ false = ne→== pos _ (omega arith) in
            rw
              (
                here,
                minus,
                behind,
                run_of-append is_number_byte cs rest w.1 stops,
                moved,
                size,
                slice,
                valid,
              )
              (ap (λ k. ok (number (c ∷ cs), k)) (omega arith))
        | inr digit ↦
            let run : run_of is_number_byte (drop pos bytes) ≡ suc (length cs) =
              ap (run_of is_number_byte) at
              ∙ run_of-append is_number_byte (c ∷ cs) rest (ground arith, w.1) stops in
            let size : pos + suc (length cs) - pos ≡ suc (length cs) = omega arith in
            let moved : (pos == pos + suc (length cs)) ≡ false = ne→== pos _ (omega arith) in
            rw (here, digit, run, moved, size, slice, valid)
      ]

  -- The tests that a number's first byte fails.
  pub value-number :
      (n pos c : ℕ) (cs rest : Bytes)
      → IsNumber (c ∷ cs)
      → drop pos bytes ≡ (c ∷ cs) ++ rest
      → value bytes (suc n) pos ≡ parse_number bytes pos
  unfolding value
  value-number n pos c cs rest w at =
      let brace : (c == b'{') ≡ false = ground arith in
      let bracket : (c == b'[') ≡ false = ground arith in
      let quote : (c == b'"') ≡ false = ground arith in
      let t : (c == b't') ≡ false = ground arith in
      let f : (c == b'f') ≡ false = ground arith in
      let null' : (c == b'n') ≡ false = ground arith in
      rw (get_elem?-at pos bytes at, value) (rw (brace, bracket, quote, t, f, null', w.0))

  -- Reading an entry up to its value, which begins at `at_value`.
  pub record EntryAt (k : Bytes) (v : Json) (pos : ℕ) (more : Bytes) : Type 0 where
    pub start : skip_ws bytes pos ≡ pos
    pub key : parse_string bytes pos ≡ ok (k, pos + length (json_str k))
    pub colon : skip_ws bytes (pos + length (json_str k)) ≡ pos + length (json_str k)
    pub past_colon :
        expect bytes b':' (pos + length (json_str k)) ≡ ok (pos + length (json_str k) + 1)
    pub solid : skip_ws bytes (pos + length (json_str k) + 1) ≡ pos + length (json_str k) + 1
    pub at_value : drop (pos + length (json_str k) + 1) bytes ≡ print v ++ more

  pub entry_at :
      (k : Bytes) (v : Json) (pos : ℕ) (more : Bytes)
      → is_utf8 k ≡ true
      → IsWellFormed v
      → drop pos bytes ≡ json_str k ++ (b':' ∷ (print v ++ more))
      → EntryAt k v pos more
  entry_at k v pos more wk w at =
      let after = drop-at pos bytes (json_str k) (b':' ∷ (print v ++ more)) at in
      let next = drop-at (pos + length (json_str k)) bytes (b':' ∷ []) (print v ++ more) after in
      let hd = head v w in
      record {
        start = skip_ws-stays pos b'"' _ at refl (omega arith);
        key = parse_string-json_str bytes k pos (b':' ∷ (print v ++ more)) wk at;
        colon = skip_ws-stays (pos + length (json_str k)) b':' _ after refl (omega arith);
        past_colon = expect-at b':' (pos + length (json_str k)) (print v ++ more) after;
        solid =
            skip_ws-stays (pos + length (json_str k) + 1) hd.byte _
              (next ∙ ap (λ t. t ++ more) hd.is) hd.solid hd.ascii;
        at_value = next;
      }
