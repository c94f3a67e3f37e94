-- ===== src/Json.antt =====
-- crates/perun-cli/src/store/json.rs: the JSON parser, and `json_str` of out.rs beside it.
-- A text is the list of its UTF-8 bytes. The parser's functions take the whole input and a position.
-- Arithmetic is that of a release build, where `u32` wraps.
pub mod Text
pub mod Print
pub mod Access
pub mod Strings
pub mod RoundTrip
pub mod Progress
pub mod Fuel
mod Tests
use perun.Base.{
  ℕ, zero, suc, ◌+◌, ◌-◌, ◌*◌, ◌/◌, ◌%◌, ◌^◌, Bool, true, false, not, ◌&&◌, ◌||◌, Option, none,
  some, List, [], ◌∷◌, ◌++◌, length, take, drop, get_elem?, Bytes, codes, eq_bytes, ltb, leb,
  within, ◌==◌, if◌then◌else◌,
}
use perun.Base.Utf8.{is_utf8, utf8_from, lead}
use Text.{is_whitespace, is_digit, encode_char, parse_hex}

mutual
  pub data Json : Type 0 where
    null : Json
    bool : Bool → Json
    number : Bytes → Json
    string : Bytes → Json
    array : Items → Json
    object : Fields → Json

  -- `Vec<Json>`
  pub data Items : Type 0 where
    nil : Items
    cons : Json → Items → Items

  -- `Vec<(String, Json)>`
  pub data Fields : Type 0 where
    end : Fields
    field : Bytes → Json → Fields → Fields

-- `out_of_fuel` is the model's own.
pub data JsonError : Type 0 where
  empty_body invalid_utf8 unterminated_string bad_escape bad_unicode_escape escape_utf8 : JsonError
  bad_hex bad_surrogate bad_escape_char control_char string_utf8 number_utf8 out_of_fuel : JsonError
  trailing_bytes unexpected_byte bad_literal bad_number expected_brace expected_bracket :
      ℕ → JsonError
  expected : ℕ → ℕ → JsonError

pub data Result {ℓ} (A : Type ℓ) : Type ℓ where
  ok : A → Result A
  err : JsonError → Result A

infixl 5 ◌>>=◌
abbrev pub ◌>>=◌ {ℓ κ} : {A : Type ℓ} {B : Type κ} → Result A → (A → Result B) → Result B
ok a >>= f = f a
err e >>= f = err e

-- How far the inner loop of `string` runs: up to a quote, an escape or a control character.
abbrev pub is_plain : ℕ → Bool
is_plain c = not (ltb c 0x20) && (not (c == b'"') && not (c == b'\\'))

-- How far the loop of `number` runs.
abbrev pub is_number_byte : ℕ → Bool
is_number_byte c =
    is_digit c || ((c == b'.') || ((c == b'e') || ((c == b'E') || ((c == b'+') || (c == b'-')))))

-- `while let Some(c) = … { if test { pos += 1 } else { break } }`: the bytes passed.
pub run_of : (ℕ → Bool) → Bytes → ℕ
run_of p [] = 0
run_of p (c ∷ cs) = let rest = run_of p cs in if p c then suc rest else 0

starts_with : Bytes → Bytes → Bool
starts_with [] bs = true
starts_with (x ∷ xs) [] = false
starts_with (x ∷ xs) (b ∷ bs) = x == b && starts_with xs bs

is_some_byte : Option ℕ → ℕ → Bool
is_some_byte none b = false
is_some_byte (some c) b = c == b

abbrev or_replacement : ℕ → ℕ
or_replacement cp = if ltb cp 0x110000 && not (within 0xd800 0xdfff cp) then cp else 0xfffd

-- The parser over its input.
module _ (bytes : Bytes) where
  pub has_bom : Bool
  unfolding starts_with
  has_bom = starts_with (0xef ∷ 0xbb ∷ 0xbf ∷ []) bytes

  -- The loop of `skip_ws`; each turn but the first jump moves one byte on.
  pub skip_loop : ℕ → ℕ → ℕ
  skip_loop zero pos = pos
  skip_loop (suc n) pos =
      let next = skip_loop n (pos + 1) in
      let jumped = skip_loop n 3 in
      elim (get_elem? bytes pos) [
        | none ↦ pos
        | some b ↦ if is_whitespace b then next else if (pos == 0) && has_bom then jumped else pos
      ]

  pub skip_ws : ℕ → ℕ
  unfolding skip_loop has_bom
  skip_ws pos = skip_loop (suc (length bytes)) pos

  abbrev pub peek : ℕ → Option ℕ
  peek pos = get_elem? bytes pos

  pub expect : ℕ → ℕ → Result ℕ
  unfolding is_some_byte
  expect b pos = if is_some_byte (peek pos) b then ok (pos + 1) else err (expected b pos)

  pub literal : Bytes → Json → ℕ → Result (Json × ℕ)
  unfolding starts_with
  literal text value pos =
      if starts_with text (drop pos bytes)
      then ok (value, pos + length text)
      else err (bad_literal pos)

  pub parse_number : ℕ → Result (Json × ℕ)
  unfolding is_some_byte run_of utf8_from lead
  parse_number start =
      let after_sign = if is_some_byte (peek start) b'-' then start + 1 else start in
      let pos = after_sign + run_of is_number_byte (drop after_sign bytes) in
      let text = take (pos - start) (drop start bytes) in
      if start == pos
      then err (bad_number start)
      else if is_utf8 text
      then ok (number text, pos)
      else err number_utf8

  -- The four hex digits at `pos`; `missing` is the error of a slice that is too short.
  pub hex4 : JsonError → ℕ → Result ℕ
  unfolding parse_hex utf8_from lead
  hex4 missing pos =
      let hex = take 4 (drop pos bytes) in
      if ltb (length hex) 4
      then err missing
      else if not (is_utf8 hex)
      then err escape_utf8
      else elim (parse_hex hex) [ none ↦ err bad_hex | some cp ↦ ok cp ]

  -- The case `b'u'`, from the position behind it: the bytes pushed and the new position.
  pub unicode_escape : ℕ → Result (Bytes × ℕ)
  unfolding encode_char is_some_byte
  unicode_escape pos = hex4 bad_unicode_escape pos >>= λ cp.
      if within 0xd800 0xdbff cp
      then (if is_some_byte (peek (pos + 4)) b'\\' && is_some_byte (peek (pos + 5)) b'u'
          then (hex4 bad_surrogate (pos + 6) >>= λ low.
              let combined =
                (0x10000 + (cp - 0xd800) * 2 ^ 10 + (low + 2 ^ 32 - 0xdc00)) % 2 ^ 32 in
              ok (encode_char (or_replacement combined), pos + 10))
          else ok (encode_char 0xfffd, pos + 4))
      else ok (encode_char (or_replacement cp), pos + 4)

  -- The match on the byte behind a backslash, at its position.
  pub escape_at : ℕ → Result (Bytes × ℕ)
  escape_at pos = elim (peek pos) [
    | none ↦ err bad_escape
    | some esc ↦
        if (esc == b'"') || ((esc == b'\\') || (esc == b'/'))
        then ok (esc ∷ [], pos + 1)
        else if esc == b'b'
        then ok (0x08 ∷ [], pos + 1)
        else if esc == b'f'
        then ok (0x0c ∷ [], pos + 1)
        else if esc == b'n'
        then ok (0x0a ∷ [], pos + 1)
        else if esc == b'r'
        then ok (0x0d ∷ [], pos + 1)
        else if esc == b't'
        then ok (0x09 ∷ [], pos + 1)
        else if esc == b'u'
        then unicode_escape (pos + 1)
        else err bad_escape_char
  ]

  -- `while start2 > 0 && bytes[start2] & 0xC0 == 0x80 { start2 -= 1 }`
  pub back_up : ℕ → ℕ
  back_up zero = zero
  back_up (suc pos) =
      let before = back_up pos in
      elim (peek (suc pos)) [
        | none ↦ suc pos
        | some b ↦ if within 0x80 0xbf b then before else suc pos
      ]

  -- The case of a plain byte at `start`: the text up to the next byte that is not plain.
  pub plain_at : ℕ → Result (Bytes × ℕ)
  unfolding run_of back_up utf8_from lead
  plain_at start =
      let stop = start + 1 + run_of is_plain (drop (start + 1) bytes) in
      let from = back_up start in
      let slice = take (stop - from) (drop from bytes) in
      if is_utf8 slice then ok (slice, stop) else err string_utf8

  -- The loop of `string`, behind the opening quote.
  pub string_loop : ℕ → ℕ → Bytes → Result (Bytes × ℕ)
  string_loop zero pos out = err out_of_fuel
  string_loop (suc n) pos out = elim (peek pos) [
    | none ↦ err unterminated_string
    | some c ↦
        if c == b'"'
        then ok (out, pos + 1)
        else if c == b'\\'
        then (escape_at (pos + 1) >>= λ r. string_loop n r.1 (out ++ r.0))
        else if ltb c 0x20
        then err control_char
        else (plain_at pos >>= λ r. string_loop n r.1 (out ++ r.0))
  ]

  pub parse_string : ℕ → Result (Bytes × ℕ)
  parse_string pos = expect b'"' pos >>= λ p. string_loop (suc (length bytes)) p []

  mutual
    unfolding is_digit skip_ws

    pub value : ℕ → ℕ → Result (Json × ℕ)
    value zero pos = err out_of_fuel
    value (suc n) pos = elim (peek pos) [
      | none ↦ err (unexpected_byte pos)
      | some c ↦
          if c == b'{'
          then parse_object n pos
          else if c == b'['
          then parse_array n pos
          else if c == b'"'
          then (parse_string pos >>= λ r. ok (string r.0, r.1))
          else if c == b't'
          then literal (codes "true") (bool true) pos
          else if c == b'f'
          then literal (codes "false") (bool false) pos
          else if c == b'n'
          then literal (codes "null") null pos
          else if (c == b'-') || is_digit c
          then parse_number pos
          else err (unexpected_byte pos)
    ]

    pub parse_object : ℕ → ℕ → Result (Json × ℕ)
    parse_object zero pos = err out_of_fuel
    parse_object (suc n) pos = expect b'{' pos >>= λ p.
        let p1 = skip_ws p in
        if is_some_byte (peek p1) b'}'
        then ok (object end, p1 + 1)
        else (object_loop n p1 >>= λ r. ok (object r.0, r.1))

    pub object_loop : ℕ → ℕ → Result (Fields × ℕ)
    object_loop zero pos = err out_of_fuel
    object_loop (suc n) pos = parse_string (skip_ws pos) >>= λ key.
        expect b':' (skip_ws key.1) >>= λ p. value n (skip_ws p) >>= λ v.
        let p1 = skip_ws v.1 in
        if is_some_byte (peek p1) b','
        then (object_loop n (p1 + 1) >>= λ r. ok (field key.0 v.0 r.0, r.1))
        else if is_some_byte (peek p1) b'}'
        then ok (field key.0 v.0 end, p1 + 1)
        else err (expected_brace p1)

    pub parse_array : ℕ → ℕ → Result (Json × ℕ)
    parse_array zero pos = err out_of_fuel
    parse_array (suc n) pos = expect b'[' pos >>= λ p.
        let p1 = skip_ws p in
        if is_some_byte (peek p1) b']'
        then ok (array nil, p1 + 1)
        else (array_loop n p1 >>= λ r. ok (array r.0, r.1))

    pub array_loop : ℕ → ℕ → Result (Items × ℕ)
    array_loop zero pos = err out_of_fuel
    array_loop (suc n) pos = value n (skip_ws pos) >>= λ v.
        let p1 = skip_ws v.1 in
        if is_some_byte (peek p1) b','
        then (array_loop n (p1 + 1) >>= λ r. ok (cons v.0 r.0, r.1))
        else if is_some_byte (peek p1) b']'
        then ok (cons v.0 nil, p1 + 1)
        else err (expected_bracket p1)

-- The body of `parse` behind the trimming. A turn of the parser's functions takes at most three
-- calls for a byte.
pub parse_trimmed : Bytes → Result Json
parse_trimmed bytes =
    let start = skip_ws bytes 0 in
    if start == length bytes
    then err empty_body
    else (value bytes (3 * length bytes + 3) start >>= λ r.
        let stop = skip_ws bytes r.1 in
        if stop == length bytes then ok r.0 else err (trailing_bytes stop))

pub parse : Bytes → Result Json
parse input =
    let body = drop (run_of is_whitespace input) input in
    let offset = if ltb 2 (length body) && has_bom body then 3 else 0 in
    let trimmed = drop offset body in
    if is_utf8 trimmed then parse_trimmed trimmed else err invalid_utf8
