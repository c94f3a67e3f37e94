-- ===== src/Json/Text.antt =====
-- The character classes and conversions of the standard library that json.rs uses.
use perun.Base.{
  ℕ, ◌+◌, ◌-◌, ◌*◌, ◌/◌, ◌%◌, ◌^◌, Bool, ◌||◌, Option, none, some, [], ◌∷◌, Bytes, ltb, within,
  ◌==◌, if◌then◌else◌,
}

-- `u8::is_ascii_whitespace`
abbrev pub is_whitespace : ℕ → Bool
is_whitespace b = (b == 0x20) || ((b == 0x09) || ((b == 0x0a) || ((b == 0x0c) || (b == 0x0d))))

abbrev pub is_digit : ℕ → Bool
is_digit = within b'0' b'9'

-- `String::push` of a character: its UTF-8 bytes.
unfoldable pub encode_char : ℕ → Bytes
encode_char cp =
    if ltb cp 0x80
    then cp ∷ []
    else if ltb cp 0x800
    then (0xc0 + cp / 2 ^ 6) ∷ (0x80 + cp % 2 ^ 6) ∷ []
    else if ltb cp 0x10000
    then (0xe0 + cp / 2 ^ 12) ∷ (0x80 + cp / 2 ^ 6 % 2 ^ 6) ∷ (0x80 + cp % 2 ^ 6) ∷ []
    else (0xf0 + cp / 2 ^ 18)
      ∷ (0x80 + cp / 2 ^ 12 % 2 ^ 6)
      ∷ (0x80 + cp / 2 ^ 6 % 2 ^ 6)
      ∷ (0x80 + cp % 2 ^ 6)
      ∷ []

-- `char::to_digit(16)`
abbrev hex_value : ℕ → Option ℕ
hex_value c =
    if within b'0' b'9' c
    then some (c - b'0')
    else if within b'a' b'f' c
    then some (c - b'a' + 10)
    else if within b'A' b'F' c
    then some (c - b'A' + 10)
    else none

hex_digits : ℕ → Bytes → Option ℕ
hex_digits acc [] = some acc
hex_digits acc (c ∷ cs) = elim (hex_value c) [ none ↦ none | some d ↦ hex_digits (acc * 16 + d) cs ]

-- `u32::from_str_radix(hex, 16)` of at most eight digits: a leading `+` is read and skipped.
unfoldable pub parse_hex : Bytes → Option ℕ
unfolding hex_digits
parse_hex [] = none
parse_hex (c ∷ []) = hex_digits 0 (c ∷ [])
parse_hex (c ∷ d ∷ cs) = hex_digits 0 (if c == b'+' then d ∷ cs else c ∷ d ∷ cs)
