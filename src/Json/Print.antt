-- ===== src/Json/Print.antt =====
-- `json_str` of crates/perun-cli/src/store/out.rs, and a printer of whole values on top of it. The
-- code goes by characters; one that is not ASCII is copied, so going by bytes prints the same.
use perun.Base.{
  ℕ, ◌+◌, ◌/◌, ◌%◌, true, false, ◌||◌, ◌-◌, [], ◌∷◌, ◌++◌, Bytes, codes, ltb, ◌==◌, if◌then◌else◌,
}
use perun.Json.{
  Json, null, bool, number, string, array, object, Items, nil, cons, Fields, end, field,
}

-- A digit of `{:x}`.
abbrev pub hex_digit : ℕ → ℕ
hex_digit d = if ltb d 10 then b'0' + d else b'a' + d - 10

-- What follows the backslash of an escape.
unfoldable pub escape_tail : ℕ → Bytes
escape_tail c =
    if c == b'"'
    then b'"' ∷ []
    else if c == b'\\'
    then b'\\' ∷ []
    else if c == b'\n'
    then b'n' ∷ []
    else if c == b'\r'
    then b'r' ∷ []
    else if c == b'\t'
    then b't' ∷ []
    else b'u' ∷ b'0' ∷ b'0' ∷ hex_digit (c / 16) ∷ hex_digit (c % 16) ∷ []

-- What `json_str` pushes for one character.
unfoldable pub escape_byte : ℕ → Bytes
unfolding escape_tail
escape_byte c =
    if (c == b'"') || ((c == b'\\') || ltb c 0x20) then b'\\' ∷ escape_tail c else c ∷ []

abbrev pub escape_all : Bytes → Bytes
escape_all [] = []
escape_all (c ∷ cs) = escape_byte c ++ escape_all cs

abbrev pub json_str : Bytes → Bytes
json_str s = b'"' ∷ (escape_all s ++ b'"' ∷ [])

abbrev mutual
  pub print : Json → Bytes
  print null = codes "null"
  print (bool true) = codes "true"
  print (bool false) = codes "false"
  print (number n) = n
  print (string s) = json_str s
  print (array nil) = codes "[]"
  print (array (cons v vs)) = b'[' ∷ (print v ++ print_items vs)
  print (object end) = codes "{}"
  print (object (field k v fs)) = b'{' ∷ (json_str k ++ (b':' ∷ (print v ++ print_fields fs)))

  -- The items behind the first, and the bracket.
  pub print_items : Items → Bytes
  print_items nil = codes "]"
  print_items (cons v vs) = b',' ∷ (print v ++ print_items vs)

  pub print_fields : Fields → Bytes
  print_fields end = codes "}"
  print_fields (field k v fs) = b',' ∷ (json_str k ++ (b':' ∷ (print v ++ print_fields fs)))
