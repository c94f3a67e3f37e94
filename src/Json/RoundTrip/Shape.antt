-- ===== src/Json/RoundTrip/Shape.antt =====
-- The values that print to JSON: numbers in the number alphabet, texts in UTF-8. How a printed value
-- begins, and the fuel that parsing it takes.
use perun.Base.{
  ℕ, ◌+◌, ◌*◌, ◌≤◌, ◌<◌, ◌≡◌, refl, true, false, ◌||◌, [], ◌∷◌, ◌++◌, length, All, Bytes, codes,
  ◌==◌, length-append, arith,
}
use perun.Base.Utf8.{is_utf8, is_utf8-cons, is_utf8-ascii, utf8_from-append}
use perun.Json.Text.{is_whitespace, is_digit}
use perun.Json.{
  Json, null, bool, number, string, array, object, Items, nil, cons, Fields, end, field,
  is_number_byte,
}
use perun.Json.Print.{json_str, print, print_items, print_fields}
use perun.Json.Strings.Runs.{IsRun}
use perun.Json.Strings.Valid.{is_utf8-json_str}

-- A minus sign or a digit, then bytes of the number alphabet.
abbrev pub IsNumber : Bytes → Type 0
IsNumber [] = ⊥
IsNumber (c ∷ cs) = (((c == b'-') || is_digit c) ≡ true) × IsRun is_number_byte cs

abbrev mutual
  pub IsWellFormed : Json → Type 0
  IsWellFormed null = Unit
  IsWellFormed (bool b) = Unit
  IsWellFormed (number n) = IsNumber n
  IsWellFormed (string s) = is_utf8 s ≡ true
  IsWellFormed (array vs) = AreWellFormed vs
  IsWellFormed (object fs) = HaveWellFormed fs

  pub AreWellFormed : Items → Type 0
  AreWellFormed nil = Unit
  AreWellFormed (cons v vs) = IsWellFormed v × AreWellFormed vs

  pub HaveWellFormed : Fields → Type 0
  HaveWellFormed end = Unit
  HaveWellFormed (field k v fs) = (is_utf8 k ≡ true) × IsWellFormed v × HaveWellFormed fs

-- The text between an opening bracket and its end.
abbrev pub items_text : Items → Bytes
items_text nil = []
items_text (cons v vs) = print v ++ print_items vs

abbrev pub fields_text : Fields → Bytes
fields_text end = []
fields_text (field k v fs) = json_str k ++ (b':' ∷ (print v ++ print_fields fs))

abbrev mutual
  pub weight : Json → ℕ
  weight null = 1
  weight (bool b) = 1
  weight (number n) = 1
  weight (string s) = 1
  weight (array vs) = 2 + items_weight vs
  weight (object fs) = 2 + fields_weight fs

  pub items_weight : Items → ℕ
  items_weight nil = 0
  items_weight (cons v vs) = 1 + weight v + items_weight vs

  pub fields_weight : Fields → ℕ
  fields_weight end = 0
  fields_weight (field k v fs) = 1 + weight v + fields_weight fs

pub record Head (text : Bytes) : Type 0 where
  pub byte : ℕ
  pub tail : Bytes
  pub is : text ≡ byte ∷ tail
  pub solid : is_whitespace byte ≡ false
  pub ascii : byte < 0x80
  pub no_bracket : (byte == b']') ≡ false

-- A printed value begins with an ASCII byte that is not white space.
pub head : (v : Json) → IsWellFormed v → Head (print v)
head null w = record {
  byte = _;
  tail = _;
  is = refl;
  solid = refl;
  ascii = omega arith;
  no_bracket = refl;
}
head (bool true) w = record {
  byte = _;
  tail = _;
  is = refl;
  solid = refl;
  ascii = omega arith;
  no_bracket = refl;
}
head (bool false) w = record {
  byte = _;
  tail = _;
  is = refl;
  solid = refl;
  ascii = omega arith;
  no_bracket = refl;
}
head (number []) w = absurd w
head (number (c ∷ cs)) w = record {
  byte = c;
  tail = cs;
  is = refl;
  solid = ground arith;
  ascii = ground arith;
  no_bracket = ground arith;
}
head (string s) w = record {
  byte = _;
  tail = _;
  is = refl;
  solid = refl;
  ascii = omega arith;
  no_bracket = refl;
}
head (array nil) w = record {
  byte = _;
  tail = _;
  is = refl;
  solid = refl;
  ascii = omega arith;
  no_bracket = refl;
}
head (array (cons v vs)) w = record {
  byte = _;
  tail = _;
  is = refl;
  solid = refl;
  ascii = omega arith;
  no_bracket = refl;
}
head (object end) w = record {
  byte = _;
  tail = _;
  is = refl;
  solid = refl;
  ascii = omega arith;
  no_bracket = refl;
}
head (object (field k v fs)) w = record {
  byte = _;
  tail = _;
  is = refl;
  solid = refl;
  ascii = omega arith;
  no_bracket = refl;
}

mutual
  weight-le : (v : Json) → IsWellFormed v → weight v ≤ 3 * length (print v)
  weight-le null w = omega arith
  weight-le (bool true) w = omega arith
  weight-le (bool false) w = omega arith
  weight-le (number []) w = absurd w
  weight-le (number (c ∷ cs)) w = omega arith
  weight-le (string s) w = omega arith
  weight-le (array nil) w = omega arith
  weight-le (array (cons v vs)) (w, ws) =
      omega (arith, weight-le v w, items_weight-le vs ws, length-append (print v) (print_items vs))
  weight-le (object end) w = omega arith
  weight-le (object (field k v fs)) (wk, w, ws) = omega (
    arith,
    weight-le v w,
    fields_weight-le fs ws,
    length-append (json_str k) (b':' ∷ (print v ++ print_fields fs)),
    length-append (print v) (print_fields fs),
  )

  items_weight-le : (vs : Items) → AreWellFormed vs → items_weight vs ≤ 3 * length (print_items vs)
  items_weight-le nil w = omega arith
  items_weight-le (cons v vs) (w, ws) =
      omega (arith, weight-le v w, items_weight-le vs ws, length-append (print v) (print_items vs))

  fields_weight-le :
      (fs : Fields) → HaveWellFormed fs → fields_weight fs ≤ 3 * length (print_fields fs)
  fields_weight-le end w = omega arith
  fields_weight-le (field k v fs) (wk, w, ws) = omega (
    arith,
    weight-le v w,
    fields_weight-le fs ws,
    length-append (json_str k) (b':' ∷ (print v ++ print_fields fs)),
    length-append (print v) (print_fields fs),
  )

number_ascii : (cs : Bytes) → IsRun is_number_byte cs → All (λ b. b < 0x80) cs
number_ascii [] h = tt
number_ascii (c ∷ cs) h = (ground arith, number_ascii cs h.1)

pub is_utf8-number : (n : Bytes) → IsNumber n → is_utf8 n ≡ true
is_utf8-number [] w = absurd w
is_utf8-number (c ∷ cs) w = is_utf8-ascii (c ∷ cs) (ground arith, number_ascii cs w.1)

joined : (xs ys : Bytes) → is_utf8 xs ≡ true → is_utf8 ys ≡ true → is_utf8 (xs ++ ys) ≡ true
joined = utf8_from-append 0 0x80 0xbf

behind : (c : ℕ) (xs : Bytes) → c < 0x80 → is_utf8 xs ≡ true → is_utf8 (c ∷ xs) ≡ true
behind c xs h v = rw (is_utf8-cons c xs h) v

mutual
  print_valid : (v : Json) → IsWellFormed v → is_utf8 (print v) ≡ true
  print_valid null w = is_utf8-ascii (codes "null") (omega arith)
  print_valid (bool true) w = is_utf8-ascii (codes "true") (omega arith)
  print_valid (bool false) w = is_utf8-ascii (codes "false") (omega arith)
  print_valid (number n) w = is_utf8-number n w
  print_valid (string s) w = is_utf8-json_str s w
  print_valid (array nil) w = is_utf8-ascii (codes "[]") (omega arith)
  print_valid (array (cons v vs)) (w, ws) =
      behind b'[' _ (omega arith)
        (joined (print v) (print_items vs) (print_valid v w) (print_items_valid vs ws))
  print_valid (object end) w = is_utf8-ascii (codes "{}") (omega arith)
  print_valid (object (field k v fs)) (wk, w, ws) = behind b'{' _ (omega arith) (
      joined (json_str k) (b':' ∷ (print v ++ print_fields fs)) (is_utf8-json_str k wk) (
        behind b':' _ (omega arith)
          (joined (print v) (print_fields fs) (print_valid v w) (print_fields_valid fs ws))))

  print_items_valid : (vs : Items) → AreWellFormed vs → is_utf8 (print_items vs) ≡ true
  print_items_valid nil w = is_utf8-ascii (codes "]") (omega arith)
  print_items_valid (cons v vs) (w, ws) =
      behind b',' _ (omega arith)
        (joined (print v) (print_items vs) (print_valid v w) (print_items_valid vs ws))

  print_fields_valid : (fs : Fields) → HaveWellFormed fs → is_utf8 (print_fields fs) ≡ true
  print_fields_valid end w = is_utf8-ascii (codes "}") (omega arith)
  print_fields_valid (field k v fs) (wk, w, ws) = behind b',' _ (omega arith) (
      joined (json_str k) (b':' ∷ (print v ++ print_fields fs)) (is_utf8-json_str k wk) (
        behind b':' _ (omega arith)
          (joined (print v) (print_fields fs) (print_valid v w) (print_fields_valid fs ws))))

-- A printed value is valid UTF-8.
pub is_utf8-print : (v : Json) → IsWellFormed v → is_utf8 (print v) ≡ true
is_utf8-print v w = print_valid v w

pub weight-le-print : (v : Json) → IsWellFormed v → weight v ≤ 3 * length (print v)
weight-le-print v w = weight-le v w

pub weight-pos : (v : Json) → 1 ≤ weight v
weight-pos null = omega arith
weight-pos (bool b) = omega arith
weight-pos (number n) = omega arith
weight-pos (string s) = omega arith
weight-pos (array vs) = omega arith
weight-pos (object fs) = omega arith
