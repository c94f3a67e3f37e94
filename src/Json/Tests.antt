-- ===== src/Json/Tests.antt =====
-- The JSON parser run on small inputs, and its theorems at concrete values.
use perun.Base.{◌≡◌, refl, true, [], ◌∷◌, ◌++◌, drop, codes}
use perun.Base.Utf8.{is_utf8, utf8_from, lead}
use perun.Json.{Fields}
use perun.Json.Print.{print, json_str}
use perun.Json.Fuel.{parse-out_of_fuel}
use perun.Json.RoundTrip.{parse-print}
use perun.Json.RoundTrip.Shape.{IsWellFormed}
use perun.Json.{
  Json, null, bool, number, string, array, object, nil, cons, end, field, ok, err, out_of_fuel,
  parse, parse_trimmed, value, expect, literal, parse_number, parse_string, string_loop, plain_at,
  escape_at, hex4, unicode_escape,
}

parse_object_test :
    parse (codes " {\"a\": 1, \"b\": [true, null, \"x\"]}\n")
    ≡ ok (
        object (
          field (codes "a") (number (codes "1")) (
            field
              (codes "b")
              (array (cons (bool true) (cons null (cons (string (codes "x")) nil))))
              end)))
unfolding parse value expect literal parse_number parse_string string_loop plain_at parse_trimmed
parse_object_test = refl

parse_escapes :
    parse (codes "\"a\\\"b\\\\c\\u0041\\u00e9\"")
    ≡ ok (string (b'a' ∷ b'"' ∷ b'b' ∷ b'\\' ∷ b'c' ∷ b'A' ∷ 0xc3 ∷ 0xa9 ∷ []))
unfolding parse value expect literal parse_number parse_string string_loop plain_at escape_at
    unicode_escape hex4 parse_trimmed
parse_escapes = refl

-- {"k":[1,"é\n",{}],"":null}
abbrev sample : Json
sample = object (
    field (codes "k")
      (array (
        cons (number (codes "1"))
          (cons (string (0xc3 ∷ 0xa9 ∷ 0x0a ∷ [])) (cons (object end) nil))))
      (field [] null end))

sample-IsWellFormed : IsWellFormed sample
unfolding utf8_from lead
sample-IsWellFormed = (refl, ((refl, tt), (refl, (tt, tt))), (refl, tt, tt))

parse-print_example : parse (print sample) ≡ ok sample
parse-print_example = parse-print sample sample-IsWellFormed

quoted_valid : is_utf8 (codes "a\"b") ≡ true
unfolding utf8_from lead
quoted_valid = refl

quoted_there :
    drop 2 (codes "  " ++ json_str (codes "a\"b") ++ codes "]")
    ≡ json_str (codes "a\"b") ++ codes "]"
quoted_there = refl

abbrev two_ids : Fields
two_ids = field (codes "id") (number (codes "1")) (field (codes "id") null end)

parse-out_of_fuel_example : ¬ (parse (codes "[[{\"a\":") ≡ err out_of_fuel)
parse-out_of_fuel_example = parse-out_of_fuel (codes "[[{\"a\":")
