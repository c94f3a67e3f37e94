-- ===== src/Json/RoundTrip.antt =====
-- A printed value is parsed back: every kind of value, at any depth.
pub mod Shape
mod Leaves
mod Values
use perun.Base.{
  ℕ, zero, suc, ◌+◌, ◌-◌, ◌*◌, ◌≤◌, ◌<◌, ◌≡◌, refl, sym, ap, ap₂, ◌∙◌, inl, inr, Bool, true, false,
  not, ◌&&◌, ◌||◌, Option, some, none, List, [], ◌∷◌, ◌++◌, append-nil, append_assoc, length, take,
  drop, get_elem?, Bytes, codes, ltb, within, ◌==◌, if◌then◌else◌, Bool-cases, ne→==, ==-refl,
  get_elem?-at, drop-at, length-append, take-append, arith,
}
use perun.Base.Utf8.{is_utf8, utf8_from, lead}
use perun.Json.Text.{is_whitespace, is_digit}
use perun.Json.{
  Json, null, bool, number, string, array, object, Items, nil, cons, Fields, end, field, Result, ok,
  err, ◌>>=◌, JsonError, is_number_byte, run_of, is_some_byte, starts_with, has_bom, skip_loop,
  skip_ws, peek, expect, literal, parse_number, parse_string, value, parse_object, object_loop,
  parse_array, array_loop, parse_trimmed, parse,
}
use perun.Json.Print.{json_str, print, print_items, print_fields}
use perun.Json.Strings.{parse_string-json_str}
use perun.Json.Strings.Runs.{IsRun, StopsRun, run_of-append}
use perun.Json.RoundTrip.Shape.{
  IsNumber, IsWellFormed, AreWellFormed, HaveWellFormed, items_text, fields_text, weight,
  items_weight, fields_weight, Head, head, is_utf8-number, is_utf8-print, weight-le-print,
  weight-pos,
}
use perun.Json.RoundTrip.Leaves.{
  EntryAt, run_of-stops, no_bom, skip_ws-stays, skip_ws-end, expect-at, literal-at, parse_number-at,
  value-number, entry_at,
}
use perun.Json.RoundTrip.Values.{value_print, array_loop_print, object_loop_print}

module _ (bytes : Bytes) where
  parse_trimmed-whole :
      (v : Json) (c : ℕ) (rest : Bytes)
      → bytes ≡ c ∷ rest
      → is_whitespace c ≡ false
      → c < 0x80
      → value bytes (3 * length bytes + 3) 0 ≡ ok (v, length bytes)
      → parse_trimmed bytes ≡ ok v
  unfolding parse_trimmed
  parse_trimmed-whole v c rest e w h read =
      let some_byte : length bytes ≡ suc (length rest) = ap (length {A = ℕ}) e in
      let moved : (0 == length bytes) ≡ false = ne→== 0 _ (omega arith) in
      rw (skip_ws-stays bytes 0 c rest e w h, moved, read)
        (rw (skip_ws-end bytes, ==-refl (length bytes)))

  parse-whole :
      (v : Json) (c : ℕ) (rest : Bytes)
      → bytes ≡ c ∷ rest
      → is_whitespace c ≡ false
      → c < 0x80
      → is_utf8 bytes ≡ true
      → value bytes (3 * length bytes + 3) 0 ≡ ok (v, length bytes)
      → parse bytes ≡ ok v
  unfolding parse
  parse-whole v c rest e w h valid read =
      let no_space : run_of is_whitespace bytes ≡ 0 =
        ap (run_of is_whitespace) e ∙ run_of-stops is_whitespace c rest w in
      rw (no_space, no_bom bytes c rest e h)
        (elim (Bool-cases (ltb 2 (length bytes))) [
          | inl b ↦ rw (b, valid) (parse_trimmed-whole v c rest e w h read)
          | inr b ↦ rw (b, valid) (parse_trimmed-whole v c rest e w h read)
        ])

-- Parsing a printed value gives the value, whatever its kind and depth, for a value whose
-- numbers are a minus sign or a digit followed by bytes of the number alphabet, and whose texts
-- and keys are valid UTF-8.
pub parse-print : (v : Json) → IsWellFormed v → parse (print v) ≡ ok v
parse-print v w =
    let hd = head v w in
    let bytes = print v in
    parse-whole bytes v hd.byte hd.tail hd.is hd.solid hd.ascii (is_utf8-print v w) (
      value_print bytes v (3 * length bytes + 3) 0 [] w tt (omega (arith, weight-le-print v w))
        (sym (append-nil bytes))
      ∙ ap (λ k. ok (v, k)) (omega arith))
