-- ===== src/Json/RoundTrip/Values.antt =====
-- A printed value, wherever it stands in the input.
use perun.Base.{
  ℕ, zero, suc, ◌+◌, ◌≤◌, ◌≡◌, refl, ap, ◌∙◌, true, false, [], ◌∷◌, ◌++◌, append_assoc, length,
  drop, Bytes, codes, get_elem?-at, drop-at, length-append, arith,
}
use perun.Json.{
  Json, null, bool, number, string, array, object, Items, nil, cons, Fields, end, field, ok,
  is_number_byte, is_some_byte, value, parse_object, object_loop, parse_array, array_loop,
}
use perun.Json.Print.{json_str, print, print_items}
use perun.Json.Strings.{parse_string-json_str}
use perun.Json.Strings.Runs.{StopsRun}
use perun.Json.RoundTrip.Shape.{
  IsWellFormed, AreWellFormed, HaveWellFormed, items_text, fields_text, weight, items_weight,
  fields_weight, head, weight-pos,
}
use perun.Json.RoundTrip.Leaves.{
  skip_ws-stays, expect-at, literal-at, parse_number-at, value-number, entry_at,
}

module _ (bytes : Bytes) where
  mutual
    unfolding value parse_object object_loop parse_array array_loop is_some_byte

    pub value_print :
        (v : Json) (n pos : ℕ) (rest : Bytes)
        → IsWellFormed v
        → StopsRun is_number_byte rest
        → weight v ≤ n
        → drop pos bytes ≡ print v ++ rest
        → value bytes n pos ≡ ok (v, pos + length (print v))
    value_print v zero pos rest w stops h at = absurd (omega (arith, weight-pos v))
    value_print null (suc n) pos rest w stops h at =
        rw (get_elem?-at pos bytes at, value) (literal-at bytes (codes "null") null pos rest at)
    value_print (bool true) (suc n) pos rest w stops h at =
        rw (get_elem?-at pos bytes at, value)
          (literal-at bytes (codes "true") (bool true) pos rest at)
    value_print (bool false) (suc n) pos rest w stops h at =
        rw (get_elem?-at pos bytes at, value)
          (literal-at bytes (codes "false") (bool false) pos rest at)
    value_print (number []) (suc n) pos rest w stops h at = absurd w
    value_print (number (c ∷ cs)) (suc n) pos rest w stops h at =
        value-number bytes n pos c cs rest w at ∙ parse_number-at bytes (c ∷ cs) pos rest w stops at
    value_print (string s) (suc n) pos rest w stops h at =
        rw (get_elem?-at pos bytes at, value) (rw (parse_string-json_str bytes s pos rest w at))
    value_print (array nil) (suc zero) pos rest w stops h at = absurd (omega arith)
    value_print (array nil) (suc (suc n)) pos rest w stops h at =
        let after = drop-at pos bytes (b'[' ∷ []) (b']' ∷ rest) at in
        let solid = skip_ws-stays bytes (pos + 1) b']' rest after refl (omega arith) in
        rw (get_elem?-at pos bytes at, value)
          (rw (expect-at bytes b'[' pos (b']' ∷ rest) at) (
            rw (solid, get_elem?-at (pos + 1) bytes after)
              (ap (λ k. ok (array nil, k)) (omega arith))))
    value_print (array (cons v vs)) (suc zero) pos rest w stops h at = absurd (omega arith)
    value_print (array (cons v vs)) (suc (suc n)) pos rest (w, ws) stops h at =
        let hd = head v w in
        let text = items_text (cons v vs) in
        let after = drop-at pos bytes (b'[' ∷ []) (text ++ rest) at in
        let first : drop (pos + 1) bytes ≡ hd.byte ∷ ((hd.tail ++ print_items vs) ++ rest) =
          after ∙ ap (λ t. (t ++ print_items vs) ++ rest) hd.is in
        let solid = skip_ws-stays bytes (pos + 1) hd.byte _ first hd.solid hd.ascii in
        let read =
          array_loop_print (cons v vs) n (pos + 1) rest (w, ws) (omega arith) (omega arith) after in
        rw (get_elem?-at pos bytes at, value)
          (rw (expect-at bytes b'[' pos (text ++ rest) at) (
            rw (solid, get_elem?-at (pos + 1) bytes first, hd.no_bracket, read)
              (ap (λ k. ok (array (cons v vs), k)) (omega arith))))
    value_print (object end) (suc zero) pos rest w stops h at = absurd (omega arith)
    value_print (object end) (suc (suc n)) pos rest w stops h at =
        let after = drop-at pos bytes (b'{' ∷ []) (b'}' ∷ rest) at in
        let solid = skip_ws-stays bytes (pos + 1) b'}' rest after refl (omega arith) in
        rw (get_elem?-at pos bytes at, value)
          (rw (expect-at bytes b'{' pos (b'}' ∷ rest) at) (
            rw (solid, get_elem?-at (pos + 1) bytes after)
              (ap (λ k. ok (object end, k)) (omega arith))))
    value_print (object (field k v fs)) (suc zero) pos rest w stops h at = absurd (omega arith)
    value_print (object (field k v fs)) (suc (suc n)) pos rest w stops h at =
        let text = fields_text (field k v fs) in
        let after = drop-at pos bytes (b'{' ∷ []) (text ++ rest) at in
        let solid = skip_ws-stays bytes (pos + 1) b'"' _ after refl (omega arith) in
        let read =
          object_loop_print (field k v fs) n (pos + 1) rest w (omega arith) (omega arith) after in
        rw (get_elem?-at pos bytes at, value)
          (rw (expect-at bytes b'{' pos (text ++ rest) at) (
            rw (solid, get_elem?-at (pos + 1) bytes after, read)
              (ap (λ m. ok (object (field k v fs), m)) (omega arith))))

    pub array_loop_print :
        (vs : Items) (n pos : ℕ) (rest : Bytes)
        → AreWellFormed vs
        → 1 ≤ items_weight vs
        → items_weight vs ≤ n
        → drop pos bytes ≡ items_text vs ++ rest
        → array_loop bytes n pos ≡ ok (vs, pos + length (items_text vs))
    array_loop_print nil n pos rest w some_item h at = absurd (omega arith)
    array_loop_print (cons v vs) zero pos rest w some_item h at = absurd (omega arith)
    array_loop_print (cons v nil) (suc n) pos rest (w, ws) some_item h at =
        let hd = head v w in
        let at1 = at ∙ append_assoc (print v) (b']' ∷ []) rest in
        let start =
          skip_ws-stays bytes pos hd.byte _ (at1 ∙ ap (λ t. t ++ b']' ∷ rest) hd.is) hd.solid
            hd.ascii in
        let read = value_print v n pos (b']' ∷ rest) w refl (omega arith) at1 in
        let after = drop-at pos bytes (print v) (b']' ∷ rest) at1 in
        let solid =
          skip_ws-stays bytes (pos + length (print v)) b']' rest after refl (omega arith) in
        rw (start, read)
          (rw (solid, get_elem?-at (pos + length (print v)) bytes after)
            (ap (λ k. ok (cons v nil, k)) (omega (arith, length-append (print v) (b']' ∷ [])))))
    array_loop_print (cons v (cons u us)) (suc n) pos rest (w, ws) some_item h at =
        let hd = head v w in
        let more = items_text (cons u us) in
        let at1 = at ∙ append_assoc (print v) (b',' ∷ more) rest in
        let start =
          skip_ws-stays bytes pos hd.byte _ (at1 ∙ ap (λ t. t ++ b',' ∷ (more ++ rest)) hd.is)
            hd.solid hd.ascii in
        let read = value_print v n pos (b',' ∷ (more ++ rest)) w refl (omega arith) at1 in
        let after = drop-at pos bytes (print v) (b',' ∷ (more ++ rest)) at1 in
        let solid = skip_ws-stays bytes (pos + length (print v)) b',' _ after refl (omega arith) in
        let next = drop-at (pos + length (print v)) bytes (b',' ∷ []) (more ++ rest) after in
        let later =
          array_loop_print (cons u us) n (pos + length (print v) + 1) rest ws (omega arith)
            (omega arith) next in
        rw (start, read)
          (rw (solid, get_elem?-at (pos + length (print v)) bytes after, later)
            (ap (λ k. ok (cons v (cons u us), k))
              (omega (arith, length-append (print v) (b',' ∷ more)))))

    pub object_loop_print :
        (fs : Fields) (n pos : ℕ) (rest : Bytes)
        → HaveWellFormed fs
        → 1 ≤ fields_weight fs
        → fields_weight fs ≤ n
        → drop pos bytes ≡ fields_text fs ++ rest
        → object_loop bytes n pos ≡ ok (fs, pos + length (fields_text fs))
    object_loop_print end n pos rest w some_field h at = absurd (omega arith)
    object_loop_print (field k v fs) zero pos rest w some_field h at = absurd (omega arith)
    object_loop_print (field k v end) (suc n) pos rest (wk, w, ws) some_field h at =
        let whole =
          at
          ∙ append_assoc (json_str k) (b':' ∷ (print v ++ b'}' ∷ [])) rest
          ∙ ap (λ t. json_str k ++ (b':' ∷ t)) (append_assoc (print v) (b'}' ∷ []) rest) in
        let e = entry_at bytes k v pos (b'}' ∷ rest) wk w whole in
        let from = pos + length (json_str k) + 1 in
        let read = value_print v n from (b'}' ∷ rest) w refl (omega arith) e.at_value in
        let after = drop-at from bytes (print v) (b'}' ∷ rest) e.at_value in
        let solid =
          skip_ws-stays bytes (from + length (print v)) b'}' rest after refl (omega arith) in
        rw (e.start, e.key)
          (rw e.colon (
            rw e.past_colon (
              rw (e.solid, read)
                (rw (solid, get_elem?-at (from + length (print v)) bytes after)
                  (ap (λ m. ok (field k v end, m))
                    (omega (
                      arith,
                      length-append (json_str k) (b':' ∷ (print v ++ b'}' ∷ [])),
                      length-append (print v) (b'}' ∷ []),
                    )))))))
    object_loop_print (field k v (field l u fs)) (suc n) pos rest (wk, w, ws) some_field h at =
        let more = fields_text (field l u fs) in
        let whole =
          at
          ∙ append_assoc (json_str k) (b':' ∷ (print v ++ b',' ∷ more)) rest
          ∙ ap (λ t. json_str k ++ (b':' ∷ t)) (append_assoc (print v) (b',' ∷ more) rest) in
        let e = entry_at bytes k v pos (b',' ∷ (more ++ rest)) wk w whole in
        let from = pos + length (json_str k) + 1 in
        let read = value_print v n from (b',' ∷ (more ++ rest)) w refl (omega arith) e.at_value in
        let after = drop-at from bytes (print v) (b',' ∷ (more ++ rest)) e.at_value in
        let solid = skip_ws-stays bytes (from + length (print v)) b',' _ after refl (omega arith) in
        let next = drop-at (from + length (print v)) bytes (b',' ∷ []) (more ++ rest) after in
        let later =
          object_loop_print (field l u fs) n (from + length (print v) + 1) rest ws (omega arith)
            (omega arith) next in
        rw (e.start, e.key)
          (rw e.colon (
            rw e.past_colon (
              rw (e.solid, read)
                (rw (solid, get_elem?-at (from + length (print v)) bytes after, later)
                  (ap (λ m. ok (field k v (field l u fs), m))
                    (omega (
                      arith,
                      length-append (json_str k) (b':' ∷ (print v ++ b',' ∷ more)),
                      length-append (print v) (b',' ∷ more),
                    )))))))
