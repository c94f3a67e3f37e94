-- ===== src/Json/Strings.antt =====
-- `json_str` and the parser's `string`: what was escaped is read back.
pub mod Runs
pub mod Valid
use perun.Base.{
  ℕ, zero, suc, ◌+◌, ◌-◌, ◌*◌, ◌/◌, ◌%◌, ◌≤◌, ◌<◌, ◌≡◌, refl, sym, ap, ap₂, subst, ◌∙◌, ◌⊎◌, inl,
  inr, Bool, true, false, not, ◌&&◌, ◌||◌, Option, some, none, List, [], ◌∷◌, ◌++◌, append-nil,
  append_assoc, length, take, drop, get_elem?, All, Bytes, ltb, leb, ltb→lt, within, ◌==◌,
  if◌then◌else◌, ==→eq, ==→ne, Bool-cases, Option-cases, get_elem?-at, drop-at, drop-append,
  take-append, length-append, length-drop, take-append_at, arith,
}
use perun.Base.Tables.{holds_from, holds_from-passes}
use perun.Base.Utf8.{
  is_utf8, utf8_from, lead, lead-ascii, lead-continuation, utf8_from-split, is_utf8-ascii,
  is_utf8-head,
}
use perun.Json.Text.{parse_hex, encode_char}
use perun.Json.{
  Result, ok, err, ◌>>=◌, bad_unicode_escape, JsonError, is_plain, run_of, is_some_byte,
  or_replacement, peek, expect, hex4, unicode_escape, escape_at, back_up, plain_at, string_loop,
  parse_string,
}
use Runs.{
  IsRun, StopsRun, Cut, cut, run_of-append, escape_byte-plain, escape_byte-special, escape_all-run,
  escape_all-stops, is_utf8-run, is_utf8-rest, is_utf8-behind,
}
use perun.Json.Print.{hex_digit, escape_tail, escape_byte, escape_all, json_str}

-- Every control character's escape, checked by evaluation.
abbrev code_of : ℕ → Bytes
code_of c = b'0' ∷ b'0' ∷ hex_digit (c / 16) ∷ hex_digit (c % 16) ∷ []

abbrev reads_back : ℕ → Bool
reads_back c =
    is_utf8 (code_of c) && (elim (parse_hex (code_of c)) [ none ↦ false | some d ↦ d == c ])

control_table : holds_from reads_back 0 32 ≡ true
unfolding holds_from utf8_from lead parse_hex
control_table = refl

control_codes : (c : ℕ) → c < 32 → (is_utf8 (code_of c) ≡ true) × (parse_hex (code_of c) ≡ some c)
control_codes c h =
    let checked = holds_from-passes reads_back 32 0 c (omega arith) (omega arith) control_table in
    ground (arith, checked)

encode_char-ascii : (c : ℕ) → c < 0x80 → encode_char c ≡ c ∷ []
unfolding encode_char
encode_char-ascii c h = ground arith

module _ (bytes : Bytes) where
  hex4-code :
      (e : JsonError) (c pos : ℕ) (rest : Bytes)
      → c < 32
      → drop pos bytes ≡ code_of c ++ rest
      → hex4 bytes e pos ≡ ok c
  unfolding hex4
  hex4-code e c pos rest h at = let (valid, value) = control_codes c h in rw (at, valid, value)

  unicode_escape-code :
      (c pos : ℕ) (rest : Bytes)
      → c < 32
      → drop pos bytes ≡ code_of c ++ rest
      → unicode_escape bytes pos ≡ ok (c ∷ [], pos + 4)
  unfolding unicode_escape
  unicode_escape-code c pos rest h at =
      let no_surrogate : within 0xd800 0xdbff c ≡ false = ground arith in
      let kept : or_replacement c ≡ c = ground arith in
      let ascii : ltb c 0x80 ≡ true = ground arith in
      rw (hex4-code bad_unicode_escape c pos rest h at, unicode_escape) (ground arith)

  -- An escape that `json_str` writes is read as its character.
  escape_at-escape_tail :
      (c pos : ℕ) (rest : Bytes)
      → is_plain c ≡ false
      → drop pos bytes ≡ escape_tail c ++ rest
      → escape_at bytes pos ≡ ok (c ∷ [], pos + length (escape_tail c))
  unfolding escape_at escape_tail
  escape_at-escape_tail c pos rest h at = elim (Bool-cases (c == b'"')) [
    | inl q ↦
        let here = get_elem?-at pos bytes (rw (q, escape_tail) at at) in
        rw (q, here, escape_at) (ap (λ d. ok (d ∷ [], pos + 1)) (sym (==→eq c b'"' q)))
    | inr n1 ↦ elim (Bool-cases (c == b'\\')) [
      | inl q ↦
          let here = get_elem?-at pos bytes (rw (n1, q, escape_tail) at at) in
          rw (n1, q, here, escape_at) (ap (λ d. ok (d ∷ [], pos + 1)) (sym (==→eq c b'\\' q)))
      | inr n2 ↦ elim (Bool-cases (c == b'\n')) [
        | inl q ↦
            let here = get_elem?-at pos bytes (rw (n1, n2, q, escape_tail) at at) in
            rw (n1, n2, q, here, escape_at) (ap (λ d. ok (d ∷ [], pos + 1)) (sym (==→eq c b'\n' q)))
        | inr n3 ↦ elim (Bool-cases (c == b'\r')) [
          | inl q ↦
              let here = get_elem?-at pos bytes (rw (n1, n2, n3, q, escape_tail) at at) in
              rw (n1, n2, n3, q, here, escape_at)
                (ap (λ d. ok (d ∷ [], pos + 1)) (sym (==→eq c b'\r' q)))
          | inr n4 ↦ elim (Bool-cases (c == b'\t')) [
            | inl q ↦
                let here = get_elem?-at pos bytes (rw (n1, n2, n3, n4, q, escape_tail) at at) in
                rw (n1, n2, n3, n4, q, here, escape_at)
                  (ap (λ d. ok (d ∷ [], pos + 1)) (sym (==→eq c b'\t' q)))
            | inr n5 ↦
                let low : c < 32 = ground arith in
                let opened = rw (n1, n2, n3, n4, n5, escape_tail) at at in
                let here = get_elem?-at pos bytes opened in
                let code =
                  unicode_escape-code c (pos + 1) rest low
                    (drop-at pos bytes (b'u' ∷ []) (code_of c ++ rest) opened) in
                rw (n1, n2, n3, n4, n5, here, escape_at)
                  (code ∙ ap (λ n. ok (c ∷ [], n)) (omega arith))
          ]
        ]
      ]
    ]
  ]

length-escape_byte : (c : ℕ) → 1 ≤ length (escape_byte c)
unfolding escape_byte
length-escape_byte c = ground arith

module _ (bytes : Bytes) where
  back_up-stays :
      (pos c : ℕ)
      → get_elem? bytes pos ≡ some c
      → within 0x80 0xbf c ≡ false
      → back_up bytes pos ≡ pos
  unfolding back_up
  back_up-stays zero c h k = refl
  back_up-stays (suc pos) c h k = rw (h, back_up) (rw k)

  -- The case of a plain byte takes the whole run.
  plain_at-run :
      (pos c : ℕ) (run rest : Bytes)
      → drop pos bytes ≡ (c ∷ run) ++ rest
      → IsRun is_plain run
      → StopsRun is_plain rest
      → is_utf8 (c ∷ run) ≡ true
      → plain_at bytes pos ≡ ok (c ∷ run, pos + length (c ∷ run))
  unfolding plain_at
  plain_at-run pos c run rest at r stops valid =
      let behind : drop (pos + 1) bytes ≡ run ++ rest =
        drop-at pos bytes (c ∷ []) (run ++ rest) at in
      let stays = back_up-stays pos c (get_elem?-at pos bytes at) (is_utf8-head c run valid) in
      let length_run = run_of-append is_plain run rest r stops in
      let size : pos + 1 + length run - pos ≡ length (c ∷ run) = omega arith in
      let slice : take (length (c ∷ run)) (drop pos bytes) ≡ c ∷ run =
        ap (take (length (c ∷ run))) at ∙ take-append (c ∷ run) rest in
      rw (behind, length_run, stays, size, slice, valid) (ap (λ n. ok (c ∷ run, n)) (omega arith))

  -- The loop of `string` reads an escaped text up to its closing quote.
  string_loop-escape_all :
      (n : ℕ) (s : Bytes) (pos : ℕ) (out rest : Bytes)
      → is_utf8 s ≡ true
      → length s < n
      → drop pos bytes ≡ escape_all s ++ b'"' ∷ rest
      → string_loop bytes n pos out ≡ ok (out ++ s, pos + length (escape_all s) + 1)
  unfolding string_loop
  string_loop-escape_all zero s pos out rest valid h at = absurd (omega arith)
  string_loop-escape_all (suc n) [] pos out rest valid h at =
      rw (get_elem?-at pos bytes at, string_loop, append-nil) (ap (λ k. ok (out, k)) (omega arith))
  string_loop-escape_all (suc n) (c ∷ cs) pos out rest valid h at = elim (Bool-cases (is_plain c)) [
    | inl plain ↦
        let k = cut cs in
        let printed : escape_all (c ∷ cs) ≡ (c ∷ k.run) ++ escape_all k.rest =
          ap (λ t. escape_all (c ∷ t)) k.splits
          ∙ escape_all-run (c ∷ k.run) k.rest (plain, k.is_run) in
        let whole : drop pos bytes ≡ (c ∷ k.run) ++ (escape_all k.rest ++ b'"' ∷ rest) =
          at
          ∙ ap (λ t. t ++ b'"' ∷ rest) printed
          ∙ append_assoc (c ∷ k.run) (escape_all k.rest) (b'"' ∷ rest) in
        let valid' : is_utf8 ((c ∷ k.run) ++ k.rest) ≡ true =
          subst (λ t. is_utf8 (c ∷ t) ≡ true) k.splits valid in
        let read =
          plain_at-run pos c k.run (escape_all k.rest ++ b'"' ∷ rest) whole k.is_run
            (escape_all-stops k.rest rest k.stops)
            (is_utf8-run (c ∷ k.run) k.rest k.stops valid') in
        let later =
          string_loop-escape_all n k.rest (pos + length (c ∷ k.run)) (out ++ (c ∷ k.run)) rest
            (is_utf8-rest (c ∷ k.run) k.rest k.stops valid')
            (omega (arith, ap (length {A = ℕ}) k.splits, length-append k.run k.rest))
            (drop-at pos bytes (c ∷ k.run) (escape_all k.rest ++ b'"' ∷ rest) whole) in
        let no_quote : (c == b'"') ≡ false = ground arith in
        let no_escape : (c == b'\\') ≡ false = ground arith in
        let no_control : ltb c 0x20 ≡ false = ground arith in
        rw (get_elem?-at pos bytes whole, string_loop)
          (rw (no_quote, no_escape, no_control, read)
            (later
              ∙ ap₂ (λ o n. ok (o, n))
                  (append_assoc out (c ∷ k.run) k.rest ∙ ap (λ t. out ++ c ∷ t) (sym k.splits))
                  (omega
                    (arith, ap (length {A = ℕ}) printed, length-append k.run (escape_all k.rest)))))
    | inr special ↦
        let whole : drop pos bytes ≡ b'\\' ∷ (escape_tail c ++ (escape_all cs ++ b'"' ∷ rest)) =
          at
          ∙ rw (escape_byte-special c special)
              (ap (◌∷◌ b'\\') (append_assoc (escape_tail c) (escape_all cs) (b'"' ∷ rest))) in
        let behind =
          drop-at pos bytes (b'\\' ∷ []) (escape_tail c ++ (escape_all cs ++ b'"' ∷ rest)) whole in
        let read =
          escape_at-escape_tail bytes c (pos + 1) (escape_all cs ++ b'"' ∷ rest) special behind in
        let later =
          string_loop-escape_all n cs (pos + 1 + length (escape_tail c)) (out ++ c ∷ []) rest
            (is_utf8-behind c cs special valid) (omega arith)
            (drop-at (pos + 1) bytes (escape_tail c) (escape_all cs ++ b'"' ∷ rest) behind) in
        rw (get_elem?-at pos bytes whole, string_loop)
          (rw read (
            later
            ∙ ap₂ (λ o k. ok (o, k)) (append_assoc out (c ∷ []) cs)
                (omega (
                  arith,
                  ap (length {A = ℕ}) (escape_byte-special c special),
                  length-append (escape_byte c) (escape_all cs),
                ))))
  ]

  length-escape_all : (s : Bytes) → length s ≤ length (escape_all s)
  length-escape_all [] = omega arith
  length-escape_all (c ∷ cs) = omega (
    arith,
    length-escape_all cs,
    length-append (escape_byte c) (escape_all cs),
    length-escape_byte c,
  )

  -- `json_str` of a text that is valid UTF-8, wherever it stands in the input, is read back by
  -- `string`, and the position is then behind its closing quote.
  pub parse_string-json_str :
      (s : Bytes) (pos : ℕ) (rest : Bytes)
      → is_utf8 s ≡ true
      → drop pos bytes ≡ json_str s ++ rest
      → parse_string bytes pos ≡ ok (s, pos + length (json_str s))
  unfolding parse_string expect is_some_byte
  parse_string-json_str s pos rest valid at =
      let inside : drop (pos + 1) bytes ≡ escape_all s ++ b'"' ∷ rest =
        drop-at pos bytes (b'"' ∷ []) (escape_all s ++ b'"' ∷ [] ++ rest) at
        ∙ append_assoc (escape_all s) (b'"' ∷ []) rest in
      let enough : length s < suc (length bytes) = omega (
        arith,
        length-escape_all s,
        ap (length {A = ℕ}) inside,
        length-drop (pos + 1) bytes,
        length-append (escape_all s) (b'"' ∷ rest),
      ) in
      let read =
        string_loop-escape_all (suc (length bytes)) s (pos + 1) [] rest valid enough inside in
      rw (get_elem?-at pos bytes at)
        (read ∙ ap (λ n. ok (s, n)) (omega (arith, length-append (escape_all s) (b'"' ∷ []))))
