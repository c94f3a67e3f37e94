-- ===== src/Plist/Escape/RoundTrip.antt =====
-- A text comes back from its escaped form. Each replacement turns the texts that stand for the four
-- special characters into other ones and leaves every other character alone.
use perun.Base.{
  ℕ, ◌≡◌, refl, sym, ap, ◌∙◌, inl, inr, Bool, true, false, [], ◌∷◌, ◌++◌, Bytes, codes, ◌==◌,
  if◌then◌else◌, Bool-cases, arith,
}
use perun.Base.{starts_with}
use perun.Plist.Escape.{replace_from, replace, xml_escape, xml_unescape}

-- What stands for an ampersand, a less-than and a greater-than sign and a quote.
pub record Tokens : Type 0 where
  pub amp : Bytes
  pub lt_sign : Bytes
  pub gt_sign : Bytes
  pub quote : Bytes

abbrev token : Tokens → ℕ → Bytes
token t c =
    if c == b'&'
    then t.amp
    else if c == b'<'
    then t.lt_sign
    else if c == b'>'
    then t.gt_sign
    else if c == b'"'
    then t.quote
    else c ∷ []

abbrev spelled : Tokens → Bytes → Bytes
spelled t [] = []
spelled t (c ∷ cs) = token t c ++ spelled t cs

abbrev is_special : ℕ → Bool
is_special c =
    if c == b'&' then true else if c == b'<' then true else if c == b'>' then true else c == b'"'

-- The replacement of `p ∷ ps` turns the spelling `t` into `u`, character by character.
abbrev Turns : ℕ → Bytes → Bytes → Tokens → Tokens → Type 0
Turns p ps to t u =
    (is_special p ≡ true)
    × ((rest : Bytes) → replace (t.amp ++ rest) (p ∷ ps) to ≡ u.amp ++ replace rest (p ∷ ps) to)
    × ((rest : Bytes)
        → replace (t.lt_sign ++ rest) (p ∷ ps) to ≡ u.lt_sign ++ replace rest (p ∷ ps) to)
    × ((rest : Bytes)
        → replace (t.gt_sign ++ rest) (p ∷ ps) to ≡ u.gt_sign ++ replace rest (p ∷ ps) to)
    × ((rest : Bytes) → replace (t.quote ++ rest) (p ∷ ps) to ≡ u.quote ++ replace rest (p ∷ ps) to)

-- A character that is not the first of the pattern is kept.
replace-plain :
    (p c : ℕ) (ps to rest : Bytes)
    → (c == p) ≡ false
    → replace (c ∷ rest) (p ∷ ps) to ≡ c ∷ replace rest (p ∷ ps) to
unfolding replace_from starts_with
replace-plain p c ps to rest h = rw (h, replace_from, starts_with) refl

plain-apart : (p c : ℕ) → is_special p ≡ true → is_special c ≡ false → (c == p) ≡ false
plain-apart p c hp hc = ground arith

replace-token :
    (p : ℕ) (ps to : Bytes) (t u : Tokens) (c : ℕ) (rest : Bytes)
    → Turns p ps to t u
    → replace (token t c ++ rest) (p ∷ ps) to ≡ token u c ++ replace rest (p ∷ ps) to
replace-token p ps to t u c rest k = elim (Bool-cases (c == b'&')) [
  | inl e ↦ rw e (k.1 rest)
  | inr a ↦ elim (Bool-cases (c == b'<')) [
    | inl e ↦ rw (a, e) (k.2 rest)
    | inr l ↦ elim (Bool-cases (c == b'>')) [
      | inl e ↦ rw (a, l, e) (k.3 rest)
      | inr g ↦ elim (Bool-cases (c == b'"')) [
        | inl e ↦ rw (a, l, g, e) (k.4 rest)
        | inr q ↦
            rw (a, l, g, q)
              (replace-plain p c ps to rest (plain-apart p c k.0 (rw (a, l, g, q) refl)))
      ]
    ]
  ]
]

replace-spelled :
    (p : ℕ) (ps to : Bytes) (t u : Tokens) (s : Bytes)
    → Turns p ps to t u
    → replace (spelled t s) (p ∷ ps) to ≡ spelled u s
unfolding replace_from
replace-spelled p ps to t u [] k = refl
replace-spelled p ps to t u (c ∷ s) k =
    replace-token p ps to t u c (spelled t s) k
    ∙ ap (◌++◌ (token u c)) (replace-spelled p ps to t u s k)

abbrev plain : Tokens
plain = record { amp = codes "&"; lt_sign = codes "<"; gt_sign = codes ">"; quote = codes "\"" }

abbrev no_amp : Tokens
no_amp = record plain { amp = codes "&amp;" }

abbrev no_lt : Tokens
no_lt = record no_amp { lt_sign = codes "&lt;" }

abbrev no_gt : Tokens
no_gt = record no_lt { gt_sign = codes "&gt;" }

abbrev escaped : Tokens
escaped = record no_gt { quote = codes "&quot;" }

abbrev with_gt : Tokens
with_gt = record escaped { lt_sign = codes "<" }

abbrev with_quote : Tokens
with_quote = record with_gt { gt_sign = codes ">" }

spelled-plain : (s : Bytes) → spelled plain s ≡ s
spelled-plain [] = refl
spelled-plain (c ∷ s) =
    let one : token plain c ≡ c ∷ [] = ground arith in rw one (ap (◌∷◌ c) (spelled-plain s))

-- The ten replacements, in the order of the code.
escape_amp : (s : Bytes) → replace (spelled plain s) (codes "&") (codes "&amp;") ≡ spelled no_amp s
unfolding replace_from starts_with
escape_amp s =
    replace-spelled b'&' [] (codes "&amp;") plain no_amp s
      (refl, (λ r. refl), (λ r. refl), (λ r. refl), λ r. refl)

escape_lt : (s : Bytes) → replace (spelled no_amp s) (codes "<") (codes "&lt;") ≡ spelled no_lt s
unfolding replace_from starts_with
escape_lt s =
    replace-spelled b'<' [] (codes "&lt;") no_amp no_lt s
      (refl, (λ r. refl), (λ r. refl), (λ r. refl), λ r. refl)

escape_gt : (s : Bytes) → replace (spelled no_lt s) (codes ">") (codes "&gt;") ≡ spelled no_gt s
unfolding replace_from starts_with
escape_gt s =
    replace-spelled b'>' [] (codes "&gt;") no_lt no_gt s
      (refl, (λ r. refl), (λ r. refl), (λ r. refl), λ r. refl)

escape_quote :
    (s : Bytes) → replace (spelled no_gt s) (codes "\"") (codes "&quot;") ≡ spelled escaped s
unfolding replace_from starts_with
escape_quote s =
    replace-spelled b'"' [] (codes "&quot;") no_gt escaped s
      (refl, (λ r. refl), (λ r. refl), (λ r. refl), λ r. refl)

unescape_lt :
    (s : Bytes) → replace (spelled escaped s) (codes "&lt;") (codes "<") ≡ spelled with_gt s
unfolding replace_from starts_with
unescape_lt s =
    replace-spelled b'&' (codes "lt;") (codes "<") escaped with_gt s
      (refl, (λ r. refl), (λ r. refl), (λ r. refl), λ r. refl)

unescape_gt :
    (s : Bytes) → replace (spelled with_gt s) (codes "&gt;") (codes ">") ≡ spelled with_quote s
unfolding replace_from starts_with
unescape_gt s =
    replace-spelled b'&' (codes "gt;") (codes ">") with_gt with_quote s
      (refl, (λ r. refl), (λ r. refl), (λ r. refl), λ r. refl)

unescape_quote :
    (s : Bytes) → replace (spelled with_quote s) (codes "&quot;") (codes "\"") ≡ spelled no_amp s
unfolding replace_from starts_with
unescape_quote s =
    replace-spelled b'&' (codes "quot;") (codes "\"") with_quote no_amp s
      (refl, (λ r. refl), (λ r. refl), (λ r. refl), λ r. refl)

unescape_number :
    (s : Bytes) → replace (spelled no_amp s) (codes "&#39;") (codes "'") ≡ spelled no_amp s
unfolding replace_from starts_with
unescape_number s =
    replace-spelled b'&' (codes "#39;") (codes "'") no_amp no_amp s
      (refl, (λ r. refl), (λ r. refl), (λ r. refl), λ r. refl)

unescape_apos :
    (s : Bytes) → replace (spelled no_amp s) (codes "&apos;") (codes "'") ≡ spelled no_amp s
unfolding replace_from starts_with
unescape_apos s =
    replace-spelled b'&' (codes "apos;") (codes "'") no_amp no_amp s
      (refl, (λ r. refl), (λ r. refl), (λ r. refl), λ r. refl)

unescape_amp :
    (s : Bytes) → replace (spelled no_amp s) (codes "&amp;") (codes "&") ≡ spelled plain s
unfolding replace_from starts_with
unescape_amp s =
    replace-spelled b'&' (codes "amp;") (codes "&") no_amp plain s
      (refl, (λ r. refl), (λ r. refl), (λ r. refl), λ r. refl)

pub escapes : (s : Bytes) → xml_escape s ≡ spelled escaped s
unfolding xml_escape
escapes s =
    ap xml_escape (sym (spelled-plain s))
    ∙ rw (escape_amp s, escape_lt s, escape_gt s) (escape_quote s)

-- Every text comes back from its escaped form.
pub xml_unescape-xml_escape : (s : Bytes) → xml_unescape (xml_escape s) ≡ s
unfolding xml_unescape
xml_unescape-xml_escape s =
    ap xml_unescape (escapes s)
    ∙ rw (unescape_lt s, unescape_gt s, unescape_quote s, unescape_number s, unescape_apos s)
        (unescape_amp s)
    ∙ spelled-plain s
