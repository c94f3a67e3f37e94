-- ===== src/CookieJar/Strings.antt =====
-- The methods of `str` that cookie_jar.rs uses. A string is here the list of its characters' code
-- points: every method goes by characters, and a length is compared only with that of a prefix.
use perun.Base.{
  ℕ, zero, suc, ◌+◌, ◌-◌, ◌^◌, Bool, true, false, ◌&&◌, ◌||◌, Option, none, some, List, [], ◌∷◌,
  map, length, drop, eq_bytes, ltb, within, ◌==◌, if◌then◌else◌,
}
unfoldable pub use perun.Base.{starts_with}
use perun.Base.Decimal.{parse_digits}

abbrev pub Str : Type 0
Str = List ℕ

abbrev pub lower : ℕ → ℕ
lower c = if within b'A' b'Z' c then c + 32 else c

-- `to_ascii_lowercase`
abbrev pub lowercase : Str → Str
lowercase = map lower

-- `eq_ignore_ascii_case`
unfoldable pub eq_ignore_case : Str → Str → Bool
unfolding eq_bytes
eq_ignore_case a b = eq_bytes (lowercase a) (lowercase b)

-- `char::is_whitespace`
abbrev pub is_space : ℕ → Bool
is_space c =
    within 0x09 0x0d c
    || ((c == 0x20)
        || ((c == 0x85)
            || ((c == 0xa0)
                || ((c == 0x1680)
                    || (within 0x2000 0x200a c
                        || (within 0x2028 0x2029 c
                            || ((c == 0x202f) || ((c == 0x205f) || (c == 0x3000)))))))))

abbrev pub is_empty : Str → Bool
is_empty [] = true
is_empty (c ∷ cs) = false

unfoldable pub trim_start_matches : (ℕ → Bool) → Str → Str
trim_start_matches p [] = []
trim_start_matches p (c ∷ cs) = let rest = trim_start_matches p cs in if p c then rest else c ∷ cs

unfoldable pub trim_end_matches : (ℕ → Bool) → Str → Str
trim_end_matches p [] = []
trim_end_matches p (c ∷ cs) =
    let rest = trim_end_matches p cs in if is_empty rest && p c then [] else c ∷ rest

unfoldable pub trim : Str → Str
unfolding trim_start_matches trim_end_matches
trim s = trim_end_matches is_space (trim_start_matches is_space s)

unfoldable pub ends_with : Str → Str → Bool
unfolding eq_bytes
ends_with s suffix =
    if ltb (length s) (length suffix)
    then false
    else eq_bytes (drop (length s - length suffix) s) suffix

-- `split` at a character: never empty.
unfoldable pub split : ℕ → Str → List Str
split sep [] = [] ∷ []
split sep (c ∷ cs) =
    let rest = split sep cs in
    if c == sep
    then [] ∷ rest
    else elim rest [ [] ↦ (c ∷ []) ∷ [] | first ∷ others ↦ (c ∷ first) ∷ others ]

-- `split_once` at a character.
unfoldable pub split_once : ℕ → Str → Option (Str × Str)
split_once sep [] = none
split_once sep (c ∷ cs) =
    let rest = split_once sep cs in
    if c == sep then some ([], cs) else elim rest [ none ↦ none | some r ↦ some (c ∷ r.0, r.1) ]

-- `split_once` at a string.
unfoldable pub split_once_str : Str → Str → Option (Str × Str)
unfolding starts_with
split_once_str sep [] = none
split_once_str sep (c ∷ cs) =
    let rest = split_once_str sep cs in
    if starts_with (c ∷ cs) sep
    then some ([], drop (length sep) (c ∷ cs))
    else elim rest [ none ↦ none | some r ↦ some (c ∷ r.0, r.1) ]

-- `split(chars).next()`: what stands before the first of the characters.
unfoldable pub before : (ℕ → Bool) → Str → Str
before p [] = []
before p (c ∷ cs) = let rest = before p cs in if p c then [] else c ∷ rest

-- `s.find(c).map(|i| &s[i..])`
unfoldable pub from_char : ℕ → Str → Option Str
from_char sep [] = none
from_char sep (c ∷ cs) = let rest = from_char sep cs in if c == sep then some (c ∷ cs) else rest

-- `s.rfind(c).map(|i| &s[..i])`
unfoldable pub before_last : ℕ → Str → Option Str
before_last sep [] = none
before_last sep (c ∷ cs) =
    let rest = before_last sep cs in
    elim rest [ some r ↦ some (c ∷ r) | none ↦ if c == sep then some [] else none ]

-- `str::lines`: a line ends at a line feed, and one carriage return before it is dropped.
unfoldable pub strip_cr : Str → Str
strip_cr [] = []
strip_cr (c ∷ cs) = let rest = strip_cr cs in if is_empty cs && (c == 0x0d) then [] else c ∷ rest

unfoldable pub ended_lines : List Str → List Str
unfolding strip_cr
ended_lines [] = []
ended_lines (l ∷ []) = if is_empty l then [] else l ∷ []
ended_lines (l ∷ m ∷ more) = strip_cr l ∷ ended_lines (m ∷ more)

unfoldable pub lines : Str → List Str
unfolding split ended_lines
lines s = ended_lines (split 0x0a s)

-- An `i64`, by sign.
pub data ℤ : Type 0 where
  pos : ℕ → ℤ
  negsuc : ℕ → ℤ

abbrev negative : ℕ → ℤ
negative zero = pos zero
negative (suc n) = negsuc n

-- `str::parse::<i64>`: an optional sign, at least one digit, and no overflow.
unfoldable pub unsigned : ℕ → Str → Option ℕ
unsigned limit [] = none
unsigned limit (c ∷ cs) = elim (parse_digits 0 (c ∷ cs)) [
  | none ↦ none
  | some n ↦ if ltb n limit then some n else none
]

unfoldable pub parse_i64 : Str → Option ℤ
unfolding unsigned
parse_i64 [] = none
parse_i64 (c ∷ cs) =
    if c == b'-'
    then elim (unsigned (2 ^ 63 + 1) cs) [ none ↦ none | some n ↦ some (negative n) ]
    else elim (unsigned (2 ^ 63) (if c == b'+' then cs else c ∷ cs)) [
      | none ↦ none
      | some n ↦ some (pos n)
    ]
