-- ===== src/CookieJar/Netscape/Fields.antt =====
-- Text without tabs and line ends, split at them and joined.
use perun.Base.{
  ℕ, zero, suc, ◌<◌, ◌^◌, ◌≡◌, refl, ap, Bool, false, ◌||◌, some, List, [], ◌∷◌, ◌++◌, map, length,
  drop-append, All, lt→ltb, ◌==◌, arith,
}
use perun.Base.Decimal.{
  decimal, parse_digits, parse_digits-decimal, decimal-digits, IsDigit, decimal-nonempty,
}
use perun.CookieJar.Strings.{
  Str, is_empty, trim_end_matches, starts_with, split, strip_cr, ended_lines, pos, unsigned,
  parse_i64,
}
use perun.CookieJar.Paths.{starts_with-append}
use perun.CookieJar.Netscape.{trim_prefix}

abbrev pub is_delimiter : ℕ → Bool
is_delimiter c = (c == 0x09) || ((c == 0x0a) || (c == 0x0d))

-- No tab, line feed or carriage return stands in it.
abbrev pub IsField : Str → Type 0
IsField = All (λ c. is_delimiter c ≡ false)

-- No character of it is `sep`.
abbrev pub IsFree : ℕ → Str → Type 0
IsFree sep = All (λ c. (c == sep) ≡ false)

pub tab-IsFree : (s : Str) → IsField s → IsFree 0x09 s
tab-IsFree [] f = tt
tab-IsFree (c ∷ s) f = (ground arith, tab-IsFree s f.1)

pub split-append :
    (sep : ℕ) (s rest : Str) → IsFree sep s → split sep (s ++ sep ∷ rest) ≡ s ∷ split sep rest
unfolding split
split-append sep [] rest f = ground arith
split-append sep (c ∷ s) rest (f, fs) = rw (f, split-append sep s rest fs, split) refl

pub split-free : (sep : ℕ) (s : Str) → IsFree sep s → split sep s ≡ s ∷ []
unfolding split
split-free sep [] f = refl
split-free sep (c ∷ s) (f, fs) = rw (f, split-free sep s fs, split) refl

pub strip_cr-free : (s : Str) → IsFree 0x0d s → strip_cr s ≡ s
unfolding strip_cr
strip_cr-free [] f = refl
strip_cr-free (c ∷ s) (f, fs) = rw (strip_cr-free s fs) (ground (arith, f))

abbrev pub is_line_end : ℕ → Bool
is_line_end c = (c == 0x0d) || (c == 0x0a)

pub trim_end_matches-free :
    (s : Str) → All (λ c. is_line_end c ≡ false) s → trim_end_matches is_line_end s ≡ s
unfolding trim_end_matches
trim_end_matches-free [] f = refl
trim_end_matches-free (c ∷ s) (f, fs) = rw (trim_end_matches-free s fs) (ground (arith, f))

pub ended_lines-closed : (ls : List Str) → ended_lines (ls ++ [] ∷ []) ≡ map strip_cr ls
unfolding ended_lines
ended_lines-closed [] = refl
ended_lines-closed (l ∷ []) = refl
ended_lines-closed (l ∷ m ∷ ls) = ap (◌∷◌ (strip_cr l)) (ended_lines-closed (m ∷ ls))

pub trim_prefix-other :
    (n : ℕ) (prefix s : Str) → starts_with s prefix ≡ false → trim_prefix n prefix s ≡ s
unfolding trim_prefix
trim_prefix-other zero prefix s h = refl
trim_prefix-other (suc n) prefix s h = rw h refl

pub trim_prefix-once :
    (n : ℕ) (prefix s : Str)
    → starts_with s prefix ≡ false
    → trim_prefix (suc n) prefix (prefix ++ s) ≡ s
unfolding trim_prefix
trim_prefix-once n prefix s h =
    rw (starts_with-append prefix s, drop-append prefix s) (trim_prefix-other n prefix s h)

-- A text that does not begin with a character has no prefix that does.
pub starts_with-none :
    (s more rest : Str) (c : ℕ)
    → is_empty s ≡ false
    → starts_with s (c ∷ []) ≡ false
    → starts_with (s ++ rest) (c ∷ more) ≡ false
unfolding starts_with
starts_with-none [] more rest c some_char h = cc
starts_with-none (d ∷ s) more rest c some_char h = ground (arith, h)

pub line_ends : (s : Str) → IsField s → All (λ c. is_line_end c ≡ false) s
line_ends [] f = tt
line_ends (c ∷ s) f = (ground arith, line_ends s f.1)

pub cr-IsFree : (s : Str) → All (λ c. is_line_end c ≡ false) s → IsFree 0x0d s
cr-IsFree [] f = tt
cr-IsFree (c ∷ s) f = (ground arith, cr-IsFree s f.1)

pub lf-IsFree : (s : Str) → All (λ c. is_line_end c ≡ false) s → IsFree 0x0a s
lf-IsFree [] f = tt
lf-IsFree (c ∷ s) f = (ground arith, lf-IsFree s f.1)

parse_i64-digits :
    (ds : Str) (n : ℕ)
    → 0 < length ds
    → All IsDigit ds
    → parse_digits 0 ds ≡ some n
    → n < 2 ^ 63
    → parse_i64 ds ≡ some (pos n)
unfolding parse_i64 unsigned
parse_i64-digits [] n some_digit ds read h = absurd (omega arith)
parse_i64-digits (c ∷ cs) n some_digit ((lo, hi), ds) read h =
    let minus : (c == b'-') ≡ false = ground arith in
    let plus : (c == b'+') ≡ false = ground arith in
    rw (minus, plus, read, unsigned) (rw (lt→ltb n (2 ^ 63) h) refl)

pub parse_i64-decimal : (n : ℕ) → n < 2 ^ 63 → parse_i64 (decimal n) ≡ some (pos n)
parse_i64-decimal n h =
    parse_i64-digits (decimal n) n (decimal-nonempty n) (decimal-digits n) (parse_digits-decimal n)
      h

pub IsField-digits : (ds : Str) → All IsDigit ds → IsField ds
IsField-digits [] h = tt
IsField-digits (c ∷ cs) h = (ground arith, IsField-digits cs h.1)
