-- ===== src/CookieJar/Netscape/RoundTrip.antt =====
-- A saved jar, loaded again.
use perun.Base.{
  ℕ, ◌<◌, ◌^◌, ◌≡◌, refl, sym, ap, ap₂, ◌∙◌, inl, inr, Bool, true, false, not, ◌&&◌, some, List, [],
  ◌∷◌, ◌++◌, append-nil, eq_bytes, map, append_assoc, length, All, All-append, codes, lt→ltb,
  if◌then◌else◌, Bool-cases, arith,
}
use perun.Base.Decimal.{decimal, decimal-digits}
use perun.CookieJar.Strings.{
  Str, eq_ignore_case, is_empty, trim_end_matches, starts_with, split, strip_cr, ended_lines, lines,
  pos,
}
use perun.CookieJar.{Cookie, Jar, is_live}
use perun.CookieJar.Paths.{starts_with-append}
use perun.CookieJar.Netscape.{
  http_only_prefix, trim_prefix, is_dead, seconds, parse_row, parse_rows, contents,
  load_netscape_file, header, flag, row, rows,
}
use perun.CookieJar.Netscape.Fields.{
  IsField, is_delimiter, is_line_end, tab-IsFree, split-append, split-free, strip_cr-free,
  line_ends, cr-IsFree, lf-IsFree, starts_with-none, trim_prefix-once, trim_end_matches-free,
  ended_lines-closed, trim_prefix-other, parse_i64-decimal, IsField-digits,
}

-- A cookie that the file can hold: no tab or line end in a column, a name, a path, a domain that
-- does not begin like a comment, and an expiry that is none or lies ahead.
pub record IsStorable (now : ℕ) (c : Cookie) : Type 0 where
  pub name : IsField c.name
  pub named : is_empty c.name ≡ false
  pub value : IsField c.value
  pub domain : IsField c.domain
  pub located : is_empty c.domain ≡ false
  pub no_comment : starts_with c.domain (codes "#") ≡ false
  pub path : IsField c.path
  pub placed : is_empty c.path ≡ false
  pub live : is_live now c ≡ true
  pub in_range : c.expires < 2 ^ 63

-- The first column.
abbrev site : Cookie → Str
site c = (if c.http_only then http_only_prefix else []) ++ c.domain

abbrev columns : Cookie → List Str
columns c =
    site c ∷ codes "TRUE" ∷ c.path ∷ flag c.secure ∷ decimal c.expires ∷ c.name ∷ c.value ∷ []

flag-IsField : (b : Bool) → IsField (flag b)
flag-IsField true = ground arith
flag-IsField false = ground arith

prefix-IsField : (b : Bool) → IsField (if b then http_only_prefix else [])
prefix-IsField true = ground arith
prefix-IsField false = tt

eq_ignore_case-flag : (b : Bool) → eq_ignore_case (flag b) (codes "TRUE") ≡ b
unfolding eq_ignore_case eq_bytes
eq_ignore_case-flag true = refl
eq_ignore_case-flag false = refl

abbrev HasNoEnd : Str → Type 0
HasNoEnd = All (λ b. is_line_end b ≡ false)

-- A column and the tab behind it.
column_ends : (s rest : Str) → IsField s → HasNoEnd rest → HasNoEnd (s ++ (0x09 ∷ rest))
column_ends s rest f h =
    All-append (λ b. is_line_end b ≡ false) s (0x09 ∷ rest) (line_ends s f) (refl, h)

module _ (now : ℕ) (c : Cookie) (s : IsStorable now c) where
  site-IsField : IsField (site c)
  site-IsField =
      All-append (λ b. is_delimiter b ≡ false) (if c.http_only then http_only_prefix else [])
        c.domain (prefix-IsField c.http_only) s.domain

  row-site :
      row c
      ≡ site c
        ++ (0x09
            ∷ (codes "TRUE"
                ++ (0x09
                    ∷ (c.path
                        ++ (0x09
                            ∷ (flag c.secure
                                ++ (0x09
                                    ∷ (decimal c.expires
                                        ++ (0x09 ∷ (c.name ++ (0x09 ∷ c.value)))))))))))
  unfolding row
  row-site = sym (append_assoc (if c.http_only then http_only_prefix else []) c.domain _)

  split-row : split 0x09 (row c) ≡ columns c
  split-row = rw row-site (
      split-append 0x09 (site c) _ (tab-IsFree (site c) site-IsField)
      ∙ ap (◌∷◌ (site c)) (
          split-append 0x09 (codes "TRUE") _ (tab-IsFree (codes "TRUE") (ground arith))
          ∙ ap (◌∷◌ (codes "TRUE")) (
              split-append 0x09 c.path _ (tab-IsFree c.path s.path)
              ∙ ap (◌∷◌ c.path) (
                  split-append 0x09 (flag c.secure) _
                    (tab-IsFree (flag c.secure) (flag-IsField c.secure))
                  ∙ ap (◌∷◌ (flag c.secure)) (
                      split-append 0x09 (decimal c.expires) _ (
                        tab-IsFree (decimal c.expires)
                          (IsField-digits (decimal c.expires) (decimal-digits c.expires)))
                      ∙ ap (◌∷◌ (decimal c.expires)) (
                          split-append 0x09 c.name _ (tab-IsFree c.name s.name)
                          ∙ ap (◌∷◌ c.name)
                              (split-free 0x09 c.value (tab-IsFree c.value s.value))))))))

  row-ends : HasNoEnd (row c)
  row-ends = rw row-site (
      column_ends (site c) _ site-IsField (
        column_ends (codes "TRUE") _ (ground arith) (
          column_ends c.path _ s.path (
            column_ends (flag c.secure) _ (flag-IsField c.secure) (
              column_ends (decimal c.expires) _
                (IsField-digits (decimal c.expires) (decimal-digits c.expires))
                (column_ends c.name _ s.name (line_ends c.value s.value)))))))

  is_http_only : starts_with (row c) http_only_prefix ≡ c.http_only
  unfolding row
  is_http_only = elim (Bool-cases c.http_only) [
    | inl y ↦ rw (y, row) (starts_with-append http_only_prefix _)
    | inr n ↦ rw (n, row) (starts_with-none c.domain _ _ b'#' s.located s.no_comment)
  ]

  kept : (starts_with (row c) (codes "#") && not c.http_only) ≡ false
  unfolding row
  kept = elim (Bool-cases c.http_only) [
    | inl y ↦ ground (arith, y)
    | inr n ↦
        rw (n, row)
          (ground (
            arith,
            starts_with-none c.domain []
                (0x09
                  ∷ (codes "TRUE"
                      ++ (0x09
                          ∷ (c.path
                              ++ (0x09
                                  ∷ (flag c.secure
                                      ++ (0x09
                                          ∷ (decimal c.expires
                                              ++ (0x09 ∷ (c.name ++ (0x09 ∷ c.value)))))))))))
                b'#' s.located s.no_comment,
          ))
  ]

  bare : starts_with c.domain http_only_prefix ≡ false
  bare = rw (← append-nil c.domain) (starts_with-none c.domain _ [] b'#' s.located s.no_comment)

  site-domain : trim_prefix (length (row c)) http_only_prefix (site c) ≡ c.domain
  unfolding row
  site-domain = elim (Bool-cases c.http_only) [
    | inl y ↦ rw (y, row) (trim_prefix-once _ http_only_prefix c.domain bare)
    | inr n ↦ rw (n, row) (trim_prefix-other _ http_only_prefix c.domain bare)
  ]

  alive : is_dead now (some (pos c.expires)) ≡ false
  unfolding is_dead
  alive = ground (arith, s.live)

  secure_flag : eq_ignore_case (flag c.secure) (codes "TRUE") ≡ c.secure
  secure_flag = eq_ignore_case-flag c.secure

  parse_row-row : parse_row now (row c) ≡ some c
  unfolding parse_row seconds
  parse_row-row =
      rw (trim_end_matches-free (row c) row-ends, is_http_only, split-row)
        (rw
          (
            kept,
            site-domain,
            parse_i64-decimal c.expires s.in_range,
            alive,
            s.named,
            s.located,
            s.placed,
            secure_flag,
          )
          refl)

abbrev pub AllStorable : ℕ → Jar → Type 0
AllStorable now [] = Unit
AllStorable now (c ∷ jar) = IsStorable now c × AllStorable now jar

split-rows :
    (now : ℕ) (jar : Jar) → AllStorable now jar → split 0x0a (rows jar) ≡ map row jar ++ [] ∷ []
unfolding rows split
split-rows now [] s = refl
split-rows now (c ∷ jar) (s, ss) =
    split-append 0x0a (row c) (rows jar) (lf-IsFree (row c) (row-ends now c s))
    ∙ ap (◌∷◌ (row c)) (split-rows now jar ss)

strip_cr-rows :
    (now : ℕ) (jar : Jar) → AllStorable now jar → map strip_cr (map row jar) ≡ map row jar
strip_cr-rows now [] s = refl
strip_cr-rows now (c ∷ jar) (s, ss) =
    ap₂ (λ (l : Str) ls. l ∷ ls) (strip_cr-free (row c) (cr-IsFree (row c) (row-ends now c s)))
      (strip_cr-rows now jar ss)

parse_rows-rows : (now : ℕ) (jar : Jar) → AllStorable now jar → parse_rows now (map row jar) ≡ jar
unfolding parse_rows
parse_rows-rows now [] s = refl
parse_rows-rows now (c ∷ jar) (s, ss) =
    rw (parse_row-row now c s, parse_rows-rows now jar ss, parse_rows) refl

-- The comment lines and the empty line at the top.
abbrev top : List Str
top =
    codes "# Netscape HTTP Cookie File" ∷ codes "# Written by perun. Do not edit by hand." ∷ [] ∷ []

split-header : (text : Str) → split 0x0a (header ++ text) ≡ top ++ split 0x0a text
unfolding split
split-header text = refl

parse_rows-top :
    (now : ℕ) (ls : List Str) → parse_rows now (map strip_cr top ++ ls) ≡ parse_rows now ls
unfolding parse_rows parse_row strip_cr trim_end_matches starts_with split
parse_rows-top now ls = refl

lines-saved :
    (now : ℕ) (jar : Jar)
    → AllStorable now jar
    → lines (header ++ rows jar) ≡ map strip_cr top ++ map row jar
unfolding lines
lines-saved now jar s =
    ap ended_lines (split-header (rows jar) ∙ ap (λ ls. top ++ ls) (split-rows now jar s))
    ∙ ended_lines-closed (top ++ map row jar)
    ∙ ap (λ ls. map strip_cr top ++ ls) (strip_cr-rows now jar s)

-- Loading the text that a jar is saved as gives the jar, session cookies included, whatever the jar
-- was before: for a jar that is not empty, of cookies that the file can hold.
pub load_netscape_file-rows :
    (now : ℕ) (jar before : Jar)
    → AllStorable now jar
    → 0 < length jar
    → load_netscape_file now (contents (header ++ rows jar)) before ≡ (jar, some (length jar))
unfolding load_netscape_file
load_netscape_file-rows now jar before s some_row =
    let read : parse_rows now (lines (header ++ rows jar)) ≡ jar =
      ap (parse_rows now) (lines-saved now jar s)
      ∙ parse_rows-top now (map row jar)
      ∙ parse_rows-rows now jar s in
    rw read (rw (lt→ltb 0 (length jar) some_row) refl)
