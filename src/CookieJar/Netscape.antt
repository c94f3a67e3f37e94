-- ===== src/CookieJar/Netscape.antt =====
-- `load_netscape_file` and `save_netscape_file`: the jar's file, one row of seven tab-separated
-- columns for a cookie. What the system does with a read, a write, a rename and a removal is an
-- argument.
mod Fields
pub mod RoundTrip
pub mod Disk
use perun.Base.{
  ℕ, zero, suc, drop, ◌+◌, Bool, true, false, not, ◌&&◌, ◌||◌, Option, none, some, List, [], ◌∷◌,
  ◌++◌, length, get_or, codes, ltb, leb, ◌==◌, if◌then◌else◌,
}
use perun.Base.Decimal.{decimal}
use perun.CookieJar.Strings.{
  Str, eq_ignore_case, is_empty, trim_start_matches, trim_end_matches, starts_with, split, lines, ℤ,
  pos, negsuc, parse_i64,
}
use perun.CookieJar.{Cookie, Jar}

abbrev pub http_only_prefix : Str
http_only_prefix = codes "#HttpOnly_"

-- `trim_start_matches` of a string, on fuel: the prefix is dropped as often as it stands there.
pub trim_prefix : ℕ → Str → Str → Str
unfolding starts_with
trim_prefix zero prefix s = s
trim_prefix (suc n) prefix s =
    let rest = trim_prefix n prefix (drop (length prefix) s) in
    if starts_with s prefix then rest else s

-- `if let Ok(sec) = … && (sec < 0 || (sec > 0 && sec <= now))`
pub is_dead : ℕ → Option ℤ → Bool
is_dead now none = false
is_dead now (some (negsuc n)) = true
is_dead now (some (pos n)) = ltb 0 n && leb n now

-- `unwrap_or(0)`; a negative time is dead before it is asked for.
pub seconds : Option ℤ → ℕ
seconds none = 0
seconds (some (negsuc n)) = 0
seconds (some (pos n)) = n

-- The body of the loop over the lines: `none` is `continue`.
pub parse_row : ℕ → Str → Option Cookie
parse_row now whole =
    let line = trim_end_matches (λ c. (c == 0x0d) || (c == 0x0a)) whole in
    let http_only = starts_with line http_only_prefix in
    let f = split 0x09 line in
    let domain = trim_prefix (length line) http_only_prefix (get_or f 0 []) in
    let name = get_or f 5 [] in
    let path = get_or f 2 [] in
    let expires = parse_i64 (get_or f 4 []) in
    if starts_with line (codes "#") && not http_only
    then none
    else if ltb (length f) 7
    then none
    else if is_empty name || is_empty domain
    then none
    else if is_dead now expires
    then none
    else some (record {
      name = name;
      value = get_or f 6 [];
      domain = domain;
      path = if is_empty path then codes "/" else path;
      secure = eq_ignore_case (get_or f 3 []) (codes "TRUE");
      http_only = http_only;
      expires = seconds expires;
    })

pub parse_rows : ℕ → List Str → Jar
unfolding parse_row
parse_rows now [] = []
parse_rows now (l ∷ ls) =
    let rest = parse_rows now ls in elim (parse_row now l) [ none ↦ rest | some c ↦ c ∷ rest ]

-- How reading the file ends.
pub data Read : Type 0 where
  absent : Read
  failed : Read
  contents : Str → Read

-- The jar, and the number of cookies or the read's error.
pub load_netscape_file : ℕ → Read → Jar → Jar × Option ℕ
unfolding parse_rows lines
load_netscape_file now absent jar = (jar, some 0)
load_netscape_file now failed jar = (jar, none)
load_netscape_file now (contents text) jar =
    let loaded = parse_rows now (lines text) in
    let n = length loaded in (if ltb 0 n then loaded else jar, some n)

abbrev pub header : Str
header =
    codes "# Netscape HTTP Cookie File"
    ++ (0x0a ∷ (codes "# Written by perun. Do not edit by hand." ++ (0x0a ∷ 0x0a ∷ [])))

abbrev flag : Bool → Str
flag true = codes "TRUE"
flag false = codes "FALSE"

-- A row, less its line feed.
pub row : Cookie → Str
row c =
    (if c.http_only then http_only_prefix else [])
    ++ (c.domain
        ++ (0x09
            ∷ (codes "TRUE"
                ++ (0x09
                    ∷ (c.path
                        ++ (0x09
                            ∷ (flag c.secure
                                ++ (0x09
                                    ∷ (decimal c.expires
                                        ++ (0x09 ∷ (c.name ++ (0x09 ∷ c.value))))))))))))

pub rows : Jar → Str
unfolding row
rows [] = []
rows (c ∷ jar) = row c ++ (0x0a ∷ rows jar)

-- The jar's file and the temporary file beside it.
pub record Files : Type 0 where
  pub file : Option Str
  pub tmp : Option Str

-- How the system's calls end; a write that fails leaves `left` behind.
pub record Calls : Type 0 where
  pub wrote : Bool
  pub left : Option Str
  pub renamed : Bool
  pub removed : Bool

-- The files, and whether the result is `Ok`.
pub save_netscape_file : Calls → Jar → Files → Files × Bool
unfolding rows
save_netscape_file calls [] files = (files, true)
save_netscape_file calls (c ∷ jar) files =
    let out = header ++ rows (c ∷ jar) in
    if not calls.wrote
    then (record files { tmp = calls.left }, false)
    else if calls.renamed
    then (record files { file = some out; tmp = none }, true)
    else (record files { tmp = if calls.removed then none else some out }, false)
