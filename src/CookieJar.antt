-- ===== src/CookieJar.antt =====
-- crates/perun-cli/src/store/cookie_jar.rs: the cookie jar of the store lane. The jar is the list
-- behind the mutex, which every operation locks for the whole of its work on it; the clock's reading
-- is an argument.
pub mod Strings
pub mod Paths
pub mod Matching
pub mod Keys
pub mod Netscape
mod Tests
use perun.Base.{
  ℕ, zero, suc, ◌+◌, ◌-◌, ◌*◌, ◌^◌, min, Bool, true, false, not, ◌&&◌, ◌||◌, Option, none, some,
  List, [], ◌∷◌, ◌++◌, length, drop, get_elem?, get_or, retain, codes, eq_bytes, ltb, leb, ◌==◌,
  if◌then◌else◌,
}
use perun.Base.Decimal.{decimal}
pub use Strings.{Str}
use Strings.{
  lowercase, eq_ignore_case, is_space, is_empty, trim_start_matches, trim_end_matches, trim,
  starts_with, ends_with, split, split_once, split_once_str, before, from_char, before_last, lines,
  ℤ, pos, negsuc, parse_i64,
}

-- `expires` is an `i64` that is never negative.
pub record Cookie : Type 0 where
  pub name : Str
  pub value : Str
  pub domain : Str
  pub path : Str
  pub secure : Bool
  pub http_only : Bool
  pub expires : ℕ

abbrev pub Jar : Type 0
Jar = List Cookie

abbrev or_else : Option Str → Str → Str
or_else none s = s
or_else (some t) s = t

pub path_matches : Str → Str → Bool
path_matches cookie_path request_path =
    if is_empty cookie_path || eq_bytes cookie_path (codes "/")
    then true
    else if not (starts_with request_path cookie_path)
    then false
    else ends_with cookie_path (codes "/")
      || ((length request_path == length cookie_path)
          || (get_or request_path (length cookie_path) 0 == b'/'))

-- `Cookie::matches`
pub matches : Cookie → Str → Str → Str → Bool
unfolding trim_start_matches ends_with eq_bytes path_matches
matches c scheme host path =
    let host' = lowercase host in
    let domain' = lowercase (trim_start_matches (λ b. b == b'.') c.domain) in
    if c.secure && not (eq_bytes scheme (codes "https"))
    then false
    else if not (eq_bytes host' domain' || ends_with host' (b'.' ∷ domain'))
    then false
    else path_matches c.path path

-- `now_expiry`
pub now_expiry : ℕ → ℕ → ℕ
now_expiry now max_age = min (now + max_age) (2 ^ 63 - 1)

abbrev is_query : ℕ → Bool
is_query c = (c == b'?') || (c == b'#')

pub default_path : Str → Str
unfolding split_once_str from_char before before_last starts_with
default_path url =
    let path : Str = elim (split_once_str (codes "://") url) [
      | none ↦ codes "/"
      | some r ↦ or_else (from_char b'/' r.1) (codes "/")
    ] in
    let trimmed = before is_query path in
    if not (starts_with trimmed (codes "/")) then codes "/" else elim (before_last b'/' trimmed) [
      | none ↦ codes "/"
      | some parent ↦ if is_empty parent then codes "/" else parent
    ]

pub split_url : Str → Option (Str × Str × Str)
unfolding split_once_str before from_char
split_url url = elim (split_once_str (codes "://") url) [
  | none ↦ none
  | some r ↦
      let host = before (λ c. (c == b'/') || is_query c) r.1 in
      let path : Str = elim (from_char b'/' r.1) [
        | none ↦ codes "/"
        | some p ↦ before is_query p
      ] in
      if is_empty host then none else some (lowercase r.0, lowercase host, path)
]

-- The variables of the attribute loop.
pub record Attributes : Type 0 where
  pub domain : Str
  pub path : Str
  pub secure : Bool
  pub http_only : Bool
  pub expires : ℕ
  pub deleted : Bool

abbrev no_attributes : Attributes
no_attributes = record {
  domain = [];
  path = [];
  secure = false;
  http_only = false;
  expires = 0;
  deleted = false;
}

-- The case `"max-age"`.
pub max_age : ℕ → Str → Attributes → Attributes
unfolding parse_i64 now_expiry trim
max_age now val a = elim (parse_i64 (trim val)) [
  | none ↦ a
  | some (negsuc n) ↦ record a { deleted = true }
  | some (pos n) ↦
      if n == 0 then record a { deleted = true } else record a { expires = now_expiry now n }
]

-- The match on the attribute's key.
pub attribute : ℕ → Str → Str → Attributes → Attributes
unfolding max_age trim trim_start_matches eq_bytes
attribute now key val a =
    let d = trim_start_matches (λ b. b == b'.') (trim val) in
    if eq_bytes key (codes "domain")
    then (if is_empty d then a else record a { domain = b'.' ∷ d })
    else if eq_bytes key (codes "path")
    then record a { path = trim val }
    else if eq_bytes key (codes "secure")
    then record a { secure = true }
    else if eq_bytes key (codes "httponly")
    then record a { http_only = true }
    else if eq_bytes key (codes "max-age")
    then max_age now val a
    else if eq_bytes key (codes "expires")
    then record a { expires = 0 }
    else a

-- The loop over the attributes.
pub attributes : ℕ → List Str → Attributes → Attributes
unfolding attribute split_once trim
attributes now [] a = a
attributes now (part ∷ parts) a =
    let attr = trim part in
    attributes now parts (elim (split_once b'=' attr) [
      | none ↦ attribute now (lowercase (trim attr)) [] a
      | some r ↦ attribute now (lowercase (trim r.0)) r.1 a
    ])

-- The test of `remove_matching`.
pub has_key : Str → Str → Str → Cookie → Bool
unfolding eq_ignore_case eq_bytes
has_key name domain path c =
    eq_ignore_case c.name name && (eq_ignore_case c.domain domain && eq_bytes c.path path)

pub remove_matching : Str → Str → Str → Jar → Jar
remove_matching name domain path = retain (λ c. not (has_key name domain path c))

-- What a header says, behind its parse: the cookie and whether it is deleted.
pub set_cookie : ℕ → Str → Str → Option (Cookie × Bool)
unfolding split split_once trim attributes default_path
set_cookie now header_val default_domain =
    let parts = split b';' header_val in
    elim (split_once b'=' (trim (get_or parts 0 []))) [
      | none ↦ none
      | some pair ↦
          let a = attributes now (drop 1 parts) no_attributes in
          let path : Str =
            if is_empty a.path
            then default_path (codes "https://" ++ (default_domain ++ codes "/"))
            else a.path in
          let domain = if is_empty a.domain then lowercase default_domain else a.domain in
          if is_empty (trim pair.0)
          then none
          else some (
            record {
              name = trim pair.0;
              value = trim pair.1;
              domain = domain;
              path = path;
              secure = a.secure;
              http_only = a.http_only;
              expires = a.expires;
            },
            a.deleted,
          )
    ]

-- The jar after the header, and the returned flag.
pub add_from_set_cookie : ℕ → Str → Str → Jar → Jar × Bool
add_from_set_cookie now header_val default_domain jar =
    elim (set_cookie now header_val default_domain) [
      | none ↦ (jar, false)
      | some (c, deleted) ↦
          let kept = remove_matching c.name c.domain c.path jar in
          if deleted then (kept, false) else (kept ++ c ∷ [], true)
    ]

-- The loop of `get_cookie_header_for_url`: the parts in the jar's order.
pub cookie_parts : ℕ → Str → Str → Str → Jar → List Str
cookie_parts now scheme host path [] = []
cookie_parts now scheme host path (c ∷ jar) =
    let rest = cookie_parts now scheme host path jar in
    if ltb 0 c.expires && leb c.expires now
    then rest
    else if matches c scheme host path
    then (c.name ++ (b'=' ∷ c.value)) ∷ rest
    else rest

-- `parts.join("; ")`, or `None` without parts.
pub join_parts : List Str → Option Str
join_parts [] = none
join_parts (p ∷ ps) = elim (join_parts ps) [
  | none ↦ some p
  | some rest ↦ some (p ++ (b';' ∷ b' ' ∷ rest))
]

pub get_cookie_header_for_url : ℕ → Str → Jar → Option Str
unfolding split_url
get_cookie_header_for_url now url jar = elim (split_url url) [
  | none ↦ none
  | some (scheme, host, path) ↦ join_parts (cookie_parts now scheme host path jar)
]

-- `retain_live`
abbrev pub is_live : ℕ → Cookie → Bool
is_live now c = (c.expires == 0) || ltb now c.expires

pub retain_live : ℕ → Jar → Jar
retain_live now = retain (is_live now)
