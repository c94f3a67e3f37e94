-- ===== src/CookieJar/Matching.antt =====
-- Which cookies a request is sent.
use perun.Base.{
  ℕ, ◌≡◌, refl, ap, inl, inr, true, false, not, ◌&&◌, [], ◌∷◌, retain, codes, eq_bytes, ltb, leb,
  Bool-cases, Option-cases, arith,
}
use perun.CookieJar.Strings.{Str, trim_start_matches}
use perun.CookieJar.{
  Cookie, Jar, matches, split_url, cookie_parts, join_parts, get_cookie_header_for_url, is_live,
  retain_live,
}

-- Whether an expired cookie is skipped, in the words of `retain_live`.
live-skips : (now : ℕ) (c : Cookie) → (ltb 0 c.expires && leb c.expires now) ≡ not (is_live now c)
live-skips now c = ground arith

cookie_parts-retain_live :
    (now : ℕ) (scheme host path : Str) (jar : Jar)
    → cookie_parts now scheme host path (retain_live now jar)
      ≡ cookie_parts now scheme host path jar
unfolding cookie_parts retain_live
cookie_parts-retain_live now scheme host path [] = refl
cookie_parts-retain_live now scheme host path (c ∷ jar) =
    let later = cookie_parts-retain_live now scheme host path jar in
    elim (Bool-cases (is_live now c)) [
      | inl live ↦ rw live (ground (arith, later))
      | inr dead ↦ rw dead (ground (arith, later))
    ]

-- Dropping the expired cookies never changes the header of a request made at that time.
pub get_cookie_header_for_url-retain_live :
    (now : ℕ) (url : Str) (jar : Jar)
    → get_cookie_header_for_url now url (retain_live now jar)
      ≡ get_cookie_header_for_url now url jar
unfolding get_cookie_header_for_url
get_cookie_header_for_url-retain_live now url jar = elim (Option-cases (split_url url)) [
  | inl none' ↦ rw (none', get_cookie_header_for_url) refl
  | inr ((scheme, host, path), parts) ↦
      rw (parts, get_cookie_header_for_url)
        (ap join_parts (cookie_parts-retain_live now scheme host path jar))
]

matches-insecure :
    (c : Cookie) (scheme host path : Str)
    → eq_bytes scheme (codes "https") ≡ false
    → c.secure ≡ true
    → matches c scheme host path ≡ false
unfolding matches
matches-insecure c scheme host path other s = rw (s, other) refl

-- Over a scheme that is not https, the parts are those of the jar without its secure cookies.
pub cookie_parts-insecure :
    (now : ℕ) (scheme host path : Str) (jar : Jar)
    → eq_bytes scheme (codes "https") ≡ false
    → cookie_parts now scheme host path jar
      ≡ cookie_parts now scheme host path (retain (λ c. not c.secure) jar)
unfolding cookie_parts
cookie_parts-insecure now scheme host path [] other = refl
cookie_parts-insecure now scheme host path (c ∷ jar) other =
    let later = cookie_parts-insecure now scheme host path jar other in
    elim (Bool-cases c.secure) [
      | inl s ↦
          rw (s, cookie_parts) (ground (arith, later, matches-insecure c scheme host path other s))
      | inr s ↦ rw (s, cookie_parts) (ground (arith, later))
    ]

-- A leading dot of the domain changes nothing: a cookie with it matches the same requests as
-- one without it.
pub matches-leading_dot :
    (c : Cookie) (scheme host path : Str)
    → matches (record c { domain = b'.' ∷ c.domain }) scheme host path ≡ matches c scheme host path
unfolding matches trim_start_matches
matches-leading_dot c scheme host path = refl
