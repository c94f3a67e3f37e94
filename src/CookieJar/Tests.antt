-- ===== src/CookieJar/Tests.antt =====
-- The jar on small headers and files, and its theorems at concrete values.
use perun.Base.{
  ◌≡◌, ◌↔◌, ◌⊎◌, refl, true, false, not, some, none, [], ◌∷◌, ◌++◌, length, retain, codes, eq_bytes,
  if◌then◌else◌, arith,
}
use perun.CookieJar.Strings.{Str, starts_with}
use perun.Base.Decimal.{parse_digits}
use perun.CookieJar.{Cookie, path_matches, set_cookie, add_from_set_cookie, cookie_parts}
use perun.CookieJar.Paths.{PathMatches, path_matches_iff}
use perun.CookieJar.Keys.{same_key, add_from_set_cookie-effect, Unique, add_from_set_cookie-Unique}
use perun.CookieJar.Matching.{cookie_parts-insecure}
use perun.CookieJar.Netscape.{
  Files, Calls, save_netscape_file, contents, load_netscape_file, header, rows,
}
use perun.CookieJar.Netscape.Disk.{save_netscape_file-atomic}
use perun.CookieJar.Netscape.RoundTrip.{IsStorable, load_netscape_file-rows}

abbrev session : Cookie
session = record {
  name = codes "wosid";
  value = codes "x=1";
  domain = codes ".apple.com";
  path = codes "/";
  secure = true;
  http_only = true;
  expires = 0;
}

abbrev dated : Cookie
dated = record {
  name = codes "pod";
  value = [];
  domain = codes "itunes.apple.com";
  path = codes "/a";
  secure = false;
  http_only = false;
  expires = 500;
}

abbrev set_session : Str
set_session = codes "wosid=x=1; Domain=apple.com; path=/; Secure; HttpOnly"

abbrev end_session : Str
end_session = codes "WOSID=; domain=.Apple.com; Path=/; Max-Age=0"

set_session_says : set_cookie 100 set_session (codes "Buy.apple.com") ≡ some (session, false)
unfolding set_cookie
set_session_says = refl

end_session_says :
    set_cookie 100 end_session (codes "buy.apple.com")
    ≡ some (
      record session {
        name = codes "WOSID";
        value = [];
        domain = codes ".Apple.com";
        secure = false;
        http_only = false;
      },
      true,
    )
unfolding set_cookie parse_digits
end_session_says = refl

path_matches_iff_example :
    (path_matches (codes "/a") (codes "/a/b") ≡ true) ↔ PathMatches (codes "/a") (codes "/a/b")
path_matches_iff_example = path_matches_iff (codes "/a") (codes "/a/b")

abbrev ended : Cookie
ended = record session {
  name = codes "WOSID";
  value = [];
  domain = codes ".Apple.com";
  secure = false;
  http_only = false;
}

add_from_set_cookie-effect_example :
    ((add_from_set_cookie 100 end_session (codes "buy.apple.com") (dated ∷ session ∷ [])).1
      ≡ not true)
    × (retain
          (same_key ended)
          (add_from_set_cookie 100 end_session (codes "buy.apple.com") (dated ∷ session ∷ [])).0
        ≡ (if true then [] else ended ∷ []))
    × (retain
          (λ d. not (same_key ended d))
          (add_from_set_cookie 100 end_session (codes "buy.apple.com") (dated ∷ session ∷ [])).0
        ≡ retain (λ d. not (same_key ended d)) (dated ∷ session ∷ []))
add_from_set_cookie-effect_example =
    add_from_set_cookie-effect 100 end_session (codes "buy.apple.com") (dated ∷ session ∷ []) ended
      true end_session_says

add_from_set_cookie-Unique_example :
    Unique (add_from_set_cookie 100 set_session (codes "buy.apple.com") (session ∷ [])).0
add_from_set_cookie-Unique_example =
    add_from_set_cookie-Unique 100 set_session (codes "buy.apple.com") (session ∷ []) (tt, tt)

plain_http : eq_bytes (codes "http") (codes "https") ≡ false
unfolding eq_bytes
plain_http = refl

cookie_parts-insecure_example :
    cookie_parts 100 (codes "http") (codes "itunes.apple.com") (codes "/a") (dated ∷ session ∷ [])
    ≡ cookie_parts 100
        (codes "http")
        (codes "itunes.apple.com")
        (codes "/a")
        (retain (λ c. not c.secure) (dated ∷ session ∷ []))
cookie_parts-insecure_example =
    cookie_parts-insecure 100 (codes "http") (codes "itunes.apple.com") (codes "/a")
      (dated ∷ session ∷ []) plain_http

abbrev full_disk : Calls
full_disk = record { wrote = true; left = none; renamed = false; removed = true }

abbrev old_files : Files
old_files = record { file = some (codes "old"); tmp = none }

save_netscape_file-atomic_example :
    (((save_netscape_file full_disk (session ∷ []) old_files).0.file ≡ old_files.file)
      × (((save_netscape_file full_disk (session ∷ []) old_files).1 ≡ false) ⊎ (session ∷ [] ≡ [])))
    ⊎ (((save_netscape_file full_disk (session ∷ []) old_files).0.file
          ≡ some (header ++ rows (session ∷ [])))
        × ((save_netscape_file full_disk (session ∷ []) old_files).1 ≡ true)
        × (¬ (session ∷ [] ≡ [])))
save_netscape_file-atomic_example = save_netscape_file-atomic full_disk (session ∷ []) old_files

session-IsStorable : IsStorable 100 session
unfolding starts_with
session-IsStorable = record {
  name = ground arith;
  named = refl;
  value = ground arith;
  domain = ground arith;
  located = refl;
  no_comment = refl;
  path = ground arith;
  placed = refl;
  live = refl;
  in_range = omega arith;
}

dated-IsStorable : IsStorable 100 dated
unfolding starts_with
dated-IsStorable = record {
  name = ground arith;
  named = refl;
  value = ground arith;
  domain = ground arith;
  located = refl;
  no_comment = refl;
  path = ground arith;
  placed = refl;
  live = refl;
  in_range = omega arith;
}

load_netscape_file-rows_example :
    load_netscape_file 100 (contents (header ++ rows (session ∷ dated ∷ []))) []
    ≡ (session ∷ dated ∷ [], some (length (session ∷ dated ∷ [])))
load_netscape_file-rows_example =
    load_netscape_file-rows 100 (session ∷ dated ∷ []) []
      (session-IsStorable, (dated-IsStorable, tt)) (omega arith)
