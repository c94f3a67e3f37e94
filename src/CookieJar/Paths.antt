-- ===== src/CookieJar/Paths.antt =====
-- `path_matches` against the path-match of RFC 6265, section 5.1.4.
use perun.Base.{
  ◌≡◌, ◌↔◌, ◌⊎◌, inl, inr, refl, sym, ap, ◌∙◌, true, false, ◌||◌, [], ◌∷◌, ◌++◌, length,
  length-append, get_or, codes, eq_bytes, ◌==◌, Bool-cases, arith,
}
use perun.CookieJar.Strings.{Str, is_empty, starts_with, ends_with}
use perun.CookieJar.{path_matches}

pub starts_with-append : (p rest : Str) → starts_with (p ++ rest) p ≡ true
unfolding starts_with
starts_with-append [] rest = refl
starts_with-append (c ∷ p) rest = ground (arith, starts_with-append p rest)

starts_with-rest : (s p : Str) → starts_with s p ≡ true → (rest : Str) × (s ≡ p ++ rest)
unfolding starts_with
starts_with-rest s [] h = (s, refl)
starts_with-rest [] (c ∷ p) h = cc
starts_with-rest (d ∷ s) (c ∷ p) h =
    let first : d ≡ c = ground arith in
    let (rest, e) = starts_with-rest s p (ground arith) in (rest, cc)

get_or-append : (p rest : Str) → get_or (p ++ rest) (length p) 0 ≡ get_or rest 0 0
get_or-append [] rest = refl
get_or-append (c ∷ p) rest = get_or-append p rest

-- The boundary test behind the prefix.
boundary :
    (p rest : Str)
    → ((length (p ++ rest) == length p) || (get_or (p ++ rest) (length p) 0 == b'/'))
      ≡ (is_empty rest || starts_with rest (codes "/"))
unfolding starts_with
boundary p [] = rw (get_or-append p []) (ground (arith, length-append p []))
boundary p (c ∷ rest) = rw (get_or-append p (c ∷ rest)) (ground (arith, length-append p (c ∷ rest)))

-- A cookie path that is empty or the root matches everything. Another matches a request path that
-- continues it, if it ends with a slash, nothing follows, or a slash follows.
abbrev pub PathMatches : Str → Str → Type 0
PathMatches cookie_path request_path =
    ((is_empty cookie_path || eq_bytes cookie_path (codes "/")) ≡ true)
    ⊎ ((rest : Str) × (request_path ≡ cookie_path ++ rest)
        × ((ends_with cookie_path (codes "/") || (is_empty rest || starts_with rest (codes "/")))
            ≡ true))

clash : ¬ (false ≡ true)
clash e = cc

-- `path_matches` holds of just these pairs: the cookie path is empty or the root, or the
-- request path continues it, and it ends with a slash, nothing follows or a slash follows.
pub path_matches_iff : (p s : Str) → (path_matches p s ≡ true) ↔ PathMatches p s
unfolding path_matches
path_matches_iff p s = elim (Bool-cases (is_empty p || eq_bytes p (codes "/"))) [
  | inl all ↦ rw all ((λ h. inl refl), (λ h. refl))
  | inr some' ↦ elim (Bool-cases (starts_with s p)) [
    | inl begins ↦
        let (rest, e) = starts_with-rest s p begins in
        rw (some', begins)
          (
            (λ h. inr (rest, e, rw (← boundary p rest, ← e) h)),
            (λ h. elim h [ inl wrong ↦ cc | inr (more, e', fits) ↦ rw (e', boundary p more) fits ]),
          )
    | inr other ↦
        rw (some', other)
          (
            (λ h. cc),
            (λ h. elim h [
              | inl wrong ↦ cc
              | inr (more, e', fits) ↦
                  absurd
                    (clash (sym other ∙ ap (λ t. starts_with t p) e' ∙ starts_with-append p more))
            ]),
          )
  ]
]
