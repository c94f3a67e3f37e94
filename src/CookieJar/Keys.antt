-- ===== src/CookieJar/Keys.antt =====
-- What a `Set-Cookie` header does to the rows of its own key and to the others.
use perun.Base.{
  ℕ, ◌≡◌, refl, ap, ◌∙◌, inl, inr, Bool, true, false, not, some, [], ◌∷◌, ◌++◌, append-nil, All,
  All-append, retain, eq_bytes, if◌then◌else◌, Bool-cases, Option-cases, arith,
}
use perun.CookieJar.Strings.{Str, lowercase, eq_ignore_case}
use perun.CookieJar.{Cookie, Jar, has_key, remove_matching, set_cookie, add_from_set_cookie}

-- The two cookies have one key: name and domain up to case, and the path.
abbrev pub same_key : Cookie → Cookie → Bool
same_key c d = has_key c.name c.domain c.path d

eq_bytes-sym : (xs ys : Str) → eq_bytes xs ys ≡ eq_bytes ys xs
unfolding eq_bytes
eq_bytes-sym [] [] = refl
eq_bytes-sym [] (y ∷ ys) = refl
eq_bytes-sym (x ∷ xs) [] = refl
eq_bytes-sym (x ∷ xs) (y ∷ ys) = ground (arith, eq_bytes-sym xs ys)

same_key-sym : (c d : Cookie) → same_key c d ≡ same_key d c
unfolding has_key eq_ignore_case
same_key-sym c d = rw (
  eq_bytes-sym (lowercase d.name) (lowercase c.name),
  eq_bytes-sym (lowercase d.domain) (lowercase c.domain),
  eq_bytes-sym d.path c.path,
)

eq_bytes-same : (xs : Str) → eq_bytes xs xs ≡ true
unfolding eq_bytes
eq_bytes-same [] = refl
eq_bytes-same (x ∷ xs) = ground (arith, eq_bytes-same xs)

same_key_refl : (c : Cookie) → same_key c c ≡ true
unfolding has_key eq_ignore_case
same_key_refl c =
    rw (eq_bytes-same (lowercase c.name), eq_bytes-same (lowercase c.domain), eq_bytes-same c.path)

module _ (p : Cookie → Bool) where
  pub retain-append : (xs ys : Jar) → retain p (xs ++ ys) ≡ retain p xs ++ retain p ys
  retain-append [] ys = refl
  retain-append (x ∷ xs) ys = elim (Bool-cases (p x)) [
    | inl y ↦ rw y (ap (◌∷◌ x) (retain-append xs ys))
    | inr n ↦ rw n (retain-append xs ys)
  ]

  -- A second pass changes nothing, and a pass for the contrary leaves nothing.
  retain-again : (xs : Jar) → retain p (retain p xs) ≡ retain p xs
  retain-again [] = refl
  retain-again (x ∷ xs) = elim (Bool-cases (p x)) [
    | inl y ↦ rw y (rw y (ap (◌∷◌ x) (retain-again xs)))
    | inr n ↦ rw n (retain-again xs)
  ]

  retain-contrary :
      (q : Cookie → Bool) (e : (x : Cookie) → q x ≡ not (p x)) (xs : Jar)
      → retain p (retain q xs) ≡ []
  retain-contrary q e [] = refl
  retain-contrary q e (x ∷ xs) = elim (Bool-cases (p x)) [
    | inl y ↦ rw (e x, y) (retain-contrary q e xs)
    | inr n ↦ rw (e x, n) (rw n (retain-contrary q e xs))
  ]

  All-retain : (P : Cookie → Type 0) (xs : Jar) → All P xs → All P (retain p xs)
  All-retain P [] h = tt
  All-retain P (x ∷ xs) (h, hs) = elim (Bool-cases (p x)) [
    | inl y ↦ rw y (h, All-retain P xs hs)
    | inr n ↦ rw n (All-retain P xs hs)
  ]

  All-passed : (xs : Jar) → All (λ x. p x ≡ true) (retain p xs)
  All-passed [] = tt
  All-passed (x ∷ xs) = elim (Bool-cases (p x)) [
    | inl y ↦ rw y (y, All-passed xs)
    | inr n ↦ rw n (All-passed xs)
  ]

-- A header that is read as the cookie `c` leaves just the row `c` of the key of `c` in the jar,
-- or no row of that key if it deletes; the rows of other keys stay as they were, and the
-- returned flag says whether the cookie was set.
pub add_from_set_cookie-effect :
    (now : ℕ) (header default_domain : Str) (jar : Jar) (c : Cookie) (deleted : Bool)
    → set_cookie now header default_domain ≡ some (c, deleted)
    → ((add_from_set_cookie now header default_domain jar).1 ≡ not deleted)
      × (retain (same_key c) (add_from_set_cookie now header default_domain jar).0
          ≡ (if deleted then [] else c ∷ []))
      × (retain (λ d. not (same_key c d)) (add_from_set_cookie now header default_domain jar).0
          ≡ retain (λ d. not (same_key c d)) jar)
unfolding add_from_set_cookie remove_matching
add_from_set_cookie-effect now header dom jar c true h =
    rw (h, add_from_set_cookie)
      (
        refl,
        retain-contrary (same_key c) (λ d. not (same_key c d)) (λ x. refl) jar,
        retain-again (λ d. not (same_key c d)) jar,
      )
add_from_set_cookie-effect now header dom jar c false h =
    let others = remove_matching c.name c.domain c.path jar in
    let itself = same_key_refl c in
    rw (h, add_from_set_cookie)
      (
        refl,
        retain-append (same_key c) others (c ∷ [])
            ∙ rw (retain-contrary (same_key c) (λ d. not (same_key c d)) (λ x. refl) jar, itself)
                refl,
        retain-append (λ d. not (same_key c d)) others (c ∷ [])
            ∙ rw (retain-again (λ d. not (same_key c d)) jar, itself) (append-nil _),
      )

-- At most one row for a key.
abbrev pub Unique : Jar → Type 0
Unique [] = Unit
Unique (c ∷ jar) = All (λ d. same_key c d ≡ false) jar × Unique jar

Unique-retain : (p : Cookie → Bool) (jar : Jar) → Unique jar → Unique (retain p jar)
Unique-retain p [] u = tt
Unique-retain p (c ∷ jar) (h, u) = elim (Bool-cases (p c)) [
  | inl y ↦ rw y (All-retain p (λ d. same_key c d ≡ false) jar h, Unique-retain p jar u)
  | inr n ↦ rw n (Unique-retain p jar u)
]

Unique-push :
    (jar : Jar) (c : Cookie)
    → Unique jar
    → All (λ d. not (same_key c d) ≡ true) jar
    → Unique (jar ++ c ∷ [])
Unique-push [] c u h = (tt, tt)
Unique-push (d ∷ jar) c (f, u) (h, hs) = (
  All-append (λ e. same_key d e ≡ false) jar (c ∷ []) f (ground (arith, same_key-sym c d), tt),
  Unique-push jar c u hs,
)

-- A jar with at most one row for a key (name and domain up to case, and path) has at most one
-- after any header.
pub add_from_set_cookie-Unique :
    (now : ℕ) (header default_domain : Str) (jar : Jar)
    → Unique jar
    → Unique (add_from_set_cookie now header default_domain jar).0
unfolding add_from_set_cookie remove_matching
add_from_set_cookie-Unique now header dom jar u = elim (Option-cases (set_cookie now header dom)) [
  | inl nothing ↦ rw (nothing, Unique) u
  | inr ((c, true), deletes) ↦ rw (deletes, Unique) (Unique-retain (λ d. not (same_key c d)) jar u)
  | inr ((c, false), sets) ↦
      rw (sets, Unique)
        (Unique-push (remove_matching c.name c.domain c.path jar) c
          (Unique-retain (λ d. not (same_key c d)) jar u)
          (All-passed (λ d. not (same_key c d)) jar))
]
