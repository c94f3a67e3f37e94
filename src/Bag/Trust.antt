-- ===== src/Bag/Trust.antt =====
-- What is known of a bag that is accepted.
use perun.Base.{
  ◌≡◌, ◌↔◌, inl, inr, refl, subst, true, some, codes, ◌==◌, ==→eq, Bool-cases, Option-cases, arith,
}
use perun.Plist.Values.{Plist, get}
use perun.Bag.{SapConfig, ok, ◌>>=◌, ok_or, string_at, version_at, is_https, validated, bag_of}

-- The values that an accepted bag has been checked for.
pub record IsTrusted (bag : Plist) (c : SapConfig) : Type 0 where
  pub auth_listed : string_at bag (codes "authenticateAccount") ≡ some c.auth_endpoint
  pub setup_listed : string_at bag (codes "sign-sap-setup") ≡ some c.setup_url
  pub certificate_listed : string_at bag (codes "sign-sap-setup-cert") ≡ some c.certificate_url
  pub version_listed : version_at bag ≡ some c.version
  pub version_known : c.version ≡ 200
  pub auth_https : is_https c.auth_endpoint ≡ true
  pub setup_https : is_https c.setup_url ≡ true
  pub certificate_https : is_https c.certificate_url ≡ true

-- The checks pass the values that they are made for, unchanged.
abbrev Passes : SapConfig → Type 0
Passes c =
    (c.version ≡ 200)
    × (is_https c.auth_endpoint ≡ true)
    × (is_https c.setup_url ≡ true)
    × (is_https c.certificate_url ≡ true)

validated-ok : (c c' : SapConfig) → validated c ≡ ok c' → (c ≡ c') × Passes c
unfolding validated
validated-ok c c' h = elim (Bool-cases (c.version == 200)) [
  | inr bad ↦ cc (rw (validated, bad) at h)
  | inl version ↦ elim (Bool-cases (is_https c.auth_endpoint)) [
    | inr bad ↦ cc (rw (validated, version, bad) at h)
    | inl auth ↦ elim (Bool-cases (is_https c.setup_url)) [
      | inr bad ↦ cc (rw (validated, version, auth, bad) at h)
      | inl setup ↦ elim (Bool-cases (is_https c.certificate_url)) [
        | inr bad ↦ cc (rw (validated, version, auth, setup, bad) at h)
        | inl cert ↦
            let told = rw (validated, version, auth, setup, cert) at h in
            (cc, (==→eq c.version 200 version, auth, setup, cert))
      ]
    ]
  ]
]

accepted :
    (doc : Plist) (c : SapConfig)
    → bag_of doc ≡ ok c
    → (bag : Plist) × (get doc (codes "urlBag") ≡ some bag) × IsTrusted bag c
unfolding bag_of
accepted doc c h = elim (Option-cases (get doc (codes "urlBag"))) [
  | inl bad ↦ cc (rw (bag_of, ok_or, bad) at h)
  | inr (bag, there) ↦ elim (Option-cases (string_at bag (codes "authenticateAccount"))) [
    | inl bad ↦ cc (rw (bag_of, ◌>>=◌, ok_or, there, bad) at h)
    | inr (auth, a) ↦ elim (Option-cases (string_at bag (codes "sign-sap-setup"))) [
      | inl bad ↦ cc (rw (bag_of, ◌>>=◌, ok_or, there, a, bad) at h)
      | inr (setup, b) ↦ elim (Option-cases (string_at bag (codes "sign-sap-setup-cert"))) [
        | inl bad ↦ cc (rw (bag_of, ◌>>=◌, ok_or, there, a, b, bad) at h)
        | inr (cert, d) ↦ elim (Option-cases (version_at bag)) [
          | inl bad ↦ cc (rw (bag_of, ◌>>=◌, ok_or, there, a, b, d, bad) at h)
          | inr (version, v) ↦
              let said : SapConfig = record {
                auth_endpoint = auth;
                setup_url = setup;
                certificate_url = cert;
                version = version;
              } in
              let (same, (known, x, y, w)) =
                validated-ok said c (rw (bag_of, ◌>>=◌, ok_or, there, a, b, d, v) at h) in
              (
                bag,
                there,
                subst (IsTrusted bag) same (record {
                  auth_listed = a;
                  setup_listed = b;
                  certificate_listed = d;
                  version_listed = v;
                  version_known = known;
                  auth_https = x;
                  setup_https = y;
                  certificate_https = w;
                }),
              )
        ]
      ]
    ]
  ]
]

accepts :
    (doc bag : Plist) (c : SapConfig)
    → get doc (codes "urlBag") ≡ some bag
    → IsTrusted bag c
    → bag_of doc ≡ ok c
unfolding bag_of validated
accepts doc bag c there t =
    let version : (c.version == 200) ≡ true = ground (arith, t.version_known) in
    rw
      (
        bag_of, ◌>>=◌, ok_or, there, t.auth_listed, t.setup_listed, t.certificate_listed,
        t.version_listed, validated, version, t.auth_https, t.setup_https, t.certificate_https,
      )
      refl

-- A bag that is accepted takes its three addresses and its version from the `urlBag` of the document,
-- all three addresses are HTTPS, and the version is 200; and each such bag is accepted.
pub bag_of_iff :
    (doc : Plist) (c : SapConfig)
    → (bag_of doc ≡ ok c)
      ↔ ((bag : Plist) × (get doc (codes "urlBag") ≡ some bag) × IsTrusted bag c)
bag_of_iff doc c = (accepted doc c, (λ t. accepts doc t.0 c t.1 t.2))
