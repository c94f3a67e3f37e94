-- ===== src/Bag.antt =====
-- crates/perun-cli/src/store/bag.rs: what `Bag::fetch` makes of the parsed document. The request and
-- the parsing of its body come before.
pub mod Trust
use perun.Base.{
  ℕ, ◌^◌, Bool, true, false, not, Option, none, some, [], ◌∷◌, Bytes, codes, ◌==◌, if◌then◌else◌,
}
use perun.CookieJar.Strings.{starts_with, unsigned}
use perun.Plist.Values.{Plist, get, as_str}

pub record SapConfig : Type 0 where
  pub auth_endpoint : Bytes
  pub setup_url : Bytes
  pub certificate_url : Bytes
  pub version : ℕ

-- A missing key and an address that is not HTTPS are told by the key.
pub data BagError : Type 0 where
  missing not_https : Bytes → BagError
  unsupported_version : ℕ → BagError

pub data Trusted {ℓ} (A : Type ℓ) : Type ℓ where
  ok : A → Trusted A
  err : BagError → Trusted A

infixl 5 ◌>>=◌
abbrev pub ◌>>=◌ {ℓ κ} : {A : Type ℓ} {B : Type κ} → Trusted A → (A → Trusted B) → Trusted B
ok a >>= f = f a
err e >>= f = err e

abbrev pub ok_or {ℓ} : {A : Type ℓ} → Option A → BagError → Trusted A
ok_or none e = err e
ok_or (some a) e = ok a

-- `get(key).and_then(as_str)`
abbrev pub string_at : Plist → Bytes → Option Bytes
string_at doc key = elim (get doc key) [ none ↦ none | some v ↦ as_str v ]

-- `str::parse::<u32>`: a plus sign is allowed.
unfoldable pub parse_u32 : Bytes → Option ℕ
unfolding unsigned
parse_u32 [] = none
parse_u32 (c ∷ cs) = unsigned (2 ^ 32) (if c == b'+' then cs else c ∷ cs)

unfoldable pub version_at : Plist → Option ℕ
unfolding parse_u32
version_at bag = elim (string_at bag (codes "sign-sap-version")) [
  | none ↦ none
  | some s ↦ parse_u32 s
]

abbrev pub is_https : Bytes → Bool
is_https url = starts_with url (codes "https://")

-- The checks of the values.
unfoldable pub validated : SapConfig → Trusted SapConfig
validated c =
    if not (c.version == 200)
    then err (unsupported_version c.version)
    else if not (is_https c.auth_endpoint)
    then err (not_https (codes "authenticateAccount"))
    else if not (is_https c.setup_url)
    then err (not_https (codes "sign-sap-setup"))
    else if not (is_https c.certificate_url)
    then err (not_https (codes "sign-sap-setup-cert"))
    else ok c

unfoldable pub bag_of : Plist → Trusted SapConfig
bag_of doc = ok_or (get doc (codes "urlBag")) (missing (codes "urlBag")) >>= λ bag.
    ok_or (string_at bag (codes "authenticateAccount")) (missing (codes "authenticateAccount"))
    >>= λ auth.
        ok_or (string_at bag (codes "sign-sap-setup")) (missing (codes "sign-sap-setup"))
        >>= λ setup.
            ok_or (string_at bag (codes "sign-sap-setup-cert"))
              (missing (codes "sign-sap-setup-cert"))
            >>= λ cert. ok_or (version_at bag) (missing (codes "sign-sap-version")) >>= λ version.
                validated (record {
                  auth_endpoint = auth;
                  setup_url = setup;
                  certificate_url = cert;
                  version = version;
                })
