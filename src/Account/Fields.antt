-- ===== src/Account/Fields.antt =====
-- The session JSON keeps every field of the account.
use perun.Base.{◌≡◌, refl, true, codes, eq_bytes}
use perun.Base.Utf8.{is_utf8, utf8_from, lead}
use perun.Json.{Json, object, string, end, field, ok}
use perun.Json.Access.{get, find, as_str}
use perun.Json.Print.{print, escape_byte}
use perun.Json.RoundTrip.{parse-print}
use perun.Json.RoundTrip.Shape.{IsWellFormed, is_utf8-print}
use perun.Account.{Account, to_json, from_json}

-- Every field of the account is a Rust string.
pub record IsText (a : Account) : Type 0 where
  pub email : is_utf8 a.email ≡ true
  pub name : is_utf8 a.name ≡ true
  pub directory_services_id : is_utf8 a.directory_services_id ≡ true
  pub password_token : is_utf8 a.password_token ≡ true
  pub store_front : is_utf8 a.store_front ≡ true
  pub pod : is_utf8 a.pod ≡ true
  pub password : is_utf8 a.password ≡ true

abbrev json_of : Account → Json
json_of a = object (
    field (codes "email") (string a.email) (
      field (codes "name") (string a.name) (
        field (codes "directoryServicesIdentifier") (string a.directory_services_id) (
          field (codes "passwordToken") (string a.password_token) (
            field (codes "storeFront") (string a.store_front) (
              field (codes "pod") (string a.pod)
                (field (codes "password") (string a.password) end)))))))

to_json-print : (a : Account) → to_json a ≡ print (json_of a)
unfolding to_json escape_byte
to_json-print a = refl

json_of-IsWellFormed : (a : Account) → IsText a → IsWellFormed (json_of a)
unfolding utf8_from lead
json_of-IsWellFormed a t = (
  refl,
  t.email,
  (
    refl,
    t.name,
    (
      refl,
      t.directory_services_id,
      (refl, t.password_token, (refl, t.store_front, (refl, t.pod, (refl, t.password, tt)))),
    ),
  ),
)

pub is_utf8-to_json : (a : Account) → IsText a → is_utf8 (to_json a) ≡ true
is_utf8-to_json a t = rw (to_json-print a) (is_utf8-print (json_of a) (json_of-IsWellFormed a t))

-- An account whose fields are Rust strings comes back whole from its session JSON.
pub from_json-to_json : (a : Account) → IsText a → from_json (to_json a) ≡ ok a
unfolding from_json get find as_str eq_bytes
from_json-to_json a t =
    rw (to_json-print a, parse-print (json_of a) (json_of-IsWellFormed a t)) refl
