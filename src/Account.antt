-- ===== src/Account.antt =====
-- crates/perun-cli/src/store/account.rs: the account and the encrypted file that keeps it. A text is
-- the list of its UTF-8 bytes; `json_str` of account.rs is the same text as that of out.rs.
pub mod Aes
pub mod Gcm
pub mod Digest
pub mod Kdf
pub mod Vault
pub mod Fields
pub mod Session
mod Tests
use perun.Base.{Option, none, some, List, [], ◌∷◌, ◌++◌, Bytes, codes}
use perun.Json.{Json, Result, ok, ◌>>=◌, parse}
use perun.Json.Access.{get, as_str}
use perun.Json.Print.{json_str}

pub record Account : Type 0 where
  pub email : Bytes
  pub name : Bytes
  pub directory_services_id : Bytes
  pub password_token : Bytes
  pub store_front : Bytes
  pub pod : Bytes
  pub password : Bytes

unfoldable pub to_json : Account → Bytes
to_json a =
    codes "{\"email\":"
    ++ (json_str a.email
        ++ (codes ",\"name\":"
            ++ (json_str a.name
                ++ (codes ",\"directoryServicesIdentifier\":"
                    ++ (json_str a.directory_services_id
                        ++ (codes ",\"passwordToken\":"
                            ++ (json_str a.password_token
                                ++ (codes ",\"storeFront\":"
                                    ++ (json_str a.store_front
                                        ++ (codes ",\"pod\":"
                                            ++ (json_str a.pod
                                                ++ (codes ",\"password\":"
                                                    ++ (json_str a.password
                                                        ++ codes "}")))))))))))))

-- `.and_then(|v| v.as_str()).unwrap_or("")`
abbrev pub str_or_empty : Option Json → Bytes
str_or_empty none = []
str_or_empty (some v) = elim (as_str v) [ none ↦ [] | some s ↦ s ]

-- The closure `get` of `from_json`.
unfoldable pub text_field : Json → Bytes → Bytes
text_field value key = str_or_empty (get value key)

unfoldable pub from_json : Bytes → Result Account
unfolding text_field
from_json text = parse text >>= λ value. ok record {
  email = text_field value (codes "email");
  name = text_field value (codes "name");
  directory_services_id = text_field value (codes "directoryServicesIdentifier");
  password_token = text_field value (codes "passwordToken");
  store_front = text_field value (codes "storeFront");
  pod = text_field value (codes "pod");
  password = text_field value (codes "password");
}
