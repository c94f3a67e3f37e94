-- ===== src/Storefronts.antt =====
-- crates/perun-cli/src/store/storefronts.rs: the table of storefronts, and its lookup by
-- `country_code_from_storefront` of appstore.rs.
pub mod Lookup
mod Tests
use perun.Base.{
  ℕ, Bool, Option, none, some, List, [], ◌∷◌, Bytes, codes, eq_bytes, ◌==◌, if◌then◌else◌,
}

-- Country code and storefront id.
abbrev pub storefronts : List (Bytes × Bytes)
storefronts =
    (codes "AE", codes "143481")
    ∷ (codes "AG", codes "143540")
    ∷ (codes "AI", codes "143538")
    ∷ (codes "AL", codes "143575")
    ∷ (codes "AM", codes "143524")
    ∷ (codes "AO", codes "143564")
    ∷ (codes "AR", codes "143505")
    ∷ (codes "AT", codes "143445")
    ∷ (codes "AU", codes "143460")
    ∷ (codes "AZ", codes "143568")
    ∷ (codes "BB", codes "143541")
    ∷ (codes "BD", codes "143490")
    ∷ (codes "BE", codes "143446")
    ∷ (codes "BG", codes "143526")
    ∷ (codes "BH", codes "143559")
    ∷ (codes "BM", codes "143542")
    ∷ (codes "BN", codes "143560")
    ∷ (codes "BO", codes "143556")
    ∷ (codes "BR", codes "143503")
    ∷ (codes "BS", codes "143539")
    ∷ (codes "BW", codes "143525")
    ∷ (codes "BY", codes "143565")
    ∷ (codes "BZ", codes "143555")
    ∷ (codes "CA", codes "143455")
    ∷ (codes "CH", codes "143459")
    ∷ (codes "CI", codes "143527")
    ∷ (codes "CL", codes "143483")
    ∷ (codes "CN", codes "143465")
    ∷ (codes "CO", codes "143501")
    ∷ (codes "CR", codes "143495")
    ∷ (codes "CY", codes "143557")
    ∷ (codes "CZ", codes "143489")
    ∷ (codes "DE", codes "143443")
    ∷ (codes "DK", codes "143458")
    ∷ (codes "DM", codes "143545")
    ∷ (codes "DO", codes "143508")
    ∷ (codes "DZ", codes "143563")
    ∷ (codes "EC", codes "143509")
    ∷ (codes "EE", codes "143518")
    ∷ (codes "EG", codes "143516")
    ∷ (codes "ES", codes "143454")
    ∷ (codes "FI", codes "143447")
    ∷ (codes "FR", codes "143442")
    ∷ (codes "GB", codes "143444")
    ∷ (codes "GD", codes "143546")
    ∷ (codes "GE", codes "143615")
    ∷ (codes "GH", codes "143573")
    ∷ (codes "GR", codes "143448")
    ∷ (codes "GT", codes "143504")
    ∷ (codes "GY", codes "143553")
    ∷ (codes "HK", codes "143463")
    ∷ (codes "HN", codes "143510")
    ∷ (codes "HR", codes "143494")
    ∷ (codes "HU", codes "143482")
    ∷ (codes "ID", codes "143476")
    ∷ (codes "IE", codes "143449")
    ∷ (codes "IL", codes "143491")
    ∷ (codes "IN", codes "143467")
    ∷ (codes "IS", codes "143558")
    ∷ (codes "IT", codes "143450")
    ∷ (codes "IQ", codes "143617")
    ∷ (codes "JM", codes "143511")
    ∷ (codes "JO", codes "143528")
    ∷ (codes "JP", codes "143462")
    ∷ (codes "KE", codes "143529")
    ∷ (codes "KN", codes "143548")
    ∷ (codes "KR", codes "143466")
    ∷ (codes "KW", codes "143493")
    ∷ (codes "KY", codes "143544")
    ∷ (codes "KZ", codes "143517")
    ∷ (codes "LB", codes "143497")
    ∷ (codes "LC", codes "143549")
    ∷ (codes "LI", codes "143522")
    ∷ (codes "LK", codes "143486")
    ∷ (codes "LT", codes "143520")
    ∷ (codes "LU", codes "143451")
    ∷ (codes "LV", codes "143519")
    ∷ (codes "MD", codes "143523")
    ∷ (codes "MG", codes "143531")
    ∷ (codes "MK", codes "143530")
    ∷ (codes "ML", codes "143532")
    ∷ (codes "MN", codes "143592")
    ∷ (codes "MO", codes "143515")
    ∷ (codes "MS", codes "143547")
    ∷ (codes "MT", codes "143521")
    ∷ (codes "MU", codes "143533")
    ∷ (codes "MV", codes "143488")
    ∷ (codes "MX", codes "143468")
    ∷ (codes "MY", codes "143473")
    ∷ (codes "NE", codes "143534")
    ∷ (codes "NG", codes "143561")
    ∷ (codes "NI", codes "143512")
    ∷ (codes "NL", codes "143452")
    ∷ (codes "NO", codes "143457")
    ∷ (codes "NP", codes "143484")
    ∷ (codes "NZ", codes "143461")
    ∷ (codes "OM", codes "143562")
    ∷ (codes "PA", codes "143485")
    ∷ (codes "PE", codes "143507")
    ∷ (codes "PH", codes "143474")
    ∷ (codes "PK", codes "143477")
    ∷ (codes "PL", codes "143478")
    ∷ (codes "PT", codes "143453")
    ∷ (codes "PY", codes "143513")
    ∷ (codes "QA", codes "143498")
    ∷ (codes "RO", codes "143487")
    ∷ (codes "RS", codes "143500")
    ∷ (codes "RU", codes "143469")
    ∷ (codes "SA", codes "143479")
    ∷ (codes "SE", codes "143456")
    ∷ (codes "SG", codes "143464")
    ∷ (codes "SI", codes "143499")
    ∷ (codes "SK", codes "143496")
    ∷ (codes "SN", codes "143535")
    ∷ (codes "SR", codes "143554")
    ∷ (codes "SV", codes "143506")
    ∷ (codes "TC", codes "143552")
    ∷ (codes "TH", codes "143475")
    ∷ (codes "TN", codes "143536")
    ∷ (codes "TR", codes "143480")
    ∷ (codes "TT", codes "143551")
    ∷ (codes "TW", codes "143470")
    ∷ (codes "TZ", codes "143572")
    ∷ (codes "UA", codes "143492")
    ∷ (codes "UG", codes "143537")
    ∷ (codes "US", codes "143441")
    ∷ (codes "UY", codes "143514")
    ∷ (codes "UZ", codes "143566")
    ∷ (codes "VC", codes "143550")
    ∷ (codes "VE", codes "143502")
    ∷ (codes "VG", codes "143543")
    ∷ (codes "VN", codes "143471")
    ∷ (codes "YE", codes "143571")
    ∷ (codes "ZA", codes "143472")
    ∷ []

-- `storefront.split('-').next()`
pub storefront_id : Bytes → Bytes
storefront_id [] = []
storefront_id (c ∷ cs) = let rest = storefront_id cs in if c == b'-' then [] else c ∷ rest

-- The loop over the table.
pub code_of : Bytes → List (Bytes × Bytes) → Option Bytes
unfolding eq_bytes
code_of id [] = none
code_of id (r ∷ rs) = let rest = code_of id rs in if eq_bytes r.1 id then some r.0 else rest

-- `none` is the error that no storefront was found.
pub country_code_from_storefront : Bytes → Option Bytes
unfolding storefront_id code_of
country_code_from_storefront storefront = code_of (storefront_id storefront) storefronts
