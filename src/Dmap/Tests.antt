-- ===== src/Dmap/Tests.antt =====
-- The DMAP walk on small documents, and its theorems at concrete values.
use perun.Base.{
  ℕ, ◌≡◌, refl, some, none, Option, List, [], ◌∷◌, Bytes, codes, eq_bytes, be32_bytes, arith,
}
use perun.Dmap.{walk_loop, walk_dmap, first_uint, uint_visit, items_body, tag_bytes, is_container}
use perun.Dmap.Forest.{Forest, nil, leaf, branch, encode, visits, IsProper, run_visits}
use perun.Dmap.RoundTrip.{walk_dmap-encode}
use perun.Dmap.Fuel.{IsFueled, walk_dmap-IsFueled}
use perun.Dmap.Owned.{is_in, parse_owned_apps}
use perun.Dmap.Owned.Distinct.{Fresh, ids, parse_owned_apps-ids}
use perun.Dmap.Owned.Listing.{
  Purchase, listing, apps_of, InRange, purchase_ids, parse_owned_apps-encode,
}

first_uint_session : first_uint (items_body 7 5 9 (codes "'q'")) (codes "mlid") ≡ some 5
unfolding first_uint walk_dmap walk_loop uint_visit items_body tag_bytes is_container
first_uint_session = refl

first_uint_short : first_uint (items_body 7 5 9 (codes "'q'")) (codes "mikd") ≡ none
unfolding first_uint walk_dmap walk_loop uint_visit items_body tag_bytes is_container
first_uint_short = refl

abbrev nested : Forest
nested =
    branch (codes "mlog") (leaf (codes "mlid") (be32_bytes 9) nil)
      (leaf (codes "mikd") (2 ∷ []) nil)

nested-IsProper : IsProper nested
unfolding is_container eq_bytes tag_bytes
nested-IsProper = (
  record { four = refl; printable = refl },
  refl,
  omega arith,
  (record { four = refl; printable = refl }, refl, omega arith, tt),
  (record { four = refl; printable = refl }, refl, omega arith, tt),
)

walk_dmap-encode_example :
    walk_dmap (uint_visit (codes "mlid")) (encode nested) 0 none
    ≡ run_visits (uint_visit (codes "mlid")) (visits nested) none
walk_dmap-encode_example =
    walk_dmap-encode (uint_visit (codes "mlid")) nested none nested-IsProper (omega arith)

uint_visit-IsFueled : (tag : Bytes) (s : Option ℕ) (t p : Bytes) → IsFueled (uint_visit tag s t p)
unfolding uint_visit
uint_visit-IsFueled tag none t p = ground arith
uint_visit-IsFueled tag (some n) t p = ground arith

walk_dmap-IsFueled_example :
    IsFueled (walk_dmap (uint_visit (codes "mlid")) (codes "mlog....") 0 none)
walk_dmap-IsFueled_example =
    walk_dmap-IsFueled (uint_visit (codes "mlid")) (uint_visit-IsFueled (codes "mlid"))
      (codes "mlog....") 0 none

abbrev same : Bytes → Bytes
same bytes = bytes

abbrev bought : List Purchase
bought =
    record {
      id = 3;
      seconds = 86400;
      bundle_id = codes "a.b";
      name = codes "B";
      version = codes "1";
    }
    ∷ record { id = 4; seconds = 0; bundle_id = []; name = []; version = [] }
    ∷ []

bought-InRange : InRange bought
bought-InRange = (omega arith, omega arith, (omega arith, omega arith, tt))

bought-IsProper : IsProper (listing bought)
unfolding is_container eq_bytes tag_bytes
bought-IsProper = ground arith

bought-Fresh : Fresh [] (purchase_ids bought)
unfolding is_in
bought-Fresh = ((λ e. omega arith), refl, ((λ e. omega arith), refl, tt))

parse_owned_apps-encode_example :
    parse_owned_apps same (encode (listing bought)) ≡ apps_of same bought
parse_owned_apps-encode_example =
    parse_owned_apps-encode same bought bought-InRange bought-IsProper bought-Fresh

parse_owned_apps-ids_example : Fresh [] (ids (parse_owned_apps same (encode (listing bought))))
parse_owned_apps-ids_example = parse_owned_apps-ids same (encode (listing bought))
