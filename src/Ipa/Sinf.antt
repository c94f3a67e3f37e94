-- ===== src/Ipa/Sinf.antt =====
-- Where `replicate_to` puts the license receipts: the destinations that the manifest lists, and
-- which receipt goes to which.
pub mod Spread
pub mod Distinct
use perun.Base.{
  ℕ, zero, suc, ◌+◌, ◌-◌, Bool, true, false, not, ◌&&◌, ◌||◌, Option, none, some, List, [], ◌∷◌,
  ◌++◌, map, length, drop, get_or, Bytes, codes, eq_bytes, ltb, leb, ◌==◌, if◌then◌else◌,
}
use perun.CookieJar.Strings.{is_empty}
use perun.Plist.Values.{Plist, Items, nil, cons, get, as_str, as_array}

-- The destinations so far and the listed paths seen so far.
pub record Found : Type 0 where
  pub paths : List Bytes
  pub seen : List Bytes

abbrev pub nothing_found : Found
nothing_found = record { paths = []; seen = [] }

abbrev pub is_seen : Bytes → List Bytes → Bool
is_seen p [] = false
is_seen p (q ∷ qs) = if eq_bytes p q then true else is_seen p qs

abbrev pub destination : Bytes → Bytes → Bytes
destination bundle p = codes "Payload/" ++ bundle ++ codes ".app/" ++ p

-- One item of a list.
unfoldable pub add_path : Bytes → Found → Bytes → Found
add_path bundle f p =
    if is_empty p || is_seen p f.seen
    then f
    else record { paths = f.paths ++ destination bundle p ∷ []; seen = f.seen ++ p ∷ [] }

unfoldable pub add_items : Bytes → Found → Items → Found
unfolding add_path
add_items bundle f nil = f
add_items bundle f (cons item items) = elim (as_str item) [
  | none ↦ add_items bundle f items
  | some p ↦ add_items bundle (add_path bundle f p) items
]

unfoldable pub add_key : Bytes → Plist → Found → Bytes → Found
unfolding add_items
add_key bundle doc f key = elim (get doc key) [
  | none ↦ f
  | some v ↦ elim (as_array v) [ none ↦ f | some items ↦ add_items bundle f items ]
]

unfoldable pub sinf_paths : Bytes → Plist → Found
unfolding add_key
sinf_paths bundle doc =
    add_key bundle doc (add_key bundle doc nothing_found (codes "SinfReplicationPaths"))
      (codes "SinfPaths")

abbrev pub zip_lists : List Bytes → List Bytes → List (Bytes × Bytes)
zip_lists (p ∷ ps) (d ∷ ds) = (p, d) ∷ zip_lists ps ds
zip_lists _ _ = []

abbrev pub with_receipt : Bytes → List Bytes → List (Bytes × Bytes)
with_receipt d [] = []
with_receipt d (p ∷ ps) = (p, d) ∷ with_receipt d ps

-- The entries that the receipts make, in the order in which they are added; `receipts` are those
-- that are not empty.
unfoldable pub placements : Bytes → List Bytes → List Bytes → List (Bytes × Bytes)
placements fallback paths [] = []
placements fallback [] (d ∷ ds) = (fallback, d) ∷ []
placements fallback (p ∷ ps) (d ∷ ds) =
    let all = p ∷ ps in
    let receipts = d ∷ ds in
    if (length receipts == 1) || (length all == 1)
    then with_receipt d all
    else zip_lists all receipts
      ++ with_receipt (get_or receipts (length receipts - 1) []) (drop (length receipts) all)
