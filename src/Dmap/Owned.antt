-- ===== src/Dmap/Owned.antt =====
-- `read_int`, `parse_owned_apps` and its two visitors.
pub mod Distinct
pub mod Listing
use perun.Base.{
  ℕ, ◌+◌, Bool, true, false, not, ◌&&◌, ◌||◌, Option, none, some, List, [], ◌∷◌, ◌++◌, length,
  Bytes, codes, eq_bytes, from_be, ◌==◌, if◌then◌else◌,
}
use perun.Calendar.{unix_to_iso8601}
use perun.Dmap.{Outcome, and_then, walk_dmap}

-- The fields of `App` (appstore.rs) that the listing fills; the others keep their defaults.
pub record App : Type 0 where
  pub id : ℕ
  pub bundle_id : Bytes
  pub name : Bytes
  pub version : Bytes
  pub purchase_date : Option Bytes

abbrev pub default_app : App
default_app = record { id = 0; bundle_id = []; name = []; version = []; purchase_date = none }

-- An `i64` is its two's complement pattern.
unfoldable pub read_int : Bytes → Option ℕ
read_int payload =
    if length payload == 4 || length payload == 8 then some (from_be 0 payload) else none

abbrev pub or_zero : Option ℕ → ℕ
or_zero none = 0
or_zero (some n) = n

-- `seen.contains`
unfoldable pub is_in : ℕ → List ℕ → Bool
is_in n [] = false
is_in n (m ∷ ms) = n == m || is_in n ms

-- `lossy` is `String::from_utf8_lossy`.
module _ (lossy : Bytes → Bytes) where
  -- The closure over the fields of one `mlit`.
  pub app_visit : App → Bytes → Bytes → Outcome App
  unfolding read_int
  app_visit app t body =
      if eq_bytes t (codes "aeSI")
      then (record app { id = or_zero (read_int body) }, none)
      else if eq_bytes t (codes "aeBI")
      then (record app { bundle_id = lossy body }, none)
      else if eq_bytes t (codes "aeLN")
      then (record app { name = lossy body }, none)
      else if eq_bytes t (codes "minm")
      then (if length app.name == 0 then record app { name = lossy body } else app, none)
      else if eq_bytes t (codes "aePd")
      then (record app { version = lossy body }, none)
      else if eq_bytes t (codes "asdp") && (length body == 4)
      then (record app { purchase_date = some (unix_to_iso8601 (from_be 0 body)) }, none)
      else (app, none)

  -- `apps` and `seen`
  abbrev pub Listing : Type 0
  Listing = List App × List ℕ

  -- `if app.id != 0 && seen.insert(app.id) { apps.push(app) }`
  pub keep_app : Listing → App → Listing
  unfolding is_in
  keep_app l app =
      if not (app.id == 0) && not (is_in app.id l.1) then (l.0 ++ app ∷ [], app.id ∷ l.1) else l

  -- The closure over the tags of the document.
  pub owned_visit : Listing → Bytes → Bytes → Outcome Listing
  owned_visit l tag payload =
      let inner = walk_dmap app_visit payload 0 default_app in
      if not (eq_bytes tag (codes "mlit"))
      then (l, none)
      else elim inner.1 [ some e ↦ (l, some e) | none ↦ (keep_app l inner.0, none) ]

  pub parse_owned_apps : Bytes → List App
  parse_owned_apps bytes = (walk_dmap owned_visit bytes 0 ([], [])).0.0
