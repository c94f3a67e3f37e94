-- ===== src/Dmap/Owned/Listing.antt =====
-- A purchase listing, encoded and parsed again.
use perun.Base.{
  ℕ, ◌≤◌, ◌<◌, ◌^◌, ◌≡◌, ◌≢◌, sym, ap, ◌∙◌, false, some, none, List, [], ◌∷◌, ◌++◌, append-nil,
  append_assoc, Bytes, codes, eq_bytes, be32_bytes, from_be-be32_bytes, ne→==, arith,
}
use perun.Calendar.{unix_to_iso8601}
use perun.Dmap.{Outcome, and_then, walk_dmap}
use perun.Dmap.Forest.{Forest, nil, leaf, branch, encode, visits, height, IsProper, run_visits}
use perun.Dmap.RoundTrip.{walk_dmap-encode}
use perun.Dmap.Owned.{
  App, default_app, app_visit, Listing, is_in, keep_app, owned_visit, parse_owned_apps,
}
use perun.Dmap.Owned.Distinct.{Fresh}

-- One purchase, as the service lists it.
pub record Purchase : Type 0 where
  pub id : ℕ
  pub seconds : ℕ
  pub bundle_id : Bytes
  pub name : Bytes
  pub version : Bytes

abbrev pub fields : Purchase → Forest
fields o = leaf (codes "aeSI") (be32_bytes o.id) (
    leaf (codes "aeBI") o.bundle_id (
      leaf (codes "aeLN") o.name
        (leaf (codes "aePd") o.version (leaf (codes "asdp") (be32_bytes o.seconds) nil))))

abbrev pub items : List Purchase → Forest
items [] = nil
items (o ∷ more) = branch (codes "mlit") (fields o) (items more)

abbrev pub listing : List Purchase → Forest
listing os = branch (codes "adbs") (branch (codes "mlcl") (items os) nil) nil

-- The words of a purchase fit 32 bits.
abbrev pub InRange : List Purchase → Type 0
InRange [] = Unit
InRange (o ∷ more) = (o.id < 2 ^ 32) × (o.seconds < 2 ^ 32) × InRange more

abbrev pub purchase_ids : List Purchase → List ℕ
purchase_ids [] = []
purchase_ids (o ∷ more) = o.id ∷ purchase_ids more

module _ (lossy : Bytes → Bytes) where
  abbrev pub app_of : Purchase → App
  app_of o = record {
    id = o.id;
    bundle_id = lossy o.bundle_id;
    name = lossy o.name;
    version = lossy o.version;
    purchase_date = some (unix_to_iso8601 o.seconds);
  }

  abbrev pub apps_of : List Purchase → List App
  apps_of [] = []
  apps_of (o ∷ more) = app_of o ∷ apps_of more

  inner_walk :
      (o : Purchase)
      → o.id < 2 ^ 32
      → o.seconds < 2 ^ 32
      → IsProper (fields o)
      → walk_dmap (app_visit lossy) (encode (fields o)) 0 default_app ≡ (app_of o, none)
  unfolding app_visit eq_bytes
  inner_walk o h k w =
      walk_dmap-encode (app_visit lossy) (fields o) default_app w (omega arith)
      ∙ rw (from_be-be32_bytes o.id h, from_be-be32_bytes o.seconds k)

  keep_new :
      (apps : List App) (seen : List ℕ) (app : App)
      → app.id ≢ 0
      → is_in app.id seen ≡ false
      → keep_app lossy (apps, seen) app ≡ (apps ++ app ∷ [], app.id ∷ seen)
  unfolding keep_app
  keep_new apps seen app nz new = rw (ne→== app.id 0 nz, new)

  owned_mlit :
      (l : Listing lossy) (p : Bytes) (app : App)
      → walk_dmap (app_visit lossy) p 0 default_app ≡ (app, none)
      → owned_visit lossy l (codes "mlit") p ≡ (keep_app lossy l app, none)
  unfolding owned_visit eq_bytes
  owned_mlit l p app e =
      rw (ap (λ (u : Outcome App). u.1) e)
        (ap (λ (u : Outcome App). (keep_app lossy l u.0, none)) e)

  -- The visit of one item adds its application; the visits of its fields change nothing.
  item_visits :
      (o : Purchase) (more : List (Bytes × Bytes)) (apps : List App) (seen : List ℕ)
      → o.id < 2 ^ 32
      → o.seconds < 2 ^ 32
      → IsProper (fields o)
      → o.id ≢ 0
      → is_in o.id seen ≡ false
      → run_visits
          (owned_visit lossy)
          ((codes "mlit", encode (fields o)) ∷ (visits (fields o) ++ more))
          (apps, seen)
        ≡ run_visits (owned_visit lossy) more (apps ++ app_of o ∷ [], o.id ∷ seen)
  unfolding owned_visit eq_bytes
  item_visits o more apps seen h k w nz new =
      ap (λ u. and_then u (run_visits (owned_visit lossy) (visits (fields o) ++ more)))
        (owned_mlit (apps, seen) (encode (fields o)) (app_of o) (inner_walk o h k w))
      ∙ ap (run_visits (owned_visit lossy) more) (keep_new apps seen (app_of o) nz new)

  items-visits :
      (os : List Purchase) (apps : List App) (seen : List ℕ)
      → InRange os
      → IsProper (items os)
      → Fresh seen (purchase_ids os)
      → (run_visits (owned_visit lossy) (visits (items os)) (apps, seen)).0.0 ≡ apps ++ apps_of os
  items-visits [] apps seen r w f = sym (append-nil apps)
  items-visits (o ∷ more) apps seen (h, k, r) (tag, inner, size, wf, w) (nz, new, f) =
      ap (λ (u : Outcome (Listing lossy)). u.0.0)
        (item_visits o (visits (items more)) apps seen h k wf nz new)
      ∙ items-visits more (apps ++ app_of o ∷ []) (o.id ∷ seen) r w f
      ∙ append_assoc apps (app_of o ∷ []) (apps_of more)

  height-items : (os : List Purchase) → height (items os) ≤ 1
  height-items [] = omega arith
  height-items (o ∷ more) = omega (arith, height-items more)

  outer_visits :
      (os : List Purchase)
      → run_visits (owned_visit lossy) (visits (listing os)) ([], [])
        ≡ run_visits (owned_visit lossy) (visits (items os)) ([], [])
  unfolding owned_visit eq_bytes
  outer_visits os = rw (append-nil, append-nil)

  -- A listing of purchases with distinct ids, none zero, is parsed to just those purchases, in order:
  -- the text fields as the decoder reads them, the date as an ISO stamp.
  pub parse_owned_apps-encode :
      (os : List Purchase)
      → InRange os
      → IsProper (listing os)
      → Fresh [] (purchase_ids os)
      → parse_owned_apps lossy (encode (listing os)) ≡ apps_of os
  unfolding parse_owned_apps
  parse_owned_apps-encode os r w f =
      ap (λ (u : Outcome (Listing lossy)). u.0.0)
        (walk_dmap-encode (owned_visit lossy) (listing os) ([], []) w
            (omega (arith, height-items os))
          ∙ outer_visits os)
      ∙ items-visits os [] [] r w.3.3 f
