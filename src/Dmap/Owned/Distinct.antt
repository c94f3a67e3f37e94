-- ===== src/Dmap/Owned/Distinct.antt =====
-- Every document yields applications with distinct ids, none of them zero.
use perun.Base.{
  ℕ, ◌≡◌, ◌≢◌, refl, false, not, ◌&&◌, List, [], ◌∷◌, ◌++◌, Bytes, codes, eq_bytes, ◌==◌,
  Bool-cases, Option-cases, inl, inr, ap, arith,
}
use perun.Dmap.{walk_dmap}
use perun.Dmap.Keeps.{walk_dmap-keeps}
use perun.Dmap.Owned.{
  App, default_app, app_visit, Listing, is_in, keep_app, owned_visit, parse_owned_apps,
}

-- The ids, in order, are new to `seen` and to one another, and none is zero.
abbrev pub Fresh : List ℕ → List ℕ → Type 0
Fresh seen [] = Unit
Fresh seen (n ∷ ns) = (n ≢ 0) × (is_in n seen ≡ false) × Fresh (n ∷ seen) ns

abbrev pub ids : List App → List ℕ
ids [] = []
ids (a ∷ more) = a.id ∷ ids more

-- All that was seen, latest first.
abbrev pushed : List ℕ → List ℕ → List ℕ
pushed seen [] = seen
pushed seen (n ∷ ns) = pushed (n ∷ seen) ns

pushed-concat : (seen ns : List ℕ) (n : ℕ) → pushed seen (ns ++ n ∷ []) ≡ n ∷ pushed seen ns
pushed-concat seen [] n = refl
pushed-concat seen (m ∷ ns) n = pushed-concat (m ∷ seen) ns n

ids-concat : (more : List App) (a : App) → ids (more ++ a ∷ []) ≡ ids more ++ a.id ∷ []
ids-concat [] a = refl
ids-concat (b ∷ more) a = ap (◌∷◌ b.id) (ids-concat more a)

Fresh-concat :
    (seen ns : List ℕ) (n : ℕ)
    → Fresh seen ns
    → n ≢ 0
    → is_in n (pushed seen ns) ≡ false
    → Fresh seen (ns ++ n ∷ [])
Fresh-concat seen [] n h nz new = (nz, new, tt)
Fresh-concat seen (m ∷ ns) n h nz new = (h.0, h.1, Fresh-concat (m ∷ seen) ns n h.2 nz new)

record IsKept (l : List App × List ℕ) : Type 0 where
  fresh : Fresh [] (ids l.0)
  seen : l.1 ≡ pushed [] (ids l.0)

module _ (lossy : Bytes → Bytes) where
  keep_app-IsKept : (l : Listing lossy) (app : App) → IsKept l → IsKept (keep_app lossy l app)
  unfolding keep_app
  keep_app-IsKept l app k = elim (Bool-cases (not (app.id == 0) && not (is_in app.id l.1))) [
    | inl push ↦
        let new : is_in app.id l.1 ≡ false = ground arith in
        let nz : app.id ≢ 0 = ground arith in
        rw push (record {
          fresh = rw ids-concat (Fresh-concat [] (ids l.0) app.id k.fresh nz (rw k.seen at new));
          seen = rw (ids-concat, pushed-concat) (ap (◌∷◌ app.id) k.seen);
        })
    | inr skip ↦ rw skip k
  ]

  owned_visit-IsKept :
      (l : Listing lossy) (t p : Bytes) → IsKept l → IsKept (owned_visit lossy l t p).0
  unfolding owned_visit
  owned_visit-IsKept l t p k = elim (Bool-cases (not (eq_bytes t (codes "mlit")))) [
    | inl other ↦ rw other k
    | inr item ↦ rw item (elim (Option-cases (walk_dmap (app_visit lossy) p 0 default_app).1) [
      | inl ended ↦ rw ended (keep_app-IsKept l (walk_dmap (app_visit lossy) p 0 default_app).0 k)
      | inr (e, failed) ↦ rw failed k
    ])
  ]

  -- Whatever the bytes, the ids of the applications are distinct and not zero.
  pub parse_owned_apps-ids : (bytes : Bytes) → Fresh [] (ids (parse_owned_apps lossy bytes))
  unfolding parse_owned_apps
  parse_owned_apps-ids bytes =
      (walk_dmap-keeps IsKept (owned_visit lossy) owned_visit-IsKept bytes 0 ([], [])
        (record { fresh = tt; seen = refl })).fresh
