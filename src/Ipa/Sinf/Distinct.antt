-- ===== src/Ipa/Sinf/Distinct.antt =====
-- Which destinations the manifest's lists give.
use perun.Base.{
  ◌≡◌, inl, inr, refl, sym, ap, ◌∙◌, Bool, true, false, ◌||◌, none, some, List, [], ◌∷◌, ◌++◌, map,
  Bytes, codes, eq_bytes, eq_bytes_iff, Bool-cases, Option-cases, if◌then◌else◌, arith,
}
use perun.CookieJar.Strings.{is_empty}
use perun.Plist.Values.{Plist, Items, nil, cons, get, as_str, as_array}
use perun.Ipa.Sinf.{
  Found, nothing_found, is_seen, destination, add_path, add_items, add_key, sinf_paths,
}

-- Whether a list, or the array at a key, has the string.
abbrev pub has_item : Bytes → Items → Bool
has_item q nil = false
has_item q (cons item items) = elim (as_str item) [
  | none ↦ has_item q items
  | some p ↦ if eq_bytes q p then true else has_item q items
]

abbrev pub has_at : Bytes → Plist → Bytes → Bool
has_at q doc key = elim (get doc key) [
  | none ↦ false
  | some v ↦ elim (as_array v) [ none ↦ false | some items ↦ has_item q items ]
]

-- No element stands twice.
abbrev pub Distinct : List Bytes → Type 0
Distinct [] = Unit
Distinct (p ∷ ps) = (is_seen p ps ≡ false) × Distinct ps

is_seen-append :
    (q p : Bytes) (ps : List Bytes) → is_seen q (ps ++ p ∷ []) ≡ (is_seen q ps || eq_bytes q p)
is_seen-append q p [] = elim (Bool-cases (eq_bytes q p)) [ inl e ↦ rw e refl | inr e ↦ rw e refl ]
is_seen-append q p (r ∷ ps) = elim (Bool-cases (eq_bytes q r)) [
  | inl e ↦ rw e refl
  | inr e ↦ rw e (is_seen-append q p ps)
]

eq_bytes_sym : (p q : Bytes) → eq_bytes p q ≡ false → eq_bytes q p ≡ false
eq_bytes_sym p q h = elim (Bool-cases (eq_bytes q p)) [
  | inr e ↦ e
  | inl e ↦
      let same : p ≡ q = sym ((eq_bytes_iff q p).0 e) in cc (sym h ∙ (eq_bytes_iff p q).1 same)
]

Distinct-append :
    (p : Bytes) (ps : List Bytes) → is_seen p ps ≡ false → Distinct ps → Distinct (ps ++ p ∷ [])
Distinct-append p [] h d = (refl, tt)
Distinct-append p (q ∷ ps) h d = elim (Bool-cases (eq_bytes p q)) [
  | inl same ↦ cc (rw same at h)
  | inr apart ↦
      let later = rw apart at h in
      (
        is_seen-append q p ps ∙ rw (d.0, eq_bytes_sym p q apart) refl,
        Distinct-append p ps later d.1,
      )
]

-- What the loops keep: the destinations are those of the seen paths, which are distinct.
pub record IsFound (bundle : Bytes) (f : Found) : Type 0 where
  pub destinations : f.paths ≡ map (destination bundle) f.seen
  pub distinct : Distinct f.seen

either : (a b c : Bool) → ((a || b) || c) ≡ (a || (if b then true else c))
either a b c = ground arith

module _ (bundle : Bytes) where
  map-append :
      (ps : List Bytes) (p : Bytes)
      → map (destination bundle) (ps ++ p ∷ [])
        ≡ map (destination bundle) ps ++ destination bundle p ∷ []
  map-append [] p = refl
  map-append (q ∷ ps) p = ap (◌∷◌ (destination bundle q)) (map-append ps p)

  add_path-IsFound :
      (f : Found) (p : Bytes) → IsFound bundle f → IsFound bundle (add_path bundle f p)
  unfolding add_path
  add_path-IsFound f p h = elim (Bool-cases (is_empty p || is_seen p f.seen)) [
    | inl skipped ↦ rw (add_path, skipped) h
    | inr fresh ↦
        let unseen : is_seen p f.seen ≡ false = ground arith in
        rw (add_path, fresh)
          (record {
            destinations =
                ap (λ ds. ds ++ destination bundle p ∷ []) h.destinations
                ∙ sym (map-append f.seen p);
            distinct = Distinct-append p f.seen unseen h.distinct;
          })
  ]

  is_seen-add_path :
      (f : Found) (p q : Bytes)
      → is_empty q ≡ false
      → is_seen q (add_path bundle f p).seen ≡ (is_seen q f.seen || eq_bytes q p)
  unfolding add_path
  is_seen-add_path f p q h = elim (Bool-cases (is_empty p || is_seen p f.seen)) [
    | inr fresh ↦ rw (add_path, fresh) (is_seen-append q p f.seen)
    | inl skipped ↦ elim (Bool-cases (eq_bytes q p)) [
      | inr apart ↦ rw (add_path, skipped, apart) (ground arith)
      | inl same ↦
          let e = (eq_bytes_iff q p).0 same in
          let seen : (is_empty q || is_seen q f.seen) ≡ true =
            ap (λ t. is_empty t || is_seen t f.seen) e ∙ skipped in
          rw (add_path, skipped, same) (ground arith)
    ]
  ]

  add_items-IsFound :
      (items : Items) (f : Found) → IsFound bundle f → IsFound bundle (add_items bundle f items)
  unfolding add_items
  add_items-IsFound nil f h = h
  add_items-IsFound (cons item items) f h = elim (Option-cases (as_str item)) [
    | inl other ↦ rw (add_items, other) (add_items-IsFound items f h)
    | inr (p, text) ↦
        rw (add_items, text)
          (add_items-IsFound items (add_path bundle f p) (add_path-IsFound f p h))
  ]

  is_seen-add_items :
      (items : Items) (f : Found) (q : Bytes)
      → is_empty q ≡ false
      → is_seen q (add_items bundle f items).seen ≡ (is_seen q f.seen || has_item q items)
  unfolding add_items
  is_seen-add_items nil f q h = ground arith
  is_seen-add_items (cons item items) f q h = elim (Option-cases (as_str item)) [
    | inl other ↦ rw (add_items, has_item, other) (is_seen-add_items items f q h)
    | inr (p, text) ↦
        let later = is_seen-add_items items (add_path bundle f p) q h in
        let first = is_seen-add_path f p q h in
        rw (add_items, has_item, text)
          (later ∙ rw first (either (is_seen q f.seen) (eq_bytes q p) (has_item q items)))
  ]

  add_key-IsFound :
      (doc : Plist) (f : Found) (key : Bytes)
      → IsFound bundle f
      → IsFound bundle (add_key bundle doc f key)
  unfolding add_key
  add_key-IsFound doc f key h = elim (Option-cases (get doc key)) [
    | inl missing ↦ rw (add_key, missing) h
    | inr (v, there) ↦ elim (Option-cases (as_array v)) [
      | inl other ↦ rw (add_key, there, other) h
      | inr (items, list) ↦ rw (add_key, there, list) (add_items-IsFound items f h)
    ]
  ]

  is_seen-add_key :
      (doc : Plist) (f : Found) (key q : Bytes)
      → is_empty q ≡ false
      → is_seen q (add_key bundle doc f key).seen ≡ (is_seen q f.seen || has_at q doc key)
  unfolding add_key
  is_seen-add_key doc f key q h = elim (Option-cases (get doc key)) [
    | inl missing ↦ rw (add_key, has_at, missing) (ground arith)
    | inr (v, there) ↦ elim (Option-cases (as_array v)) [
      | inl other ↦ rw (add_key, has_at, there, other) (ground arith)
      | inr (items, list) ↦ rw (add_key, has_at, there, list) (is_seen-add_items items f q h)
    ]
  ]

  -- The destinations are those of distinct listed paths, and a path that is not empty is among
  -- them just when one of the manifest's two lists has it.
  pub sinf_paths-Distinct :
      (doc : Plist) (q : Bytes)
      → is_empty q ≡ false
      → ((sinf_paths bundle doc).paths ≡ map (destination bundle) (sinf_paths bundle doc).seen)
        × Distinct (sinf_paths bundle doc).seen
        × (is_seen q (sinf_paths bundle doc).seen
            ≡ (has_at q doc (codes "SinfReplicationPaths") || has_at q doc (codes "SinfPaths")))
  unfolding sinf_paths
  sinf_paths-Distinct doc q h =
      let first = add_key bundle doc nothing_found (codes "SinfReplicationPaths") in
      let start : IsFound bundle nothing_found = record { destinations = refl; distinct = tt } in
      let kept =
        add_key-IsFound doc first (codes "SinfPaths")
          (add_key-IsFound doc nothing_found (codes "SinfReplicationPaths") start) in
      (
        kept.destinations,
        kept.distinct,
        is_seen-add_key doc first (codes "SinfPaths") q h
            ∙ ap (λ b. b || has_at q doc (codes "SinfPaths"))
                (is_seen-add_key doc nothing_found (codes "SinfReplicationPaths") q h),
      )
