-- ===== src/Plist/Values.antt =====
-- `Plist` and its accessors. A string is its UTF-8 bytes, an `i64` is its two's complement pattern
-- and an `f64` its bits; the two lists are `Vec`s.
use perun.Base.{
  ℕ, ◌≡◌, inl, inr, refl, ap, ◌∙◌, Bool, false, Option, none, some, Bytes, eq_bytes, eq_bytes_iff,
  eq_bytes_refl, Bool-cases, if◌then◌else◌,
}

mutual
  pub data Plist : Type 0 where
    dict : Entries → Plist
    array : Items → Plist
    string : Bytes → Plist
    integer : ℕ → Plist
    real : ℕ → Plist
    bytes : Bytes → Plist
    boolean : Bool → Plist
    date : Bytes → Plist

  pub data Items : Type 0 where
    nil : Items
    cons : Plist → Items → Items

  pub data Entries : Type 0 where
    end : Entries
    entry : Bytes → Plist → Entries → Entries

unfoldable pub set_in : Entries → Bytes → Plist → Entries
set_in end key value = entry key value end
set_in (entry k v es) key value =
    let rest = set_in es key value in if eq_bytes k key then entry k value es else entry k v rest

unfoldable pub set : Plist → Bytes → Plist → Plist
unfolding set_in
set (dict es) key value = dict (set_in es key value)
set p key value = p

unfoldable pub find_in : Entries → Bytes → Option Plist
find_in end key = none
find_in (entry k v es) key = let rest = find_in es key in if eq_bytes k key then some v else rest

unfoldable pub get : Plist → Bytes → Option Plist
unfolding find_in
get (dict es) key = find_in es key
get p key = none

abbrev pub as_str : Plist → Option Bytes
as_str (string s) = some s
as_str p = none

abbrev pub as_array : Plist → Option Items
as_array (array items) = some items
as_array p = none

find_in-set_in : (es : Entries) (key : Bytes) (v : Plist) → find_in (set_in es key v) key ≡ some v
unfolding find_in set_in
find_in-set_in end key v = rw (find_in, eq_bytes_refl key) refl
find_in-set_in (entry k w es) key v = elim (Bool-cases (eq_bytes k key)) [
  | inl same ↦ rw (set_in, same, find_in, same) refl
  | inr other ↦ rw (set_in, other, find_in, other) (find_in-set_in es key v)
]

find_in-set_in_other :
    (es : Entries) (key other : Bytes) (v : Plist)
    → eq_bytes key other ≡ false
    → find_in (set_in es key v) other ≡ find_in es other
unfolding find_in set_in
find_in-set_in_other end key other v h = rw (set_in, find_in, h) refl
find_in-set_in_other (entry k w es) key other v h = elim (Bool-cases (eq_bytes k key)) [
  | inl same ↦
      let e : k ≡ key = (eq_bytes_iff k key).0 same in
      let apart : eq_bytes k other ≡ false = ap (λ t. eq_bytes t other) e ∙ h in
      rw (set_in, same, find_in, apart) refl
  | inr unlike ↦
      let later = find_in-set_in_other es key other v h in rw (set_in, unlike, find_in, later) refl
]

-- After `set` on a dictionary `get` gives the new value at the key, and at any other key what it
-- gave before.
pub get-set :
    (es : Entries) (key other : Bytes) (v : Plist)
    → eq_bytes key other ≡ false
    → (get (set (dict es) key v) key ≡ some v)
      × (get (set (dict es) key v) other ≡ get (dict es) other)
unfolding get set
get-set es key other v h = (find_in-set_in es key v, find_in-set_in_other es key other v h)
