-- ===== src/Json/Access.antt =====
-- The accessors of `Json`.
use perun.Base.{
  ℕ, suc, ◌≡◌, ◌⊎◌, inl, inr, refl, ap, Bool, false, ◌||◌, Option, none, some, List, [], ◌∷◌,
  get_elem?, take, All, Bytes, eq_bytes, eq_bytes_iff, if◌then◌else◌, ◌==◌, Bool-cases,
}
use perun.Json.Text.{is_digit}
use perun.Json.{Json, bool, number, string, array, object, Items, Fields, end, field}

-- `entries.iter().find(…)`
unfoldable pub find : Bytes → Fields → Option Json
unfolding eq_bytes
find key end = none
find key (field k v more) = let rest = find key more in if eq_bytes k key then some v else rest

unfoldable pub get : Json → Bytes → Option Json
get (object fields) key = find key fields
get _ key = none

unfoldable pub as_str : Json → Option Bytes
as_str (string s) = some s
as_str _ = none

pub starts_as_number : Bytes → Bool
starts_as_number [] = false
starts_as_number (c ∷ cs) = is_digit c || (c == b'-')

pub as_number : Json → Option Bytes
unfolding starts_as_number
as_number (number n) = some n
as_number (string s) = if starts_as_number s then some s else none
as_number _ = none

pub as_bool : Json → Option Bool
as_bool (bool b) = some b
as_bool _ = none

pub as_array : Json → Option Items
as_array (array items) = some items
as_array _ = none

pub as_object : Json → Option Fields
as_object (object fields) = some fields
as_object _ = none

-- The entries as pairs.
abbrev pub entries : Fields → List (Bytes × Json)
entries end = []
entries (field k v more) = (k, v) ∷ entries more

-- The value at the first of the entries with the key, or no entry has it.
abbrev pub IsFirst : Bytes → List (Bytes × Json) → Option Json → Type 0
IsFirst key es found =
    ((i : ℕ) × (v : Json) × (found ≡ some v)
      × (get_elem? es i ≡ some (key, v))
      × All (λ e. eq_bytes e.0 key ≡ false) (take i es))
    ⊎ ((found ≡ none) × All (λ e. eq_bytes e.0 key ≡ false) es)

-- On an object `get` returns the value of the first entry with the key, and nothing only if the
-- object has no such entry.
pub get-IsFirst :
    (fields : Fields) (key : Bytes) → IsFirst key (entries fields) (get (object fields) key)
unfolding get find
get-IsFirst end key = inr (refl, tt)
get-IsFirst (field k v more) key = elim (Bool-cases (eq_bytes k key)) [
  | inl here ↦
      let e = (eq_bytes_iff k key).0 here in
      rw (here, find) (inl (0, v, refl, ap (λ t. some (t, v)) e, tt))
  | inr other ↦
      rw (other, find)
        (elim (get-IsFirst more key) [
          | inl (i, w, found, there, earlier) ↦ inl (suc i, w, found, there, (other, earlier))
          | inr (missing, all) ↦ inr (missing, (refl, all))
        ])
]
