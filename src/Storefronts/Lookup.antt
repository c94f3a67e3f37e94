-- ===== src/Storefronts/Lookup.antt =====
-- What the lookup returns, by the table alone.
use perun.Base.{
  ℕ, ◌≡◌, ◌⊎◌, inl, inr, refl, ap, suc, false, Option, none, some, List, [], ◌∷◌, get_elem?, take,
  All, Bytes, eq_bytes, eq_bytes_iff, Bool-cases,
}
use perun.Storefronts.{storefronts, storefront_id, code_of, country_code_from_storefront}

-- The code of the first row that has the id, or no row has it.
abbrev pub IsFound : Bytes → List (Bytes × Bytes) → Option Bytes → Type 0
IsFound id rows found =
    ((i : ℕ) × (code : Bytes) × (found ≡ some code)
      × (get_elem? rows i ≡ some (code, id))
      × All (λ r. eq_bytes r.1 id ≡ false) (take i rows))
    ⊎ ((found ≡ none) × All (λ r. eq_bytes r.1 id ≡ false) rows)

code_of-IsFound : (id : Bytes) (rows : List (Bytes × Bytes)) → IsFound id rows (code_of id rows)
unfolding code_of
code_of-IsFound id [] = inr (refl, tt)
code_of-IsFound id ((code, i) ∷ rows) = elim (Bool-cases (eq_bytes i id)) [
  | inl here ↦
      let e = (eq_bytes_iff i id).0 here in
      rw (here, code_of) (inl (0, code, refl, ap (λ t. some (code, t)) e, tt))
  | inr other ↦
      rw (other, code_of)
        (elim (code_of-IsFound id rows) [
          | inl (k, c, found, row, earlier) ↦ inl (suc k, c, found, row, (other, earlier))
          | inr (missing, all) ↦ inr (missing, (refl, all))
        ])
]

-- The lookup returns the code of the first row whose id stands before the first dash, and fails only
-- if the table has no such row.
pub country_code_from_storefront-IsFound :
    (storefront : Bytes)
    → IsFound (storefront_id storefront) storefronts (country_code_from_storefront storefront)
unfolding country_code_from_storefront
country_code_from_storefront-IsFound storefront =
    code_of-IsFound (storefront_id storefront) storefronts
