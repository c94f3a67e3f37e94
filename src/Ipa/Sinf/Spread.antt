-- ===== src/Ipa/Sinf/Spread.antt =====
-- Which receipt a destination gets, by its place in the list.
use perun.Base.{
  ℕ, zero, suc, ◌+◌, ◌-◌, ◌≤◌, min, ◌≡◌, refl, ap, false, List, [], ◌∷◌, ◌++◌, length, drop,
  drop-at, get_or, Bytes, ◌==◌, arith,
}
use perun.Ipa.Sinf.{zip_lists, with_receipt, placements}

-- The destination at place `i` gets the receipt there, or the last one where they run out.
abbrev pub spread_from : List Bytes → ℕ → List Bytes → List (Bytes × Bytes)
spread_from receipts i [] = []
spread_from receipts i (p ∷ ps) =
    (p, get_or receipts (min i (length receipts - 1)) []) ∷ spread_from receipts (i + 1) ps

with_receipt-last :
    (receipts : List Bytes) (i : ℕ) (ps : List Bytes)
    → length receipts ≤ i + 1
    → with_receipt (get_or receipts (length receipts - 1) []) ps ≡ spread_from receipts i ps
with_receipt-last receipts i [] h = refl
with_receipt-last receipts i (p ∷ ps) h =
    let last : min i (length receipts - 1) ≡ length receipts - 1 = omega arith in
    rw last (
      ap (◌∷◌ (p, get_or receipts (length receipts - 1) []))
        (with_receipt-last receipts (i + 1) ps (omega arith)))

get_or-drop : (i : ℕ) (xs ys : List Bytes) (d y : Bytes) → drop i xs ≡ y ∷ ys → get_or xs i d ≡ y
get_or-drop zero [] ys d y h = cc
get_or-drop zero (x ∷ xs) ys d y h = cc
get_or-drop (suc i) [] ys d y h = cc
get_or-drop (suc i) (x ∷ xs) ys d y h = get_or-drop i xs ys d y h

zip_lists-spread_from :
    (receipts : List Bytes) (i : ℕ) (ps ds : List Bytes)
    → drop i receipts ≡ ds
    → i + length ds ≡ length receipts
    → zip_lists ps ds
        ++ with_receipt (get_or receipts (length receipts - 1) []) (drop (length ds) ps)
      ≡ spread_from receipts i ps
zip_lists-spread_from receipts i [] [] h n = refl
zip_lists-spread_from receipts i [] (d ∷ ds) h n = refl
zip_lists-spread_from receipts i (p ∷ ps) [] h n =
    with_receipt-last receipts i (p ∷ ps) (omega arith)
zip_lists-spread_from receipts i (p ∷ ps) (d ∷ ds) h n =
    let here : min i (length receipts - 1) ≡ i = omega arith in
    let mine = get_or-drop i receipts ds [] d h in
    let next = drop-at i receipts (d ∷ []) ds h in
    rw (here, mine)
      (ap (◌∷◌ (p, d)) (zip_lists-spread_from receipts (i + 1) ps ds next (omega arith)))

-- Where there are receipts and destinations, each destination is written once, in order, with the
-- receipt at its place, or the last receipt where there are fewer.
pub placements-spread_from :
    (fallback p d : Bytes) (ps ds : List Bytes)
    → placements fallback (p ∷ ps) (d ∷ ds) ≡ spread_from (d ∷ ds) 0 (p ∷ ps)
unfolding placements
placements-spread_from fallback p d ps [] = with_receipt-last (d ∷ []) 0 (p ∷ ps) (omega arith)
placements-spread_from fallback p d [] (e ∷ es) =
    let receipts = d ∷ e ∷ es in
    let many : (length receipts == 1) ≡ false = ground arith in
    let first : min 0 (length receipts - 1) ≡ 0 = omega arith in rw (placements, many, first) refl
placements-spread_from fallback p d (q ∷ qs) (e ∷ es) =
    let all = p ∷ q ∷ qs in
    let receipts = d ∷ e ∷ es in
    let many : (length receipts == 1) ≡ false = ground arith in
    let several : (length all == 1) ≡ false = ground arith in
    let whole : 0 + length receipts ≡ length receipts = omega arith in
    rw (placements, many, several) (zip_lists-spread_from receipts 0 all receipts refl whole)
