-- ===== src/Ipa/Inflate/Lookups.antt =====
-- The parts of `inflate` that read nothing: table rows and repetitions in range.
use perun.Base.{
  ℕ, zero, suc, ◌+◌, ◌≤◌, ◌<◌, List, [], ◌∷◌, length, length-append, take, All, Bytes, arith,
}
use perun.Ipa.Huffman.Tables.{Yields}
use perun.Ipa.Huffman.Arrays.{get_elem?-get_or}
use perun.Ipa.Inflate.{copy_back, table_row, dist_table}

pub copy_back-Yields :
    (n at : ℕ) (out : Bytes) → at < length out → Yields (λ o. Unit) (copy_back n at out)
unfolding copy_back
copy_back-Yields zero at out h = tt
copy_back-Yields (suc n) at out h =
    rw (Yields, get_elem?-get_or at out h)
      (copy_back-Yields n (at + 1) _ (omega (arith, length-append out (_ ∷ []))))

-- A row that a table has is one of its rows.
table_row-All :
    (P : ℕ × ℕ → Type 0) (rows : List (ℕ × ℕ)) (i : ℕ)
    → i < length rows
    → All P rows
    → Yields P (table_row rows i)
table_row-All P [] i h a = absurd (omega arith)
table_row-All P (r ∷ rows) zero h a = a.0
table_row-All P (r ∷ rows) (suc i) h a = table_row-All P rows i (omega arith) a.1

pub table_row-Yields :
    (rows : List (ℕ × ℕ)) (i : ℕ) → i < length rows → Yields (λ r. Unit) (table_row rows i)
table_row-Yields [] i h = absurd (omega arith)
table_row-Yields (r ∷ rows) zero h = tt
table_row-Yields (r ∷ rows) (suc i) h = table_row-Yields rows i (omega arith)

-- Every distance is one byte at least.
pub dist_row-Yields : (i : ℕ) → i < 30 → Yields (λ (r : ℕ × ℕ). 1 ≤ r.0) (table_row dist_table i)
dist_row-Yields i h = table_row-All (λ (r : ℕ × ℕ). 1 ≤ r.0) dist_table i h (omega arith)

pub All-take {κ} : (P : ℕ → Type κ) (n : ℕ) (xs : List ℕ) → All P xs → All P (take n xs)
All-take P zero xs a = tt
All-take P (suc n) [] a = tt
All-take P (suc n) (x ∷ xs) a = (a.0, All-take P n xs a.1)
