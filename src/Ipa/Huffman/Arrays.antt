-- ===== src/Ipa/Huffman/Arrays.antt =====
-- Writing into an array of numbers, counting and adding up.
use perun.Base.{
  ℕ, zero, suc, ◌+◌, ◌≤◌, ◌<◌, ◌≡◌, refl, ap, not, some, List, [], ◌∷◌, length, get_elem?, get_or,
  drop, retain, ◌==◌, if◌then◌else◌, arith,
}
use perun.Ipa.Huffman.{set_at, offsets_from}

abbrev pub sum : List ℕ → ℕ
sum [] = 0
sum (x ∷ xs) = x + sum xs

-- How often `l` stands in a list.
abbrev pub occurrences : ℕ → List ℕ → ℕ
occurrences l [] = 0
occurrences l (x ∷ xs) = (if x == l then 1 else 0) + occurrences l xs

-- What a write in range leaves.
pub record IsWritten (i v : ℕ) (xs : List ℕ) : Type 0 where
  pub ys : List ℕ
  pub returns : set_at i v xs ≡ some ys
  pub same_length : length ys ≡ length xs
  pub there : get_or ys i 0 ≡ v
  pub elsewhere : (j : ℕ) → ¬ (j ≡ i) → get_or ys j 0 ≡ get_or xs j 0
  pub total : sum ys + get_or xs i 0 ≡ sum xs + v

behind_first :
    (x v : ℕ) (xs : List ℕ) (j : ℕ) → ¬ (j ≡ 0) → get_or (v ∷ xs) j 0 ≡ get_or (x ∷ xs) j 0
behind_first x v xs zero ne = absurd (ne refl)
behind_first x v xs (suc j) ne = refl

behind_next :
    (x i : ℕ) (xs ys : List ℕ)
    → ((j : ℕ) → ¬ (j ≡ i) → get_or ys j 0 ≡ get_or xs j 0)
    → (j : ℕ) → ¬ (j ≡ suc i)
    → get_or (x ∷ ys) j 0 ≡ get_or (x ∷ xs) j 0
behind_next x i xs ys same zero ne = refl
behind_next x i xs ys same (suc j) ne = same j (λ e. ne (ap suc e))

pub set_at-IsWritten : (i v : ℕ) (xs : List ℕ) → i < length xs → IsWritten i v xs
unfolding set_at
set_at-IsWritten i v [] h = absurd (omega arith)
set_at-IsWritten zero v (x ∷ xs) h = record {
  ys = v ∷ xs;
  returns = refl;
  same_length = refl;
  there = refl;
  elsewhere = behind_first x v xs;
  total = omega arith;
}
set_at-IsWritten (suc i) v (x ∷ xs) h =
    let k = set_at-IsWritten i v xs (omega arith) in
    record {
      ys = x ∷ k.ys;
      returns = rw k.returns refl;
      same_length = ap suc k.same_length;
      there = k.there;
      elsewhere = behind_next x i xs k.ys k.elsewhere;
      total = omega (arith, k.total);
    }

pub get_elem?-get_or : (i : ℕ) (xs : List ℕ) → i < length xs → get_elem? xs i ≡ some (get_or xs i 0)
get_elem?-get_or i [] h = absurd (omega arith)
get_elem?-get_or zero (x ∷ xs) h = refl
get_elem?-get_or (suc i) (x ∷ xs) h = get_elem?-get_or i xs (omega arith)

pub sum-drop : (n : ℕ) (xs : List ℕ) → sum (drop n xs) ≡ get_or xs n 0 + sum (drop (n + 1) xs)
sum-drop zero [] = refl
sum-drop (suc n) [] = let e : suc n + 1 ≡ suc (n + 1) = omega arith in rw e refl
sum-drop zero (x ∷ xs) = refl
sum-drop (suc n) (x ∷ xs) = let e : suc n + 1 ≡ suc (n + 1) = omega arith in rw e (sum-drop n xs)

-- The codes of one length end within the codes of all lengths.
pub get_or-offsets_from :
    (acc l : ℕ) (cs : List ℕ) → get_or (offsets_from acc cs) l 0 + get_or cs l 0 ≤ acc + sum cs
unfolding offsets_from
get_or-offsets_from acc l [] = omega arith
get_or-offsets_from acc zero (c ∷ cs) = omega arith
get_or-offsets_from acc (suc l) (c ∷ cs) = omega (arith, get_or-offsets_from (acc + c) l cs)

pub length-offsets_from : (acc : ℕ) (cs : List ℕ) → length (offsets_from acc cs) ≡ length cs
unfolding offsets_from
length-offsets_from acc [] = refl
length-offsets_from acc (c ∷ cs) = ap suc (length-offsets_from (acc + c) cs)

pub length-retain_used :
    (lens : List ℕ) → length (retain (λ l. not (l == 0)) lens) + occurrences 0 lens ≡ length lens
length-retain_used [] = refl
length-retain_used (l ∷ lens) = ground (arith, length-retain_used lens)
