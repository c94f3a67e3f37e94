-- ===== src/Account/Session/Sidecar.antt =====
-- `str::trim` over the UTF-8 bytes of a text, which the storefront sidecar is read with.
use perun.Base.{
  ℕ, zero, suc, ◌-◌, ◌≤◌, ◌≡◌, refl, ap, Bool, true, false, ◌&&◌, ◌||◌, [], ◌∷◌, ◌++◌, All, Bytes,
  within, ◌==◌, if◌then◌else◌, arith,
}

-- The number of bytes of the white-space character in front, or 0.
pub blank : Bytes → ℕ
blank [] = 0
blank (a ∷ []) = if within 0x09 0x0d a || (a == 0x20) then 1 else 0
blank (a ∷ b ∷ []) =
    if within 0x09 0x0d a || (a == 0x20)
    then 1
    else if (a == 0xc2) && ((b == 0x85) || (b == 0xa0))
    then 2
    else 0
blank (a ∷ b ∷ c ∷ rest) =
    if within 0x09 0x0d a || (a == 0x20)
    then 1
    else if (a == 0xc2) && ((b == 0x85) || (b == 0xa0))
    then 2
    else if (a == 0xe1) && ((b == 0x9a) && (c == 0x80))
    then 3
    else if (a == 0xe2)
        && ((b == 0x80) && (within 0x80 0x8a c || ((c == 0xa8) || ((c == 0xa9) || (c == 0xaf)))))
    then 3
    else if (a == 0xe2) && ((b == 0x81) && (c == 0x9f))
    then 3
    else if (a == 0xe3) && ((b == 0x80) && (c == 0x80))
    then 3
    else 0

-- Past `n` more bytes of a character, and the white space behind it.
trim_start : ℕ → Bytes → Bytes
trim_start n [] = []
trim_start (suc n) (b ∷ bs) = trim_start n bs
trim_start zero (b ∷ bs) =
    let rest = trim_start (blank (b ∷ bs) - 1) bs in if blank (b ∷ bs) == 0 then b ∷ bs else rest

abbrev is_blank : Bytes → Bool
is_blank [] = true
is_blank (b ∷ bs) = false

trim_end : Bytes → Bytes
trim_end [] = []
trim_end (b ∷ bs) =
    let rest = trim_end bs in if is_blank (trim_start 0 (b ∷ bs)) then [] else b ∷ rest

pub trim : Bytes → Bytes
unfolding trim_start trim_end
trim text = trim_end (trim_start 0 text)

-- Bytes of printed ASCII.
abbrev pub IsGraphic : Bytes → Type 0
IsGraphic = All (λ b. (0x21 ≤ b) × (b ≤ 0x7e))

blank-graphic : (b : ℕ) (bs : Bytes) → 0x21 ≤ b → b ≤ 0x7e → blank (b ∷ bs) ≡ 0
unfolding blank
blank-graphic b [] l h = ground arith
blank-graphic b (c ∷ []) l h = ground arith
blank-graphic b (c ∷ d ∷ rest) l h = ground arith

trim_start-graphic : (b : ℕ) (bs : Bytes) → 0x21 ≤ b → b ≤ 0x7e → trim_start 0 (b ∷ bs) ≡ b ∷ bs
unfolding trim_start
trim_start-graphic b bs l h = rw (blank-graphic b bs l h) refl

trim_end-line : (s : Bytes) → IsGraphic s → trim_end (s ++ b'\n' ∷ []) ≡ s
unfolding trim_end trim_start blank
trim_end-line [] g = refl
trim_end-line (b ∷ s) g =
    rw (trim_start-graphic b (s ++ b'\n' ∷ []) g.0.0 g.0.1, is_blank)
      (ap (◌∷◌ b) (trim_end-line s g.1))

-- A line of printed ASCII is trimmed to what stands before its end.
pub trim-line : (b : ℕ) (s : Bytes) → IsGraphic (b ∷ s) → trim (b ∷ (s ++ b'\n' ∷ [])) ≡ b ∷ s
unfolding trim
trim-line b s g = rw (trim_start-graphic b (s ++ b'\n' ∷ []) g.0.0 g.0.1) (trim_end-line (b ∷ s) g)
