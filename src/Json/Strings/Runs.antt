-- ===== src/Json/Strings/Runs.antt =====
-- Cutting a text into its first run of plain bytes and the rest.
use perun.Base.{
  ℕ, suc, ◌<◌, ◌≡◌, refl, ap, inl, inr, Bool, true, false, ◌||◌, [], ◌∷◌, ◌++◌, append-nil, length,
  Bytes, ltb, ◌==◌, Bool-cases, arith,
}
use perun.Base.Utf8.{is_utf8, is_utf8-cons, is_utf8-ascii, utf8_from-split}
use perun.Json.{is_plain, run_of}
use perun.Json.Print.{escape_tail, escape_byte, escape_all}

-- `rest` does not begin with a byte of the run.
abbrev pub StopsRun : (ℕ → Bool) → Bytes → Type 0
StopsRun p [] = Unit
StopsRun p (c ∷ cs) = p c ≡ false

abbrev pub IsRun : (ℕ → Bool) → Bytes → Type 0
IsRun p [] = Unit
IsRun p (c ∷ cs) = (p c ≡ true) × IsRun p cs

pub run_of-append :
    (p : ℕ → Bool) (xs ys : Bytes) → IsRun p xs → StopsRun p ys → run_of p (xs ++ ys) ≡ length xs
unfolding run_of
run_of-append p [] [] h k = refl
run_of-append p [] (y ∷ ys) h k = rw k
run_of-append p (x ∷ xs) ys h k = rw h.0 (ap suc (run_of-append p xs ys h.1 k))

pub record Cut (s : Bytes) : Type 0 where
  pub run : Bytes
  pub rest : Bytes
  pub splits : s ≡ run ++ rest
  pub is_run : IsRun is_plain run
  pub stops : StopsRun is_plain rest

pub cut : (s : Bytes) → Cut s
cut [] = record { run = []; rest = []; splits = refl; is_run = tt; stops = tt }
cut (c ∷ cs) =
    let later = cut cs in
    elim (Bool-cases (is_plain c)) [
      | inl e ↦ record {
        run = c ∷ later.run;
        rest = later.rest;
        splits = ap (◌∷◌ c) later.splits;
        is_run = (e, later.is_run);
        stops = later.stops;
      }
      | inr e ↦ record { run = []; rest = c ∷ cs; splits = refl; is_run = tt; stops = e }
    ]

pub escape_byte-plain : (c : ℕ) → is_plain c ≡ true → escape_byte c ≡ c ∷ []
unfolding escape_byte
escape_byte-plain c h = ground arith

pub escape_byte-special : (c : ℕ) → is_plain c ≡ false → escape_byte c ≡ b'\\' ∷ escape_tail c
unfolding escape_byte
escape_byte-special c h =
    let e : ((c == b'"') || ((c == b'\\') || ltb c 0x20)) ≡ true = ground arith in rw e

-- A plain run is printed as it is.
pub escape_all-run :
    (xs ys : Bytes) → IsRun is_plain xs → escape_all (xs ++ ys) ≡ xs ++ escape_all ys
escape_all-run [] ys h = refl
escape_all-run (x ∷ xs) ys h = rw (escape_byte-plain x h.0) (ap (◌∷◌ x) (escape_all-run xs ys h.1))

-- What follows a run in the printed text is an escape or the closing quote.
pub escape_all-stops :
    (ys rest : Bytes) → StopsRun is_plain ys → StopsRun is_plain (escape_all ys ++ b'"' ∷ rest)
escape_all-stops [] rest h = refl
escape_all-stops (y ∷ ys) rest h = rw (escape_byte-special y h) refl

is_plain-ascii : (c : ℕ) → is_plain c ≡ false → c < 0x80
is_plain-ascii c h = ground arith

-- A run of a valid text, and what follows it, are valid.
pub is_utf8-run :
    (xs ys : Bytes) → StopsRun is_plain ys → is_utf8 (xs ++ ys) ≡ true → is_utf8 xs ≡ true
is_utf8-run xs [] h k = rw append-nil at k
is_utf8-run xs (y ∷ ys) h k =
    (utf8_from-split 0 0x80 0xbf xs y ys (is_plain-ascii y h) (omega arith) k).0

-- The text behind one special byte is valid.
pub is_utf8-behind :
    (c : ℕ) (cs : Bytes) → is_plain c ≡ false → is_utf8 (c ∷ cs) ≡ true → is_utf8 cs ≡ true
is_utf8-behind c cs h k =
    (utf8_from-split 0 0x80 0xbf [] c cs (is_plain-ascii c h) (omega arith) k).1

pub is_utf8-rest :
    (xs ys : Bytes) → StopsRun is_plain ys → is_utf8 (xs ++ ys) ≡ true → is_utf8 ys ≡ true
is_utf8-rest xs [] h k = is_utf8-ascii [] tt
is_utf8-rest xs (y ∷ ys) h k =
    let small = is_plain-ascii y h in
    rw (is_utf8-cons y ys small) (utf8_from-split 0 0x80 0xbf xs y ys small (omega arith) k).1
