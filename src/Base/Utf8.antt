-- ===== src/Base/Utf8.antt =====
-- UTF-8 validity, as `std::str::from_utf8` checks it, by a machine over the bytes.
use Prim.Native.Nat.{ℕ, zero, suc, ◌≤◌, ◌<◌}
use mathlib.Core.Path.{◌≡◌, refl, sym, ap}
use mathlib.Core.Bool.{Bool, true, false}
use mathlib.Core.Option.{Option, none, some}
use mathlib.Core.Logic.{inl, inr}
use mathlib.Core.List.{[], ◌∷◌, ◌++◌, append-nil, append_assoc}
use native.Mathlib.Omega.{arith}
use perun.Base.Tests.{ltb, lt→ltb, within, ◌==◌, if◌then◌else◌, Bool-cases, Option-cases}
use perun.Base.Lists.{All}
use perun.Base.ByteStrings.{Bytes}

-- What a first byte asks for: how many more bytes, and the bounds of the next one.
unfoldable pub lead : ℕ → Option (ℕ × ℕ × ℕ)
lead b =
    if ltb b 0x80
    then some (0, 0x80, 0xbf)
    else if within 0xc2 0xdf b
    then some (1, 0x80, 0xbf)
    else if b == 0xe0
    then some (2, 0xa0, 0xbf)
    else if b == 0xed
    then some (2, 0x80, 0x9f)
    else if within 0xe1 0xef b
    then some (2, 0x80, 0xbf)
    else if b == 0xf0
    then some (3, 0x90, 0xbf)
    else if within 0xf1 0xf3 b
    then some (3, 0x80, 0xbf)
    else if b == 0xf4
    then some (3, 0x80, 0x8f)
    else none

-- With `k` continuation bytes to come, the next within `lo..=hi`.
unfoldable pub utf8_from : ℕ → ℕ → ℕ → Bytes → Bool
utf8_from zero lo hi [] = true
utf8_from (suc k) lo hi [] = false
utf8_from zero lo hi (b ∷ bs) = elim (lead b) [
  | none ↦ false
  | some (k, lo', hi') ↦ utf8_from k lo' hi' bs
]
utf8_from (suc k) lo hi (b ∷ bs) = elim (within lo hi b) [
  | true ↦ utf8_from k 0x80 0xbf bs
  | false ↦ false
]

abbrev pub is_utf8 : Bytes → Bool
is_utf8 = utf8_from 0 0x80 0xbf

-- The bounds play no part where no continuation byte is expected.
utf8_from-zero : (lo hi : ℕ) (bs : Bytes) → utf8_from 0 lo hi bs ≡ is_utf8 bs
unfolding utf8_from
utf8_from-zero lo hi [] = refl
utf8_from-zero lo hi (b ∷ bs) = refl

pub lead-ascii : (b : ℕ) → b < 0x80 → lead b ≡ some (0, 0x80, 0xbf)
unfolding lead
lead-ascii b h = rw (lt→ltb b 0x80 h)

pub lead-low : (b k lo hi : ℕ) → lead b ≡ some (k, lo, hi) → 0x80 ≤ lo
unfolding lead
lead-low b k lo hi h = ground arith

-- A continuation byte starts no character.
pub lead-continuation : (b : ℕ) → within 0x80 0xbf b ≡ true → lead b ≡ none
unfolding lead
lead-continuation b h = ground arith

-- A valid text cut in front of an ASCII byte is two valid texts.
pub utf8_from-split :
    (k lo hi : ℕ) (xs : Bytes) (a : ℕ) (ys : Bytes)
    → a < 0x80
    → 0x80 ≤ lo
    → utf8_from k lo hi (xs ++ a ∷ ys) ≡ true
    → (utf8_from k lo hi xs ≡ true) × (is_utf8 ys ≡ true)
unfolding utf8_from
utf8_from-split zero lo hi [] a ys small low h = (refl, rw (lead-ascii a small, utf8_from) at h)
utf8_from-split (suc k) lo hi [] a ys small low h =
    let off : within lo hi a ≡ false = ground arith in cc (rw (off, utf8_from) at h)
utf8_from-split zero lo hi (x ∷ xs) a ys small low h = elim (Option-cases (lead x)) [
  | inl bad ↦ cc (rw (bad, utf8_from) at h)
  | inr ((k, lo', hi'), e) ↦
      rw (e, utf8_from)
        (utf8_from-split k lo' hi' xs a ys small (lead-low x k lo' hi' e) (rw (e, utf8_from) at h))
]
utf8_from-split (suc k) lo hi (x ∷ xs) a ys small low h = elim (Bool-cases (within lo hi x)) [
  | inl e ↦
      rw (e, utf8_from)
        (utf8_from-split k 0x80 0xbf xs a ys small (omega arith) (rw (e, utf8_from) at h))
  | inr bad ↦ cc (rw (bad, utf8_from) at h)
]

-- ASCII text is valid.
pub is_utf8-ascii : (xs : Bytes) → All (λ b. b < 0x80) xs → is_utf8 xs ≡ true
unfolding utf8_from
is_utf8-ascii [] h = refl
is_utf8-ascii (x ∷ xs) h = rw (lead-ascii x h.0, utf8_from) (is_utf8-ascii xs h.1)

pub is_utf8-cons : (b : ℕ) (bs : Bytes) → b < 0x80 → is_utf8 (b ∷ bs) ≡ is_utf8 bs
unfolding utf8_from
is_utf8-cons b bs h = rw (lead-ascii b h, utf8_from)

-- A valid text does not begin with a continuation byte.
pub is_utf8-head : (c : ℕ) (cs : Bytes) → is_utf8 (c ∷ cs) ≡ true → within 0x80 0xbf c ≡ false
unfolding utf8_from
is_utf8-head c cs h = elim (Bool-cases (within 0x80 0xbf c)) [
  | inr e ↦ e
  | inl e ↦ cc (rw (lead-continuation c e, utf8_from) at h)
]

-- Valid texts joined are a valid text.
pub utf8_from-append :
    (k lo hi : ℕ) (xs ys : Bytes)
    → utf8_from k lo hi xs ≡ true
    → is_utf8 ys ≡ true
    → utf8_from k lo hi (xs ++ ys) ≡ true
unfolding utf8_from
utf8_from-append zero lo hi [] ys h v = rw utf8_from-zero v
utf8_from-append (suc k) lo hi [] ys h v = cc
utf8_from-append zero lo hi (x ∷ xs) ys h v = elim (Option-cases (lead x)) [
  | inl bad ↦ cc (rw (bad, utf8_from) at h)
  | inr ((k, lo', hi'), e) ↦
      rw (e, utf8_from) (utf8_from-append k lo' hi' xs ys (rw (e, utf8_from) at h) v)
]
utf8_from-append (suc k) lo hi (x ∷ xs) ys h v = elim (Bool-cases (within lo hi x)) [
  | inl e ↦ rw (e, utf8_from) (utf8_from-append k 0x80 0xbf xs ys (rw (e, utf8_from) at h) v)
  | inr bad ↦ cc (rw (bad, utf8_from) at h)
]

pub utf8_from-ascii :
    (lo hi : ℕ) (xs : Bytes) → All (λ b. b < 0x80) xs → utf8_from 0 lo hi xs ≡ true
utf8_from-ascii lo hi xs h = rw utf8_from-zero (is_utf8-ascii xs h)

-- U+FFFD
abbrev replacement : Bytes
replacement = 0xef ∷ 0xbf ∷ 0xbd ∷ []

-- `String::from_utf8_lossy` behind the bytes `pending` of a character that lacks `k` more: a
-- sequence that cannot go on becomes U+FFFD, and the byte that ended it is looked at anew.
unfoldable pub lossy_from : Bytes → ℕ → ℕ → ℕ → Bytes → Bytes
lossy_from pending zero lo hi [] = pending
lossy_from pending (suc k) lo hi [] = replacement
lossy_from pending zero lo hi (b ∷ bs) = pending ++ elim (lead b) [
  | none ↦ replacement ++ lossy_from [] 0 0x80 0xbf bs
  | some (k, lo', hi') ↦ lossy_from (b ∷ []) k lo' hi' bs
]
lossy_from pending (suc k) lo hi (b ∷ bs) = elim (within lo hi b) [
  | true ↦ lossy_from (pending ++ b ∷ []) k 0x80 0xbf bs
  | false ↦ replacement ++ elim (lead b) [
    | none ↦ replacement ++ lossy_from [] 0 0x80 0xbf bs
    | some (k', lo', hi') ↦ lossy_from (b ∷ []) k' lo' hi' bs
  ]
]

unfoldable pub from_utf8_lossy : Bytes → Bytes
unfolding lossy_from
from_utf8_lossy bs = lossy_from [] 0 0x80 0xbf bs

lossy_from-utf8_from :
    (k lo hi : ℕ) (pending bs : Bytes)
    → utf8_from k lo hi bs ≡ true
    → lossy_from pending k lo hi bs ≡ pending ++ bs
unfolding utf8_from lossy_from
lossy_from-utf8_from zero lo hi pending [] h = sym (append-nil pending)
lossy_from-utf8_from (suc k) lo hi pending [] h = cc
lossy_from-utf8_from zero lo hi pending (b ∷ bs) h = elim (Option-cases (lead b)) [
  | inl bad ↦ cc (rw (bad, utf8_from) at h)
  | inr ((k, lo', hi'), e) ↦
      rw (lossy_from, e)
        (ap (◌++◌ pending) (lossy_from-utf8_from k lo' hi' (b ∷ []) bs (rw (e, utf8_from) at h)))
]
lossy_from-utf8_from (suc k) lo hi pending (b ∷ bs) h = elim (Bool-cases (within lo hi b)) [
  | inr bad ↦ cc (rw (bad, utf8_from) at h)
  | inl e ↦
      rw
        (
          lossy_from,
          e,
          lossy_from-utf8_from k 0x80 0xbf (pending ++ b ∷ []) bs (rw (e, utf8_from) at h),
        )
        (append_assoc pending (b ∷ []) bs)
]

-- A valid text is kept as it is.
pub from_utf8_lossy-is_utf8 : (bs : Bytes) → is_utf8 bs ≡ true → from_utf8_lossy bs ≡ bs
unfolding from_utf8_lossy
from_utf8_lossy-is_utf8 bs h = lossy_from-utf8_from 0 0x80 0xbf [] bs h
