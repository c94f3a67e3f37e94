-- ===== src/Json/Strings/Valid.antt =====
-- `json_str` of a valid text is a valid text.
use perun.Base.{
  ℕ, zero, suc, ◌≤◌, ◌<◌, ◌≡◌, inl, inr, true, false, [], ◌∷◌, ◌++◌, All, Bytes, within, Bool-cases,
  Option-cases, arith,
}
use perun.Base.Utf8.{
  is_utf8, utf8_from, lead, lead-ascii, lead-low, is_utf8-cons, is_utf8-ascii, utf8_from-ascii,
  utf8_from-append,
}
use perun.Json.{is_plain}
use perun.Json.Print.{escape_byte, escape_all, json_str}
use perun.Json.Strings.Runs.{escape_byte-plain}

escape_ascii : (c : ℕ) → is_plain c ≡ false → All (λ b. b < 0x80) (escape_byte c)
unfolding escape_byte
escape_ascii c h = ground arith

special-ascii : (c : ℕ) → is_plain c ≡ false → c < 0x80
special-ascii c h = ground arith

-- The validity machine makes the same moves on the escaped text.
escape_all-utf8_from :
    (k lo hi : ℕ) (s : Bytes)
    → 0x80 ≤ lo
    → utf8_from k lo hi s ≡ true
    → utf8_from k lo hi (escape_all s) ≡ true
unfolding utf8_from
escape_all-utf8_from zero lo hi [] low h = h
escape_all-utf8_from (suc k) lo hi [] low h = h
escape_all-utf8_from zero lo hi (c ∷ cs) low h = elim (Bool-cases (is_plain c)) [
  | inr special ↦
      let small = special-ascii c special in
      utf8_from-append zero lo hi (escape_byte c) (escape_all cs)
        (utf8_from-ascii lo hi (escape_byte c) (escape_ascii c special))
        (escape_all-utf8_from 0 0x80 0xbf cs (omega arith)
          (rw (lead-ascii c small, utf8_from) at h))
  | inl plain ↦ rw (escape_byte-plain c plain) (elim (Option-cases (lead c)) [
    | inl bad ↦ cc (rw (bad, utf8_from) at h)
    | inr ((k, lo', hi'), e) ↦
        rw (e, utf8_from)
          (escape_all-utf8_from k lo' hi' cs (lead-low c k lo' hi' e) (rw (e, utf8_from) at h))
  ])
]
escape_all-utf8_from (suc k) lo hi (c ∷ cs) low h = elim (Bool-cases (within lo hi c)) [
  | inr bad ↦ cc (rw (bad, utf8_from) at h)
  | inl e ↦
      let plain : is_plain c ≡ true = ground arith in
      rw (escape_byte-plain c plain) (
        rw (e, utf8_from)
          (escape_all-utf8_from k 0x80 0xbf cs (omega arith) (rw (e, utf8_from) at h)))
]

pub is_utf8-json_str : (s : Bytes) → is_utf8 s ≡ true → is_utf8 (json_str s) ≡ true
is_utf8-json_str s h = rw (is_utf8-cons b'"' (escape_all s ++ b'"' ∷ []) (omega arith)) (
    utf8_from-append 0 0x80 0xbf (escape_all s) (b'"' ∷ [])
      (escape_all-utf8_from 0 0x80 0xbf s (omega arith) h)
      (is_utf8-ascii (b'"' ∷ []) (omega arith)))
