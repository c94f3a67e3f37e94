-- ===== src/Http/Resume.antt =====
-- Which answers pass the check.
use perun.Base.{
  ℕ, ◌+◌, ◌-◌, ◌≤◌, ◌<◌, ◌≡◌, ◌⊎◌, inl, inr, sym, ap, ◌∙◌, not, ◌||◌, Option, some, Bytes, codes,
  ltb, ◌==◌, ==→eq, Bool-cases, Option-cases, arith,
}
use perun.Http.{
  passed, parse_u64, strip_prefix, or_empty, parse_range, check_length, check_bounds,
  check_complete, check_partial, check_range_response,
}

-- A range that continues a file of `local` bytes and lies in the whole.
abbrev pub Continues : Option Bytes → Option Bytes → ℕ → Type 0
Continues content_range content_length local =
    (last : ℕ) × (size : ℕ) × (parse_range
        (or_empty (strip_prefix (codes "bytes ") (or_empty content_range)))
      ≡ some (local, last, size))
    × (local ≤ last)
    × (last < size)
    × (check_length content_length (last - local + 1) ≡ passed)

-- The server's file is as long as the local one.
abbrev pub IsComplete : Option Bytes → ℕ → Type 0
IsComplete content_range local =
    (v : Bytes) × (strip_prefix (codes "bytes */") (or_empty content_range) ≡ some v)
    × (parse_u64 v ≡ some local)

check_bounds-passed :
    (content_length : Option Bytes) (local first last size : ℕ)
    → check_bounds content_length local (first, last, size) ≡ passed
    → (first ≡ local)
      × (local ≤ last)
      × (last < size)
      × (check_length content_length (last - local + 1) ≡ passed)
unfolding check_bounds
check_bounds-passed content_length local first last size h =
    elim (Bool-cases (not (first == local) || (ltb last first || not (ltb last size)))) [
      | inl bad ↦ cc (rw (check_bounds, bad) at h)
      | inr good ↦
          let same : first ≡ local = ground arith in
          (
            same,
            ground arith,
            ground arith,
            ap (λ (f : ℕ). check_length content_length (last - f + 1)) (sym same)
                ∙ rw (check_bounds, good) at h,
          )
    ]

check_partial-passed :
    (content_range content_length : Option Bytes) (local : ℕ)
    → check_partial content_range content_length local ≡ passed
    → Continues content_range content_length local
unfolding check_partial
check_partial-passed content_range content_length local h =
    let value = or_empty (strip_prefix (codes "bytes ") (or_empty content_range)) in
    elim (Option-cases (parse_range value)) [
      | inl bad ↦ cc (rw (check_partial, bad) at h)
      | inr ((first, last, size), read) ↦
          let (same, low, high, len) =
            check_bounds-passed content_length local first last size
              (rw (check_partial, read) at h) in
          (last, size, read ∙ ap (λ (f : ℕ). some (f, last, size)) same, low, high, len)
    ]

check_complete-passed :
    (content_range : Option Bytes) (local : ℕ)
    → check_complete content_range local ≡ passed
    → IsComplete content_range local
unfolding check_complete
check_complete-passed content_range local h =
    elim (Option-cases (strip_prefix (codes "bytes */") (or_empty content_range))) [
      | inl bad ↦ cc (rw (check_complete, bad) at h)
      | inr (v, stripped) ↦ elim (Option-cases (parse_u64 v)) [
        | inl bad ↦ cc (rw (check_complete, stripped, bad) at h)
        | inr (size, parsed) ↦ elim (Bool-cases (size == local)) [
          | inr other ↦ cc (rw (check_complete, stripped, parsed, other) at h)
          | inl same ↦ (v, stripped, parsed ∙ ap some (==→eq size local same))
        ]
      ]
    ]

-- An answer that passes is a fresh body, or says that the local file is complete, or continues it:
-- its range begins at the local size and ends inside the file, and a `content-length` that parses is
-- that of the range.
pub check_range_response-passed :
    (status local : ℕ) (header : Bytes → Option Bytes)
    → check_range_response status header local ≡ passed
    → (status ≡ 200)
      ⊎ (((status ≡ 416) × IsComplete (header (codes "content-range")) local)
          ⊎ ((status ≡ 206)
              × Continues (header (codes "content-range")) (header (codes "content-length")) local))
unfolding check_range_response
check_range_response-passed status local header h =
    let content_range = header (codes "content-range") in
    elim (Bool-cases (status == 200)) [
      | inl fresh ↦ inl (==→eq status 200 fresh)
      | inr a ↦ elim (Bool-cases (status == 416)) [
        | inl full ↦
            let told = rw (check_range_response, a, full) at h in
            inr (inl (==→eq status 416 full, check_complete-passed content_range local told))
        | inr b ↦ elim (Bool-cases (status == 206)) [
          | inr c ↦ cc (rw (check_range_response, a, b, c) at h)
          | inl part ↦
              let told = rw (check_range_response, a, b, part) at h in
              inr (
                inr (
                  ==→eq status 206 part,
                  check_partial-passed content_range (header (codes "content-length")) local told,
                ))
        ]
      ]
    ]
