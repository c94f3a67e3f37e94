-- ===== src/Http.antt =====
-- crates/perun-cli/src/store/http.rs: the check of the answer to a resumed download. A header is
-- looked up by its lower-case name; its value is the bytes of the text.
pub mod Resume
mod Tests
use perun.Base.{
  ℕ, ◌+◌, ◌-◌, ◌^◌, Bool, true, false, not, ◌||◌, Option, none, some, [], ◌∷◌, length, drop, Bytes,
  codes, ltb, ◌==◌, if◌then◌else◌,
}
use perun.CookieJar.Strings.{starts_with, split_once, unsigned}

pub data RangeError : Type 0 where
  range_rejected invalid_range : RangeError
  length_mismatch : ℕ → ℕ → RangeError
  unexpected_status : ℕ → RangeError

pub data RangeCheck : Type 0 where
  passed : RangeCheck
  refused : RangeError → RangeCheck

-- `str::parse::<u64>`: a plus sign is allowed.
unfoldable pub parse_u64 : Bytes → Option ℕ
unfolding unsigned
parse_u64 [] = none
parse_u64 (c ∷ cs) = unsigned (2 ^ 64) (if c == b'+' then cs else c ∷ cs)

unfoldable pub strip_prefix : Bytes → Bytes → Option Bytes
unfolding starts_with
strip_prefix prefix s = if starts_with s prefix then some (drop (length prefix) s) else none

abbrev pub or_empty : Option Bytes → Bytes
or_empty none = []
or_empty (some s) = s

-- The three numbers of `start-end/total`.
unfoldable pub parse_range : Bytes → Option (ℕ × ℕ × ℕ)
unfolding parse_u64 split_once
parse_range value = elim (split_once b'/' value) [
  | none ↦ none
  | some (bounds, total_text) ↦ elim (split_once b'-' bounds) [
    | none ↦ none
    | some (start_text, end_text) ↦ elim (parse_u64 start_text) [
      | none ↦ none
      | some first ↦ elim (parse_u64 end_text) [
        | none ↦ none
        | some last ↦ elim (parse_u64 total_text) [
          | none ↦ none
          | some size ↦ some (first, last, size)
        ]
      ]
    ]
  ]
]

-- The `content-length`, if there is one that parses and it is not the expected one.
abbrev pub check_length : Option Bytes → ℕ → RangeCheck
check_length none expected = passed
check_length (some text) expected = elim (parse_u64 text) [
  | none ↦ passed
  | some len ↦ if len == expected then passed else refused (length_mismatch len expected)
]

unfoldable pub check_bounds : Option Bytes → ℕ → ℕ × ℕ × ℕ → RangeCheck
check_bounds content_length local (first, last, size) =
    if not (first == local) || (ltb last first || not (ltb last size))
    then refused invalid_range
    else check_length content_length (last - first + 1)

unfoldable pub check_complete : Option Bytes → ℕ → RangeCheck
check_complete content_range local =
    elim (strip_prefix (codes "bytes */") (or_empty content_range)) [
      | none ↦ refused range_rejected
      | some v ↦ elim (parse_u64 v) [
        | none ↦ refused range_rejected
        | some size ↦ if size == local then passed else refused range_rejected
      ]
    ]

unfoldable pub check_partial : Option Bytes → Option Bytes → ℕ → RangeCheck
check_partial content_range content_length local =
    let value = or_empty (strip_prefix (codes "bytes ") (or_empty content_range)) in
    elim (parse_range value) [
      | none ↦ refused invalid_range
      | some bounds ↦ check_bounds content_length local bounds
    ]

unfoldable pub check_range_response : ℕ → (Bytes → Option Bytes) → ℕ → RangeCheck
check_range_response status header local =
    let content_range = header (codes "content-range") in
    if status == 200
    then passed
    else if status == 416
    then check_complete content_range local
    else if status == 206
    then check_partial content_range (header (codes "content-length")) local
    else refused (unexpected_status status)
