-- ===== src/Http/Tests.antt =====
-- Answers to a resumed download.
use perun.Base.{ℕ, ◌≡◌, ◌⊎◌, refl, Option, none, some, Bytes, codes, eq_bytes, if◌then◌else◌}
use perun.Base.Decimal.{parse_digits}
use perun.CookieJar.Strings.{starts_with, split_once, unsigned}
use perun.Http.{
  passed, refused, invalid_range, check_bounds, check_partial, check_range_response, parse_range,
  parse_u64, strip_prefix,
}
use perun.Http.Resume.{Continues, IsComplete, check_range_response-passed}

abbrev partial_content : ℕ
partial_content = 206

abbrev ranged : Bytes → Option Bytes
ranged name = if eq_bytes name (codes "content-range") then some (codes "bytes 5-9/10") else none

continued : check_range_response 206 ranged 5 ≡ passed
unfolding check_range_response check_partial check_bounds parse_range parse_u64 strip_prefix
    starts_with split_once unsigned parse_digits eq_bytes
continued = refl

-- The range begins at another place than the local file ends.
misplaced : check_range_response 206 ranged 4 ≡ refused invalid_range
unfolding check_range_response check_partial check_bounds parse_range parse_u64 strip_prefix
    starts_with split_once unsigned parse_digits eq_bytes
misplaced = refl

check_range_response-passed_example :
    (partial_content ≡ 200)
    ⊎ (((partial_content ≡ 416) × IsComplete (ranged (codes "content-range")) 5)
        ⊎ ((partial_content ≡ 206)
            × Continues (ranged (codes "content-range")) (ranged (codes "content-length")) 5))
check_range_response-passed_example = check_range_response-passed partial_content 5 ranged continued
