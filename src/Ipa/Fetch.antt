-- ===== src/Ipa/Fetch.antt =====
-- `fetch_info_plist`: the property list of the app out of a package that is not downloaded.
-- `raw_request` stands for the request of that name, by the value of its Range header: the status and
-- the body of the answer, or nothing when it failed.
pub mod Window
use perun.Base.{
  ℕ, zero, suc, ◌+◌, ◌-◌, ◌*◌, ◌/◌, ◌%◌, ◌^◌, Bool, true, false, not, ◌&&◌, ◌||◌, Option, none,
  some, List, [], ◌∷◌, ◌++◌, length, take, drop, get_or, min, Bytes, from_le, eq_bytes, ltb, leb,
  ◌==◌, if◌then◌else◌,
}
use perun.Base.Decimal.{decimal}
use perun.Calendar.{dos_to_unix}
use perun.CookieJar.Strings.{ℤ, pos, negsuc}
use perun.Ipa.Bits.{Outcome}
use perun.Ipa.Inflate.{inflate}
use perun.Ipa.Names.{is_main_app_info_plist}
use perun.Ipa.Zip.{
  loc_sig, CentralEntry, no_info_plist, remote_header_malformed, request_failed, bad_status,
  unsupported_method, inflate_failed, inflate_panicked, Zipped, done, failed, ◌>>=◌, u16_at,
  get_range,
}
use perun.Ipa.Zip.Directory.{find_eocd, parse_central_at}

-- `i64::from(i32::from_le_bytes(..))`
abbrev pub i32_of : Bytes → ℤ
i32_of bs = let n = from_le bs in if ltb n (2 ^ 31) then pos n else negsuc (2 ^ 32 - 1 - n)

-- The time that a block of the extra field holds, if it is one of the two kinds that do.
abbrev pub block_mtime : ℕ → Bytes → Option ℤ
block_mtime id body =
    if (id == 0x5455) && (not (get_or body 0 0 % 2 == 0) && leb 5 (length body))
    then some (i32_of (take 4 (drop 1 body)))
    else if (id == 0x5855) && leb 8 (length body)
    then some (i32_of (take 4 (drop 4 body)))
    else none

-- The loop of `extra_mtime_unix` over the bytes from `off` on; each turn passes four at least.
unfoldable pub mtime_loop : ℕ → Bytes → Option ℤ
mtime_loop zero extra = none
mtime_loop (suc n) extra =
    let size = u16_at extra 2 in
    let later = mtime_loop n (drop (4 + size) extra) in
    if ltb (length extra) 4 then none else elim (get_range extra 4 size) [
      | none ↦ none
      | some body ↦ elim (block_mtime (u16_at extra 0) body) [ some t ↦ some t | none ↦ later ]
    ]

unfoldable pub extra_mtime_unix : Bytes → Option ℤ
extra_mtime_unix extra = mtime_loop (length extra) extra

pub data Range : Type 0 where
  last : ℕ → Range
  span : ℕ → ℕ → Range

abbrev pub find_info_plist : List CentralEntry → Zipped CentralEntry
find_info_plist [] = failed no_info_plist
find_info_plist (e ∷ es) = if is_main_app_info_plist e.name then done e else find_info_plist es

abbrev pub inflated : Outcome Bytes → Zipped Bytes
inflated (Outcome.done out) = done out
inflated (Outcome.failed e) = failed (inflate_failed e)
inflated Outcome.panicked = failed inflate_panicked

-- The bytes of an entry, by its method.
abbrev pub unpack : ℕ → Bytes → Zipped Bytes
unpack method body =
    if method == 0
    then done body
    else if method == 8
    then inflated (inflate body)
    else failed (unsupported_method method)

abbrev pub tail_size : ℕ
tail_size = 66000

unfoldable pub range_spec : Range → Bytes
unfolding decimal
range_spec (last n) = b'-' ∷ decimal n
range_spec (span start len) = decimal start ++ b'-' ∷ decimal (start + (len - 1))

module _ (raw_request : Bytes → Option (ℕ × Bytes)) where
  unfoldable pub http_range : Range → Zipped Bytes
  http_range range = elim (raw_request (range_spec range)) [
    | none ↦ failed request_failed
    | some (status, body) ↦
        if not (status == 206) && not (status == 200) then failed (bad_status status) else done body
  ]

  -- Behind the entry: its local header, its time and its bytes.
  unfoldable pub fetch_entry : CentralEntry → Zipped (Bytes × ℤ)
  unfolding extra_mtime_unix
  fetch_entry entry = http_range (span entry.local_offset (30 + 512)) >>= λ header.
      if ltb (length header) 30 || not (eq_bytes (take 4 header) loc_sig)
      then failed remote_header_malformed
      else let name_len = u16_at header 26 in
        let extra_len = u16_at header 28 in
        let extra = take extra_len (drop (30 + name_len) header) in
        let mtime : ℤ = elim (extra_mtime_unix extra) [
          | some t ↦ t
          | none ↦ pos (dos_to_unix entry.date entry.time)
        ] in
        let data_start = 30 + name_len + extra_len in
        (http_range (span (entry.local_offset + data_start) entry.compressed_size) >>= λ body.
        unpack entry.method body >>= λ bytes. done (bytes, mtime))

  unfoldable pub fetch_info_plist : Zipped (Bytes × ℤ)
  fetch_info_plist = http_range (last tail_size) >>= λ tail. find_eocd tail >>= λ found.
      http_range (span found.1.cd_offset found.1.cd_size) >>= λ cd.
      parse_central_at cd 0 found.1 >>= λ entries.
      find_info_plist entries >>= λ entry. fetch_entry entry
