-- ===== src/Ipa/Fetch/Window.antt =====
-- The window in which `fetch_info_plist` looks for the directory.
use perun.Base.{
  ℕ, suc, zero, ◌+◌, ◌≤◌, ◌≡◌, Option, inl, inr, Bool-cases, List, [], ◌∷◌, ◌++◌, length, eq_bytes,
  ltb, Bytes, arith,
}
use perun.CookieJar.Strings.{ℤ}
use perun.Ipa.Fetch.{
  Range, last, span, tail_size, http_range, find_info_plist, fetch_entry, fetch_info_plist,
}
use perun.Ipa.Zip.{CentralEntry, Eocd, loc_sig, Zipped, done, bind_done, ◌>>=◌}
use perun.Ipa.Zip.Directory.{find_eocd, parse_entry, parse_entries, parse_central_at}
use perun.Ipa.Zip.Directory.EndRecord.{find_eocd-within}

-- No entry begins with the signature of a local header.
no_entry : (rest : Bytes) (e : CentralEntry × Bytes) → ¬ (parse_entry (loc_sig ++ rest) ≡ done e)
unfolding parse_entry eq_bytes
no_entry rest e h = elim (Bool-cases (ltb (length (loc_sig ++ rest)) 46)) [
  | inl short ↦ cc (rw (parse_entry, short) at h)
  | inr long ↦ cc (rw (parse_entry, long) at h)
]

no_directory :
    (rest : Bytes) (n : ℕ) (entries : List CentralEntry)
    → parse_entries n (loc_sig ++ rest) ≡ done entries
    → entries ≡ []
unfolding parse_entries
no_directory rest zero entries h = cc
no_directory rest (suc n) entries h =
    let (e, first, later) =
      bind_done (parse_entry (loc_sig ++ rest)) (λ e. parse_entries n e.1 >>= λ es. done (e.0 ∷ es))
        entries h in
    absurd (no_entry rest e first)

module _ (raw_request : Bytes → Option (ℕ × Bytes)) where
  abbrev behind_entries : List CentralEntry → Zipped (Bytes × ℤ)
  behind_entries entries = find_info_plist entries >>= λ entry. fetch_entry raw_request entry

  abbrev behind_record : ℕ × Eocd → Zipped (Bytes × ℤ)
  behind_record found = http_range raw_request (span found.1.cd_offset found.1.cd_size) >>= λ cd.
      parse_central_at cd 0 found.1 >>= behind_entries

  -- Where the answer to the first request is no longer than what it asks for, a package is read only
  -- if its central directory ends within its first 65,978 bytes, however long it is.
  pub fetch_info_plist-within :
      (tail : Bytes) (got : Bytes × ℤ)
      → http_range raw_request (last tail_size) ≡ done tail
      → length tail ≤ tail_size
      → fetch_info_plist raw_request ≡ done got
      → (at : ℕ) × (eocd : Eocd) × (find_eocd tail ≡ done (at, eocd))
        × (eocd.cd_offset + eocd.cd_size ≤ 65978)
  unfolding fetch_info_plist
  fetch_info_plist-within tail got asked size h =
      let h1 = rw (fetch_info_plist, asked) at h in
      let (found, located, h2) = bind_done (find_eocd tail) behind_record got h1 in
      let bound = find_eocd-within tail found.0 found.1 located in
      (found.0, found.1, located, omega (arith, bound, size))

  -- Where every answer is the whole package, which begins with a local header, nothing is read.
  pub fetch_info_plist-whole :
      (rest : Bytes) (got : Bytes × ℤ)
      → ((range : Range) → http_range raw_request range ≡ done (loc_sig ++ rest))
      → ¬ (fetch_info_plist raw_request ≡ done got)
  unfolding fetch_info_plist parse_central_at parse_entries parse_entry eq_bytes
  fetch_info_plist-whole rest got answers h =
      let whole = loc_sig ++ rest in
      let h1 = rw (fetch_info_plist, answers (last tail_size)) at h in
      let (found, located, h2) = bind_done (find_eocd whole) behind_record got h1 in
      let h3 = rw (answers (span found.1.cd_offset found.1.cd_size)) at h2 in
      let (entries, parsed, h4) =
        bind_done (parse_central_at whole 0 found.1) behind_entries got h3 in
      let none = no_directory rest found.1.entry_count entries parsed in
      cc (rw (none, find_info_plist) at h4)
