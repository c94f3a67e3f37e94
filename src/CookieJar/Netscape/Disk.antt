-- ===== src/CookieJar/Netscape/Disk.antt =====
-- What loading and saving leave behind, whatever the system's calls return.
use perun.Base.{
  ℕ, ◌≡◌, ◌⊎◌, inl, inr, refl, true, false, ◌||◌, Option, none, some, List, [], ◌∷◌, ◌++◌, length,
  get_or, All, ltb, ltb→lt, ap, ◌==◌, Bool-cases, Option-cases, arith,
}
use perun.CookieJar.Strings.{Str, trim_end_matches, split, lines, ℤ, pos, negsuc, parse_i64}
use perun.CookieJar.{Cookie, Jar, is_live}
use perun.CookieJar.Netscape.{
  is_dead, seconds, parse_row, parse_rows, Read, absent, failed, contents, load_netscape_file,
  header, rows, Files, Calls, save_netscape_file,
}

-- However the calls end, the jar's file is what it was, and the result is an error or the jar
-- is empty; or it is the whole text of a jar that is not empty, and the result is `Ok`.
pub save_netscape_file-atomic :
    (calls : Calls) (jar : Jar) (files : Files)
    → (((save_netscape_file calls jar files).0.file ≡ files.file)
        × (((save_netscape_file calls jar files).1 ≡ false) ⊎ (jar ≡ [])))
      ⊎ (((save_netscape_file calls jar files).0.file ≡ some (header ++ rows jar))
          × ((save_netscape_file calls jar files).1 ≡ true)
          × (¬ (jar ≡ [])))
unfolding save_netscape_file
save_netscape_file-atomic calls [] files = inl (refl, inr refl)
save_netscape_file-atomic calls (c ∷ jar) files = elim (Bool-cases calls.wrote) [
  | inr lost ↦ rw lost (inl (refl, inl refl))
  | inl wrote ↦ elim (Bool-cases calls.renamed) [
    | inl renamed ↦ rw (wrote, renamed) (inr (refl, refl, (λ e. cc)))
    | inr stuck ↦ rw (wrote, stuck) (inl (refl, inl refl))
  ]
]

seconds-live :
    (now : ℕ) (e : Option ℤ)
    → is_dead now e ≡ false
    → ((seconds e == 0) || ltb now (seconds e)) ≡ true
unfolding is_dead seconds
seconds-live now none h = refl
seconds-live now (some (pos n)) h = ground arith
seconds-live now (some (negsuc n)) h = cc

parse_row-live : (now : ℕ) (l : Str) (c : Cookie) → parse_row now l ≡ some c → is_live now c ≡ true
unfolding parse_row
parse_row-live now l c h =
    let line = trim_end_matches (λ b. (b == 0x0d) || (b == 0x0a)) l in
    let live = seconds-live now (parse_i64 (get_or (split 0x09 line) 4 [])) in
    ground (arith, h, live)

parse_rows-live : (now : ℕ) (ls : List Str) → All (λ c. is_live now c ≡ true) (parse_rows now ls)
unfolding parse_rows
parse_rows-live now [] = tt
parse_rows-live now (l ∷ ls) = elim (Option-cases (parse_row now l)) [
  | inl skipped ↦ rw (skipped, All) (parse_rows-live now ls)
  | inr (c, read) ↦ rw (read, All) (parse_row-live now l c read, parse_rows-live now ls)
]

-- Loading keeps the jar, or it replaces the jar by the rows of the file, at least one, each of them
-- live, and counts them.
pub load_netscape_file-outcome :
    (now : ℕ) (read : Read) (jar : Jar)
    → ((load_netscape_file now read jar).0 ≡ jar)
      ⊎ (((load_netscape_file now read jar).1 ≡ some (length (load_netscape_file now read jar).0))
          × (¬ ((load_netscape_file now read jar).0 ≡ []))
          × All (λ c. is_live now c ≡ true) (load_netscape_file now read jar).0)
unfolding load_netscape_file
load_netscape_file-outcome now absent jar = inl refl
load_netscape_file-outcome now failed jar = inl refl
load_netscape_file-outcome now (contents text) jar =
    elim (Bool-cases (ltb 0 (length (parse_rows now (lines text))))) [
      | inr empty ↦ rw empty (inl refl)
      | inl some_row ↦ rw some_row (
          inr (
            refl,
            (λ e. absurd (
                omega (
                  arith,
                  ltb→lt 0 (length (parse_rows now (lines text))) some_row,
                  ap (length {A = Cookie}) e,
                ))),
            parse_rows-live now (lines text),
          ))
    ]
