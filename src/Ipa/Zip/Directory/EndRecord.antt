-- ===== src/Ipa/Zip/Directory/EndRecord.antt =====
-- Where `find_eocd_at` finds the record at the end of an archive.
use perun.Base.{
  ℕ, ◌+◌, ◌≤◌, ◌<◌, ◌≡◌, inl, inr, refl, sym, ap, ◌∙◌, subst, Bool, true, false, not, ◌&&◌, ◌||◌,
  Option, none, some, [], ◌∷◌, ◌++◌, length, length-append, length-drop, take, drop, drop-append_at,
  drop-at, take-length, Bytes, eq_bytes, ltb, lt→ltb, ge→ltb, ltb→ge, ltb→lt, ◌==◌, Bool-cases,
  Option-cases, &&-true, if◌then◌else◌, arith,
}
use perun.Ipa.Zip.{Zipped-cases, eocd_sig, Eocd, done, u16_at, u32_at}
use perun.Ipa.Zip.Directory.{candidate_is_plausible, scan_eocd, read_eocd, find_eocd_at, find_eocd}

abbrev believed_at : ℕ → Bytes → Bool
believed_at at rest = eq_bytes (take 4 rest) eocd_sig && candidate_is_plausible (take 22 rest) at

scan_eocd-short :
    (base i : ℕ) (pos : Option ℕ) (bs : Bytes) → length bs < 22 → scan_eocd base i pos bs ≡ pos
unfolding scan_eocd
scan_eocd-short base i pos [] h = refl
scan_eocd-short base i pos (b ∷ bs) h = rw (lt→ltb (length (b ∷ bs)) 22 h) refl

scan_eocd-long :
    (base i : ℕ) (pos : Option ℕ) (b : ℕ) (bs : Bytes)
    → 22 ≤ length (b ∷ bs)
    → scan_eocd base i pos (b ∷ bs)
      ≡ scan_eocd base (i + 1) (if believed_at (base + i) (b ∷ bs) then some i else pos) bs
unfolding scan_eocd
scan_eocd-long base i pos b bs h = rw (ge→ltb (length (b ∷ bs)) 22 h) refl

-- A believed record that ends the window is the last one.
scan_eocd-last :
    (base i : ℕ) (pos : Option ℕ) (front rec : Bytes)
    → length rec ≡ 22
    → believed_at (base + (i + length front)) rec ≡ true
    → scan_eocd base i pos (front ++ rec) ≡ some (i + length front)
scan_eocd-last base i pos [] [] size h = absurd (omega arith)
scan_eocd-last base i pos [] (b ∷ bs) size h =
    let here : i + 0 ≡ i = omega arith in
    let told : believed_at (base + i) (b ∷ bs) ≡ true = rw (← here) h in
    scan_eocd-long base i pos b bs (omega arith)
    ∙ ap (λ t. scan_eocd base (i + 1) (if t then some i else pos) bs) told
    ∙ scan_eocd-short base (i + 1) (some i) bs (omega arith)
    ∙ ap some (sym here)
scan_eocd-last base i pos (f ∷ front) rec size h =
    let next : i + 1 + length front ≡ i + length (f ∷ front) = omega arith in
    let pos' = if believed_at (base + i) (f ∷ (front ++ rec)) then some i else pos in
    scan_eocd-long base i pos f (front ++ rec) (omega (arith, length-append front rec))
    ∙ scan_eocd-last base (i + 1) pos' front rec size (rw next h)
    ∙ ap some next

pub find_eocd_at-last :
    (base : ℕ) (front rec : Bytes) (eocd : Eocd)
    → length rec ≡ 22
    → eq_bytes (take 4 rec) eocd_sig ≡ true
    → candidate_is_plausible rec (base + length front) ≡ true
    → read_eocd rec ≡ done eocd
    → find_eocd_at (front ++ rec) base ≡ done (base + length front, eocd)
unfolding find_eocd_at
find_eocd_at-last base front rec eocd size sig plausible reading =
    let zeroed : 0 + length front ≡ length front = omega arith in
    let cut : take 22 rec ≡ rec = take-length 22 rec (omega arith) in
    let told : believed_at (base + (0 + length front)) rec ≡ true =
      rw (zeroed, cut, sig) plausible in
    let found = scan_eocd-last base 0 none front rec size told ∙ ap some zeroed in
    rw (find_eocd_at, found, drop-append_at (length front) front rec refl, cut, reading) refl

module _ (window : Bytes) (base : ℕ) where
  -- A whole record stands at the place, with the signature, and it can be the archive's own.
  abbrev pub IsCandidate : ℕ → Type 0
  IsCandidate p = (p + 22 ≤ length window) × (believed_at (base + p) (drop p window) ≡ true)

  scan_eocd-IsCandidate :
      (i : ℕ) (pos : Option ℕ) (rest : Bytes)
      → drop i window ≡ rest
      → ((p : ℕ) → pos ≡ some p → IsCandidate p)
      → (p : ℕ) → scan_eocd base i pos rest ≡ some p
      → IsCandidate p
  unfolding scan_eocd
  scan_eocd-IsCandidate i pos [] here before p h = before p h
  scan_eocd-IsCandidate i pos (b ∷ bs) here before p h =
      elim (Bool-cases (ltb (length (b ∷ bs)) 22)) [
        | inl short ↦ before p (sym (scan_eocd-short base i pos (b ∷ bs) (ltb→lt _ 22 short)) ∙ h)
        | inr long ↦
            let enough = ltb→ge (length (b ∷ bs)) 22 long in
            let later = sym (scan_eocd-long base i pos b bs enough) ∙ h in
            let next = drop-at i window (b ∷ []) bs here in
            elim (Bool-cases (believed_at (base + i) (b ∷ bs))) [
              | inr no_record ↦
                  scan_eocd-IsCandidate (i + 1) pos bs next before p (rw no_record at later)
              | inl told ↦
                  let whole : i + 22 ≤ length window =
                    omega (arith, length-drop i window, ap length here) in
                  let mine : IsCandidate i = (whole, ap (believed_at (base + i)) here ∙ told) in
                  scan_eocd-IsCandidate (i + 1) (some i) bs next
                    (λ q e. let same : i ≡ q = cc in subst IsCandidate same mine) p
                    (rw told at later)
            ]
      ]

-- What a record says, if it is read.
read_eocd-fields :
    (rec : Bytes) (eocd : Eocd)
    → read_eocd rec ≡ done eocd
    → (eocd.cd_offset ≡ u32_at rec 16)
      × (eocd.cd_size ≡ u32_at rec 12)
      × ((u32_at rec 12 == 0xffffffff || u32_at rec 16 == 0xffffffff) ≡ false)
unfolding read_eocd
read_eocd-fields rec eocd h =
    elim (Bool-cases (not (u16_at rec 4 == 0) || not (u16_at rec 6 == 0))) [
      | inl several ↦ cc (rw (read_eocd, several) at h)
      | inr single ↦
          elim (Bool-cases (
            u32_at rec 16 == 0xffffffff
            || (u32_at rec 12 == 0xffffffff || (u16_at rec 10 == 0xffff)))) [
              | inl marked ↦ cc (rw (read_eocd, single, marked) at h)
              | inr plain ↦
                  let e = rw (read_eocd, single, plain) at h in
                  let said : Eocd = record {
                    entry_count = u16_at rec 10;
                    cd_offset = u32_at rec 16;
                    cd_size = u32_at rec 12;
                  } in
                  let same : eocd ≡ said = cc in
                  (
                    ap (λ (x : Eocd). x.cd_offset) same,
                    ap (λ (x : Eocd). x.cd_size) same,
                    ground arith,
                  )
            ]
    ]

plausible_bound :
    (rec : Bytes) (at : ℕ) (eocd : Eocd)
    → candidate_is_plausible rec at ≡ true
    → read_eocd rec ≡ done eocd
    → eocd.cd_offset + eocd.cd_size ≤ at
unfolding candidate_is_plausible
plausible_bound rec at eocd h reading =
    let (offset, size, plain) = read_eocd-fields rec eocd reading in
    let inside = rw (candidate_is_plausible, plain) at h in ground (arith, offset, size, inside)

-- A record that is found lies whole in the window with the signature, at a place from `base` on,
-- and the directory that it names ends at or before that place.
pub find_eocd_at-IsCandidate :
    (window : Bytes) (base at : ℕ) (eocd : Eocd)
    → find_eocd_at window base ≡ done (at, eocd)
    → (p : ℕ) × (at ≡ base + p) × IsCandidate window base p × (eocd.cd_offset + eocd.cd_size ≤ at)
unfolding find_eocd_at
find_eocd_at-IsCandidate window base at eocd h =
    elim (Option-cases (scan_eocd base 0 none window)) [
      | inl nothing ↦ cc (rw (find_eocd_at, nothing) at h)
      | inr (p, found) ↦
          let rec = take 22 (drop p window) in
          let found_here =
            scan_eocd-IsCandidate window base 0 none window refl (λ q e. cc) p found in
          let told = &&-true (eq_bytes (take 4 (drop p window)) eocd_sig) _ found_here.1 in
          elim (Zipped-cases (read_eocd rec)) [
            | inl (e, bad) ↦ cc (rw (find_eocd_at, found, bad) at h)
            | inr (eocd', reading) ↦
                let pair = rw (find_eocd_at, found, reading) at h in
                let place : at ≡ base + p = cc in
                let same : read_eocd rec ≡ done eocd = cc in
                let bound = plausible_bound rec (base + p) eocd told.1 same in
                (p, place, found_here, omega (arith, bound, place))
          ]
    ]

-- A window taken without its place in the archive: no directory that ends past the window is found.
pub find_eocd-within :
    (window : Bytes) (at : ℕ) (eocd : Eocd)
    → find_eocd window ≡ done (at, eocd)
    → eocd.cd_offset + eocd.cd_size + 22 ≤ length window
unfolding find_eocd
find_eocd-within window at eocd h =
    let (p, place, candidate, bound) = find_eocd_at-IsCandidate window 0 at eocd h in
    omega (arith, place, candidate.0, bound)
