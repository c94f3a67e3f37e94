-- ===== src/Ipa/Zip/Writer/Placed.antt =====
-- Entries whose headers stand in the package, and what one entry more does to them.
use perun.Base.{
  ℕ, zero, suc, ◌+◌, ◌≤◌, ◌≡◌, inl, inr, refl, sym, ap, ◌∙◌, subst, false, List, [], ◌∷◌, ◌++◌,
  length, length-append, length-drop, take, drop, drop-append_at, All, All-append, Bytes, ltb,
  ltb→ge, ge→ltb, Bool-cases, arith,
}
use perun.Ipa.Zip.{CentralEntry, done}
use perun.Ipa.Zip.Package.{local_span}
use perun.Ipa.Zip.Writer.{ZipWriter}
use perun.Ipa.Zip.Writer.Headers.{IsHeader, local_span-IsHeader}
use perun.Ipa.Zip.Writer.Reread.{drop-append_le}

-- The header of the entry stands in the package and leads to a payload that ends inside it.
abbrev pub IsPlaced : Bytes → CentralEntry → Type 0
IsPlaced out e =
    (start : ℕ) × (local_span out e ≡ done (start, e.compressed_size))
    × (start + e.compressed_size ≤ length out)

-- The writer counts its bytes and its entries are placed.
abbrev pub IsSound : ZipWriter → Type 0
IsSound z = (length z.out ≡ z.offset) × All (IsPlaced z.out) z.entries

take-append_le : (n : ℕ) (xs ys : Bytes) → n ≤ length xs → take n (xs ++ ys) ≡ take n xs
take-append_le zero xs ys h = refl
take-append_le (suc n) [] ys h = absurd (omega arith)
take-append_le (suc n) (x ∷ xs) ys h = ap (◌∷◌ x) (take-append_le n xs ys (omega arith))

-- More bytes behind a package leave the place of a payload as it is.
pub local_span-append :
    (out w : Bytes) (e : CentralEntry) (start size : ℕ)
    → local_span out e ≡ done (start, size)
    → local_span (out ++ w) e ≡ done (start, size)
unfolding local_span
local_span-append out w e start size found =
    let off = e.local_offset in
    elim (Bool-cases (ltb (length out) (off + 30))) [
      | inl short ↦ cc (rw (local_span, short) at found)
      | inr long ↦
          let enough = ltb→ge (length out) (off + 30) long in
          let longer : ltb (length (out ++ w)) (off + 30) ≡ false =
            ge→ltb (length (out ++ w)) (off + 30) (omega (arith, length-append out w)) in
          let same : take 30 (drop off (out ++ w)) ≡ take 30 (drop off out) =
            ap (take 30) (drop-append_le off out w (omega arith))
            ∙ take-append_le 30 (drop off out) w (omega (arith, length-drop off out)) in
          let told = rw (local_span, long) at found in rw (local_span, longer, same) told
    ]

-- More bytes behind a package leave its entries placed.
IsPlaced-append : (out w : Bytes) (e : CentralEntry) → IsPlaced out e → IsPlaced (out ++ w) e
IsPlaced-append out w e (start, found, inside) = (
  start,
  local_span-append out w e start e.compressed_size found,
  omega (arith, length-append out w),
)

-- One entry of that name more: its header, its payload and what follows it, behind what was written.
pub record IsAdded (z z' : ZipWriter) (name : Bytes) : Type 0 where
  pub entry : CentralEntry
  pub named : entry.name ≡ name
  pub head : Bytes
  pub body : Bytes
  pub rest : Bytes
  pub header : IsHeader head
  pub out_is : z'.out ≡ z.out ++ (head ++ (body ++ rest))
  pub offset_is : z'.offset ≡ z.offset + length (head ++ (body ++ rest))
  pub entries_are : z'.entries ≡ z.entries ++ entry ∷ []
  pub entry_at : entry.local_offset ≡ z.offset
  pub body_size : length body ≡ entry.compressed_size

All-IsPlaced :
    (out w : Bytes) (es : List CentralEntry) → All (IsPlaced out) es → All (IsPlaced (out ++ w)) es
All-IsPlaced out w [] h = tt
All-IsPlaced out w (e ∷ es) h = (IsPlaced-append out w e h.0, All-IsPlaced out w es h.1)

pub IsAdded-IsSound : {z z' : ZipWriter} {name : Bytes} → IsSound z → IsAdded z z' name → IsSound z'
IsAdded-IsSound {z} {z'} (counted, placed) a =
    let more = a.head ++ (a.body ++ a.rest) in
    let e = a.entry in
    let there : drop e.local_offset (z.out ++ more) ≡ more =
      drop-append_at e.local_offset z.out more (counted ∙ sym a.entry_at) in
    let sizes = length-append z.out more in
    let lens : length more ≡ length a.head + (length a.body + length a.rest) =
      omega (arith, length-append a.head (a.body ++ a.rest), length-append a.body a.rest) in
    let mine : IsPlaced (z.out ++ more) e = (
      e.local_offset + length a.head,
      local_span-IsHeader (z.out ++ more) (a.body ++ a.rest) a.head e a.header there,
      omega (arith, sizes, lens, counted, a.entry_at, a.body_size),
    ) in
    let all =
      All-append (IsPlaced (z.out ++ more)) z.entries (e ∷ [])
        (All-IsPlaced z.out more z.entries placed) (mine, tt) in
    (
      omega (arith, ap length a.out_is, a.offset_is, sizes, counted),
      subst (λ out. All (IsPlaced out) z'.entries) (sym a.out_is)
          (subst (λ es. All (IsPlaced (z.out ++ more)) es) (sym a.entries_are) all),
    )
