-- ===== src/Ipa/Replicate/Names.antt =====
-- Which entries the replicated package has.
use perun.Base.{
  ℕ, ◌≡◌, refl, sym, ap, ◌∙◌, subst, Option, List, [], ◌∷◌, ◌++◌, append-nil, append_assoc, Bytes,
}
use perun.Ipa.Zip.{CentralEntry, done, bind_done}
use perun.Ipa.Zip.Writer.{ZipWriter, new_writer}
use perun.Ipa.Zip.Writer.Additions.{Appends, ReadsAtMost, copy_raw_from_file-IsAdded}
use perun.Ipa.Zip.Writer.Entries.{copy_raw_from_file, add_stored}
use perun.Ipa.Zip.Writer.Placed.{IsSound, IsAdded}
use perun.Ipa.Zip.Writer.Steps.{
  Reached, nothing_yet, copied, added, add_stored-IsAdded, Reached-IsSound,
}
use perun.Ipa.Replicate.{copy_all, add_all, fill_package}

abbrev pub names : List CentralEntry → List Bytes
names [] = []
names (e ∷ es) = e.name ∷ names es

abbrev pub firsts : List (Bytes × Bytes) → List Bytes
firsts [] = []
firsts (a ∷ rest) = a.0 ∷ firsts rest

names-append :
    (es : List CentralEntry) (e : CentralEntry) → names (es ++ e ∷ []) ≡ names es ++ e.name ∷ []
names-append [] e = refl
names-append (d ∷ es) e = ap (◌∷◌ d.name) (names-append es e)

IsAdded-names :
    {z z' : ZipWriter} {name : Bytes}
    → IsAdded z z' name
    → names z'.entries ≡ names z.entries ++ name ∷ []
IsAdded-names {z} {z'} {name} a =
    ap names a.entries_are
    ∙ names-append z.entries a.entry
    ∙ ap (λ n. names z.entries ++ n ∷ []) a.named

module _ (write_all : Bytes → Bytes → Option Bytes) (appends : Appends write_all)
    (read : ℕ → ℕ → Option Bytes) (at_most : ReadsAtMost read) where
  -- A writer that was reached, with these names behind those of another.
  abbrev Follows : ZipWriter → List Bytes → ZipWriter → Type 0
  Follows z ns z' = Reached write_all appends z' × (names z'.entries ≡ names z.entries ++ ns)

  copy_all-Follows :
      (len : ℕ) (es : List CentralEntry) (z z' : ZipWriter)
      → Reached write_all appends z
      → copy_all write_all read len z es ≡ done z'
      → Follows z (names es) z'
  unfolding copy_all
  copy_all-Follows len [] z z' r h =
      let same : z ≡ z' = cc in
      (
        subst (Reached write_all appends) same r,
        ap (λ (t : ZipWriter). names t.entries) (sym same) ∙ sym (append-nil (names z.entries)),
      )
  copy_all-Follows len (e ∷ es) z z' r h =
      let (z1, first, h1) =
        bind_done (copy_raw_from_file write_all read len z e)
          (λ z1. copy_all write_all read len z1 es) z' h in
      let now =
        IsAdded-names
          (copy_raw_from_file-IsAdded write_all appends read at_most len z z1 e first) in
      let (r', later) = copy_all-Follows len es z1 z' (copied read len e r at_most first) h1 in
      (
        r',
        later
            ∙ ap (λ ns. ns ++ names es) now
            ∙ append_assoc (names z.entries) (e.name ∷ []) (names es),
      )

  add_all-Follows :
      (date time : ℕ) (as' : List (Bytes × Bytes)) (z z' : ZipWriter)
      → Reached write_all appends z
      → add_all write_all date time z as' ≡ done z'
      → Follows z (firsts as') z'
  unfolding add_all
  add_all-Follows date time [] z z' r h =
      let same : z ≡ z' = cc in
      (
        subst (Reached write_all appends) same r,
        ap (λ (t : ZipWriter). names t.entries) (sym same) ∙ sym (append-nil (names z.entries)),
      )
  add_all-Follows date time (a ∷ rest) z z' r h =
      let (z1, first, h1) =
        bind_done (add_stored write_all z a.0 a.1 date time)
          (λ z1. add_all write_all date time z1 rest) z' h in
      let now = IsAdded-names (add_stored-IsAdded write_all appends z z1 a.0 a.1 date time first) in
      let (r', later) = add_all-Follows date time rest z1 z' (added a.0 a.1 date time r first) h1 in
      (
        r',
        later
            ∙ ap (λ ns. ns ++ firsts rest) now
            ∙ append_assoc (names z.entries) (a.0 ∷ []) (firsts rest),
      )

  -- A package that is filled has the entries of the source and then those added, by their names and
  -- in their order, and each has its local header at its offset and its payload in the package.
  pub fill_package-names :
      (len : ℕ) (es : List CentralEntry) (added' : List (Bytes × Bytes)) (date time : ℕ)
      (z' : ZipWriter)
      → fill_package write_all read len es added' date time ≡ done z'
      → (names z'.entries ≡ names es ++ firsts added') × IsSound z'
  unfolding fill_package
  fill_package-names len es added' date time z' h =
      let (z1, first, h1) =
        bind_done (copy_all write_all read len new_writer es)
          (λ z1. add_all write_all date time z1 added') z' h in
      let (r1, now) = copy_all-Follows len es new_writer z1 nothing_yet first in
      let (r2, later) = add_all-Follows date time added' z1 z' r1 h1 in
      (later ∙ ap (λ ns. ns ++ firsts added') now, Reached-IsSound write_all appends r2)
