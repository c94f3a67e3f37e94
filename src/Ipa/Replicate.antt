-- ===== src/Ipa/Replicate.antt =====
-- `replicate_to` between the reads and the flush: every entry of the source is copied, the metadata,
-- the artwork and the receipts are added, and the package is completed.
pub mod Entry
pub mod Filled
pub mod Names
pub mod Written
use perun.Base.{
  ℕ, not, ◌&&◌, true, false, Bool, Option, none, some, List, [], ◌∷◌, ◌++◌, length, drop, take,
  Bytes, codes, ◌-◌, if◌then◌else◌,
}
use perun.CookieJar.Strings.{is_empty, ends_with, split_once_str}
use perun.Ipa.Names.{last_part}
use perun.Ipa.Sinf.{placements}
use perun.Ipa.Zip.{CentralEntry, Zipped, done, ◌>>=◌}
use perun.Ipa.Zip.Writer.{ZipWriter, new_writer, finish_zip}
use perun.Ipa.Zip.Writer.Entries.{copy_raw_from_file, add_stored}

abbrev pub contains : Bytes → Bytes → Bool
contains pattern s = elim (split_once_str pattern s) [ none ↦ false | some r ↦ true ]

abbrev pub info_suffix : Bytes
info_suffix = codes ".app/Info.plist"

-- The name of the main bundle: that of the first entry that is the property list of one.
unfoldable pub bundle_name : List CentralEntry → Option Bytes
bundle_name [] = none
bundle_name (e ∷ es) =
    let rest = bundle_name es in
    let stem = length e.name - length info_suffix in
    if ends_with e.name info_suffix && not (contains (codes "/Watch/") e.name)
    then some (last_part b'/' (take stem e.name))
    else rest

-- The receipts that are not empty.
abbrev pub nonempty : List Bytes → List Bytes
nonempty [] = []
nonempty (d ∷ ds) = if is_empty d then nonempty ds else d ∷ nonempty ds

-- The entries that are added, in their order.
unfoldable pub additions :
    Bytes → Option Bytes → Bytes → List Bytes → List Bytes → List (Bytes × Bytes)
additions itunes_meta artwork fallback paths sinfs =
    (codes "iTunesMetadata.plist", itunes_meta)
    ∷ (elim artwork [ none ↦ [] | some a ↦ (codes "iTunesArtwork", a) ∷ [] ]
        ++ placements fallback paths (nonempty sinfs))

module _ (write_all : Bytes → Bytes → Option Bytes) where
  unfoldable pub copy_all :
      (ℕ → ℕ → Option Bytes) → ℕ → ZipWriter → List CentralEntry → Zipped ZipWriter
  copy_all read len z [] = done z
  copy_all read len z (e ∷ es) =
      copy_raw_from_file write_all read len z e >>= λ z'. copy_all read len z' es

  unfoldable pub add_all : ℕ → ℕ → ZipWriter → List (Bytes × Bytes) → Zipped ZipWriter
  add_all date time z [] = done z
  add_all date time z (a ∷ rest) =
      add_stored write_all z a.0 a.1 date time >>= λ z'. add_all date time z' rest

  -- The package before `finish`, and behind it.
  unfoldable pub fill_package :
      (ℕ → ℕ → Option Bytes)
      → ℕ
      → List CentralEntry
      → List (Bytes × Bytes)
      → ℕ
      → ℕ
      → Zipped ZipWriter
  fill_package read len entries added date time =
      copy_all read len new_writer entries >>= λ z. add_all date time z added

  unfoldable pub write_package :
      (ℕ → ℕ → Option Bytes)
      → ℕ
      → List CentralEntry
      → List (Bytes × Bytes)
      → ℕ
      → ℕ
      → Zipped ZipWriter
  write_package read len entries added date time =
      fill_package read len entries added date time >>= λ z. finish_zip write_all z
