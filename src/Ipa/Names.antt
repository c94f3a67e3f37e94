-- ===== src/Ipa/Names.antt =====
-- The names of the entries: which are executables and which is the property list of the app. A name
-- is its UTF-8 bytes; the separators are ASCII.
use perun.Base.{
  ℕ, Bool, false, not, ◌&&◌, ◌||◌, Option, none, some, [], ◌∷◌, Bytes, codes, eq_bytes, ◌==◌,
  if◌then◌else◌,
}
use perun.CookieJar.Strings.{is_empty, starts_with, ends_with, split}

unfoldable pub rsplit_once : ℕ → Bytes → Option (Bytes × Bytes)
rsplit_once sep [] = none
rsplit_once sep (c ∷ cs) = elim (rsplit_once sep cs) [
  | some r ↦ some (c ∷ r.0, r.1)
  | none ↦ if c == sep then some ([], cs) else none
]

-- `rsplit(sep).next()`
unfoldable pub last_part : ℕ → Bytes → Bytes
unfolding rsplit_once
last_part sep s = elim (rsplit_once sep s) [ none ↦ s | some r ↦ r.1 ]

unfoldable pub is_executable_macho : Bytes → Bool
unfolding last_part
is_executable_macho name =
    if is_empty name || (ends_with name (codes "/") || not (starts_with name (codes "Payload/")))
    then false
    else elim (rsplit_once b'/' name) [
      | none ↦ false
      | some (parent, file) ↦ elim (rsplit_once b'.' (last_part b'/' parent)) [
        | none ↦ false
        | some (stem, ext) ↦
            (eq_bytes ext (codes "app")
              || (eq_bytes ext (codes "framework") || eq_bytes ext (codes "appex")))
            && (eq_bytes file stem && not (is_empty stem))
      ]
    ]

unfoldable pub is_main_app_info_plist : Bytes → Bool
is_main_app_info_plist name = elim (split b'/' name) [
  | root ∷ bundle ∷ file ∷ [] ↦
      eq_bytes root (codes "Payload")
      && (ends_with bundle (codes ".app") && eq_bytes file (codes "Info.plist"))
  | _ ↦ false
]
