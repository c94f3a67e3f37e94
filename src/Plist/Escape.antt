-- ===== src/Plist/Escape.antt =====
-- `xml_escape` and `xml_unescape`, over the bytes of the text.
pub mod RoundTrip
use perun.Base.{ℕ, zero, suc, ◌-◌, true, false, List, [], ◌∷◌, ◌++◌, length, Bytes, codes}
use perun.Base.{starts_with}

-- `str::replace` behind the next `n` bytes, which a match has taken.
unfoldable pub replace_from : Bytes → Bytes → ℕ → Bytes → Bytes
unfolding starts_with
replace_from pattern to n [] = []
replace_from pattern to (suc n) (b ∷ bs) = replace_from pattern to n bs
replace_from pattern to zero (b ∷ bs) = elim (starts_with (b ∷ bs) pattern) [
  | true ↦ to ++ replace_from pattern to (length pattern - 1) bs
  | false ↦ b ∷ replace_from pattern to 0 bs
]

abbrev pub replace : Bytes → Bytes → Bytes → Bytes
replace text pattern to = replace_from pattern to 0 text

pub xml_escape : Bytes → Bytes
unfolding replace_from
xml_escape s =
    replace
      (replace (replace (replace s (codes "&") (codes "&amp;")) (codes "<") (codes "&lt;"))
        (codes ">") (codes "&gt;"))
      (codes "\"") (codes "&quot;")

pub xml_unescape : Bytes → Bytes
unfolding replace_from
xml_unescape s =
    replace
      (replace
        (replace
          (replace (replace (replace s (codes "&lt;") (codes "<")) (codes "&gt;") (codes ">"))
            (codes "&quot;") (codes "\""))
          (codes "&#39;") (codes "'"))
        (codes "&apos;") (codes "'"))
      (codes "&amp;") (codes "&")
