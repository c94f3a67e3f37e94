-- ===== src/Dmap/Forest.antt =====
-- What DMAP bytes stand for: a forest of tags, its encoding, and the visits that it calls for.
use perun.Base.{ℕ, suc, ◌<◌, ◌^◌, ◌≡◌, true, false, none, List, [], ◌∷◌, ◌++◌, length, all, Bytes}
use Prim.Native.Nat.{max}
use perun.Dmap.{Outcome, and_then, is_container, is_printable, tag_bytes}

-- A leaf has a payload, a branch has children; the last argument is the rest of the forest.
pub data Forest : Type 0 where
  nil : Forest
  leaf : Bytes → Bytes → Forest → Forest
  branch : Bytes → Forest → Forest → Forest

abbrev pub encode : Forest → Bytes
encode nil = []
encode (leaf t p more) = tag_bytes t p ++ encode more
encode (branch t f more) = tag_bytes t (encode f) ++ encode more

-- The visits in order: a container before its children.
abbrev pub visits : Forest → List (Bytes × Bytes)
visits nil = []
visits (leaf t p more) = (t, p) ∷ visits more
visits (branch t f more) = (t, encode f) ∷ (visits f ++ visits more)

abbrev pub height : Forest → ℕ
height nil = 0
height (leaf t p more) = height more
height (branch t f more) = max (suc (height f)) (height more)

pub record IsTag (t : Bytes) : Type 0 where
  pub four : length t ≡ 4
  pub printable : all is_printable t ≡ true

-- Tags are four printable bytes, containers are branches, and lengths fit in a `u32`.
abbrev pub IsProper : Forest → Type 0
IsProper nil = Unit
IsProper (leaf t p more) = IsTag t × (is_container t ≡ false) × (length p < 2 ^ 32) × IsProper more
IsProper (branch t f more) =
    IsTag t × (is_container t ≡ true) × (length (encode f) < 2 ^ 32) × IsProper f × IsProper more

-- The visitor run over a list of visits, up to its first error.
module _ {S : Type 0} (visit : S → Bytes → Bytes → Outcome S) where
  abbrev pub run_visits : List (Bytes × Bytes) → S → Outcome S
  run_visits [] s = (s, none)
  run_visits ((t, p) ∷ vs) s = and_then (visit s t p) (run_visits vs)
