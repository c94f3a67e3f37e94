-- ===== src/PeImage/Offsets.antt =====
-- Where the offset of an address lies.
use perun.Base.{
  ℕ, suc, ◌+◌, ◌-◌, ◌^◌, ◌≤◌, ◌<◌, ◌≡◌, refl, inl, inr, true, false, some, List, [], ◌∷◌, get_elem?,
  take, All, Bool-cases, arith,
}
use perun.PeImage.{Section, offset_in, holds_rva, rva_to_offset}

-- The section at index `i` is the first that holds the address, and the offset is as far from the
-- start of its data in the file as the address is from its start in memory, inside that data.
pub record IsBacked (sections : List Section) (rva off : ℕ) : Type 0 where
  pub i : ℕ
  pub section : Section
  pub there : get_elem? sections i ≡ some section
  pub first : All (λ s. holds_rva s rva ≡ false) (take i sections)
  pub above : section.virtual_address ≤ rva
  pub offset : off ≡ section.pointer_to_raw_data + (rva - section.virtual_address)
  pub inside : off < section.pointer_to_raw_data + section.size_of_raw_data
  pub in_range : off < 2 ^ 32

offset_in-lies :
    (s : Section) (rva off : ℕ)
    → offset_in s rva ≡ some off
    → (off ≡ s.pointer_to_raw_data + (rva - s.virtual_address))
      × (off < s.pointer_to_raw_data + s.size_of_raw_data)
      × (off < 2 ^ 32)
unfolding offset_in
offset_in-lies s rva off h = (ground (arith, h), ground (arith, h), ground (arith, h))

holds_rva-above : (s : Section) (rva : ℕ) → holds_rva s rva ≡ true → s.virtual_address ≤ rva
unfolding holds_rva
holds_rva-above s rva h = ground (arith, h)

-- An offset that `rva_to_offset` returns lies in the file data of the first section that holds the
-- address, as deep as the address lies in the section, and below 2 ^ 32.
pub rva_to_offset-IsBacked :
    (sections : List Section) (rva off : ℕ)
    → rva_to_offset sections rva ≡ some off
    → IsBacked sections rva off
unfolding rva_to_offset
rva_to_offset-IsBacked [] rva off h = cc
rva_to_offset-IsBacked (s ∷ sections) rva off h = elim (Bool-cases (holds_rva s rva)) [
  | inl here ↦
      let (offset, inside, in_range) = offset_in-lies s rva off (ground (arith, h, here)) in
      record {
        i = 0;
        section = s;
        there = refl;
        first = tt;
        above = holds_rva-above s rva here;
        offset = offset;
        inside = inside;
        in_range = in_range;
      }
  | inr other ↦
      let later = rva_to_offset-IsBacked sections rva off (ground (arith, h, other)) in
      record {
        i = suc later.i;
        section = later.section;
        there = later.there;
        first = (other, later.first);
        above = later.above;
        offset = later.offset;
        inside = later.inside;
        in_range = later.in_range;
      }
]
