-- ===== src/PeImage/Tests.antt =====
-- Addresses in a small section table.
use perun.Base.{◌≡◌, refl, some, none, List, [], ◌∷◌}
use perun.PeImage.{Section, rva_to_offset}
use perun.PeImage.Offsets.{IsBacked, rva_to_offset-IsBacked}

abbrev table : List Section
table =
    record {
      virtual_address = 0x1000;
      virtual_size = 0x300;
      size_of_raw_data = 0x200;
      pointer_to_raw_data = 0x400;
    }
    ∷ record {
      virtual_address = 0x2000;
      virtual_size = 0x10;
      size_of_raw_data = 0x200;
      pointer_to_raw_data = 0x600;
    }
    ∷ []

in_second : rva_to_offset table 0x2010 ≡ some 0x610
unfolding rva_to_offset
in_second = refl

in_bss : rva_to_offset table 0x1250 ≡ none
unfolding rva_to_offset
in_bss = refl

rva_to_offset-IsBacked_example : IsBacked table 0x2010 0x610
rva_to_offset-IsBacked_example = rva_to_offset-IsBacked table 0x2010 0x610 in_second
