-- ===== src/Sha256/Tests.antt =====
-- The digests of the FIPS vectors, run in the model.
use mathlib.Core.List.{foldl}
use perun.Base.{◌≡◌, refl, some, List, [], ◌∷◌, ◌++◌, Bytes, codes, be32_bytes, arith}
use perun.Sha256.Compress.{compress}
use perun.Sha256.{new, initial_words, words_bytes, update, pad_loop, finish_state, finish}
use perun.Sha256.Stream.{IsValid}
use perun.Sha256.Padding.{update_all, padded, finish-update_all}

finish_abc :
    finish (update new (codes "abc"))
    ≡ some (
        be32_bytes 0xba7816bf
        ++ be32_bytes 0x8f01cfea
        ++ be32_bytes 0x414140de
        ++ be32_bytes 0x5dae2223
        ++ be32_bytes 0xb00361a3
        ++ be32_bytes 0x96177a9c
        ++ be32_bytes 0xb410ff61
        ++ be32_bytes 0xf20015ad)
unfolding finish finish_state pad_loop update compress
finish_abc = refl

abbrev abc_pieces : List Bytes
abc_pieces = codes "a" ∷ codes "bc" ∷ []

finish-update_all_example :
    finish (update_all new abc_pieces)
    ≡ some (words_bytes (foldl compress initial_words (padded (codes "abc") ∷ [])))
finish-update_all_example = finish-update_all abc_pieces (padded (codes "abc") ∷ []) (refl, tt) refl

new-IsValid : IsValid new
new-IsValid = omega arith
