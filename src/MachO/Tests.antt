-- ===== src/MachO/Tests.antt =====
-- A rebase stream decoded, the two ways out of a short fat file, and the theorems at concrete bytes.
use perun.Base.{◌+◌, ◌≡◌, ◌≢◌, refl, true, false, none, [], ◌∷◌, ◌++◌, length, drop, Bytes, arith}
use perun.MachO.{
  out_of_fuel, panicked, done, failed, read_uleb, x86_slice, decode_stream, decode_loop, step,
  rebase_op, with_uleb, push_times,
}
use perun.MachO.Fuel.{decode_stream-out_of_fuel}
use perun.MachO.Leb.{uleb_bytes, read_uleb-bytes}

abbrev same : Bytes → Bytes
same bytes = bytes

abbrev rebases : Bytes
rebases = 0x11 ∷ 0x22 ∷ 0x90 ∷ 0x01 ∷ 0x52 ∷ 0x00 ∷ []

rebases_decoded :
    decode_stream same rebases 0 6 false false []
    ≡ done (record {
      out = (2, 0x90, none) ∷ (2, 0x98, none) ∷ [];
      p = 6;
      seg_idx = 2;
      cursor = 0xa0;
      addend = 0;
      ended = true;
      symbol = [];
    })
unfolding decode_stream decode_loop step rebase_op with_uleb push_times
rebases_decoded = refl

short_fat : x86_slice (0xca ∷ 0xfe ∷ 0xba ∷ 0xbe ∷ []) ≡ failed panicked
unfolding x86_slice
short_fat = refl

decode_stream-out_of_fuel_example :
    decode_stream same rebases 0 6 false false [] ≢ failed out_of_fuel
decode_stream-out_of_fuel_example = decode_stream-out_of_fuel same rebases 0 6 false false []

uleb_there : drop 1 (0x11 ∷ 0xe5 ∷ 0x8e ∷ 0x26 ∷ 0x07 ∷ []) ≡ uleb_bytes 10 624485 ++ 0x07 ∷ []
unfolding uleb_bytes
uleb_there = refl

read_uleb-bytes_example :
    read_uleb (0x11 ∷ 0xe5 ∷ 0x8e ∷ 0x26 ∷ 0x07 ∷ []) 1
    ≡ done (624485, 1 + length (uleb_bytes 10 624485))
read_uleb-bytes_example =
    read_uleb-bytes (0x11 ∷ 0xe5 ∷ 0x8e ∷ 0x26 ∷ 0x07 ∷ []) 624485 1 (0x07 ∷ []) (omega arith)
      uleb_there
