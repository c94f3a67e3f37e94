-- ===== src/PeImage.antt =====
-- crates/perun-core/src/image.rs: from an address in memory to an offset in the file, and the
-- bounds-checked reads.
pub mod Offsets
mod Tests
use perun.Base.{
  ℕ, ◌+◌, ◌-◌, ◌*◌, ◌^◌, Bool, not, ◌&&◌, Option, none, some, List, [], ◌∷◌, length, take, drop,
  Bytes, from_le, ltb, leb, ◌==◌, if◌then◌else◌,
}
use Prim.Native.Nat.{max}

-- The fields of `Section` that the code here reads; each is a `u32`.
pub record Section : Type 0 where
  pub virtual_address : ℕ
  pub virtual_size : ℕ
  pub size_of_raw_data : ℕ
  pub pointer_to_raw_data : ℕ

-- The body of the loop, in a section that holds the address.
pub offset_in : Section → ℕ → Option ℕ
offset_in s rva =
    let delta = rva - s.virtual_address in
    if leb s.size_of_raw_data delta
    then none
    else if ltb (s.pointer_to_raw_data + delta) (2 ^ 32)
    then some (s.pointer_to_raw_data + delta)
    else none

pub holds_rva : Section → ℕ → Bool
holds_rva s rva =
    leb s.virtual_address rva && ltb rva (s.virtual_address + max s.virtual_size s.size_of_raw_data)

pub rva_to_offset : List Section → ℕ → Option ℕ
unfolding offset_in holds_rva
rva_to_offset [] rva = none
rva_to_offset (s ∷ sections) rva =
    let rest = rva_to_offset sections rva in if holds_rva s rva then offset_in s rva else rest

-- `read_u16_at`, `read_u32_at` and `read_u64_at`, at their widths.
pub read_uint_at : ℕ → Bytes → ℕ → Option ℕ
read_uint_at width bytes off =
    if ltb (length bytes) (off + width) then none else some (from_le (take width (drop off bytes)))
