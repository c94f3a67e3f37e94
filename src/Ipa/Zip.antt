-- ===== src/Ipa/Zip.antt =====
-- The ZIP records of a package: their signatures, their errors, the entries of the central
-- directory and little-endian numbers. A `u64` offset is a number: it counts bytes of a file.
pub mod Directory
pub mod Extra
pub mod Package
pub mod Writer
use perun.Base.{
  ℕ, ◌+◌, ◌/◌, ◌%◌, ◌^◌, ◌<◌, ◌≡◌, ◌⊎◌, inl, inr, refl, Bool, Option, none, some, [], ◌∷◌, ◌++◌,
  length, take, drop, ltb, leb, Bytes, from_le, if◌then◌else◌, arith,
}
use perun.Ipa.Bits.{InflateError}

abbrev pub eocd_sig : Bytes
eocd_sig = 0x50 ∷ 0x4b ∷ 0x05 ∷ 0x06 ∷ []

abbrev pub cen_sig : Bytes
cen_sig = 0x50 ∷ 0x4b ∷ 0x01 ∷ 0x02 ∷ []

abbrev pub loc_sig : Bytes
loc_sig = 0x50 ∷ 0x4b ∷ 0x03 ∷ 0x04 ∷ []

abbrev pub zip64_eocd_sig : Bytes
zip64_eocd_sig = 0x50 ∷ 0x4b ∷ 0x06 ∷ 0x06 ∷ []

abbrev pub zip64_loc_sig : Bytes
zip64_loc_sig = 0x50 ∷ 0x4b ∷ 0x06 ∷ 0x07 ∷ []

abbrev pub zip64_extra_id : ℕ
zip64_extra_id = 0x0001

abbrev pub code_alignment : ℕ
code_alignment = 16384

abbrev pub pad_extra_id : ℕ
pad_extra_id = 0x0000

abbrev pub zip64_sub : ℕ
zip64_sub = 0xffffffff

abbrev pub zip64_sub16 : ℕ
zip64_sub16 = 0xffff

-- The date and the time of `modified` are two fields; a name is its UTF-8 bytes.
pub record CentralEntry : Type 0 where
  pub name : Bytes
  pub method : ℕ
  pub flags : ℕ
  pub crc32 : ℕ
  pub compressed_size : ℕ
  pub uncompressed_size : ℕ
  pub local_offset : ℕ
  pub external_attrs : ℕ
  pub date : ℕ
  pub time : ℕ
  pub central_extra : Bytes

pub record Eocd : Type 0 where
  pub entry_count : ℕ
  pub cd_offset : ℕ
  pub cd_size : ℕ

-- One constructor for each message; `out_of_fuel` is the model's own.
pub data ZipError : Type 0 where
  no_end_record multi_disk zip64_directory : ZipError
  truncated_directory bad_directory_signature truncated_name : ZipError
  local_out_of_range header_too_short unexpected_end read_failed write_failed out_of_fuel : ZipError
  local_extra_too_long name_too_long central_extra_too_long : ZipError
  entry_header_out_of_range entry_data_out_of_range : ZipError
  bad_local_signature : Bytes → ZipError
  request_failed no_info_plist remote_header_malformed inflate_panicked : ZipError
  unsupported_method bad_status : ℕ → ZipError
  inflate_failed : InflateError → ZipError

pub data Zipped {ℓ} (A : Type ℓ) : Type ℓ where
  done : A → Zipped A
  failed : ZipError → Zipped A

-- To split on a result and keep the equation.
pub Zipped-cases {ℓ} :
    {A : Type ℓ} (r : Zipped A) → ((e : ZipError) × (r ≡ failed e)) ⊎ ((a : A) × (r ≡ done a))
Zipped-cases (done a) = inr (a, refl)
Zipped-cases (failed e) = inl (e, refl)

infixl 5 ◌>>=◌
abbrev pub ◌>>=◌ {ℓ κ} : {A : Type ℓ} {B : Type κ} → Zipped A → (A → Zipped B) → Zipped B
done a >>= f = f a
failed e >>= f = failed e

-- A chain that ends in a result has one at each link.
pub bind_done {ℓ κ} :
    {A : Type ℓ} {B : Type κ} (r : Zipped A) (f : A → Zipped B) (b : B)
    → (r >>= f) ≡ done b
    → (a : A) × (r ≡ done a) × (f a ≡ done b)
bind_done (done a) f b h = (a, refl, h)
bind_done (failed e) f b h = cc

-- `u16::from_le_bytes` and `u32::from_le_bytes` of the bytes at `o`; every caller has checked the
-- length first.
abbrev pub u16_at : Bytes → ℕ → ℕ
u16_at d o = from_le (take 2 (drop o d))

abbrev pub u32_at : Bytes → ℕ → ℕ
u32_at d o = from_le (take 4 (drop o d))

-- `to_le_bytes` at the three widths, of a number cut to the width.
abbrev pub le16 : ℕ → Bytes
le16 n = (n % 256) ∷ (n / 2 ^ 8 % 256) ∷ []

abbrev pub le32 : ℕ → Bytes
le32 n = (n % 256) ∷ (n / 2 ^ 8 % 256) ∷ (n / 2 ^ 16 % 256) ∷ (n / 2 ^ 24 % 256) ∷ []

abbrev pub le64 : ℕ → Bytes
le64 n = le32 n ++ le32 (n / 2 ^ 32)

pub from_le-le16 : (n : ℕ) → n < 2 ^ 16 → from_le (le16 n) ≡ n
from_le-le16 n h = omega arith

pub from_le-le32 : (n : ℕ) → n < 2 ^ 32 → from_le (le32 n) ≡ n
from_le-le32 n h = omega arith

-- `get(lo..lo + n)`
abbrev pub get_range : Bytes → ℕ → ℕ → Option Bytes
get_range d lo n = if ltb (length d) (lo + n) then none else some (take n (drop lo d))

-- Whether a size or an offset has no place in 32 bits.
abbrev pub is_large : ℕ → Bool
is_large n = leb zip64_sub n
