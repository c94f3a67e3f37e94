-- ===== src/Ipa/Zip/Package.antt =====
-- `Pkg`: the source package, read through the file. `read off want` stands for one read of the
-- system: what it gave, or nothing when it failed.
pub mod Reads
use perun.Base.{
  ℕ, zero, suc, ◌+◌, ◌-◌, ◌*◌, min, Bool, true, false, not, Option, none, some, [], ◌∷◌, ◌++◌,
  length, take, drop, Bytes, eq_bytes, ltb, ◌==◌, if◌then◌else◌,
}
use perun.Ipa.Bits.{Outcome}
use perun.Ipa.Inflate.{inflate}
use perun.Ipa.Zip.{
  loc_sig, CentralEntry, local_out_of_range, bad_local_signature, unexpected_end, read_failed,
  write_failed, out_of_fuel, Zipped, done, failed, ◌>>=◌, u16_at,
}

abbrev pub copy_buffer : ℕ
copy_buffer = 512 * 1024

-- Where the payload starts, by the thirty bytes of a local header at `off`.
abbrev pub span_of : CentralEntry → Bytes → Zipped (ℕ × ℕ)
span_of entry h =
    if not (eq_bytes (take 4 h) loc_sig)
    then failed (bad_local_signature entry.name)
    else done (entry.local_offset + 30 + u16_at h 26 + u16_at h 28, entry.compressed_size)

-- `local_span`, over a whole archive in memory.
unfoldable pub local_span : Bytes → CentralEntry → Zipped (ℕ × ℕ)
local_span data' entry =
    let off = entry.local_offset in
    if ltb (length data') (off + 30)
    then failed local_out_of_range
    else span_of entry (take 30 (drop off data'))

unfoldable pub decompress_bytes : Bytes → CentralEntry → Outcome Bytes
decompress_bytes body entry = if entry.method == 0 then Outcome.done body else inflate body

module _ (read : ℕ → ℕ → Option Bytes) where
  -- The loop of `read_at`, with `left` bytes to come from `off` on.
  unfoldable pub read_loop : ℕ → ℕ → ℕ → Zipped Bytes
  read_loop n off zero = done []
  read_loop zero off (suc left) = failed out_of_fuel
  read_loop (suc n) off (suc left) = elim (read off (suc left)) [
    | none ↦ failed read_failed
    | some [] ↦ failed unexpected_end
    | some (b ∷ bs) ↦
        let got = b ∷ bs in
        read_loop n (off + length got) (suc left - length got) >>= λ rest. done (got ++ rest)
  ]

  unfoldable pub read_at : ℕ → ℕ → Zipped Bytes
  read_at off len = read_loop len off len

  unfoldable pub local_span_file : ℕ → CentralEntry → Zipped (ℕ × ℕ)
  unfolding read_at
  local_span_file pkg_len entry =
      let off = entry.local_offset in
      if ltb pkg_len (off + 30)
      then failed local_out_of_range
      else (read_at off 30 >>= λ h. span_of entry h)

  -- The loop of `copy_range_to`: it gives what the sink holds at the end. The seek in front of the
  -- loop is taken to succeed.
  module _ (write_all : Bytes → Bytes → Option Bytes) where
    unfoldable pub copy_loop : ℕ → ℕ → ℕ → Bytes → Zipped Bytes
    copy_loop n off zero out = done out
    copy_loop zero off (suc left) out = failed out_of_fuel
    copy_loop (suc n) off (suc left) out = elim (read off (min (suc left) copy_buffer)) [
      | none ↦ failed read_failed
      | some [] ↦ failed unexpected_end
      | some (b ∷ bs) ↦ elim (write_all out (b ∷ bs)) [
        | none ↦ failed write_failed
        | some out' ↦ copy_loop n (off + length (b ∷ bs)) (suc left - length (b ∷ bs)) out'
      ]
    ]

    unfoldable pub copy_range_to : ℕ → ℕ → Bytes → Zipped Bytes
    copy_range_to off len out = copy_loop len off len out
