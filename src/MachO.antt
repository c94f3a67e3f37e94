-- ===== src/MachO.antt =====
-- crates/perun-core/src/macho.rs: the bounds-checked reads, LEB128, the slice of a fat container and
-- the decoder of the rebase and bind streams. A `u64` is a number below 2 ^ 64 and an `i64` is its
-- two's complement pattern; arithmetic wraps, as in a release build.
pub mod Fuel
pub mod Leb
mod Tests
use perun.Base.{
  ℕ, zero, suc, ◌+◌, ◌-◌, ◌*◌, ◌/◌, ◌%◌, ◌^◌, bit_or, Bool, true, false, not, ◌&&◌, ◌||◌, Option,
  none, some, List, [], ◌∷◌, ◌++◌, length, take, drop, get_elem?, Bytes, from_be, from_le, ltb, leb,
  ◌==◌, if◌then◌else◌,
}

-- `panicked` is an index out of range.
pub data MachError : Type 0 where
  no_x86_slice : MachError
  truncated : MachError
  unsupported_rebase : ℕ → MachError
  unsupported_bind : ℕ → MachError
  panicked : MachError
  out_of_fuel : MachError

pub data Checked {ℓ} (A : Type ℓ) : Type ℓ where
  done : A → Checked A
  failed : MachError → Checked A

infixl 5 ◌>>=◌
abbrev pub ◌>>=◌ {ℓ κ} : {A : Type ℓ} {B : Type κ} → Checked A → (A → Checked B) → Checked B
done a >>= f = f a
failed e >>= f = failed e

-- `u16_at`, `u32_at` and `u64_at`, at their widths.
pub uint_at : ℕ → Bytes → ℕ → Checked ℕ
uint_at width d off =
    if ltb (length d) (off + width)
    then failed truncated
    else done (from_le (take width (drop off d)))

-- The loop of `read_uleb`; the shift passes 63 within ten turns.
pub uleb_loop : ℕ → Bytes → ℕ → ℕ → ℕ → Checked (ℕ × ℕ)
uleb_loop zero d p result shift = failed out_of_fuel
uleb_loop (suc n) d p result shift = elim (get_elem? d p) [
  | none ↦ failed truncated
  | some b ↦
      let added = bit_or result (b % 128 * 2 ^ shift % 2 ^ 64) in
      let more = uleb_loop n d (p + 1) added (shift + 7) in
      if ltb b 128
      then done (added, p + 1)
      else if ltb 63 (shift + 7)
      then failed truncated
      else more
]

pub read_uleb : Bytes → ℕ → Checked (ℕ × ℕ)
read_uleb d p = uleb_loop 10 d p 0 0

pub sleb_loop : ℕ → Bytes → ℕ → ℕ → ℕ → Checked (ℕ × ℕ)
sleb_loop zero d p result shift = failed out_of_fuel
sleb_loop (suc n) d p result shift = elim (get_elem? d p) [
  | none ↦ failed truncated
  | some b ↦
      let added = bit_or result (b % 128 * 2 ^ shift % 2 ^ 64) in
      let more = sleb_loop n d (p + 1) added (shift + 7) in
      if ltb b 128
      then done (
        if not (ltb b 64) && ltb (shift + 7) 64
            then bit_or added (2 ^ 64 - 2 ^ (shift + 7))
            else added,
        p + 1,
      )
      else if ltb 63 (shift + 7)
      then failed truncated
      else more
]

pub read_sleb : Bytes → ℕ → Checked (ℕ × ℕ)
unfolding sleb_loop
read_sleb d p = sleb_loop 10 d p 0 0

-- The bytes up to the next zero.
pub before_nul : Bytes → Option Bytes
before_nul [] = none
before_nul (b ∷ bs) =
    let rest = before_nul bs in
    if b == 0 then some [] else elim rest [ none ↦ none | some name ↦ some (b ∷ name) ]

-- The loop over the architectures of a fat container, from index `i`, with `n` left.
pub x86_loop : ℕ → ℕ → Bytes → Checked Bytes
x86_loop zero i input = failed no_x86_slice
x86_loop (suc n) i input =
    let rec_bytes = take 20 (drop (8 + i * 20) input) in
    let cputype = from_be 0 (take 4 rec_bytes) in
    let offset = from_be 0 (take 4 (drop 8 rec_bytes)) in
    let size = from_be 0 (take 4 (drop 12 rec_bytes)) in
    let rest = x86_loop n (i + 1) input in
    if cputype == 0x01000007
    then (if ltb (length input) (offset + size)
        then failed truncated
        else done (take size (drop offset input)))
    else rest

-- A file of four to seven bytes that begins with the fat magic is indexed out of range.
pub x86_slice : Bytes → Checked Bytes
unfolding x86_loop
x86_slice input =
    let narch = from_be 0 (take 4 (drop 4 input)) in
    if ltb (length input) 4
    then failed truncated
    else if from_be 0 (take 4 input) == 0xcafebabe
    then (if ltb (length input) 8
        then failed panicked
        else if ltb (length input) (8 + narch * 20)
        then failed truncated
        else x86_loop narch 0 input)
    else done input

-- `StreamEntry`
abbrev pub Entry : Type 0
Entry = ℕ × ℕ × Option (Bytes × ℕ)

-- The variables of `decode_stream`, and `STREAM_SYMBOL`.
pub record Stream : Type 0 where
  pub out : List Entry
  pub p : ℕ
  pub seg_idx : ℕ
  pub cursor : ℕ
  pub addend : ℕ
  pub ended : Bool
  pub symbol : Bytes

abbrev pub push : Option (Bytes × ℕ) → Stream → Stream
push bind s = record s { out = s.out ++ (s.seg_idx, s.cursor, bind) ∷ [] }

abbrev pub advance : ℕ → Stream → Stream
advance by s = record s { cursor = (s.cursor + by) % 2 ^ 64 }

pub push_times : ℕ → ℕ → Option (Bytes × ℕ) → Stream → Stream
push_times zero by bind s = s
push_times (suc n) by bind s = push_times n by bind (advance by (push bind s))

-- `String::from_utf8_lossy` is `lossy`; `s` is the stream's bytes.
module _ (lossy : Bytes → Bytes) (bytes : Bytes) where
  pub with_uleb : Stream → (ℕ → Stream → Checked Stream) → Checked Stream
  unfolding read_uleb uleb_loop
  with_uleb s f = read_uleb bytes s.p >>= λ r. f r.0 (record s { p = r.1 })

  -- The arms of the rebase stream.
  pub rebase_op : ℕ → ℕ → Stream → Checked Stream
  unfolding push_times
  rebase_op opcode imm s =
      if opcode == 0x1
      then (if imm == 1 then done s else failed (unsupported_rebase imm))
      else if opcode == 0x2
      then with_uleb s (λ v s1. done (record s1 { seg_idx = imm; cursor = v }))
      else if opcode == 0x3
      then with_uleb s (λ v s1. done (advance v s1))
      else if opcode == 0x4
      then done (advance (8 * imm) s)
      else if opcode == 0x5
      then done (push_times imm 8 none s)
      else if opcode == 0x6
      then with_uleb s (λ times s1. done (push_times times 8 none s1))
      else if opcode == 0x7
      then with_uleb (push none s) (λ v s1. done (advance (v + 8) s1))
      else if opcode == 0x8
      then with_uleb s
          (λ times s1. with_uleb s1 (λ skip s2. done (push_times times (skip + 8) none s2)))
      else failed (unsupported_rebase (16 * opcode))

  -- The arms of the bind stream.
  pub bind_op : ℕ → ℕ → Stream → Checked Stream
  unfolding push_times read_sleb before_nul
  bind_op opcode imm s =
      let target = some (s.symbol, s.addend) in
      if (opcode == 0x1) || (opcode == 0x3)
      then done s
      else if opcode == 0x2
      then with_uleb s (λ v s1. done s1)
      else if opcode == 0x4
      then elim (before_nul (drop s.p bytes)) [
        | none ↦ failed truncated
        | some name ↦ done (record s { p = s.p + length (lossy name) + 1; symbol = lossy name })
      ]
      else if opcode == 0x5
      then (if (imm == 1) || (imm == 0) then done s else failed (unsupported_bind imm))
      else if opcode == 0x6
      then (read_sleb bytes s.p >>= λ r. done (record s { addend = r.0; p = r.1 }))
      else if opcode == 0x7
      then with_uleb s (λ v s1. done (record s1 { seg_idx = imm; cursor = v }))
      else if opcode == 0x8
      then with_uleb s (λ v s1. done (advance v s1))
      else if opcode == 0x9
      then done (advance 8 (push target s))
      else if opcode == 0xa
      then with_uleb (push target s) (λ v s1. done (advance (v + 8) s1))
      else if opcode == 0xb
      then done (advance (8 * (imm + 1)) (push target s))
      else if opcode == 0xc
      then with_uleb s
          (λ times s1. with_uleb s1 (λ skip s2. done (push_times times (skip + 8) target s2)))
      else failed (unsupported_bind (16 * opcode))

  -- `DONE`: the end, or in the lazy stream the end of a record.
  pub end_op : Bool → Stream → Stream
  end_op is_lazy s =
      if is_lazy
      then record s { seg_idx = 0; cursor = 0; addend = 0; symbol = [] }
      else record s { ended = true }

  pub step : Bool → Bool → ℕ → Stream → Checked Stream
  unfolding rebase_op bind_op end_op
  step binds is_lazy op s =
      if op / 16 == 0
      then done (end_op is_lazy s)
      else if binds
      then bind_op (op / 16) (op % 16) s
      else rebase_op (op / 16) (op % 16) s

  pub decode_loop : ℕ → Bool → Bool → Stream → Checked Stream
  decode_loop zero binds is_lazy s = failed out_of_fuel
  decode_loop (suc n) binds is_lazy s = if s.ended then done s else elim (get_elem? bytes s.p) [
    | none ↦ done s
    | some op ↦ step binds is_lazy op (record s { p = s.p + 1 }) >>= decode_loop n binds is_lazy
  ]

abbrev pub fresh : Bytes → Stream
fresh symbol = record {
  out = [];
  p = 0;
  seg_idx = 0;
  cursor = 0;
  addend = 0;
  ended = false;
  symbol = symbol;
}

-- `decode_stream`, from the symbol that the last stream left. Every turn takes a byte.
pub decode_stream : (Bytes → Bytes) → Bytes → ℕ → ℕ → Bool → Bool → Bytes → Checked Stream
decode_stream lossy d off size binds is_lazy symbol =
    let s = take size (drop off d) in
    if ltb (length d) (off + size)
    then failed truncated
    else decode_loop lossy s (suc (length s)) binds is_lazy (fresh symbol)
