-- ===== src/Dmap.antt =====
-- crates/perun-cli/src/store/dmap.rs: the tagged binary format of the purchase-history service.
-- A byte string is a list of bytes, and so is a tag. A visitor returns its state and its verdict.
pub mod Forest
pub mod RoundTrip
pub mod Fuel
pub mod Items
mod Keeps
pub mod Owned
mod Tests
use perun.Base.{
  ℕ, zero, suc, ◌+◌, ◌-◌, ◌%◌, ◌^◌, Bool, true, false, not, ◌||◌, Option, none, some, List, [], ◌∷◌,
  ◌++◌, length, take, drop, all, Bytes, codes, eq_bytes, from_be, be32_bytes, ltb, within, ◌==◌,
  if◌then◌else◌,
}

-- `out_of_fuel` is the model's own: Dmap/Fuel.antt shows that it never comes.
pub data WalkError : Type 0 where
  too_deep : WalkError
  truncated_header : ℕ → WalkError
  invalid_tag : ℕ → WalkError
  too_long : Bytes → ℕ → WalkError
  bad_integer_length : WalkError
  out_of_fuel : WalkError

-- What the visitor's captured state is, and `Err` or `Ok(())`.
abbrev pub Outcome : Type 0 → Type 0
Outcome S = S × Option WalkError

-- The `?` operator.
abbrev pub and_then : {S : Type 0} → Outcome S → (S → Outcome S) → Outcome S
and_then (s, none) f = f s
and_then (s, some e) f = (s, some e)

abbrev pub containers : List Bytes
containers =
    codes "adbs"
    ∷ codes "adsr"
    ∷ codes "aply"
    ∷ codes "avdb"
    ∷ codes "mbcl"
    ∷ codes "mccr"
    ∷ codes "mcty"
    ∷ codes "mdcl"
    ∷ codes "mlcl"
    ∷ codes "mlit"
    ∷ codes "mlog"
    ∷ codes "msrv"
    ∷ codes "mupd"
    ∷ []

is_one_of : Bytes → List Bytes → Bool
is_one_of tag [] = false
is_one_of tag (t ∷ ts) = eq_bytes tag t || is_one_of tag ts

pub is_container : Bytes → Bool
unfolding is_one_of eq_bytes
is_container tag = is_one_of tag containers

abbrev pub is_printable : ℕ → Bool
is_printable = within 0x20 0x7e

module _ {S : Type 0} (visit : S → Bytes → Bytes → Outcome S) where
  -- The loop of `walk_dmap`; `rest` is `data[offset..]`.
  pub walk_loop : ℕ → ℕ → ℕ → Bytes → S → Outcome S
  walk_loop zero depth offset rest s = (s, some out_of_fuel)
  walk_loop (suc n) depth offset rest s =
      let tag = take 4 rest in
      let len = from_be 0 (take 4 (drop 4 rest)) in
      let payload = take len (drop 8 rest) in
      let nested = λ (s1 : S).
        if ltb 16 (depth + 1) then (s1, some too_deep) else walk_loop n (depth + 1) 0 payload s1 in
      let next = λ (s2 : S). walk_loop n depth (offset + 8 + len) (drop len (drop 8 rest)) s2 in
      if length rest == 0
      then (s, none)
      else if ltb (length rest) 8
      then (s, some (truncated_header offset))
      else if not (all is_printable tag)
      then (s, some (invalid_tag offset))
      else if ltb (length rest - 8) len
      then (s, some (too_long tag len))
      else and_then
          (and_then (visit s tag payload)
            (λ s1. if is_container tag then nested s1 else (s1, none)))
          next

  -- Each turn consumes eight bytes, and a nested walk has fewer bytes: the length is fuel enough.
  pub walk_dmap : Bytes → ℕ → S → Outcome S
  walk_dmap bytes depth s =
      if ltb 16 depth then (s, some too_deep) else walk_loop (suc (length bytes)) depth 0 bytes s

-- The closure of `first_uint`.
pub uint_visit : Bytes → Option ℕ → Bytes → Bytes → Outcome (Option ℕ)
uint_visit tag (some n) t payload = (some n, none)
uint_visit tag none t payload =
    if eq_bytes t tag
    then (if length payload == 4 || length payload == 8
        then (some (from_be 0 payload), none)
        else (none, some bad_integer_length))
    else (none, none)

pub first_uint : Bytes → Bytes → Option ℕ
first_uint bytes tag = (walk_dmap (uint_visit tag) bytes 0 none).0

-- `status_ok`, less the label: `some` of a status is the error that names it.
pub data StatusError : Type 0 where
  session_expired : ℕ → StatusError
  daap_status : ℕ → StatusError

pub status_of : Option ℕ → Option StatusError
status_of none = none
status_of (some status) =
    if status == 401 || status == 403
    then some (session_expired status)
    else if not (status == 200)
    then some (daap_status status)
    else none

pub status_ok : Bytes → Option StatusError
unfolding status_of
status_ok bytes = status_of (first_uint bytes (codes "mstt"))

pub tag_bytes : Bytes → Bytes → Bytes
tag_bytes name payload = name ++ (be32_bytes (length payload % 2 ^ 32) ++ payload)

pub tag_u32 : Bytes → ℕ → Bytes
tag_u32 name value = tag_bytes name (be32_bytes value)

pub tag_u8 : Bytes → ℕ → Bytes
tag_u8 name value = tag_bytes name (value ∷ [])

-- `items_body`, with the clock's reading as its first argument.
pub items_body : ℕ → ℕ → ℕ → Bytes → Bytes
unfolding tag_u32 tag_u8
items_body now session_id revision query = tag_bytes (codes "adsr") (
    tag_u32 (codes "mstc") now
    ++ (tag_u32 (codes "mlid") session_id
        ++ (tag_u8 (codes "mikd") 2
            ++ (tag_u32 (codes "musr") revision
                ++ (tag_u32 (codes "mder") 0
                    ++ (tag_bytes (codes "mque") query ++ tag_bytes (codes "aetl") []))))))
