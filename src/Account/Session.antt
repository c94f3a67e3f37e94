-- ===== src/Account/Session.antt =====
-- The session store of account.rs over the three files of the state directory. What the system answers
-- is an argument: whether there is a state directory, the machine's id, the random bytes, and how each
-- write and removal ends. A file that is `none` cannot be read.
pub mod Sidecar
pub mod RoundTrip
use perun.Base.{
  ℕ, Bool, true, false, not, ◌&&◌, Option, none, some, List, [], ◌∷◌, ◌++◌, Bytes, codes,
  if◌then◌else◌,
}
use perun.Base.Utf8.{is_utf8}
use perun.Json.{JsonError, Result, ok, err}
use perun.Account.{Account, to_json, from_json}
use perun.Account.Vault.{VaultError, Opened, opened, refused, encrypt, decrypt}
use Sidecar.{trim}

pub record Disk : Type 0 where
  pub account : Option Bytes
  pub storefront : Option Bytes
  pub cookies : Option Bytes

-- How creating the directory and `fs::write` end: the directory cannot be made, the write stops and
-- leaves something behind, or the file is written.
pub data Write : Type 0 where
  no_directory : Write
  torn : Option Bytes → Write
  written : Write

pub data SessionError : Type 0 where
  no_state_dir not_logged_in create_state_dir write_failed : SessionError
  vault : VaultError → SessionError
  json : JsonError → SessionError

pub data Loaded : Type 0 where
  loaded : Account → Loaded
  failed : SessionError → Loaded

-- What a file holds after a write, and the error of the write.
abbrev write_file : Write → Option Bytes → Bytes → Option Bytes × Option SessionError
write_file no_directory old bytes = (old, some create_state_dir)
write_file (torn left) old bytes = (left, some write_failed)
write_file written old bytes = (some bytes, none)

abbrev is_nil : Bytes → Bool
is_nil [] = true
is_nil (b ∷ bs) = false

-- `state_dir` and `machine_id`, the same in every call of a run.
pub record Machine : Type 0 where
  pub has_dir : Bool
  pub id : Bytes

unfoldable pub save_storefront : Machine → Write → Account → Disk → Disk × Option SessionError
save_storefront m call a disk =
    let done = write_file call disk.storefront (a.store_front ++ codes "\n") in
    if is_nil a.store_front
    then (disk, none)
    else if not m.has_dir
    then (disk, some no_state_dir)
    else (record disk { storefront = done.0 }, done.1)

-- The system's answers to a call of `save`.
pub record SaveCalls : Type 0 where
  pub salt_source : Bytes
  pub iv_source : Bytes
  pub write_account : Write
  pub write_sidecar : Write

-- `save` from the write of the vault on, which fails or is followed by that of the sidecar.
abbrev after_write :
    Machine
    → Write
    → Account
    → Disk
    → Option Bytes × Option SessionError
    → Disk × Option SessionError
after_write m call a disk (kept, some e) = (record disk { account = kept }, some e)
after_write m call a disk (kept, none) =
    ((save_storefront m call a (record disk { account = kept })).0, none)

unfoldable pub save : Machine → SaveCalls → Account → Bytes → Disk → Disk × Option SessionError
save m calls a passphrase disk =
    let blob = encrypt calls.salt_source calls.iv_source (to_json a) m.id passphrase in
    let done = write_file calls.write_account disk.account blob in
    if not m.has_dir
    then (disk, some no_state_dir)
    else after_write m calls.write_sidecar a disk done

abbrev read_account : Result Account → Loaded
read_account (ok a) = loaded a
read_account (err e) = failed (json e)

abbrev account_from : Opened → Loaded
account_from (refused e) = failed (vault e)
account_from (opened text) = read_account (from_json text)

unfoldable pub load : Machine → Bytes → Disk → Loaded
load m passphrase disk = if not m.has_dir then failed no_state_dir else elim disk.account [
  | none ↦ failed not_logged_in
  | some blob ↦ account_from (decrypt blob m.id passphrase)
]

-- The file's text, trimmed, or nothing if it is blank or cannot be read.
abbrev trimmed_text : Option Bytes → Option Bytes
trimmed_text none = none
trimmed_text (some text) =
    if is_utf8 text && not (is_nil (trim text)) then some (trim text) else none

unfoldable pub read_sidecar : Machine → Disk → Option Bytes
read_sidecar m disk = if not m.has_dir then none else trimmed_text disk.storefront

abbrev default_storefront : Bytes
default_storefront = codes "143441"

-- What the sidecar answers once it is written, or the default.
abbrev or_default : Machine → Disk → Option SessionError → Bytes × Disk
or_default m disk (some e) = (default_storefront, disk)
or_default m disk none = elim (read_sidecar m disk) [
  | none ↦ (default_storefront, disk)
  | some found ↦ (found, disk)
]

-- The second step of `storefront_hint`: an account that was loaded is written to the sidecar, and the
-- answer is read from there.
abbrev backfill : Machine → Write → Disk → Loaded → Bytes × Disk
backfill m call disk (failed e) = (default_storefront, disk)
backfill m call disk (loaded a) =
    let saved = save_storefront m call a disk in or_default m saved.0 saved.1

unfoldable pub storefront_hint : Machine → Write → Bytes → Disk → Bytes × Disk
storefront_hint m call passphrase disk = elim (read_sidecar m disk) [
  | some found ↦ (found, disk)
  | none ↦ backfill m call disk (load m passphrase disk)
]

-- `let _ = remove_file`: what is left of a file, if it is removed or not.
abbrev remove_file : Bool → Option Bytes → Option Bytes
remove_file removed old = if removed then none else old

unfoldable pub reset_session : Machine → Bool → Disk → Disk × Option SessionError
reset_session m removed disk =
    if not m.has_dir
    then (disk, some no_state_dir)
    else (record disk { cookies = remove_file removed disk.cookies }, none)

unfoldable pub revoke : Machine → Bool → Bool → Disk → Disk × Option SessionError
revoke m removed_account removed_cookies disk =
    if not m.has_dir then (disk, some no_state_dir) else (
      record disk {
        account = remove_file removed_account disk.account;
        cookies = remove_file removed_cookies disk.cookies;
      },
      none,
    )
