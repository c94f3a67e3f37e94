-- ===== src/Account/Session/RoundTrip.antt =====
-- What is saved is loaded again, and the sidecar is filled from the vault.
use perun.Base.{
  ℕ, ◌<◌, ◌≡◌, refl, sym, subst, codes, ◌≢◌, ap, ◌∙◌, ◌⊎◌, inl, inr, true, false, Bool-cases,
  Option, none, some, All, [], ◌∷◌, ◌++◌, Bytes, arith,
}
use perun.Base.Utf8.{is_utf8-ascii}
use perun.Account.Session.Sidecar.{IsGraphic, trim-line}
use perun.Account.{Account, to_json}
use perun.Account.Fields.{IsText, from_json-to_json, is_utf8-to_json}
use perun.Account.Vault.{encrypt}
use perun.Account.Vault.RoundTrip.{decrypt-encrypt}
use perun.Account.Session.{
  Disk, Write, no_directory, torn, written, no_state_dir, create_state_dir, write_failed, loaded,
  Machine, write_file, save_storefront, SaveCalls, save, load, trimmed_text, or_default,
  read_sidecar, storefront_hint,
}

-- The vault on the disk is a text's own blob.
pub load-encrypt :
    (m : Machine) (calls : SaveCalls) (a : Account) (passphrase : Bytes) (disk : Disk)
    → m.has_dir ≡ true
    → IsText a
    → disk.account ≡ some (encrypt calls.salt_source calls.iv_source (to_json a) m.id passphrase)
    → load m passphrase disk ≡ loaded a
unfolding load
load-encrypt m calls a passphrase disk dir t e =
    rw
      (
        dir,
        e,
        decrypt-encrypt calls.salt_source calls.iv_source (to_json a) m.id passphrase
            (is_utf8-to_json a t),
        from_json-to_json a t,
      )
      refl

-- The sidecar behind the write of an account: an account without a storefront leaves it as it is.
abbrev pub IsSidecarOf : Account → Write → Option Bytes → Option Bytes → Type 0
IsSidecarOf a call old new =
    ((a.store_front ≡ []) × (new ≡ old))
    ⊎ ((a.store_front ≢ []) × (new ≡ (write_file call old (a.store_front ++ codes "\n")).0))

Bytes-cases : (s : Bytes) → (s ≡ []) ⊎ ((b : ℕ) × (bs : Bytes) × (s ≡ b ∷ bs))
Bytes-cases [] = inl refl
Bytes-cases (b ∷ bs) = inr (b, bs, refl)

-- The sidecar's part of `save` touches no other file.
save_storefront-account :
    (m : Machine) (call : Write) (a : Account) (disk : Disk)
    → m.has_dir ≡ true
    → let r = (save_storefront m call a disk).0 in
      (r.account ≡ disk.account)
      × (r.cookies ≡ disk.cookies)
      × IsSidecarOf a call disk.storefront r.storefront
unfolding save_storefront
save_storefront-account m call a disk dir = elim (Bytes-cases a.store_front) [
  | inl empty ↦ rw empty (refl, refl, inl (refl, refl))
  | inr (b, bs, front) ↦ rw (front, dir) (refl, refl, inr ((λ e. cc), refl))
]

Write-cases :
    (w : Write) → (w ≡ no_directory) ⊎ ((left : Option Bytes) × (w ≡ torn left)) ⊎ (w ≡ written)
Write-cases no_directory = inl refl
Write-cases (torn left) = inr (inl (left, refl))
Write-cases written = inr (inr refl)

save-written :
    (m : Machine) (calls : SaveCalls) (a : Account) (passphrase : Bytes) (disk : Disk)
    → m.has_dir ≡ true
    → calls.write_account ≡ written
    → save m calls a passphrase disk ≡ (
      (save_storefront m calls.write_sidecar a (record disk {
        account = some (encrypt calls.salt_source calls.iv_source (to_json a) m.id passphrase);
      })).0,
      none,
    )
unfolding save
save-written m calls a passphrase disk dir e = cc

-- For an account whose fields are valid UTF-8, what `save` returns and leaves is told by the state
-- directory and the write of the vault. If there is a directory and the vault is written, `save`
-- succeeds, the same machine and passphrase load the account back, the cookies are those from before
-- and the sidecar is what its own write makes of the account's storefront, or that from before if
-- there is none. Without a directory, and if the directory cannot be made, nothing changes and the
-- error says which; if the write stops, the vault is what the write left behind, nothing else
-- changes, and the error is that of the write.
pub save-outcome :
    (m : Machine) (calls : SaveCalls) (a : Account) (passphrase : Bytes) (disk : Disk)
    → IsText a
    → let r = save m calls a passphrase disk in
      ((m.has_dir ≡ true)
        × (calls.write_account ≡ written)
        × (r.1 ≡ none)
        × (load m passphrase r.0 ≡ loaded a)
        × (r.0.cookies ≡ disk.cookies)
        × IsSidecarOf a calls.write_sidecar disk.storefront r.0.storefront)
      ⊎ ((m.has_dir ≡ false) × (r ≡ (disk, some no_state_dir)))
      ⊎ ((m.has_dir ≡ true)
          × (calls.write_account ≡ no_directory)
          × (r ≡ (disk, some create_state_dir)))
      ⊎ ((left : Option Bytes) × (m.has_dir ≡ true)
          × (calls.write_account ≡ torn left)
          × (r ≡ (record disk { account = left }, some write_failed)))
unfolding save
save-outcome m calls a passphrase disk t = elim (Bool-cases m.has_dir) [
  | inr missing ↦ inr (inl (missing, rw missing refl))
  | inl dir ↦ elim (Write-cases calls.write_account) [
    | inl e ↦ inr (inr (inl (dir, e, rw (dir, e, write_file) refl)))
    | inr (inl (left, e)) ↦ inr (inr (inr (left, dir, e, rw (dir, e, write_file) refl)))
    | inr (inr e) ↦
        let saved = save-written m calls a passphrase disk dir e in
        let blob = encrypt calls.salt_source calls.iv_source (to_json a) m.id passphrase in
        let (kept, cookies_are, front_is) =
          save_storefront-account m calls.write_sidecar a (record disk { account = some blob })
            dir in
        inl (
          dir,
          e,
          ap (λ r. r.1) saved,
          ap (λ r. load m passphrase r.0) saved ∙ load-encrypt m calls a passphrase _ dir t kept,
          ap (λ r. r.0.cookies) saved ∙ cookies_are,
          subst (λ r. IsSidecarOf a calls.write_sidecar disk.storefront r.0.storefront) (sym saved)
              front_is,
        )
  ]
]

All-small : (s : Bytes) → IsGraphic s → All (λ b. b < 0x80) (s ++ b'\n' ∷ [])
All-small [] g = (omega arith, tt)
All-small (b ∷ s) g = (omega (arith, g.0), All-small s g.1)

-- A sidecar that holds a line of printed ASCII.
read_sidecar-line :
    (m : Machine) (disk : Disk) (b : ℕ) (s : Bytes)
    → m.has_dir ≡ true
    → IsGraphic (b ∷ s)
    → disk.storefront ≡ some (b ∷ (s ++ b'\n' ∷ []))
    → read_sidecar m disk ≡ some (b ∷ s)
unfolding read_sidecar
read_sidecar-line m disk b s dir g e =
    let line = b ∷ (s ++ b'\n' ∷ []) in
    let valid = is_utf8-ascii line (All-small (b ∷ s) g) in
    let text : trimmed_text (some line) ≡ some (b ∷ s) = rw (valid, trim-line b s g) refl in cc

read_sidecar-none :
    (m : Machine) (disk : Disk) → disk.storefront ≡ none → read_sidecar m disk ≡ none
unfolding read_sidecar
read_sidecar-none m disk bare = elim (Bool-cases m.has_dir) [ inl dir ↦ cc | inr missing ↦ cc ]

save_storefront-written :
    (m : Machine) (a : Account) (b : ℕ) (s : Bytes) (disk : Disk)
    → m.has_dir ≡ true
    → a.store_front ≡ b ∷ s
    → save_storefront m written a disk
      ≡ (record disk { storefront = some (b ∷ (s ++ b'\n' ∷ [])) }, none)
unfolding save_storefront
save_storefront-written m a b s disk dir front = cc

-- Without a sidecar, but with a vault that the passphrase opens, the answer is the account's
-- storefront, if that is printed ASCII; the sidecar is then written, and a later answer comes from it
-- under any passphrase and leaves the disk as it is.
pub storefront_hint-backfill :
    (m : Machine) (a : Account) (b : ℕ) (s passphrase other : Bytes) (call : Write) (disk : Disk)
    → m.has_dir ≡ true
    → disk.storefront ≡ none
    → load m passphrase disk ≡ loaded a
    → a.store_front ≡ b ∷ s
    → IsGraphic (b ∷ s)
    → let after = record disk { storefront = some (b ∷ (s ++ b'\n' ∷ [])) } in
      (storefront_hint m written passphrase disk ≡ (a.store_front, after))
      × (storefront_hint m call other after ≡ (a.store_front, after))
unfolding storefront_hint
storefront_hint-backfill m a b s passphrase other call disk dir bare open_vault front g =
    let after = record disk { storefront = some (b ∷ (s ++ b'\n' ∷ [])) } in
    let later = read_sidecar-line m after b s dir g refl in
    let before : read_sidecar m disk ≡ none = read_sidecar-none m disk bare in
    let saved = save_storefront-written m a b s disk dir front in
    (
      rw (storefront_hint, before, open_vault, saved) (rw (or_default, later, front) refl),
      rw (storefront_hint, later, front) refl,
    )
