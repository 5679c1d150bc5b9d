-- ===== src/Pairing/Approval.antt =====
-- apps/server/src/auth/pairing.ts: what the operator does with a device that has claimed a code, and
-- what the device is told of it.
--
-- `approve` waits for scrypt between its checks and its writes, so it has two halves, and other calls
-- may run in between; a session is issued behind `status`, which is `issue_session` of the tokens. The
-- HMAC and `JSON.parse` of the permissions of a code are parameters; ids, texts and times are
-- arguments. The log and the events are left out.
pub mod Delivery
pub mod Grants
mod Tests
use local_cast.Base.{
  ℕ, zero, suc, ◌+◌, ◌*◌, Bool, true, false, not, ◌&&◌, ◌||◌, List, [], ◌∷◌, ◌++◌, Option, none,
  some, Text, codes, text_eq, ltb, if◌then◌else◌, Result, ok, err, ◌>>=◌, ◌>>◌, throw_if,
}
use local_cast.Contract.Errors.{plain, not_found, device_revoked, pairing_expired, internal}
use local_cast.Contract.Permissions.{AccessMode}
use local_cast.Library.Permissions.{PermissionRow, FolderRow}
use local_cast.Maps.{get, set, delete}
use local_cast.Pairing.{PairingTokenRow, is_set}
use local_cast.Tokens.{
  DeviceRow, DeviceStatus, pending, active, revoked, Devices, get_device, update, revoke,
}

-- A WebDAV password that waits for its device, with the time it was put there.
pub record Stashed : Type 0 where
  pub password : Text
  pub at : ℕ

-- The tables, and `pendingDavPasswords`.
pub record Pairings : Type 0 where
  pub tokens : List (Text × PairingTokenRow)
  pub devices : Devices
  pub folder_permissions : List PermissionRow
  pub shared_folders : List (Text × FolderRow)
  pub stash : List (Text × Stashed)

-- In milliseconds: a day, an hour, and a quarter of an hour.
abbrev pub code_grace_ms : ℕ
code_grace_ms = 86_400_000

abbrev pub stash_ttl_ms : ℕ
stash_ttl_ms = 3_600_000

abbrev pub pending_grace_ms : ℕ
pending_grace_ms = 3_600_000

abbrev pub rejected_grace_ms : ℕ
rejected_grace_ms = 900_000

-- `DELETE FROM pairing_tokens …`, a grace behind the use or the expiry.
pub delete_spent : ℕ → List (Text × PairingTokenRow) → List (Text × PairingTokenRow)
delete_spent now [] = []
delete_spent now ((id, row) ∷ rows) =
    let rest = delete_spent now rows in
    if is_past row.consumed_at || ltb (row.expires_at + code_grace_ms) now
    then rest
    else (id, row) ∷ rest
  where
    is_past : Option ℕ → Bool
    is_past none = false
    is_past (some t) = ltb (t + code_grace_ms) now

-- The UNIQUE constraint on the code.
pub has_code : Text → List (Text × PairingTokenRow) → Bool
unfolding text_eq
has_code code [] = false
has_code code ((id, row) ∷ rows) = text_eq row.code code || has_code code rows

-- The attempts at a code, with the random codes that they draw. The last failure is thrown on.
pub draw_code : ℕ → List Text → List (Text × PairingTokenRow) → Result Text
unfolding has_code
draw_code zero codes rows = err (plain internal)
draw_code (suc n) [] rows = err (plain internal)
draw_code (suc n) (code ∷ codes) rows =
    let rest = draw_code n codes rows in if has_code code rows then rest else ok code

pub mint : Pairings → Text → Text → Text → ℕ → ℕ → List Text → Result (Pairings × Text)
unfolding delete_spent draw_code set
mint s id secret_hash permissions ttl_seconds now codes = do
  let rows = delete_spent now s.tokens
  code ← draw_code 20 codes rows
  ok (
    record s {
      tokens =
          set id
            (record {
              id = id;
              code = code;
              secret_hash = secret_hash;
              failed_attempts = 0;
              locked_at = none;
              created_at = now;
              expires_at = now + ttl_seconds * 1_000;
              consumed_at = none;
              consumed_by_device = none;
              default_permissions = permissions;
            })
            rows;
    },
    code,
  )

pub data PairStatus : Type 0 where
  is_pending is_rejected : PairStatus
  is_approved : Text → DeviceRow → PairStatus

pub usable : Option Stashed → ℕ → Option Text
usable none now = none
usable (some e) now = if ltb (e.at + stash_ttl_ms) now then none else some e.password

-- `takeDavPassword`
pub take_dav_password : Pairings → Text → ℕ → Pairings × Option Text
unfolding usable get delete
take_dav_password s device now =
    (record s { stash = delete device s.stash }, usable (get device s.stash) now)

pub delivered : DeviceRow → Pairings × Option Text → Pairings × Result PairStatus
delivered d (s, none) = (s, err (plain pairing_expired))
delivered d (s, some password) = (s, ok (is_approved password d))

pub status_row : Pairings → Text → DeviceRow → DeviceStatus → ℕ → Pairings × Result PairStatus
unfolding delivered take_dav_password
status_row s device d pending now = (s, ok is_pending)
status_row s device d revoked now = (s, ok is_rejected)
status_row s device d active now = delivered d (take_dav_password s device now)

module _ (signature : Text → Text) where
  pub claim_ticket : Text → Text
  claim_ticket device = signature (codes "claim:" ++ device)

  -- `status`, less the session.
  pub status : Pairings → Text → Text → ℕ → Pairings × Result PairStatus
  unfolding claim_ticket status_row get_device text_eq
  status s device ticket now =
      if text_eq (claim_ticket device) ticket
      then elim (get_device s.devices device) [
        | none ↦ (s, err (plain not_found))
        | some d ↦ status_row s device d d.status now
      ]
      else (s, err (plain not_found))

is_revoked : DeviceStatus → Bool
is_revoked revoked = true
is_revoked _ = false

-- `approve` before the wait.
pub begin_approve : Pairings → Text → Result DeviceRow
unfolding is_revoked get_device
begin_approve s device = elim (get_device s.devices device) [
  | none ↦ err (plain not_found)
  | some d ↦ throw_if (is_revoked d.status) (plain device_revoked) >> ok d
]

-- The first code that was used by the device.
pub used_code : Text → List (Text × PairingTokenRow) → Option Text
unfolding text_eq
used_code device [] = none
used_code device ((id, row) ∷ rows) =
    let rest = used_code device rows in
    if is_device row.consumed_by_device then some row.default_permissions else rest
  where
    is_device : Option Text → Bool
    is_device none = false
    is_device (some d) = text_eq d device

-- `INSERT … ON CONFLICT … DO UPDATE`
pub upsert : Text → Text → AccessMode → List PermissionRow → List PermissionRow
unfolding text_eq
upsert device folder mode [] = record { device_id = device; folder_id = folder; mode = mode } ∷ []
upsert device folder mode (p ∷ ps) =
    let rest = upsert device folder mode ps in
    if text_eq p.device_id device && text_eq p.folder_id folder
    then record p { mode = mode } ∷ ps
    else p ∷ rest

-- Only for folders that are there.
pub grant_all :
    Text
    → List (Text × FolderRow)
    → List (Text × AccessMode)
    → List PermissionRow
    → List PermissionRow
unfolding upsert get
grant_all device folders [] grants = grants
grant_all device folders ((folder, mode) ∷ perms) grants = elim (get folder folders) [
  | none ↦ grant_all device folders perms grants
  | some f ↦ grant_all device folders perms (upsert device folder mode grants)
]

abbrev pub approved_row : Text → DeviceRow → DeviceRow
approved_row hash d = record d { status = active; dav_password_hash = some hash }

module _ (parse_permissions : Text → List (Text × AccessMode)) where
  pub default_permissions_for : Pairings → Text → List (Text × AccessMode)
  unfolding used_code
  default_permissions_for s device = elim (used_code device s.tokens) [
    | none ↦ []
    | some text ↦ parse_permissions text
  ]

  -- `approve` behind the wait.
  pub finish_approve : Pairings → Text → Text → Text → ℕ → Pairings
  unfolding update grant_all set default_permissions_for
  finish_approve s device password hash now = record s {
    devices = update s.devices device (approved_row hash);
    folder_permissions =
        grant_all device s.shared_folders (default_permissions_for s device) s.folder_permissions;
    stash = set device (record { password = password; at = now }) s.stash;
  }

pub reject : Pairings → Text → Result Pairings
unfolding revoke delete get_device
reject s device = elim (get_device s.devices device) [
  | none ↦ err (plain not_found)
  | some d ↦ ok (record s { devices = revoke s.devices device; stash = delete device s.stash })
]

abbrev pub is_missing : Option Text → Bool
is_missing none = true
is_missing (some h) = false

-- A claim that nobody has answered, or a rejection that the device has had the time to hear of.
pub is_abandoned : ℕ → DeviceRow → Bool
is_abandoned now d = go d.status
  where
    go : DeviceStatus → Bool
    go pending = ltb (d.created_at + pending_grace_ms) now
    go revoked = is_missing d.dav_password_hash && ltb (d.created_at + rejected_grace_ms) now
    go active = false

-- `pruneAbandoned`: what is left, and how many have gone.
pub prune_abandoned : ℕ → Devices → Devices × ℕ
unfolding is_abandoned
prune_abandoned now [] = ([], 0)
prune_abandoned now ((id, d) ∷ ds) =
    let (rest, count) = prune_abandoned now ds in
    if is_abandoned now d then (rest, count + 1) else ((id, d) ∷ rest, count)
