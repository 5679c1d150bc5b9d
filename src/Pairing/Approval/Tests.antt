-- ===== src/Pairing/Approval/Tests.antt =====
-- A device that waits for approval, and the theorems on auth/pairing.ts at it.
use local_cast.Base.{
  ◌≡◌, refl, true, false, List, [], ◌∷◌, none, some, Text, codes, text_eq, Result, ok, err, arith,
}
use local_cast.Contract.Errors.{plain, pairing_expired}
use local_cast.Contract.Permissions.{AccessMode}
use local_cast.Maps.{get}
use local_cast.Pairing.{PairingTokenRow}
use local_cast.Pairing.Approval.{
  Pairings, is_approved, mint, status, claim_ticket, begin_approve, approved_row, finish_approve,
  reject, is_abandoned, prune_abandoned,
}
use local_cast.Pairing.Approval.Delivery.{
  approval_is_delivered_once, approval_undoes_rejection, prune_abandoned_iff,
}
use local_cast.Tokens.{DeviceRow, pending, revoked_row}

abbrev signature : Text → Text
signature s = s

-- The text of the permissions of these tests is the folder that is to be opened.
abbrev parse : Text → List (Text × AccessMode)
parse s = (s, AccessMode.stream) ∷ []

abbrev device : DeviceRow
device = record {
  id = codes "d1";
  user_id = codes "u";
  name = codes "Phone";
  platform = codes "web";
  status = pending;
  token_version = 1;
  dav_password_hash = none;
  refresh_hash = none;
  refresh_expires_at = none;
  last_seen_at = none;
  last_peer = none;
  created_at = 0;
}

abbrev used : PairingTokenRow
used = record {
  id = codes "t1";
  code = codes "AB23";
  secret_hash = [];
  failed_attempts = 0;
  locked_at = none;
  created_at = 0;
  expires_at = 100;
  consumed_at = some 5;
  consumed_by_device = some (codes "d1");
  default_permissions = codes "films";
}

abbrev pairings : Pairings
pairings = record {
  tokens = (codes "t1", used) ∷ [];
  devices = (codes "d1", device) ∷ [];
  folder_permissions = [];
  shared_folders = (codes "films", record { label = codes "Films"; enabled = true }) ∷ [];
  stash = [];
}

abbrev rejected : Pairings
rejected = record pairings { devices = (codes "d1", revoked_row device) ∷ [] }

device-found : get (codes "d1") pairings.devices ≡ some device
unfolding get text_eq
device-found = refl

-- A code that is in use is drawn again.
new_code : {A : Type 0} → Result (A × Text) → Text
new_code (err e) = []
new_code (ok (s, code)) = code

minted :
    new_code (mint pairings (codes "t2") [] [] 60 10 (codes "AB23" ∷ codes "CD45" ∷ []))
    ≡ codes "CD45"
unfolding new_code mint
minted = refl

began : begin_approve pairings (codes "d1") ≡ ok device
unfolding begin_approve text_eq
began = refl

rejects : reject pairings (codes "d1") ≡ ok rejected
unfolding reject text_eq
rejects = refl

approval_is_delivered_once_example :
    let ticket = claim_ticket signature (codes "d1") in
    let s' = finish_approve parse pairings (codes "d1") (codes "pw") (codes "#") 10 in
    let first = status signature s' (codes "d1") ticket 20 in
    (first.1 ≡ ok (is_approved (codes "pw") (approved_row (codes "#") device)))
    × ((status signature first.0 (codes "d1") ticket 30).1 ≡ err (plain pairing_expired))
approval_is_delivered_once_example =
    approval_is_delivered_once signature parse pairings (codes "d1") (codes "pw") (codes "#") device
      10 20 30 device-found (omega arith)

approval_undoes_rejection_example :
    (get (codes "d1") rejected.devices ≡ some (revoked_row device))
    × (get
          (codes "d1")
          (finish_approve parse rejected (codes "d1") (codes "pw") (codes "#") 10).devices
        ≡ some (approved_row (codes "#") (revoked_row device)))
approval_undoes_rejection_example =
    approval_undoes_rejection signature parse pairings rejected (codes "d1") (codes "pw")
      (codes "#") device 10 began device-found rejects

prune_abandoned_iff_example :
    (get (codes "d1") pairings.devices ≡ some device
      → is_abandoned 50 device ≡ false
      → get (codes "d1") (prune_abandoned 50 pairings.devices).0 ≡ some device)
    × (get (codes "d1") (prune_abandoned 50 pairings.devices).0 ≡ some device
        → is_abandoned 50 device ≡ false)
prune_abandoned_iff_example = prune_abandoned_iff 50 pairings.devices (codes "d1") device
