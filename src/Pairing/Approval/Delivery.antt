-- ===== src/Pairing/Approval/Delivery.antt =====
-- apps/server/src/auth/pairing.ts: an approval is delivered once, and what a rejection in between
-- comes to; which devices are pruned.
use mathlib.Core.Path.{subst}
use local_cast.Base.{
  ◌≡◌, refl, sym, ◌∙◌, ap, ◌+◌, ◌≤◌, ℕ, Bool, true, false, List, [], ◌∷◌, Option, none, some, Text,
  text_eq, text_eq_refl, if◌then◌else◌, ok, err, arith, Bool-cases, inl, inr,
}
use local_cast.Contract.Errors.{plain, not_found, pairing_expired}
use local_cast.Contract.Permissions.{AccessMode}
use local_cast.Maps.{get, delete, get-set_self, get-delete_self}
use local_cast.Pairing.Approval.{
  Pairings, stash_ttl_ms, is_approved, usable, take_dav_password, delivered, status_row,
  claim_ticket, status, begin_approve, approved_row, finish_approve, reject, is_abandoned,
  prune_abandoned,
}
use local_cast.Tokens.{DeviceRow, active, Devices, get_device, revoke, revoked_row}
use local_cast.Tokens.Rotation.{update_lem}

ok-pairings : (a b : Pairings) → ok a ≡ ok b → a ≡ b
ok-pairings a b e = cc

rejected_row :
    (s s' : Pairings) (device : Text) (d : DeviceRow)
    → get device s.devices ≡ some d
    → reject s device ≡ ok s'
    → get device s'.devices ≡ some (revoked_row d)
unfolding reject revoke get_device
rejected_row s s' device d found h = go (get device s.devices) refl h
  where
    go :
        (m : Option DeviceRow)
        → get device s.devices ≡ m
        → (elim m [
          | none ↦ err (plain not_found)
          | some r ↦
              ok (record s { devices = revoke s.devices device; stash = delete device s.stash })
        ])
          ≡ ok s'
        → get device s'.devices ≡ some (revoked_row d)
    go none e k = cc
    go (some r) e k =
        subst (λ x. get device x.devices ≡ some (revoked_row d)) (ok-pairings _ s' k)
          (update_lem s.devices device d revoked_row found)

module _ (signature : Text → Text) (parse : Text → List (Text × AccessMode)) where
  -- A poll with the right ticket, of a device that is active.
  status_active :
      (s : Pairings) (device : Text) (d : DeviceRow) (now : ℕ)
      → get device s.devices ≡ some d
      → d.status ≡ active
      → status signature s device (claim_ticket signature device) now
        ≡ delivered d (take_dav_password s device now)
  unfolding status status_row get_device
  status_active s device d now found e =
      rw (status, text_eq_refl (claim_ticket signature device), found, e) refl

  usable_fresh :
      (password : Text) (at now : ℕ)
      → now ≤ at + stash_ttl_ms
      → usable (some (record { password = password; at = at })) now ≡ some password
  unfolding usable
  usable_fresh password at now h = ground arith

  first_poll :
      (s : Pairings) (device password : Text) (d : DeviceRow) (at now : ℕ)
      → get device s.devices ≡ some d
      → d.status ≡ active
      → get device s.stash ≡ some (record { password = password; at = at })
      → now ≤ at + stash_ttl_ms
      → status signature s device (claim_ticket signature device) now
        ≡ (record s { stash = delete device s.stash }, ok (is_approved password d))
  unfolding delivered take_dav_password
  first_poll s device password d at now found e here early =
      status_active s device d now found e ∙ rw (here, usable_fresh password at now early) refl

  poll_without :
      (s : Pairings) (device : Text) (d : DeviceRow) (now : ℕ)
      → get device s.devices ≡ some d
      → d.status ≡ active
      → get device s.stash ≡ none
      → (status signature s device (claim_ticket signature device) now).1
        ≡ err (plain pairing_expired)
  unfolding delivered take_dav_password usable
  poll_without s device d now found e gone =
      ap (λ r. r.1) (status_active s device d now found e) ∙ rw gone refl

  -- An approved device that asks within the hour is told so, with the password of the approval, and
  -- once: the next time it is told to pair again.
  pub approval_is_delivered_once :
      (s : Pairings) (device password hash : Text) (d : DeviceRow) (at now later : ℕ)
      → get device s.devices ≡ some d
      → now ≤ at + stash_ttl_ms
      → let ticket = claim_ticket signature device in
        let s' = finish_approve parse s device password hash at in
        let first = status signature s' device ticket now in
        (first.1 ≡ ok (is_approved password (approved_row hash d)))
        × ((status signature first.0 device ticket later).1 ≡ err (plain pairing_expired))
  unfolding finish_approve
  approval_is_delivered_once s device password hash d at now later found early =
      let ticket = claim_ticket signature device in
      let s' = finish_approve parse s device password hash at in
      let here = update_lem s.devices device d (approved_row hash) found in
      let first =
        first_poll s' device password (approved_row hash d) at now here refl
          (get-set_self device (record { password = password; at = at }) s.stash) early in
      (
        ap (λ r. r.1) first,
        subst (λ r. (status signature r device ticket later).1 ≡ err (plain pairing_expired))
            (sym (ap (λ r. r.0) first))
            (poll_without (record s' { stash = delete device s'.stash }) device
              (approved_row hash d) later here refl (get-delete_self device s'.stash)),
      )

  -- A rejection that comes while an approval waits does not last: the device is revoked, and active
  -- again when the wait is over.
  pub approval_undoes_rejection :
      (s s' : Pairings) (device password hash : Text) (d : DeviceRow) (now : ℕ)
      → begin_approve s device ≡ ok d
      → get device s.devices ≡ some d
      → reject s device ≡ ok s'
      → (get device s'.devices ≡ some (revoked_row d))
        × (get device (finish_approve parse s' device password hash now).devices
            ≡ some (approved_row hash (revoked_row d)))
  unfolding finish_approve
  approval_undoes_rejection s s' device password hash d now began found gone =
      let here = rejected_row s s' device d found gone in
      (here, update_lem s'.devices device (revoked_row d) (approved_row hash) here)

some-device : (r d : DeviceRow) → some r ≡ some d → r ≡ d
some-device r d e = cc

clash : (b : Bool) → b ≡ true → b ≡ false → ⊥
clash b t f = cc

-- What holds of a row in the table before and after.
abbrev Pruned : ℕ → DeviceRow → Option DeviceRow → Option DeviceRow → Type 0
Pruned now d old new =
    (old ≡ some d → is_abandoned now d ≡ false → new ≡ some d)
    × (new ≡ some d → is_abandoned now d ≡ false)

Pruned-gone :
    (here : Bool) (now : ℕ) (r d : DeviceRow) (old new : Option DeviceRow)
    → is_abandoned now r ≡ true
    → Pruned now d old new
    → Pruned now d (if here then some r else old) new
Pruned-gone true now r d old new gone (keep, left) = (
  (λ e h. absurd (
      clash (is_abandoned now d) (subst (λ x. is_abandoned now x ≡ true) (some-device r d e) gone)
        h)),
  left,
)
Pruned-gone false now r d old new gone p = p

Pruned-kept :
    (here : Bool) (now : ℕ) (r d : DeviceRow) (old new : Option DeviceRow)
    → is_abandoned now r ≡ false
    → Pruned now d old new
    → Pruned now d (if here then some r else old) (if here then some r else new)
Pruned-kept true now r d old new stays p =
    ((λ e h. e), (λ e. subst (λ x. is_abandoned now x ≡ false) (some-device r d e) stays))
Pruned-kept false now r d old new stays p = p

-- Pruning takes every abandoned device, and no other.
pub prune_abandoned_iff :
    (now : ℕ) (db : Devices) (id : Text) (d : DeviceRow)
    → (get id db ≡ some d → is_abandoned now d ≡ false → get id (prune_abandoned now db).0 ≡ some d)
      × (get id (prune_abandoned now db).0 ≡ some d → is_abandoned now d ≡ false)
unfolding prune_abandoned get
prune_abandoned_iff now [] id d = ((λ e h. cc), (λ e. cc))
prune_abandoned_iff now ((k, r) ∷ db) id d =
    let rest = prune_abandoned_iff now db id d in
    let new = get id (prune_abandoned now db).0 in
    elim (Bool-cases (is_abandoned now r)) [
      | inl gone ↦ rw gone (Pruned-gone (text_eq k id) now r d (get id db) new gone rest)
      | inr stays ↦ rw stays (Pruned-kept (text_eq k id) now r d (get id db) new stays rest)
    ]
