-- ===== src/Tokens/Acceptance.antt =====
-- apps/server/src/auth/tokens.ts: whoever is let in is an active device.
use mathlib.Core.Path.{subst}
use local_cast.Base.{
  ◌≡◌, ◌≢◌, refl, sym, ◌∙◌, ap, ℕ, true, List, [], ◌∷◌, Option, none, some, Text, Result, ok, err,
  arith, ◌>>=◌,
}
use local_cast.Maps.{get}
use local_cast.Tokens.{
  DeviceRow, DeviceStatus, revoked, Devices, DeviceIdentity, Crypto, Version, Verified, expired,
  invalid, payload, version, other_number, not_a_number, get_device, is_active, check_payload,
  check_version, verify_parts, check_expiry, check_signature, check_cut, check_device, check_hash,
}

-- The row of an id has that id.
abbrev pub HasId : Text → Option DeviceRow → Type 0
HasId id none = Unit
HasId id (some d) = d.id ≡ id

abbrev pub IsKeyed : Devices → Type 0
IsKeyed db = (k : Text) → HasId k (get k db)

abbrev pub IsRevoked : Option DeviceRow → Type 0
IsRevoked none = Unit
IsRevoked (some d) = d.status ≡ revoked

-- A row of the table that is active.
pub record IsActive (db : Devices) (id : Text) : Type 0 where
  pub key : Text
  pub row : DeviceRow
  pub found : get key db ≡ some row
  pub active : is_active row.status ≡ true
  pub named : row.id ≡ id

-- An active row is not of a device that has been revoked.
pub IsActive-apart :
    (db : Devices) (id who : Text) → IsKeyed db → IsRevoked (get id db) → IsActive db who → who ≢ id
IsActive-apart db id who keyed gone a same =
    let own = subst (HasId a.key) a.found (keyed a.key) in
    let here : get id db ≡ some a.row =
      ap (λ k. get k db) (sym same ∙ sym a.named ∙ own) ∙ a.found in
    let e : a.row.status ≡ revoked = subst IsRevoked here gone in
    absurd (clash a.row.status e a.active)
  where
    clash : (st : DeviceStatus) → st ≡ revoked → is_active st ≡ true → ⊥
    clash st e h = ground arith

module _ (c : Crypto) (db : Devices) where
  pub check_version-IsActive :
      (sub : Text) (tv : Version) (m : Option DeviceRow) (who : DeviceIdentity)
      → get sub db ≡ m
      → check_version tv m ≡ ok who
      → IsActive db who.id
  unfolding check_version
  check_version-IsActive sub tv none who e h = cc
  check_version-IsActive sub tv (some d) who e h = record {
    key = sub;
    row = d;
    found = e;
    active = ground arith;
    named = ground arith;
  }

  pub check_payload-IsActive :
      (v : Verified) (who : DeviceIdentity) → check_payload db v ≡ ok who → IsActive db who.id
  unfolding check_payload get_device
  check_payload-IsActive expired who h = cc
  check_payload-IsActive invalid who h = cc
  check_payload-IsActive (payload none tv) who h = cc
  check_payload-IsActive (payload (some []) tv) who h = cc
  check_payload-IsActive (payload (some (a ∷ s)) not_a_number) who h = cc
  check_payload-IsActive (payload (some (a ∷ s)) other_number) who h =
      check_version-IsActive (a ∷ s) other_number (get (a ∷ s) db) who refl h
  check_payload-IsActive (payload (some (a ∷ s)) (version n)) who h =
      check_version-IsActive (a ∷ s) (version n) (get (a ∷ s) db) who refl h

  pub check_signature-IsActive :
      (file device given : Text) (t : ℕ) (m : Option DeviceRow) (who : DeviceIdentity)
      → get device db ≡ m
      → check_signature c file t given m ≡ ok who
      → IsActive db who.id
  unfolding check_signature
  check_signature-IsActive file device given t none who e h = cc
  check_signature-IsActive file device given t (some d) who e h = record {
    key = device;
    row = d;
    found = e;
    active = ground arith;
    named = ground arith;
  }

  pub verify_parts-IsActive :
      (parts : List Text) (file : Text) (now : ℕ) (who : DeviceIdentity)
      → verify_parts c db parts file now ≡ ok who
      → IsActive db who.id
  unfolding verify_parts get_device
  verify_parts-IsActive [] file now who h = cc
  verify_parts-IsActive (p ∷ []) file now who h = cc
  verify_parts-IsActive (p ∷ q ∷ []) file now who h = cc
  verify_parts-IsActive (p ∷ q ∷ r ∷ x ∷ parts) file now who h = cc
  verify_parts-IsActive (device ∷ expires ∷ given ∷ []) file now who h =
      go (check_expiry (c.to_number expires) now) h
    where
      go :
          (m : Result ℕ)
          → (m >>= (λ t. check_signature c file t given (get device db))) ≡ ok who
          → IsActive db who.id
      go (err e) k = cc
      go (ok t) k = check_signature-IsActive file device given t (get device db) who refl k

  check_hash-is_active :
      (raw : Text) (r d : DeviceRow) (m : Option Text) (now : ℕ)
      → check_hash c raw r m now ≡ ok d
      → (is_active r.status ≡ true) × (r ≡ d)
  unfolding check_hash
  check_hash-is_active raw r d none now k = cc
  check_hash-is_active raw r d (some []) now k = cc
  check_hash-is_active raw r d (some (a ∷ hash)) now k = ground arith

  pub check_device-IsActive :
      (device raw : Text) (m : Option DeviceRow) (now : ℕ) (d : DeviceRow)
      → get device db ≡ m
      → check_device c raw m now ≡ ok d
      → IsActive db d.id
  unfolding check_device
  check_device-IsActive device raw none now d e h = cc
  check_device-IsActive device raw (some r) now d e h =
      let (live, same) = check_hash-is_active raw r d r.refresh_hash now h in
      record { key = device; row = r; found = e; active = live; named = ap (λ x. x.id) same }

  pub check_cut-IsActive :
      (m : Option (Text × Text)) (now : ℕ) (d : DeviceRow)
      → check_cut c db m now ≡ ok d
      → IsActive db d.id
  unfolding check_cut get_device
  check_cut-IsActive none now d h = cc
  check_cut-IsActive (some ([], raw)) now d h = cc
  check_cut-IsActive (some (a ∷ s, [])) now d h = cc
  check_cut-IsActive (some (a ∷ s, b ∷ raw)) now d h =
      check_device-IsActive (a ∷ s) (b ∷ raw) (get (a ∷ s) db) now d refl h
