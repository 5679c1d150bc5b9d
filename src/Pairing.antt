-- ===== src/Pairing.antt =====
-- apps/server/src/auth/pairing.ts: claiming a pairing code.
--
-- `claim` waits for scrypt between reading the code's row and writing, so the model has its two halves:
-- `begin_claim` reads, `finish_claim` is given the row as it was read, and other calls may run in
-- between. `verify_password` and `toUpperCase` are parameters; ids and times are arguments. The
-- ticket, the activity log and the event of a claim are left out.
pub mod SingleUse
pub mod Lockout
pub mod Approval
mod Tests
use local_cast.Base.{
  ℕ, zero, suc, ◌+◌, ◌%◌, Bool, true, false, ◌&&◌, ◌||◌, List, [], ◌∷◌, ◌++◌, Option, none, some,
  Text, codes, text_eq, ltb, leb, if◌then◌else◌, take, Result, ok, err, ◌>>=◌, ◌>>◌, throw_if,
}
use local_cast.Contract.Errors.{
  plain, pairing_invalid, pairing_expired, pairing_consumed, pairing_locked,
}
use local_cast.Js.{trim, decimal}
use local_cast.Maps.{get, set}
use local_cast.Tokens.{DeviceRow, DeviceStatus, pending, revoked}

abbrev max_failed_attempts : ℕ
max_failed_attempts = 5

pub record PairingTokenRow : Type 0 where
  pub id : Text
  pub code : Text
  pub secret_hash : Text
  pub failed_attempts : ℕ
  pub locked_at : Option ℕ
  pub created_at : ℕ
  pub expires_at : ℕ
  pub consumed_at : Option ℕ
  pub consumed_by_device : Option Text
  pub default_permissions : Text

-- The tables `pairing_tokens` and `devices`, by id.
pub record Store : Type 0 where
  pub tokens : List (Text × PairingTokenRow)
  pub devices : List (Text × DeviceRow)

pub record ClaimRequest : Type 0 where
  pub code : Text
  pub secret : Option Text
  pub device_name : Text
  pub platform : Text

abbrev pub is_set : Option ℕ → Bool
is_set none = false
is_set (some n) = true

-- `SELECT * FROM pairing_tokens WHERE code = ?`
find_code : Text → List (Text × PairingTokenRow) → Option PairingTokenRow
unfolding text_eq
find_code code [] = none
find_code code ((id, row) ∷ rows) =
    let rest = find_code code rows in if text_eq row.code code then some row else rest

-- The checks of `claim` on the row that is read.
pub check_token : Option PairingTokenRow → ℕ → Result PairingTokenRow
check_token none t = err (plain pairing_invalid)
check_token (some row) t = do
  throw_if (is_set row.locked_at) (plain pairing_locked)
  throw_if (is_set row.consumed_at) (plain pairing_consumed)
  throw_if (leb row.expires_at t) (plain pairing_expired)
  ok row

pub register_failure : Store → Text → ℕ → ℕ → Store
unfolding get set
register_failure s id attempts t = elim (get id s.tokens) [
  | none ↦ s
  | some row ↦ record s {
    tokens =
        set id
          (record row {
            failed_attempts = attempts;
            locked_at = (if leb max_failed_attempts attempts then some t else none);
          })
          s.tokens;
  }
]

is_revoked : DeviceStatus → Bool
is_revoked revoked = true
is_revoked _ = false

-- The names of the devices that are not revoked hold this one.
is_taken : List (Text × DeviceRow) → Text → Bool
unfolding is_revoked text_eq
is_taken [] name = false
is_taken ((id, d) ∷ ds) name =
    let rest = is_taken ds name in if is_revoked d.status then rest else text_eq d.name name || rest

-- `${base} (${n})`
numbered : Text → ℕ → Text
numbered base n = base ++ (codes " (" ++ (decimal n ++ codes ")"))

next_name : ℕ → ℕ → Text → List (Text × DeviceRow) → ℕ → Text
unfolding numbered is_taken
next_name zero n base devices t = numbered base (t % 10_000)
next_name (suc rounds) n base devices t =
    let rest = next_name rounds (n + 1) base devices t in
    if is_taken devices (numbered base n) then rest else numbered base n

or_device : Text → Text
or_device [] = codes "Device"
or_device (c ∷ s) = c ∷ s

pub unique_name : List (Text × DeviceRow) → Text → ℕ → Text
unfolding is_taken next_name or_device trim
unique_name devices wanted t =
    let base = or_device (take 64 (trim wanted)) in
    if is_taken devices base then next_name 998 2 base devices t else base

-- The row that the guarded UPDATE of the transaction matches.
pub can_consume : ℕ → PairingTokenRow → Bool
can_consume t row = elim (is_set row.consumed_at) [
  | true ↦ false
  | false ↦ elim (is_set row.locked_at) [ true ↦ false | false ↦ ltb t row.expires_at ]
]

consume_found : Store → Text → Option PairingTokenRow → DeviceRow → ℕ → Store × Result Text
unfolding can_consume set
consume_found s id none device t = (s, err (plain pairing_consumed))
consume_found s id (some row) device t =
    if can_consume t row
    then (
      record {
        tokens =
            set id (record row { consumed_at = some t; consumed_by_device = some device.id })
              s.tokens;
        devices = set device.id device s.devices;
      },
      ok device.id,
    )
    else (s, err (plain pairing_consumed))

-- The transaction.
pub consume : Store → Text → DeviceRow → ℕ → Store × Result Text
unfolding consume_found get
consume s id device t = consume_found s id (get id s.tokens) device t

pub begin_claim : (Text → Text) → Store → ClaimRequest → ℕ → Result PairingTokenRow
unfolding check_token find_code
begin_claim upper s req t = check_token (find_code (upper req.code) s.tokens) t

module _ (verify_password : Text → Text → Bool) where
  -- A secret that is not given is not wrong.
  pub is_wrong : Option Text → Text → Bool
  is_wrong none hash = false
  is_wrong (some secret) hash = if verify_password secret hash then false else true

  new_device : Store → ClaimRequest → Text → Text → ℕ → ℕ → DeviceRow
  unfolding unique_name
  new_device s req device_id user_id began t = record {
    id = device_id;
    user_id = user_id;
    name = unique_name s.devices req.device_name t;
    platform = req.platform;
    status = pending;
    token_version = 1;
    dav_password_hash = none;
    refresh_hash = none;
    refresh_expires_at = none;
    last_seen_at = none;
    last_peer = none;
    created_at = began;
  }

  -- `claim` behind the wait: `token` is the row that was read, `began` the time of it.
  pub finish_claim :
      Store → PairingTokenRow → ClaimRequest → Text → Text → ℕ → ℕ → Store × Result Text
  unfolding is_wrong register_failure new_device consume
  finish_claim s token req device_id user_id began t =
      if is_wrong req.secret token.secret_hash
      then (
        register_failure s token.id (token.failed_attempts + 1) t,
        err (
            plain (
              if leb max_failed_attempts (token.failed_attempts + 1)
              then pairing_locked
              else pairing_invalid)),
      )
      else consume s token.id (new_device s req device_id user_id began t) began

  -- A claim that nothing comes in between.
  pub claim : (Text → Text) → Store → ClaimRequest → Text → Text → ℕ → Store × Result Text
  unfolding begin_claim finish_claim
  claim upper s req device_id user_id t = elim (begin_claim upper s req t) [
    | err e ↦ (s, err e)
    | ok token ↦ finish_claim s token req device_id user_id t t
  ]
