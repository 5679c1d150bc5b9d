-- ===== src/Tokens.antt =====
-- apps/server/src/auth/tokens.ts: access tokens, playback tickets and refresh tokens of a device.
--
-- `devices` is a map by id. What comes from jose and node is the record `Crypto`; ids, random texts
-- and times are arguments. A session waits for the signature between reading the device and storing
-- the refresh token, so `redeem` has its two halves, `check_refresh` and `issue_session`.
mod Rows
pub mod Acceptance
pub mod Revocation
pub mod Rotation
pub mod Tickets
mod Tests
pub use Rows.*
use local_cast.Base.{
  ℕ, suc, ◌+◌, ◌-◌, ◌*◌, ◌/◌, Bool, true, false, not, ◌&&◌, ◌||◌, List, [], ◌∷◌, ◌++◌, Option, none,
  some, Text, codes, text_eq, ltb, leb, ◌==◌, if◌then◌else◌, Result, ok, err, ◌>>=◌, ◌>>◌, throw_if,
}
use local_cast.Base.Int.{ℤ, pos, negsuc}
use local_cast.Contract.Errors.{
  plain, unauthenticated, token_expired, token_revoked, device_pending, device_revoked,
}
use local_cast.Js.{split, decimal, is_safe_integer}
use local_cast.Maps.{get, set}

unfoldable pub get_device : Devices → Text → Option DeviceRow
unfolding get
get_device db id = get id db

abbrev pub identity : DeviceRow → DeviceIdentity
identity d = record {
  id = d.id;
  user_id = d.user_id;
  name = d.name;
  platform = d.platform;
  token_version = d.token_version;
}

-- `.` joins the parts of a ticket and of a refresh token.
abbrev pub dot : ℕ
dot = 46

abbrev pub add_front : ℕ → Option (Text × Text) → Option (Text × Text)
add_front c none = none
add_front c (some (a, b)) = some (c ∷ a, b)

-- `presented.indexOf('.')` and the slices before and behind it.
unfoldable pub cut : Text → Option (Text × Text)
cut [] = none
cut (c ∷ s) = let rest = cut s in if c == dot then some ([], s) else add_front c rest

abbrev pub is_empty : Text → Bool
is_empty [] = true
is_empty (c ∷ s) = false

-- `Buffer.equals`, at the same length
unfoldable pub bytes_eq : List ℕ → List ℕ → Bool
unfolding text_eq
bytes_eq a b = text_eq a b

abbrev pub is_pending : DeviceStatus → Bool
is_pending pending = true
is_pending _ = false

abbrev pub is_active : DeviceStatus → Bool
is_active active = true
is_active _ = false

-- The expiry of a ticket, when it is a safe integer in the future.
pub check_expiry : Option ℤ → ℕ → Result ℕ
check_expiry none now = err (plain unauthenticated)
check_expiry (some (pos n)) now = do
  throw_if (not (is_safe_integer n)) (plain unauthenticated)
  throw_if (leb n now) (plain token_expired)
  ok n
check_expiry (some (negsuc n)) now = do
  throw_if (not (is_safe_integer (suc n))) (plain unauthenticated)
  err (plain token_expired)

pub is_version : Version → ℕ → Bool
is_version (version n) tv = n == tv
is_version _ tv = false

pub check_version : Version → Option DeviceRow → Result DeviceIdentity
unfolding is_version
check_version tv none = err (plain unauthenticated)
check_version tv (some d) = do
  throw_if (is_pending d.status) (plain device_pending)
  throw_if (not (is_active d.status)) (plain device_revoked)
  throw_if (not (is_version tv d.token_version)) (plain token_revoked)
  ok (identity d)

pub check_payload : Devices → Verified → Result DeviceIdentity
unfolding check_version get_device
check_payload db expired = err (plain token_expired)
check_payload db invalid = err (plain unauthenticated)
check_payload db (payload none tv) = err (plain unauthenticated)
check_payload db (payload (some []) tv) = err (plain unauthenticated)
check_payload db (payload (some sub) not_a_number) = err (plain unauthenticated)
check_payload db (payload (some sub) tv) = check_version tv (get_device db sub)

-- `UPDATE devices SET … WHERE id = ?`
unfoldable pub update : Devices → Text → (DeviceRow → DeviceRow) → Devices
unfolding get set
update db id f = elim (get id db) [ none ↦ db | some d ↦ set id (f d) db ]

abbrev pub has_lapsed : Option ℕ → ℕ → Bool
has_lapsed none now = false
has_lapsed (some t) now = ltb t now

module _ (c : Crypto) where
  abbrev pub issue_access_token : TokenServiceOptions → DeviceRow → Text → ℕ → Text × ℕ
  issue_access_token opts d jti now =
      let expires_at = now + opts.access_token_ttl_ms in
      (c.sign d.id d.token_version jti (now / 1000) (expires_at / 1000), expires_at)

  pub playback_signature : Text → Text → ℕ → ℕ → Text
  unfolding decimal
  playback_signature device file expires_at token_version = c.signature (
      codes "playback:"
      ++ (device ++ (58 ∷ (file ++ (58 ∷ (decimal expires_at ++ (58 ∷ decimal token_version)))))))

  pub issue_playback_ticket : DeviceRow → Text → ℕ → ℕ → Text × ℕ
  unfolding playback_signature decimal
  issue_playback_ticket d file ttl now =
      let expires_at = now + ttl in
      (
        d.id
            ++ (dot
                ∷ (decimal expires_at
                    ++ (dot ∷ playback_signature d.id file expires_at d.token_version))),
        expires_at,
      )

  pub check_signature : Text → ℕ → Text → Option DeviceRow → Result DeviceIdentity
  unfolding playback_signature text_eq
  check_signature file expires_at given none = err (plain unauthenticated)
  check_signature file expires_at given (some d) = do
    throw_if (not (is_active d.status)) (plain device_revoked)
    throw_if (not (text_eq given (playback_signature d.id file expires_at d.token_version)))
        (plain unauthenticated)
    ok (identity d)

  pub verify_parts : Devices → List Text → Text → ℕ → Result DeviceIdentity
  unfolding check_expiry check_signature get_device
  verify_parts db (device ∷ expires ∷ given ∷ []) file now = do
    expires_at ← check_expiry (c.to_number expires) now
    check_signature file expires_at given (get_device db device)
  verify_parts db parts file now = err (plain unauthenticated)

  unfoldable pub verify_playback_ticket : Devices → Text → Text → ℕ → Result DeviceIdentity
  unfolding verify_parts split
  verify_playback_ticket db ticket file now = verify_parts db (split dot ticket) file now

  unfoldable pub verify_access_token : Devices → Text → ℕ → Result DeviceIdentity
  unfolding check_payload
  verify_access_token db token now = check_payload db (c.jwt_verify token (now / 1000))

  abbrev pub with_refresh : TokenServiceOptions → Text → ℕ → DeviceRow → DeviceRow
  with_refresh opts raw now d = record d {
    refresh_hash = some (c.fast_hash raw);
    refresh_expires_at = some (now + opts.refresh_token_ttl_ms);
  }

  -- `raw` is the random text.
  pub issue_refresh_token : TokenServiceOptions → Devices → Text → Text → ℕ → Devices × Text
  unfolding update
  issue_refresh_token opts db id raw now =
      (update db id (with_refresh opts raw now), id ++ (dot ∷ raw))

  -- `d` is the device as it was read; `began` the time of the access token.
  pub issue_session :
      TokenServiceOptions → Devices → DeviceRow → Text → Text → ℕ → ℕ → Devices × IssuedTokens
  unfolding issue_refresh_token
  issue_session opts db d jti raw began now =
      let (token, expires_at) = issue_access_token opts d jti began in
      let (db', refresh) = issue_refresh_token opts db d.id raw now in
      (db', record { access_token = token; refresh_token = refresh; expires_at = expires_at })

  pub check_hash : Text → DeviceRow → Option Text → ℕ → Result DeviceRow
  unfolding bytes_eq
  check_hash raw d none now = err (plain unauthenticated)
  check_hash raw d (some []) now = err (plain unauthenticated)
  check_hash raw d (some hash) now = do
    throw_if (is_pending d.status) (plain device_pending)
    throw_if (not (is_active d.status)) (plain device_revoked)
    throw_if (not (bytes_eq (c.from_hex (c.fast_hash raw)) (c.from_hex hash)))
        (plain unauthenticated)
    throw_if (has_lapsed d.refresh_expires_at now) (plain token_expired)
    ok d

  pub check_device : Text → Option DeviceRow → ℕ → Result DeviceRow
  unfolding check_hash
  check_device raw none now = err (plain unauthenticated)
  check_device raw (some d) now = check_hash raw d d.refresh_hash now

  pub check_cut : Devices → Option (Text × Text) → ℕ → Result DeviceRow
  unfolding check_device get_device
  check_cut db none now = err (plain unauthenticated)
  check_cut db (some (device, raw)) now =
      if is_empty device || is_empty raw
      then err (plain unauthenticated)
      else check_device raw (get_device db device) now

  -- `redeemRefreshToken` before the wait.
  pub check_refresh : Devices → Text → ℕ → Result DeviceRow
  unfolding cut check_cut
  check_refresh db presented now = check_cut db (cut presented) now

  -- A redemption that nothing comes in between.
  pub redeem :
      TokenServiceOptions → Devices → Text → Text → Text → ℕ → Devices × Result IssuedTokens
  unfolding check_refresh issue_session
  redeem opts db presented jti raw now = elim (check_refresh db presented now) [
    | err e ↦ (db, err e)
    | ok d ↦ let (db', tokens) = issue_session opts db d jti raw now now in (db', ok tokens)
  ]

abbrev pub revoked_row : DeviceRow → DeviceRow
revoked_row d = record d {
  status = revoked;
  token_version = d.token_version + 1;
  refresh_hash = none;
  refresh_expires_at = none;
}

unfoldable pub revoke : Devices → Text → Devices
unfolding update
revoke db id = update db id revoked_row

-- `last_seen_at IS NULL OR last_seen_at < now - minIntervalMs`, over the integers.
abbrev pub is_stale : Option ℕ → ℕ → ℕ → Bool
is_stale none now interval = true
is_stale (some t) now interval = ltb (t + interval) now

pub touched : Text → ℕ → ℕ → DeviceRow → DeviceRow
touched peer now interval d =
    if is_stale d.last_seen_at now interval
    then record d { last_seen_at = some now; last_peer = some peer }
    else d

unfoldable pub touch : Devices → Text → Text → ℕ → ℕ → Devices
unfolding update touched
touch db id peer interval now = update db id (touched peer now interval)
