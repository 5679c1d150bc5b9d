-- ===== src/Middleware.antt =====
-- apps/server/src/auth/middleware.ts: what a request passes before a route answers it.
--
-- A middleware that calls `next()` returns the request, with what it has set on it, and one that calls
-- `next(err)` returns the exception. `sha256` is the digest, and `decode` is `decodeURIComponent`
-- where it does not throw.
pub mod Passing
mod Tests
use local_cast.Base.{
  ℕ, zero, suc, ◌+◌, Bool, true, false, not, ◌&&◌, ◌||◌, List, [], ◌∷◌, Option, none, some, Text,
  codes, text_eq, starts_with, ltb, leb, ◌==◌, if◌then◌else◌, length, drop, Result, ok, err,
}
use local_cast.Contract.Errors.{plain, unauthenticated, not_found}
use local_cast.Js.{is_space, skip_spaces, trim, split, is_digit}
use local_cast.Tokens.{
  Crypto, Devices, DeviceIdentity, verify_access_token, verify_playback_ticket, touch,
}

pub record Request : Type 0 where
  pub path : Text
  -- `pt` of the query, if it is a string
  pub ticket : Option Text
  pub authorization : Option Text
  pub edge_secret : Option Text
  pub edge_peer : Option Text
  pub remote_address : Option Text
  pub via_lan : Bool
  pub device : Option DeviceIdentity
  pub peer : Option Text

abbrev pub funnel : Text
funnel = codes "funnel"

pub secure_equals : (Text → Text) → Option Text → Text → Bool
unfolding text_eq
secure_equals sha256 none b = false
secure_equals sha256 (some a) b = text_eq (sha256 a) (sha256 b)

pub edge_secret_guard : (Text → Text) → Text → Bool → Request → Result Request
unfolding secure_equals
edge_secret_guard sha256 secret lan_allowed req =
    if secure_equals sha256 req.edge_secret secret
    then ok req
    else if lan_allowed && req.via_lan
    then ok req
    else err (plain unauthenticated)

pub peer_of : Option Text → Text
unfolding trim
peer_of none = funnel
peer_of (some raw) = if ltb 0 (length (trim raw)) then trim raw else funnel

pub peer_context : Request → Request
unfolding peer_of
peer_context req = record req { peer = some (peer_of req.edge_peer) }

-- `[^/]+`, as far as it goes
pub span_segment : Text → Text × Text
span_segment [] = ([], [])
span_segment (c ∷ s) =
    let rest = span_segment s in if c == b'/' then ([], c ∷ s) else (c ∷ rest.0, rest.1)

-- `CONTENT_PATH.exec(path)`
pub content_file : Text → Option Text
unfolding starts_with text_eq span_segment
content_file path =
    let found = span_segment (drop 7 path) in
    if starts_with path (codes "/files/")
      && ltb 0 (length found.0)
      && (text_eq found.1 (codes "/content") || text_eq found.1 (codes "/content/"))
    then some found.0
    else none

pub or_funnel : Option Text → Text
or_funnel none = funnel
or_funnel (some peer) = peer

-- `p` in small letters begins `s`, whatever its case.
pub begins : Text → Text → Bool
begins s [] = true
begins [] (b ∷ p) = false
begins (a ∷ s) (b ∷ p) = (a == b || a + 32 == b) && begins s p

-- The token behind `/^Bearer\s+/i`.
abbrev pub spaced_token : Text → Option Text
spaced_token [] = none
spaced_token (c ∷ s) = if is_space c then some (trim (skip_spaces s)) else none

pub bearer_token : Text → Option Text
unfolding begins is_space trim skip_spaces
bearer_token header = if begins header (codes "bearer") then spaced_token (drop 6 header) else none

pub header_token : Option Text → Option Text
unfolding bearer_token
header_token none = none
header_token (some header) = bearer_token header

-- `/^\d{1,3}$/`
pub is_octet : Text → Bool
unfolding is_digit
is_octet (a ∷ []) = is_digit a
is_octet (a ∷ b ∷ []) = is_digit a && is_digit b
is_octet (a ∷ b ∷ c ∷ []) = is_digit a && is_digit b && is_digit c
is_octet _ = false

pub is_loopback_v4 : List Text → Bool
unfolding text_eq is_octet
is_loopback_v4 (a ∷ b ∷ c ∷ d ∷ []) =
    text_eq a (codes "127") && is_octet b && is_octet c && is_octet d
is_loopback_v4 _ = false

pub is_loopback_address : Option Text → Bool
unfolding text_eq starts_with split is_loopback_v4
is_loopback_address none = false
is_loopback_address (some s) =
    text_eq s (codes "::1")
    || text_eq s (codes "::ffff:127.0.0.1")
    || is_loopback_v4 (split b'.' (if starts_with s (codes "::ffff:") then drop 7 s else s))

pub loopback_only : Request → Result Request
unfolding is_loopback_address
loopback_only req =
    if req.via_lan || not (is_loopback_address req.remote_address)
    then err (plain not_found)
    else ok req

module _ (c : Crypto) (decode : Text → Option Text) (interval : ℕ) where
  -- The device that has been identified is put on the request and touched.
  pub identified_as : Devices → Request → ℕ → Result DeviceIdentity → Result (Devices × Request)
  unfolding touch or_funnel
  identified_as db req now (err e) = err e
  identified_as db req now (ok d) = ok (
    touch db d.id (or_funnel req.peer) interval now,
    record req { device = some d; peer = some (or_funnel req.peer) },
  )

  pub ticket_for : Devices → Request → ℕ → Text → Option Text → Result (Devices × Request)
  unfolding identified_as verify_playback_ticket
  ticket_for db req now ticket none = ok (db, req)
  ticket_for db req now ticket (some file) =
      identified_as db req now (verify_playback_ticket c db ticket file now)

  pub ticket_path : Devices → Request → ℕ → Text → Option Text → Result (Devices × Request)
  unfolding ticket_for
  ticket_path db req now ticket none = ok (db, req)
  ticket_path db req now ticket (some part) = ticket_for db req now ticket (decode part)

  pub ticket_auth : Devices → Request → ℕ → Option Text → Result (Devices × Request)
  unfolding ticket_path content_file
  ticket_auth db req now none = ok (db, req)
  ticket_auth db req now (some []) = ok (db, req)
  ticket_auth db req now (some (x ∷ s)) = ticket_path db req now (x ∷ s) (content_file req.path)

  pub playback_ticket_auth : Devices → Request → ℕ → Result (Devices × Request)
  unfolding ticket_auth
  playback_ticket_auth db req now = ticket_auth db req now req.ticket

  pub token_auth : Devices → Request → ℕ → Option Text → Result (Devices × Request)
  unfolding identified_as verify_access_token
  token_auth db req now none = err (plain unauthenticated)
  token_auth db req now (some token) = identified_as db req now (verify_access_token c db token now)

  pub bearer : Devices → Request → ℕ → Option DeviceIdentity → Result (Devices × Request)
  unfolding token_auth header_token
  bearer db req now (some d) = ok (db, req)
  bearer db req now none = token_auth db req now (header_token req.authorization)

  pub bearer_auth : Devices → Request → ℕ → Result (Devices × Request)
  unfolding bearer
  bearer_auth db req now = bearer db req now req.device

  -- The two of them, in the order of the router for devices.
  pub authenticate : Devices → Request → ℕ → Result (Devices × Request)
  unfolding playback_ticket_auth bearer_auth
  authenticate db req now = elim (playback_ticket_auth db req now) [
    | err e ↦ err e
    | ok found ↦ bearer_auth found.0 found.1 now
  ]
