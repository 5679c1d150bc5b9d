-- ===== src/Middleware/Tests.antt =====
-- Requests of one device and of the operator, and the theorems on auth/middleware.ts at them.
use local_cast.Base.{
  ◌≡◌, ◌⊎◌, refl, true, false, [], ◌∷◌, Option, none, some, Text, codes, text_eq, ok, err,
}
use local_cast.Base.Int.{pos}
use local_cast.Contract.Errors.{plain, unauthenticated, not_found}
use local_cast.Js.{number}
use local_cast.Tokens.{
  DeviceRow, active, Devices, DeviceIdentity, Verified, invalid, Crypto, version, payload, identity,
  verify_access_token,
}
use local_cast.Middleware.{
  Request, secure_equals, edge_secret_guard, loopback_only, content_file, is_loopback_address,
  authenticate, header_token, peer_of,
}
use local_cast.Middleware.Passing.{HasTicket, HasToken, authenticated, operator_closed}

-- An access token is its subject with the version in front.
abbrev crypto : Crypto
crypto = record {
  sign = λ sub tv jti iat exp. tv ∷ sub;
  jwt_verify = λ token now. read token;
  signature = λ s. s;
  fast_hash = λ s. s;
  from_hex = λ s. s;
  to_number = λ s. some (pos (number s));
}
  where
    read : Text → Verified
    read [] = invalid
    read (tv ∷ sub) = payload (some sub) (version tv)

abbrev decode : Text → Option Text
decode s = some s

abbrev phone : DeviceRow
phone = record {
  id = codes "d1";
  user_id = codes "u";
  name = codes "Phone";
  platform = codes "web";
  status = active;
  token_version = b'1';
  dav_password_hash = none;
  refresh_hash = none;
  refresh_expires_at = none;
  last_seen_at = none;
  last_peer = none;
  created_at = 0;
}

abbrev devices : Devices
devices = (codes "d1", phone) ∷ []

abbrev listing : Request
listing = record {
  path = codes "/folders";
  ticket = some (codes "t");
  authorization = some (codes "bearer  1d1");
  edge_secret = some (codes "secret");
  edge_peer = some (codes " peer ");
  remote_address = some (codes "::ffff:127.0.0.1");
  via_lan = false;
  device = none;
  peer = none;
}

abbrev seen : Devices × Request
seen = (
  (codes "d1", record phone { last_seen_at = some 50; last_peer = some (codes "funnel") }) ∷ [],
  record listing { device = some (identity phone); peer = some (codes "funnel") },
)

listing_passes : authenticate crypto decode 10 devices listing 50 ≡ ok seen
unfolding authenticate text_eq verify_access_token
listing_passes = refl

no_header :
    authenticate crypto decode 10 devices (record listing { authorization = none }) 50
    ≡ err (plain unauthenticated)
unfolding authenticate
no_header = refl

content_path : content_file (codes "/files/a%20b/content/") ≡ some (codes "a%20b")
unfolding content_file
content_path = refl

no_content_path : content_file (codes "/files/a/b/content") ≡ none
unfolding content_file
no_content_path = refl

no_space : header_token (some (codes "Bearer1d1")) ≡ none
unfolding header_token
no_space = refl

the_peer : peer_of (some (codes " peer ")) ≡ codes "peer"
unfolding peer_of
the_peer = refl

from_afar : is_loopback_address (some (codes "10.0.0.1")) ≡ false
unfolding is_loopback_address
from_afar = refl

passes_edge : edge_secret_guard (λ s. s) (codes "secret") true listing ≡ ok listing
unfolding edge_secret_guard text_eq
passes_edge = refl

reaches_operator : loopback_only listing ≡ ok listing
unfolding loopback_only
reaches_operator = refl

over_lan : loopback_only (record listing { via_lan = true }) ≡ err (plain not_found)
unfolding loopback_only
over_lan = refl

authenticated_example :
    (d : DeviceIdentity) × (HasTicket crypto decode 10 devices listing 50 d
      ⊎ HasToken crypto decode 10 devices listing 50 d)
    × (seen.1.device ≡ some d)
authenticated_example = authenticated crypto decode 10 devices listing 50 seen refl listing_passes

operator_closed_example :
    (secure_equals (λ s. s) (some (codes "secret")) (codes "secret") ≡ true)
    × (listing.via_lan ≡ false)
    × (is_loopback_address listing.remote_address ≡ true)
    × (listing ≡ listing)
operator_closed_example =
    operator_closed (λ s. s) (codes "secret") true listing listing listing passes_edge
      reaches_operator
