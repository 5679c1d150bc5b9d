-- ===== src/Tokens/Rows.antt =====
-- apps/server/src/auth/tokens.ts: the row of a device, and what the tokens are made of.
use local_cast.Base.{ℕ, List, Option, Text}
use local_cast.Base.Int.{ℤ}

pub data DeviceStatus : Type 0 where
  pending active revoked : DeviceStatus

pub record DeviceRow : Type 0 where
  pub id : Text
  pub user_id : Text
  pub name : Text
  pub platform : Text
  pub status : DeviceStatus
  pub token_version : ℕ
  pub dav_password_hash : Option Text
  pub refresh_hash : Option Text
  pub refresh_expires_at : Option ℕ
  pub last_seen_at : Option ℕ
  pub last_peer : Option Text
  pub created_at : ℕ

abbrev pub Devices : Type 0
Devices = List (Text × DeviceRow)

pub record DeviceIdentity : Type 0 where
  pub id : Text
  pub user_id : Text
  pub name : Text
  pub platform : Text
  pub token_version : ℕ

-- `payload['tv']`
pub data Version : Type 0 where
  version : ℕ → Version
  other_number not_a_number : Version

-- What `jwtVerify` comes to.
pub data Verified : Type 0 where
  expired invalid : Verified
  payload : Option Text → Version → Verified

-- `sign` has the subject, the version, the id, and the two times in seconds; `signature` is the HMAC
-- of a text in base64url; `to_number` is `Number`, where it gives an integer.
pub record Crypto : Type 0 where
  pub sign : Text → ℕ → Text → ℕ → ℕ → Text
  pub jwt_verify : Text → ℕ → Verified
  pub signature : Text → Text
  pub fast_hash : Text → Text
  pub from_hex : Text → List ℕ
  pub to_number : Text → Option ℤ

pub record TokenServiceOptions : Type 0 where
  pub access_token_ttl_ms : ℕ
  pub refresh_token_ttl_ms : ℕ

pub record IssuedTokens : Type 0 where
  pub access_token : Text
  pub refresh_token : Text
  pub expires_at : ℕ
