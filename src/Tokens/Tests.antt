-- ===== src/Tokens/Tests.antt =====
-- One device and its tokens, and the theorems on auth/tokens.ts at it.
use local_cast.Base.{
  Bool-cases, text_eq, text_eq_iff, inl, inr, ◌≡◌, ◌≢◌, refl, ◌+◌, ℕ, List, [], ◌∷◌, none, some,
  Text, codes, ok,
}
use local_cast.Base.Int.{pos}
use local_cast.Js.{number}
use local_cast.Maps.{get}
use local_cast.Tokens.{
  DeviceRow, active, Devices, DeviceIdentity, Verified, invalid, Crypto, TokenServiceOptions,
  version, payload, identity, verify_playback_ticket, verify_access_token, issue_access_token,
  check_refresh, revoke,
}
use local_cast.Tokens.Acceptance.{IsKeyed}
use local_cast.Tokens.Revocation.{TokenCall, issues, touches, steps, revoked_stays_out}

-- A text without its dots.
abbrev no_dots : Text → Text
no_dots [] = []
no_dots (c ∷ s) = (c + 47) ∷ no_dots s

-- An access token is its subject with the version in front, the hash of a text is the text, and a
-- signature is the text that is signed, its code units moved past the dot.
abbrev crypto : Crypto
crypto = record {
  sign = λ sub tv jti iat exp. tv ∷ sub;
  jwt_verify = λ token now. read token;
  signature = no_dots;
  fast_hash = λ s. s;
  from_hex = λ s. s;
  to_number = λ s. some (pos (number s));
}
  where
    read : Text → Verified
    read [] = invalid
    read (tv ∷ sub) = payload (some sub) (version tv)

abbrev opts : TokenServiceOptions
opts = record { access_token_ttl_ms = 900; refresh_token_ttl_ms = 5_000 }

abbrev device : DeviceRow
device = record {
  id = codes "d1";
  user_id = codes "u";
  name = codes "Phone";
  platform = codes "web";
  status = active;
  token_version = 1;
  dav_password_hash = none;
  refresh_hash = some (codes "old");
  refresh_expires_at = some 4_000;
  last_seen_at = none;
  last_peer = none;
  created_at = 0;
}

abbrev devices : Devices
devices = (codes "d1", device) ∷ []

access :
    verify_access_token crypto devices (issue_access_token crypto opts device [] 10).0 20
    ≡ ok (identity device)
unfolding verify_access_token text_eq
access = refl

devices-IsKeyed : IsKeyed devices
unfolding get
devices-IsKeyed k = elim (Bool-cases (text_eq (codes "d1") k)) [
  | inl e ↦ rw e ((text_eq_iff (codes "d1") k).0 e)
  | inr e ↦ rw e tt
]

abbrev calls : List TokenCall
calls = issues device [] (codes "new") 30 40 ∷ touches (codes "d1") (codes "lan") 60_000 50 ∷ []

revoked_stays_out_example :
    let db' = steps crypto opts (revoke devices (codes "d1")) calls in
    ((token : Text) (now : ℕ) (who : DeviceIdentity)
      → verify_access_token crypto db' token now ≡ ok who
      → who.id ≢ codes "d1")
    × ((ticket file : Text) (now : ℕ) (who : DeviceIdentity)
        → verify_playback_ticket crypto db' ticket file now ≡ ok who
        → who.id ≢ codes "d1")
    × ((presented : Text) (now : ℕ) (d : DeviceRow)
        → check_refresh crypto db' presented now ≡ ok d
        → d.id ≢ codes "d1")
revoked_stays_out_example = revoked_stays_out crypto opts devices (codes "d1") calls devices-IsKeyed
