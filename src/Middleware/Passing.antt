-- ===== src/Middleware/Passing.antt =====
-- apps/server/src/auth/middleware.ts: who gets past the middleware.
use mathlib.Core.Path.{subst}
use local_cast.Base.{
  ℕ, ◌≡◌, ◌⊎◌, inl, inr, refl, sym, ap, ◌∙◌, Bool, true, false, not, ◌&&◌, ◌||◌, [], ◌∷◌, Option,
  none, some, Text, if◌then◌else◌, arith, Result, ok, err,
}
use local_cast.Contract.Errors.{plain, unauthenticated, not_found}
use local_cast.Tokens.{Crypto, Devices, DeviceIdentity, verify_access_token, verify_playback_ticket}
use local_cast.Middleware.{
  Request, secure_equals, edge_secret_guard, content_file, is_loopback_address, loopback_only,
  identified_as, ticket_for, ticket_path, ticket_auth, playback_ticket_auth, header_token,
  token_auth, bearer, bearer_auth, authenticate,
}

let_through :
    (a b : Bool) (req passed : Request)
    → (if a then ok req else if b then ok req else err (plain unauthenticated)) ≡ ok passed
    → (passed ≡ req) × ((a ≡ true) ⊎ (b ≡ true))
let_through true b req passed h = (cc, inl refl)
let_through false true req passed h = (cc, inr refl)
let_through false false req passed h = absurd cc

not_stopped :
    (a : Bool) (passed reached : Request)
    → (if a then err (plain not_found) else ok passed) ≡ ok reached
    → (a ≡ false) × (reached ≡ passed)
not_stopped true passed reached h = absurd cc
not_stopped false passed reached h = (refl, cc)

not_lan :
    (a l v i : Bool)
    → (a ≡ true) ⊎ ((l && v) ≡ true)
    → (v || not i) ≡ false
    → (a ≡ true) × (v ≡ false) × (i ≡ true)
not_lan a l v i h k = ground arith

-- A request that passes the guard of the edge and reaches the operator's routes has come with the
-- edge's secret, not over the listener for the local network, and from an address of this machine,
-- whether sharing over the local network is on or not.
pub operator_closed :
    (sha256 : Text → Text) (secret : Text) (lan_allowed : Bool) (req passed reached : Request)
    → edge_secret_guard sha256 secret lan_allowed req ≡ ok passed
    → loopback_only passed ≡ ok reached
    → (secure_equals sha256 req.edge_secret secret ≡ true)
      × (req.via_lan ≡ false)
      × (is_loopback_address req.remote_address ≡ true)
      × (reached ≡ req)
unfolding edge_secret_guard loopback_only
operator_closed sha256 secret lan_allowed req passed reached h k =
    let (same, way) =
      let_through (secure_equals sha256 req.edge_secret secret) (lan_allowed && req.via_lan) req
        passed h in
    let (open_to, kept) =
      not_stopped (passed.via_lan || not (is_loopback_address passed.remote_address)) passed reached
        k in
    let (secret_known, near, local) =
      not_lan _ lan_allowed req.via_lan (is_loopback_address req.remote_address) way (
        ap (λ (r : Request). r.via_lan || not (is_loopback_address r.remote_address)) (sym same)
        ∙ open_to) in
    (secret_known, near, local, kept ∙ same)

module _ (c : Crypto) (decode : Text → Option Text) (interval : ℕ) where
  -- A playback ticket for the file that the path names.
  pub record HasTicket (db : Devices) (req : Request) (now : ℕ) (d : DeviceIdentity) : Type 0 where
    pub text : Text
    pub part : Text
    pub file : Text
    pub given : req.ticket ≡ some text
    pub at : content_file req.path ≡ some part
    pub decoded : decode part ≡ some file
    pub good : verify_playback_ticket c db text file now ≡ ok d

  -- An access token in the header.
  pub record HasToken (db : Devices) (req : Request) (now : ℕ) (d : DeviceIdentity) : Type 0 where
    pub token : Text
    pub given : header_token req.authorization ≡ some token
    pub good : verify_access_token c db token now ≡ ok d

  identified_as-device :
      (db : Devices) (req : Request) (now : ℕ) (m : Result DeviceIdentity)
      (passed : Devices × Request)
      → identified_as c decode interval db req now m ≡ ok passed
      → (d : DeviceIdentity) × (m ≡ ok d) × (passed.1.device ≡ some d)
  unfolding identified_as
  identified_as-device db req now (err e) passed h = absurd cc
  identified_as-device db req now (ok d) passed h =
      (d, refl, sym (ap (λ (x : Devices × Request). x.1.device) (ok-passed _ passed h)))
    where
      ok-passed : (a b : Devices × Request) → ok a ≡ ok b → a ≡ b
      ok-passed a b e = cc

  ticket_auth-HasTicket :
      (db : Devices) (req : Request) (now : ℕ) (passed : Devices × Request)
      → playback_ticket_auth c decode interval db req now ≡ ok passed
      → (passed ≡ (db, req))
        ⊎ ((d : DeviceIdentity) × HasTicket db req now d × (passed.1.device ≡ some d))
  unfolding playback_ticket_auth ticket_auth ticket_path ticket_for
  ticket_auth-HasTicket db req now passed h = at_ticket req.ticket refl h
    where
      ok-passed : (a b : Devices × Request) → ok a ≡ ok b → b ≡ a
      ok-passed a b e = cc

      at_file :
          (text part : Text) (m : Option Text)
          → req.ticket ≡ some text
          → content_file req.path ≡ some part
          → decode part ≡ m
          → ticket_for c decode interval db req now text m ≡ ok passed
          → (passed ≡ (db, req))
            ⊎ ((d : DeviceIdentity) × HasTicket db req now d × (passed.1.device ≡ some d))
      at_file text part none e f g k = inl (ok-passed _ passed k)
      at_file text part (some file) e f g k =
          let (d, good, set) =
            identified_as-device db req now (verify_playback_ticket c db text file now) passed k in
          inr (
            d,
            record {
              text = text;
              part = part;
              file = file;
              given = e;
              at = f;
              decoded = g;
              good = good;
            },
            set,
          )

      at_path :
          (text : Text) (m : Option Text)
          → req.ticket ≡ some text
          → content_file req.path ≡ m
          → ticket_path c decode interval db req now text m ≡ ok passed
          → (passed ≡ (db, req))
            ⊎ ((d : DeviceIdentity) × HasTicket db req now d × (passed.1.device ≡ some d))
      at_path text none e f k = inl (ok-passed _ passed k)
      at_path text (some part) e f k = at_file text part (decode part) e f refl k

      at_ticket :
          (m : Option Text)
          → req.ticket ≡ m
          → ticket_auth c decode interval db req now m ≡ ok passed
          → (passed ≡ (db, req))
            ⊎ ((d : DeviceIdentity) × HasTicket db req now d × (passed.1.device ≡ some d))
      at_ticket none e k = inl (ok-passed _ passed k)
      at_ticket (some []) e k = inl (ok-passed _ passed k)
      at_ticket (some (x ∷ s)) e k = at_path (x ∷ s) (content_file req.path) e refl k

  bearer-HasToken :
      (db : Devices) (req : Request) (now : ℕ) (passed : Devices × Request)
      → req.device ≡ none
      → bearer_auth c decode interval db req now ≡ ok passed
      → (d : DeviceIdentity) × HasToken db req now d × (passed.1.device ≡ some d)
  unfolding bearer_auth bearer token_auth
  bearer-HasToken db req now passed none_yet h =
      at_header (header_token req.authorization) refl (rw none_yet at h)
    where
      at_header :
          (m : Option Text)
          → header_token req.authorization ≡ m
          → token_auth c decode interval db req now m ≡ ok passed
          → (d : DeviceIdentity) × HasToken db req now d × (passed.1.device ≡ some d)
      at_header none e k = absurd cc
      at_header (some token) e k =
          let (d, good, set) =
            identified_as-device db req now (verify_access_token c db token now) passed k in
          (d, record { token = token; given = e; good = good }, set)

  bearer-kept :
      (db : Devices) (req : Request) (now : ℕ) (passed : Devices × Request) (d : DeviceIdentity)
      → req.device ≡ some d
      → bearer_auth c decode interval db req now ≡ ok passed
      → passed.1.device ≡ some d
  unfolding bearer_auth bearer
  bearer-kept db req now passed d known h =
      sym (ap (λ (x : Devices × Request). x.1.device) (ok-passed _ passed (rw known at h)))
    where
      ok-passed : (a b : Devices × Request) → ok a ≡ ok b → a ≡ b
      ok-passed a b e = cc

  -- A request that passes both of them without a device on it has come with a good playback ticket
  -- for the file whose content its path asks for, or with a good access token, and the device of
  -- that ticket or token is the one that the routes see.
  pub authenticated :
      (db : Devices) (req : Request) (now : ℕ) (passed : Devices × Request)
      → req.device ≡ none
      → authenticate c decode interval db req now ≡ ok passed
      → (d : DeviceIdentity) × (HasTicket db req now d ⊎ HasToken db req now d)
        × (passed.1.device ≡ some d)
  unfolding authenticate
  authenticated db req now passed none_yet h =
      by_ticket (playback_ticket_auth c decode interval db req now) refl h
    where
      by_ticket :
          (m : Result (Devices × Request))
          → playback_ticket_auth c decode interval db req now ≡ m
          → (elim m [
            | err e ↦ err e
            | ok found ↦ bearer_auth c decode interval found.0 found.1 now
          ])
            ≡ ok passed
          → (d : DeviceIdentity) × (HasTicket db req now d ⊎ HasToken db req now d)
            × (passed.1.device ≡ some d)
      by_ticket (err e) k g = absurd cc
      by_ticket (ok found) k g = elim (ticket_auth-HasTicket db req now found k) [
        | inl same ↦
            let (d, token, set) = bearer-HasToken db req now passed none_yet (
              subst
                (λ (x : Devices × Request). bearer_auth c decode interval x.0 x.1 now ≡ ok passed)
                same g) in
            (d, inr token, set)
        | inr (d, ticket, set) ↦ (d, inl ticket, bearer-kept found.0 found.1 now passed d set g)
      ]
