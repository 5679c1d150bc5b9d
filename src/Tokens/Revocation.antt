-- ===== src/Tokens/Revocation.antt =====
-- apps/server/src/auth/tokens.ts: a device that has been revoked is out, whatever it holds.
use mathlib.Core.Path.{subst}
use local_cast.Base.{
  ◌≡◌, ◌≢◌, refl, ◌/◌, sym, ◌∙◌, ap, inl, inr, ℕ, Bool, true, false, List, [], ◌∷◌, Option, none,
  some, Text, if◌then◌else◌, ok, Option-cases,
}
use local_cast.Js.{split}
use local_cast.Maps.{get, set, get-set_self, get-set_ne, Text-cases}
use local_cast.Tokens.Acceptance.{
  HasId, IsKeyed, IsRevoked, IsActive-apart, check_payload-IsActive, verify_parts-IsActive,
  check_cut-IsActive,
}
use local_cast.Tokens.{
  DeviceRow, Devices, DeviceIdentity, Crypto, TokenServiceOptions, update, with_refresh,
  issue_refresh_token, issue_session, is_stale, is_stale, revoked_row, revoke, touched, touch,
  verify_access_token, verify_playback_ticket, check_refresh, dot, cut,
}

-- What holds of a row of the table, or of its absence, still holds when one row is updated, if the
-- update keeps it.
pub update_keeps :
    (P : Option DeviceRow → Type 0) (db : Devices) (id k : Text) (f : DeviceRow → DeviceRow)
    → ((d : DeviceRow) → P (some d) → P (some (f d)))
    → P (get k db)
    → P (get k (update db id f))
unfolding update
update_keeps P db id k f keep h = go (get id db) refl
  where
    go :
        (m : Option DeviceRow)
        → get id db ≡ m
        → P (get k (elim m [ none ↦ db | some d ↦ set id (f d) db ]))
    go none e = h
    go (some d) e = elim (Text-cases id k) [
      | inl same ↦
          subst (λ j. P (get j (set id (f d) db))) same
            (rw (get-set_self id (f d) db) (keep d (subst P (sym (ap (λ j. get j db) same) ∙ e) h)))
      | inr n ↦ rw (get-set_ne id k (f d) db n) h
    ]

-- The calls on the table of devices, in any order. A session is issued to a device as it was read at
-- some time before.
pub data TokenCall : Type 0 where
  issues : DeviceRow → Text → Text → ℕ → ℕ → TokenCall
  revokes : Text → TokenCall
  touches : Text → Text → ℕ → ℕ → TokenCall

module _ (c : Crypto) (opts : TokenServiceOptions) where
  pub step : Devices → TokenCall → Devices
  unfolding issue_session revoke touch
  step db (issues d jti raw began now) = (issue_session c opts db d jti raw began now).0
  step db (revokes id) = revoke db id
  step db (touches id peer interval now) = touch db id peer interval now

  pub steps : Devices → List TokenCall → Devices
  unfolding step
  steps db [] = db
  steps db (call ∷ calls) = steps (step db call) calls

  -- Each call updates one row, and keeps what the three updates keep.
  step_keeps :
      (P : Option DeviceRow → Type 0) (db : Devices) (call : TokenCall) (k : Text)
      → ((d : DeviceRow) (raw : Text) (now : ℕ)
          → P (some d)
          → P (some (with_refresh c opts raw now d)))
      → ((d : DeviceRow) → P (some d) → P (some (revoked_row d)))
      → ((d : DeviceRow) (peer : Text) (now interval : ℕ)
          → P (some d)
          → P (some (touched peer now interval d)))
      → P (get k db)
      → P (get k (step db call))
  unfolding step issue_session issue_refresh_token revoke touch
  step_keeps P db (issues d jti raw began now) k a b t h =
      update_keeps P db d.id k (with_refresh c opts raw now) (λ x. a x raw now) h
  step_keeps P db (revokes id) k a b t h = update_keeps P db id k revoked_row b h
  step_keeps P db (touches id peer interval now) k a b t h =
      update_keeps P db id k (touched peer now interval) (λ x. t x peer now interval) h

  touched_keeps :
      (P : Option DeviceRow → Type 0) (d : DeviceRow) (peer : Text) (now interval : ℕ)
      → P (some (record d { last_seen_at = some now; last_peer = some peer }))
      → P (some d)
      → P (some (touched peer now interval d))
  unfolding touched
  touched_keeps P d peer now interval a b = go (is_stale d.last_seen_at now interval)
    where
      go :
          (t : Bool)
          → P (some (if t then record d { last_seen_at = some now; last_peer = some peer } else d))
      go true = a
      go false = b

  steps-IsKeyed : (db : Devices) (calls : List TokenCall) → IsKeyed db → IsKeyed (steps db calls)
  unfolding steps
  steps-IsKeyed db [] keyed = keyed
  steps-IsKeyed db (call ∷ calls) keyed = steps-IsKeyed (step db call) calls (λ k.
      step_keeps (HasId k) db call k (λ d raw now h. h) (λ d h. h)
        (λ d peer now interval h. touched_keeps (HasId k) d peer now interval h h) (keyed k))

  steps-IsRevoked :
      (db : Devices) (calls : List TokenCall) (id : Text)
      → IsRevoked (get id db)
      → IsRevoked (get id (steps db calls))
  unfolding steps
  steps-IsRevoked db [] id h = h
  steps-IsRevoked db (call ∷ calls) id h = steps-IsRevoked (step db call) calls id (
      step_keeps IsRevoked db call id (λ d raw now e. e) (λ d e. refl)
        (λ d peer now interval e. touched_keeps IsRevoked d peer now interval e e) h)

revoke-IsKeyed : (db : Devices) (id : Text) → IsKeyed db → IsKeyed (revoke db id)
unfolding revoke
revoke-IsKeyed db id keyed k = update_keeps (HasId k) db id k revoked_row (λ d h. h) (keyed k)

-- A device that is not there is not there afterwards either.
revoke-IsRevoked : (db : Devices) (id : Text) → IsRevoked (get id (revoke db id))
unfolding revoke update
revoke-IsRevoked db id = elim (Option-cases (get id db)) [
  | inl e ↦ rw (e, revoke, update) (rw e tt)
  | inr (d, e) ↦ rw (e, revoke, update) (rw (get-set_self id (revoked_row d) db) refl)
]

module _ (c : Crypto) (opts : TokenServiceOptions) where
  -- Once a device has been revoked, nothing that it holds lets anyone in as that device, whatever
  -- sessions are issued and whatever devices are touched or revoked later: no access token, no
  -- playback ticket for any file, and no refresh token is accepted in its name.
  pub revoked_stays_out :
      (db : Devices) (id : Text) (calls : List TokenCall)
      → IsKeyed db
      → let db' = steps c opts (revoke db id) calls in
        ((token : Text) (now : ℕ) (who : DeviceIdentity)
          → verify_access_token c db' token now ≡ ok who
          → who.id ≢ id)
        × ((ticket file : Text) (now : ℕ) (who : DeviceIdentity)
            → verify_playback_ticket c db' ticket file now ≡ ok who
            → who.id ≢ id)
        × ((presented : Text) (now : ℕ) (d : DeviceRow)
            → check_refresh c db' presented now ≡ ok d
            → d.id ≢ id)
  unfolding verify_access_token verify_playback_ticket check_refresh
  revoked_stays_out db id calls keyed =
      let db' = steps c opts (revoke db id) calls in
      let keyed' = steps-IsKeyed c opts (revoke db id) calls (revoke-IsKeyed db id keyed) in
      let gone = steps-IsRevoked c opts (revoke db id) calls id (revoke-IsRevoked db id) in
      (
        (λ token now who h.
            IsActive-apart db' id who.id keyed' gone
              (check_payload-IsActive c db' (c.jwt_verify token (now / 1000)) who h)),
        (λ ticket file now who h.
            IsActive-apart db' id who.id keyed' gone
              (verify_parts-IsActive c db' (split dot ticket) file now who h)),
        (λ presented now d h.
            IsActive-apart db' id d.id keyed' gone
              (check_cut-IsActive c db' (cut presented) now d h)),
      )
