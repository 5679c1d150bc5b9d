-- ===== src/Pairing/Lockout.antt =====
-- The lockout of a pairing code in auth/pairing.ts, and how far it reaches.
use local_cast.Base.{
  ℕ, ◌+◌, ◌<◌, ◌≡◌, refl, ◌∙◌, Bool, true, false, List, [], ◌∷◌, none, some, Text, arith, leb,
  if◌then◌else◌,
}
use local_cast.Maps.{get, get-set_self}
use local_cast.Pairing.{
  PairingTokenRow, Store, ClaimRequest, register_failure, is_wrong, finish_claim,
}

-- What a failure makes of the row.
abbrev pub failed : ℕ → ℕ → PairingTokenRow → PairingTokenRow
failed attempts t row = record row {
  failed_attempts = attempts;
  locked_at = (if leb 5 attempts then some t else none);
}

register_failure_lem :
    (s : Store) (id : Text) (row : PairingTokenRow) (attempts t : ℕ)
    → get id s.tokens ≡ some row
    → get id (register_failure s id attempts t).tokens ≡ some (failed attempts t row)
unfolding register_failure
register_failure_lem s id row attempts t found =
    rw (found, register_failure) (get-set_self id (failed attempts t row) s.tokens)

module _ (verify_password : Text → Text → Bool) where
  finish_wrong :
      (s : Store) (token row : PairingTokenRow) (req : ClaimRequest) (device_id user_id : Text)
      (began t : ℕ)
      → get token.id s.tokens ≡ some row
      → is_wrong verify_password req.secret token.secret_hash ≡ true
      → get token.id (finish_claim verify_password s token req device_id user_id began t).0.tokens
        ≡ some (failed (token.failed_attempts + 1) t row)
  unfolding finish_claim
  finish_wrong s token row req device_id user_id began t found wrong =
      rw wrong (register_failure_lem s token.id row (token.failed_attempts + 1) t found)

  -- A run of claims with wrong secrets, one after the other, each of which reads the row that the
  -- one before has left.
  pub guess : Text → Store → PairingTokenRow → List (ClaimRequest × ℕ) → Store × PairingTokenRow
  guess id s row [] = (s, row)
  guess id s row ((req, t) ∷ rs) =
      guess id (finish_claim verify_password s row req [] [] t t).0
        (failed (row.failed_attempts + 1) t row) rs

  abbrev pub AllWrong : Text → List (ClaimRequest × ℕ) → Type 0
  AllWrong hash [] = Unit
  AllWrong hash ((req, t) ∷ rs) =
      (is_wrong verify_password req.secret hash ≡ true) × AllWrong hash rs

  -- Two claims that wait at the same time, with wrong secrets and the row that both have read, count
  -- as one failure: the second writes what the first has written, and locks no sooner.
  parallel_guesses :
      (s : Store) (token : PairingTokenRow) (req req' : ClaimRequest)
      (device_id device_id' user_id : Text) (t t' : ℕ)
      → get token.id s.tokens ≡ some token
      → is_wrong verify_password req.secret token.secret_hash ≡ true
      → is_wrong verify_password req'.secret token.secret_hash ≡ true
      → let s1 = (finish_claim verify_password s token req device_id user_id t t).0 in
        let s2 = (finish_claim verify_password s1 token req' device_id' user_id t' t').0 in
        get token.id s2.tokens ≡ some (failed (token.failed_attempts + 1) t' token)
  parallel_guesses s token req req' device_id device_id' user_id t t' found wrong wrong' =
      let first = finish_wrong s token token req device_id user_id t t found wrong in
      finish_wrong (finish_claim verify_password s token req device_id user_id t t).0 token
        (failed (token.failed_attempts + 1) t token) req' device_id' user_id t' t' first wrong'

  -- A claim with a wrong secret that has read the row when it had at most three failures writes its
  -- own count over whatever the row holds by then, and takes a lock away that others have set.
  pub stale_guess_unlocks :
      (s : Store) (token row : PairingTokenRow) (req : ClaimRequest) (device_id user_id : Text)
      (began t : ℕ)
      → get token.id s.tokens ≡ some row
      → is_wrong verify_password req.secret token.secret_hash ≡ true
      → token.failed_attempts + 1 < 5
      → get token.id (finish_claim verify_password s token req device_id user_id began t).0.tokens
        ≡ some (record row { failed_attempts = token.failed_attempts + 1; locked_at = none })
  stale_guess_unlocks s token row req device_id user_id began t found wrong few =
      let low : leb 5 (token.failed_attempts + 1) ≡ false = ground arith in
      finish_wrong s token row req device_id user_id began t found wrong ∙ rw low refl
