-- ===== src/Pairing/Tests.antt =====
-- Claims of one pairing code, and the theorems on auth/pairing.ts at them.
use local_cast.Base.{
  ℕ, ◌≤◌, ◌≡◌, refl, arith, Bool, true, List, [], ◌∷◌, none, some, Text, codes, text_eq,
}
use local_cast.Maps.{get}
use local_cast.Pairing.{PairingTokenRow, Store, ClaimRequest, is_wrong, finish_claim}
use local_cast.Pairing.SingleUse.{Finish, finish, count_paired, count_paired_bound}
use local_cast.Pairing.Lockout.{stale_guess_unlocks}

-- The hash of these tests is the secret itself.
abbrev verify : Text → Text → Bool
verify secret hash = text_eq secret hash

abbrev row : PairingTokenRow
row = record {
  id = codes "t1";
  code = codes "AB23";
  secret_hash = codes "s";
  failed_attempts = 3;
  locked_at = none;
  created_at = 0;
  expires_at = 100;
  consumed_at = none;
  consumed_by_device = none;
  default_permissions = codes "[]";
}

abbrev store : Store
store = record { tokens = (codes "t1", row) ∷ []; devices = [] }

abbrev request : Text → ClaimRequest
request secret = record {
  code = codes "ab23";
  secret = some secret;
  device_name = codes "Phone";
  platform = codes "web";
}

x_wrong : is_wrong verify (some (codes "x")) (codes "s") ≡ true
unfolding is_wrong text_eq
x_wrong = refl

abbrev second_half : Text → Finish
second_half device = record {
  token = row;
  req = request (codes "s");
  device_id = device;
  user_id = codes "owner";
  began = 5;
  ended = 6;
}

both_claims :
    count_paired verify
      (codes "t1")
      store
      (second_half (codes "d1") ∷ second_half (codes "d2") ∷ [])
    ≡ 1
unfolding count_paired finish text_eq finish_claim
both_claims = refl

count_paired_bound_example :
    count_paired verify
      (codes "t1")
      store
      (second_half (codes "d1") ∷ second_half (codes "d2") ∷ [])
    ≤ 1
count_paired_bound_example =
    count_paired_bound verify (codes "t1") store
      (second_half (codes "d1") ∷ second_half (codes "d2") ∷ [])

abbrev guesses : List (ClaimRequest × ℕ)
guesses = (request (codes "x"), 6) ∷ []

abbrev locked_row : PairingTokenRow
locked_row = record row { failed_attempts = 5; locked_at = some 4 }

abbrev locked_store : Store
locked_store = record { tokens = (codes "t1", locked_row) ∷ []; devices = [] }

locked-found : get (codes "t1") locked_store.tokens ≡ some locked_row
unfolding get text_eq
locked-found = refl

stale_guess_unlocks_example :
    get
      (codes "t1")
      (finish_claim verify locked_store row
        (request (codes "x"))
        (codes "d")
        (codes "o")
        3
        6).0.tokens
    ≡ some (record row { failed_attempts = 4; locked_at = none })
stale_guess_unlocks_example =
    stale_guess_unlocks verify locked_store row locked_row (request (codes "x")) (codes "d")
      (codes "o") 3 6 locked-found x_wrong (omega arith)
