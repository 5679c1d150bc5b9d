-- ===== src/RateLimit/Tests.antt =====
-- Runs of the limiter of rateLimit.ts, and its theorems at concrete calls.
use local_cast.Base.{
  ℕ, ◌-◌, ◌≡◌, ◌≢◌, refl, arith, List, [], ◌∷◌, none, some, Text, codes, text_eq, if◌then◌else◌,
  ltb,
}
use local_cast.Base.Int.{pos, ◌+ℤ◌, ◌-ℤ◌}
use local_cast.Maps.{get, set}
use local_cast.RateLimit.{
  Bucket, CodeState, RateLimiter, deny, Call, checks_global, checks_peer, checks_code, penalises,
  default_rate_limits, full_bucket, new, min_ℤ, refill, take, evict_idle, check_global, check_anon,
  check_peer, check_state, check_code, penalty, penalised, penalise_code, step, run,
}
use local_cast.RateLimit.Backoff.{check_code_blocked}

abbrev empty_bucket : Bucket
empty_bucket = record { units = pos 0; updated_at = 0 }

-- Two tokens in ten milliseconds: the first comes after five.
take-empty : take empty_bucket 2 10 0 ≡ (empty_bucket, 5)
unfolding take refill min_ℤ ◌+ℤ◌ ◌-ℤ◌
take-empty = refl

take-empty-ne : (take empty_bucket 2 10 0).1 ≢ 0
take-empty-ne = rw take-empty (λ e. omega arith)

-- `toUpperCase` on ASCII.
abbrev ascii_upper : Text → Text
ascii_upper [] = []
ascii_upper (c ∷ s) = let rest = ascii_upper s in (if ltb c 97 then c else c - 32) ∷ rest

abbrev code : Text
code = codes "AB"

abbrev calls : List (ℕ × Call)
calls =
    (0, checks_global)
    ∷ (0, checks_peer none)
    ∷ (0, checks_code (codes "ab"))
    ∷ (10, penalises (codes "Ab"))
    ∷ []

abbrev after_failure : CodeState
after_failure = record {
  bucket = record { units = pos 240_000; updated_at = 10 };
  failures = 1;
  blocked_until = 2_010;
}

run-calls : get code (run ascii_upper (new default_rate_limits 0) calls).codes ≡ some after_failure
unfolding run step new check_global check_peer check_anon check_code check_state take refill min_ℤ
    evict_idle penalise_code penalised penalty get set text_eq ◌+ℤ◌ ◌-ℤ◌
run-calls = refl

check_code_blocked_example :
    (check_code ascii_upper (run ascii_upper (new default_rate_limits 0) calls) code 1_010).1
    ≡ deny 1_000
check_code_blocked_example =
    check_code_blocked ascii_upper default_rate_limits 0 1_010 calls code after_failure
      (omega arith) run-calls (omega arith)

abbrev limiter : RateLimiter
limiter = record {
  opts = default_rate_limits;
  global = full_bucket 30 60_000 0;
  peers = [];
  anon = full_bucket 10 60_000 0;
  codes = (code, after_failure) ∷ [];
}

limiter-code : get code limiter.codes ≡ some after_failure
unfolding get text_eq
limiter-code = refl
