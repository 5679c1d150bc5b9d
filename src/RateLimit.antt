-- ===== src/RateLimit.antt =====
-- apps/server/src/auth/rateLimit.ts: the layers that slow down guesses at a pairing code.
--
-- A bucket's `tokens` is a fraction with the bucket's window as its denominator, so the model keeps
-- the numerator: `units` is `tokens * windowMs`, an integer, and a whole token is `windowMs` units. It
-- may be negative, when the clock steps back. The clock is read once in a call, as its argument `t`.
pub mod Backoff
pub mod Rate
pub mod Taking
mod Tests
use Prim.Native.Nat.{min}
use local_cast.Base.{
  ℕ, ◌+◌, ◌-◌, ◌*◌, ◌/◌, ◌^◌, max, Bool, ◌&&◌, not, List, [], ◌∷◌, Option, none, some, Text, codes,
  text_eq, ltb, if◌then◌else◌, length,
}
use local_cast.Maps.{get, set, delete}
use local_cast.Base.Int.{ℤ, pos, pos_part, sub_ℕ, ◌+ℤ◌, ◌-ℤ◌, ltb_ℤ}

pub record Bucket : Type 0 where
  pub units : ℤ
  pub updated_at : ℕ

pub record RateLimitOptions : Type 0 where
  pub global_capacity : ℕ
  pub global_window_ms : ℕ
  pub peer_capacity : ℕ
  pub peer_window_ms : ℕ
  pub anon_capacity : ℕ
  pub anon_window_ms : ℕ
  pub code_capacity : ℕ
  pub code_window_ms : ℕ
  pub backoff_base_ms : ℕ
  pub backoff_max_ms : ℕ
  pub idle_evict_ms : ℕ

abbrev pub default_rate_limits : RateLimitOptions
default_rate_limits = record {
  global_capacity = 30;
  global_window_ms = 60_000;
  peer_capacity = 20;
  peer_window_ms = 60_000;
  anon_capacity = 10;
  anon_window_ms = 60_000;
  code_capacity = 5;
  code_window_ms = 60_000;
  backoff_base_ms = 2_000;
  backoff_max_ms = 15 * 60_000;
  idle_evict_ms = 30 * 60_000;
}

pub record CodeState : Type 0 where
  pub bucket : Bucket
  pub failures : ℕ
  pub blocked_until : ℕ

pub record RateLimiter : Type 0 where
  pub opts : RateLimitOptions
  pub global : Bucket
  pub peers : List (Text × Bucket)
  pub anon : Bucket
  pub codes : List (Text × CodeState)

abbrev pub full_bucket : ℕ → ℕ → ℕ → Bucket
full_bucket capacity window t = record { units = pos (capacity * window); updated_at = t }

pub new : RateLimitOptions → ℕ → RateLimiter
new opts t = record {
  opts = opts;
  global = full_bucket opts.global_capacity opts.global_window_ms t;
  peers = [];
  anon = full_bucket opts.anon_capacity opts.anon_window_ms t;
  codes = [];
}

min_ℤ : ℤ → ℤ → ℤ
min_ℤ a b = if ltb_ℤ b a then b else a

-- `Math.ceil(a / b)` for a positive `b`
abbrev pub ceil_div : ℕ → ℕ → ℕ
ceil_div a b = (a + (b - 1)) / b

-- The refill of `take`: `(t - updatedAt) / windowMs * capacity` tokens, up to the capacity.
pub refill : Bucket → ℕ → ℕ → ℕ → ℤ
refill b capacity window t =
    min_ℤ (pos (capacity * window)) (b.units +ℤ sub_ℕ (t * capacity) (b.updated_at * capacity))

-- The wait that `take` returns is 0 when it has taken a token.
pub take : Bucket → ℕ → ℕ → ℕ → Bucket × ℕ
unfolding refill
take b capacity window t =
    let units = refill b capacity window t in
    if ltb_ℤ units (pos window)
    then (
      record { units = units; updated_at = t },
      ceil_div (pos_part (pos window -ℤ units)) capacity,
    )
    else (record { units = units -ℤ pos window; updated_at = t }, 0)

-- What a check ends with: it returns, or `deny` throws RATE_LIMITED with the time to wait.
pub data Verdict : Type 0 where
  pass : Verdict
  deny : ℕ → Verdict

abbrev verdict : ℕ → Verdict
verdict wait = if ltb 0 wait then deny wait else pass

-- Eviction from a map.
module _ {ℓ} {V : Type ℓ} where
  -- The loop of `evictIdle`: what was last updated before the cutoff goes. `cutoff` is
  -- `now - max(idleEvictMs, windowMs)`, which may lie before time 0; hence the sum.
  pub evict_loop : (V → ℕ) → ℕ → ℕ → List (Text × V) → List (Text × V)
  evict_loop updated t idle [] = []
  evict_loop updated t idle ((j, v) ∷ m) =
      let rest = evict_loop updated t idle m in
      if ltb (updated v + idle) t then rest else (j, v) ∷ rest

  pub evict_idle : (V → ℕ) → ℕ → ℕ → ℕ → List (Text × V) → List (Text × V)
  unfolding evict_loop
  evict_idle updated idle_evict window t m =
      if ltb (length m) 512 then m else evict_loop updated t (max idle_evict window) m

pub check_global : RateLimiter → ℕ → RateLimiter × Verdict
unfolding take
check_global l t =
    let (b, wait) = take l.global l.opts.global_capacity l.opts.global_window_ms t in
    (record l { global = b }, verdict wait)

abbrev funnel_peer : Text
funnel_peer = codes "funnel"

identified : Text → Bool
identified peer = ltb 0 (length peer) && not (text_eq peer funnel_peer)

abbrev or_new {ℓ} : {A : Type ℓ} → Option A → A → A
or_new none a = a
or_new (some b) a = b

check_anon : RateLimiter → ℕ → RateLimiter × Verdict
unfolding take
check_anon l t =
    let (b, wait) = take l.anon l.opts.anon_capacity l.opts.anon_window_ms t in
    (record l { anon = b }, verdict wait)

check_known : RateLimiter → Text → ℕ → RateLimiter × Verdict
unfolding take get set evict_idle
check_known l peer t =
    let kept =
      evict_idle (λ b. b.updated_at) l.opts.idle_evict_ms l.opts.peer_window_ms t l.peers in
    let bucket =
      or_new (get peer kept) (full_bucket l.opts.peer_capacity l.opts.peer_window_ms t) in
    let (b, wait) = take bucket l.opts.peer_capacity l.opts.peer_window_ms t in
    (record l { peers = set peer b kept }, verdict wait)

-- `undefined` is `none`.
pub check_peer : RateLimiter → Option Text → ℕ → RateLimiter × Verdict
unfolding check_anon check_known identified
check_peer l none t = check_anon l t
check_peer l (some peer) t = if identified peer then check_known l peer t else check_anon l t

abbrev fresh_code : RateLimitOptions → ℕ → CodeState
fresh_code opts t = record {
  bucket = full_bucket opts.code_capacity opts.code_window_ms t;
  failures = 0;
  blocked_until = 0;
}

-- `checkCode` behind the lookup: the state of the code, which stands in the map.
check_state : RateLimitOptions → CodeState → ℕ → CodeState × Verdict
unfolding take
check_state opts s t =
    if ltb t s.blocked_until
    then (s, deny (s.blocked_until - t))
    else (let (b, wait) = take s.bucket opts.code_capacity opts.code_window_ms t in
        (record s { bucket = b }, verdict wait))

-- The penalty of a further failure, after `failures` of them in all.
pub penalty : RateLimitOptions → ℕ → ℕ
penalty opts failures = min opts.backoff_max_ms (opts.backoff_base_ms * 2 ^ (failures - 1))

penalised : RateLimitOptions → CodeState → ℕ → CodeState
unfolding penalty
penalised opts s t =
    let failures = s.failures + 1 in
    record {
      bucket = record { units = s.bucket.units; updated_at = t };
      failures = failures;
      blocked_until = t + penalty opts failures;
    }

-- `upper` is `toUpperCase`, whose tables are Unicode's.
module _ (upper : Text → Text) where
  pub check_code : RateLimiter → Text → ℕ → RateLimiter × Verdict
  unfolding get set evict_idle check_state
  check_code l code t =
      let kept =
        evict_idle (λ s. s.bucket.updated_at) l.opts.idle_evict_ms l.opts.code_window_ms t
          l.codes in
      let (s, v) = check_state l.opts (or_new (get (upper code) kept) (fresh_code l.opts t)) t in
      (record l { codes = set (upper code) s kept }, v)

  pub penalise_code : RateLimiter → Text → ℕ → RateLimiter
  unfolding get set penalised
  penalise_code l code t = elim (get (upper code) l.codes) [
    | none ↦ l
    | some s ↦ record l { codes = set (upper code) (penalised l.opts s t) l.codes }
  ]

  pub clear_code : RateLimiter → Text → RateLimiter
  unfolding delete
  clear_code l code = record l { codes = delete (upper code) l.codes }

pub reset : RateLimiter → ℕ → RateLimiter
reset l t = record l {
  global = full_bucket l.opts.global_capacity l.opts.global_window_ms t;
  anon = full_bucket l.opts.anon_capacity l.opts.anon_window_ms t;
  peers = [];
  codes = [];
}

-- A history of the limiter: what http/routes/device.ts calls, each at its time.
pub data Call : Type 0 where
  checks_global : Call
  checks_peer : Option Text → Call
  checks_code penalises clears : Text → Call

pub step : (Text → Text) → RateLimiter → ℕ × Call → RateLimiter × Verdict
step upper l (t, checks_global) = check_global l t
step upper l (t, checks_peer peer) = check_peer l peer t
step upper l (t, checks_code code) = check_code upper l code t
step upper l (t, penalises code) = (penalise_code upper l code t, pass)
step upper l (t, clears code) = (clear_code upper l code, pass)

pub run : (Text → Text) → RateLimiter → List (ℕ × Call) → RateLimiter
run upper l [] = l
run upper l (c ∷ cs) = run upper (step upper l c).0 cs
