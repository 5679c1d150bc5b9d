-- ===== src/RateLimit/Backoff.antt =====
-- The backoff of rateLimit.ts against one pairing code.
use Prim.Native.Nat.{min, max}
use mathlib.Core.Path.{subst}
use local_cast.Base.{
  ℕ, ◌+◌, ◌-◌, ◌*◌, ◌^◌, ◌≤◌, ◌<◌, ◌≡◌, refl, sym, ◌∙◌, arith, List, [], ◌∷◌, none, some, Text,
  Option-cases, inl, inr,
}
use local_cast.RateLimit.Taking.{take-updated_at}
use local_cast.RateLimit.Rate.{step-opts}
use local_cast.Maps.{get, set, delete, get-set_self}
use local_cast.RateLimit.{
  CodeState, RateLimitOptions, RateLimiter, deny, Call, checks_global, checks_peer, checks_code,
  penalises, clears, new, evict_loop, evict_idle, or_new, fresh_code, check_state, penalty,
  penalised, check_global, check_anon, check_known, check_peer, check_code, penalise_code,
  clear_code, step, run,
}

module _ {ℓ} {V : Type ℓ} where
  -- What was updated late enough is still found after an eviction, and nothing else is changed.
  get-evict_loop :
      (updated : V → ℕ) (t idle : ℕ) (k : Text) (v : V) (m : List (Text × V))
      → get k m ≡ some v
      → t ≤ updated v + idle
      → get k (evict_loop updated t idle m) ≡ some v
  unfolding get evict_loop
  get-evict_loop updated t idle k v [] e h = e
  get-evict_loop updated t idle k v ((j, w) ∷ m) e h =
      ground (arith, get-evict_loop updated t idle k v m)

  get-evict_idle :
      (updated : V → ℕ) (idle window t : ℕ) (k : Text) (v : V) (m : List (Text × V))
      → get k m ≡ some v
      → t ≤ updated v + idle
      → get k (evict_idle updated idle window t m) ≡ some v
  unfolding evict_idle
  get-evict_idle updated idle window t k v m e h =
      ground (arith, get-evict_loop updated t (max idle window) k v m)

-- A code is never blocked for longer than the longest penalty after its last change.
abbrev pub IsBounded : ℕ → CodeState → Type 0
IsBounded longest s = s.blocked_until ≤ s.bucket.updated_at + longest

abbrev pub AllBounded : ℕ → List (Text × CodeState) → Type 0
AllBounded longest [] = Unit
AllBounded longest ((k, s) ∷ m) = IsBounded longest s × AllBounded longest m

module _ (longest : ℕ) where
  AllBounded-get :
      (k : Text) (m : List (Text × CodeState)) (s : CodeState)
      → AllBounded longest m
      → get k m ≡ some s
      → IsBounded longest s
  unfolding get
  AllBounded-get k [] s a e = cc
  AllBounded-get k ((j, w) ∷ m) s a e = ground (arith, AllBounded-get k m s a.1)

  AllBounded-set :
      (k : Text) (s : CodeState) (m : List (Text × CodeState))
      → AllBounded longest m
      → IsBounded longest s
      → AllBounded longest (set k s m)
  unfolding set
  AllBounded-set k s [] a b = (b, tt)
  AllBounded-set k s ((j, w) ∷ m) a b = ground (arith, AllBounded-set k s m a.1 b)

  AllBounded-delete :
      (k : Text) (m : List (Text × CodeState))
      → AllBounded longest m
      → AllBounded longest (delete k m)
  unfolding delete
  AllBounded-delete k [] a = tt
  AllBounded-delete k ((j, w) ∷ m) a = ground (arith, AllBounded-delete k m a.1)

  AllBounded-evict_loop :
      (t idle : ℕ) (m : List (Text × CodeState))
      → AllBounded longest m
      → AllBounded longest (evict_loop (λ s. s.bucket.updated_at) t idle m)
  unfolding evict_loop
  AllBounded-evict_loop t idle [] a = tt
  AllBounded-evict_loop t idle ((j, w) ∷ m) a = ground (arith, AllBounded-evict_loop t idle m a.1)

  AllBounded-evict_idle :
      (idle window t : ℕ) (m : List (Text × CodeState))
      → AllBounded longest m
      → AllBounded longest (evict_idle (λ s. s.bucket.updated_at) idle window t m)
  unfolding evict_idle
  AllBounded-evict_idle idle window t m a =
      ground (arith, AllBounded-evict_loop t (max idle window) m a)

check_state-IsBounded :
    (opts : RateLimitOptions) (s : CodeState) (t longest : ℕ)
    → IsBounded longest s
    → IsBounded longest (check_state opts s t).0
unfolding check_state
check_state-IsBounded opts s t longest b =
    ground (arith, take-updated_at s.bucket opts.code_capacity opts.code_window_ms t)

penalised-IsBounded :
    (opts : RateLimitOptions) (s : CodeState) (t : ℕ)
    → IsBounded opts.backoff_max_ms (penalised opts s t)
unfolding penalised penalty
penalised-IsBounded opts s t = omega arith

-- The state to check is known, or new and not blocked.
or_new-IsBounded :
    (opts : RateLimitOptions) (k : Text) (m : List (Text × CodeState)) (t longest : ℕ)
    → AllBounded longest m
    → IsBounded longest (or_new (get k m) (fresh_code opts t))
or_new-IsBounded opts k m t longest a = elim (Option-cases (get k m)) [
  | inl e ↦ rw e (omega arith)
  | inr (s, e) ↦ rw e (AllBounded-get longest k m s a e)
]

one_less : (n : ℕ) → n + 1 - 1 ≡ n
one_less n = omega arith

module _ (upper : Text → Text) where
  penalise_code_found :
      (l : RateLimiter) (code : Text) (t : ℕ) (s : CodeState)
      → get (upper code) l.codes ≡ some s
      → penalise_code upper l code t
        ≡ record l { codes = set (upper code) (penalised l.opts s t) l.codes }
  unfolding penalise_code
  penalise_code_found l code t s e = rw (e, penalise_code)

  penalise_code_unknown :
      (l : RateLimiter) (code : Text) (t : ℕ)
      → get (upper code) l.codes ≡ none
      → penalise_code upper l code t ≡ l
  unfolding penalise_code
  penalise_code_unknown l code t e = rw (e, penalise_code)

  penalise_code-AllBounded :
      (l : RateLimiter) (code : Text) (t : ℕ)
      → AllBounded l.opts.backoff_max_ms l.codes
      → AllBounded l.opts.backoff_max_ms (penalise_code upper l code t).codes
  penalise_code-AllBounded l code t a = elim (Option-cases (get (upper code) l.codes)) [
    | inl e ↦ rw (penalise_code_unknown l code t e) a
    | inr (s, e) ↦ rw (penalise_code_found l code t s e) (
        AllBounded-set l.opts.backoff_max_ms (upper code) _ l.codes a
          (penalised-IsBounded l.opts s t))
  ]

  step-AllBounded :
      (l : RateLimiter) (c : ℕ × Call)
      → AllBounded l.opts.backoff_max_ms l.codes
      → AllBounded l.opts.backoff_max_ms (step upper l c).0.codes
  unfolding step check_global check_peer check_known check_anon check_code clear_code
  step-AllBounded l (t, checks_global) a = a
  step-AllBounded l (t, checks_peer none) a = a
  step-AllBounded l (t, checks_peer (some peer)) a = ground arith
  step-AllBounded l (t, checks_code code) a =
      let longest = l.opts.backoff_max_ms in
      let kept =
        AllBounded-evict_idle longest l.opts.idle_evict_ms l.opts.code_window_ms t l.codes a in
      AllBounded-set longest (upper code) _ _ kept (
        check_state-IsBounded l.opts _ t longest
          (or_new-IsBounded l.opts (upper code) _ t longest kept))
  step-AllBounded l (t, penalises code) a = penalise_code-AllBounded l code t a
  step-AllBounded l (t, clears code) a =
      AllBounded-delete l.opts.backoff_max_ms (upper code) l.codes a

  run-AllBounded :
      (opts : RateLimitOptions) (l : RateLimiter) (cs : List (ℕ × Call))
      → l.opts ≡ opts
      → AllBounded opts.backoff_max_ms l.codes
      → ((run upper l cs).opts ≡ opts) × AllBounded opts.backoff_max_ms (run upper l cs).codes
  unfolding run
  run-AllBounded opts l [] e a = (e, a)
  run-AllBounded opts l (c ∷ cs) e a =
      run-AllBounded opts (step upper l c).0 cs (step-opts upper l c.0 c.1 ∙ e) (
        subst (λ o. AllBounded o.backoff_max_ms (step upper l c).0.codes) e
          (step-AllBounded l c (subst (λ o. AllBounded o.backoff_max_ms l.codes) (sym e) a)))

  blocked_lem :
      (l : RateLimiter) (code : Text) (t : ℕ) (s : CodeState)
      → t ≤ s.bucket.updated_at + l.opts.idle_evict_ms
      → get (upper code) l.codes ≡ some s
      → t < s.blocked_until
      → (check_code upper l code t).1 ≡ deny (s.blocked_until - t)
  unfolding check_code check_state
  blocked_lem l code t s late e lt =
      let found =
        get-evict_idle (λ (c : CodeState). c.bucket.updated_at) l.opts.idle_evict_ms
          l.opts.code_window_ms t (upper code) s l.codes e late in
      ground (arith, found)

  -- In every state that calls lead to from a new limiter, at whatever times: a code that is blocked is
  -- refused for exactly the rest of its penalty, also when other keys have filled the map and idle
  -- ones are evicted. It needs the longest penalty to be no longer than the time to idle eviction.
  pub check_code_blocked :
      (opts : RateLimitOptions) (t0 t : ℕ) (cs : List (ℕ × Call)) (code : Text) (s : CodeState)
      → opts.backoff_max_ms ≤ opts.idle_evict_ms
      → get (upper code) (run upper (new opts t0) cs).codes ≡ some s
      → t < s.blocked_until
      → (check_code upper (run upper (new opts t0) cs) code t).1 ≡ deny (s.blocked_until - t)
  unfolding new
  check_code_blocked opts t0 t cs code s h e lt =
      let (same, bounded) = run-AllBounded opts (new opts t0) cs refl tt in
      let b = AllBounded-get opts.backoff_max_ms (upper code) _ s bounded e in
      blocked_lem (run upper (new opts t0) cs) code t s (rw same (omega (arith, b))) e lt

  -- A failure of a code that is known adds one to its count and blocks it, whatever was before, for
  -- the base penalty doubled at each earlier failure, up to the longest penalty. Its tokens stay.
  penalise_code_lem :
      (l : RateLimiter) (code : Text) (t : ℕ) (s : CodeState)
      → get (upper code) l.codes ≡ some s
      → (s' : CodeState) × (get (upper code) (penalise_code upper l code t).codes ≡ some s')
        × (s'.failures ≡ s.failures + 1)
        × (s'.blocked_until
            ≡ t + min l.opts.backoff_max_ms (l.opts.backoff_base_ms * 2 ^ s.failures))
        × (s'.bucket.units ≡ s.bucket.units)
  unfolding penalised penalty
  penalise_code_lem l code t s e = (
    penalised l.opts s t,
    rw (penalise_code_found l code t s e)
        (get-set_self (upper code) (penalised l.opts s t) l.codes),
    refl,
    rw (one_less s.failures) refl,
    refl,
  )
