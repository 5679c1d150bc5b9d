-- ===== src/RateLimit/Rate.antt =====
-- How many attempts rateLimit.ts lets through in a stretch of time, whoever makes them.
use mathlib.Core.Path.{subst}
use local_cast.Base.{
  sym, ℕ, ◌+◌, ◌-◌, ◌*◌, ◌≤◌, ◌<◌, ◌≡◌, refl, ◌∙◌, arith, if◌then◌else◌, List, [], ◌∷◌, Option,
  none, some, Text, Bool, true, not, Bool-cases, inl, inr,
}
use local_cast.Base.Int.{pos_part}
use local_cast.RateLimit.{
  Bucket, RateLimitOptions, RateLimiter, Verdict, pass, deny, verdict, Call, checks_global,
  checks_peer, checks_code, penalises, clears, new, check_global, check_anon, check_known,
  check_peer, check_code, penalise_code, clear_code, identified, step,
}
use local_cast.RateLimit.Taking.{IsSound, granted, take_potential, take-updated_at, gap_mul}

-- The calls fall between the two times, in order.
abbrev pub Within : ℕ → ℕ → List (ℕ × Call) → Type 0
Within t0 t [] = t0 ≤ t
Within t0 t ((u, c) ∷ cs) = (t0 ≤ u) × Within u t cs

Within-le : (t0 t : ℕ) (cs : List (ℕ × Call)) → Within t0 t cs → t0 ≤ t
Within-le t0 t [] h = h
Within-le t0 t ((u, c) ∷ cs) (a, rest) = omega (arith, Within-le u t cs rest)

abbrev pub passed : Verdict → ℕ
passed pass = 1
passed (deny wait) = 0

passed-verdict : (wait : ℕ) → passed (verdict wait) ≡ granted wait
passed-verdict wait = ground arith

-- The attempts that the global bucket has let through.
abbrev pub global_pass : Call → Verdict → ℕ
global_pass checks_global v = passed v
global_pass _ v = 0

pub is_anon : Option Text → Bool
is_anon none = true
is_anon (some peer) = not (identified peer)

-- The attempts that the shared bucket of the anonymous callers has let through.
abbrev pub anon_pass : Call → Verdict → ℕ
anon_pass (checks_peer peer) v = if is_anon peer then passed v else 0
anon_pass _ v = 0

module _ (upper : Text → Text) where
  pub count_passes : (Call → Verdict → ℕ) → RateLimiter → List (ℕ × Call) → ℕ
  count_passes counts l [] = 0
  count_passes counts l ((t, c) ∷ cs) =
      counts c (step upper l (t, c)).1 + count_passes counts (step upper l (t, c)).0 cs

  pub step-opts : (l : RateLimiter) (t : ℕ) (c : Call) → (step upper l (t, c)).0.opts ≡ l.opts
  unfolding step check_global check_peer check_known check_anon check_code penalise_code clear_code
  step-opts l t checks_global = refl
  step-opts l t (checks_peer none) = refl
  step-opts l t (checks_peer (some peer)) = ground arith
  step-opts l t (checks_code code) = refl
  step-opts l t (penalises code) = ground arith
  step-opts l t (clears code) = refl

  -- What one call lets through is paid for by the bucket and the time.
  abbrev Paid :
      (RateLimiter → Bucket) → (Call → Verdict → ℕ) → ℕ → ℕ → RateLimiter → ℕ → Call → Type 0
  Paid view counts cap w l t c =
      let (l', v) = step upper l (t, c) in
      IsSound (view l')
      × ((view l').updated_at ≤ t)
      × (counts c v * w + pos_part (view l').units + (view l).updated_at * cap
          ≤ pos_part (view l).units + (view l').updated_at * cap)

  anon_paid :
      (l : RateLimiter) (t : ℕ)
      → 0 < l.opts.anon_capacity
      → IsSound l.anon
      → l.anon.updated_at ≤ t
      → let (l', v) = check_anon l t in
        IsSound l'.anon
        × (l'.anon.updated_at ≤ t)
        × (passed v * l.opts.anon_window_ms
              + pos_part l'.anon.units
              + l.anon.updated_at * l.opts.anon_capacity
            ≤ pos_part l.anon.units + l'.anon.updated_at * l.opts.anon_capacity)
  unfolding check_anon
  anon_paid l t h s k =
      let b = l.anon in
      let cap = l.opts.anon_capacity in
      let w = l.opts.anon_window_ms in
      rw (take-updated_at b cap w t, passed-verdict)
        ((take_potential b cap w t h k s).0, omega arith, (take_potential b cap w t h k s).1)

  step_anon :
      (l : RateLimiter) (t : ℕ) (c : Call)
      → 0 < l.opts.anon_capacity
      → IsSound l.anon
      → l.anon.updated_at ≤ t
      → Paid (λ r. r.anon) anon_pass l.opts.anon_capacity l.opts.anon_window_ms l t c
  unfolding step check_global check_peer check_known check_code penalise_code clear_code is_anon
  step_anon l t checks_global h s k = omega arith
  step_anon l t (checks_peer none) h s k = anon_paid l t h s k
  step_anon l t (checks_peer (some peer)) h s k = elim (Bool-cases (identified peer)) [
    | inl e ↦ rw e (omega arith)
    | inr e ↦ rw e (anon_paid l t h s k)
  ]
  step_anon l t (checks_code code) h s k = omega arith
  step_anon l t (penalises code) h s k = ground arith
  step_anon l t (clears code) h s k = omega arith

  -- The calls of a history add up.
  module _ (view : RateLimiter → Bucket) (counts : Call → Verdict → ℕ) (opts : RateLimitOptions)
      (cap w : ℕ)
      (paid : (l : RateLimiter) (t : ℕ) (c : Call)
        → l.opts ≡ opts
        → IsSound (view l)
        → (view l).updated_at ≤ t
        → Paid view counts cap w l t c) where
    passes_loop :
        (l : RateLimiter) (t0 t : ℕ) (cs : List (ℕ × Call))
        → l.opts ≡ opts
        → IsSound (view l)
        → (view l).updated_at ≤ t0
        → Within t0 t cs
        → count_passes counts l cs * w + (view l).updated_at * cap
          ≤ pos_part (view l).units + t * cap
    unfolding count_passes
    passes_loop l t0 t [] e s k a =
        let mono : (view l).updated_at * cap ≤ t * cap = grind arith in omega arith
    passes_loop l t0 t ((u, c) ∷ cs) e s k (a, rest) =
        let (s', k', p) = paid l u c e s (omega arith) in
        omega
          (arith, p, passes_loop (step upper l (u, c)).0 u t cs (step-opts l u c ∙ e) s' k' rest)

  -- From a new limiter with a positive capacity for them, whatever is called, at times that do not go
  -- back: the attempts of callers without an identity that pass from `t0` to `t` are together at most
  -- the capacity of their one bucket, and what comes in at its rate. Those callers have no peer, an
  -- empty one, or the name that stands for the Funnel.
  anon_passes_bound :
      (opts : RateLimitOptions) (t0 t : ℕ) (cs : List (ℕ × Call))
      → 0 < opts.anon_capacity
      → Within t0 t cs
      → count_passes anon_pass (new opts t0) cs * opts.anon_window_ms
        ≤ opts.anon_capacity * (opts.anon_window_ms + (t - t0))
  unfolding new
  anon_passes_bound opts t0 t cs h a =
      let cap = opts.anon_capacity in
      let w = opts.anon_window_ms in
      let paid =
        λ (l : RateLimiter) (u : ℕ) (c : Call) (e : l.opts ≡ opts) (s : IsSound l.anon)
            (k : l.anon.updated_at ≤ u).
          subst (λ o. Paid (λ r. r.anon) anon_pass o.anon_capacity o.anon_window_ms l u c) e
            (step_anon l u c (subst (λ o. 0 < o.anon_capacity) (sym e) h) s k) in
      omega (
        arith,
        passes_loop (λ r. r.anon) anon_pass opts cap w paid (new opts t0) t0 t cs refl refl
            (omega arith) a,
        gap_mul t0 t cap (Within-le t0 t cs a),
      )
