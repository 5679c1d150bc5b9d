-- ===== src/RateLimit/Taking.antt =====
-- One bucket of rateLimit.ts: what `take` grants, and how good the wait is that it returns.
use native.Mathlib.Nat.{div-add-mod, add-mul}
use local_cast.Base.{
  ℕ, ◌+◌, ◌-◌, ◌*◌, ◌≤◌, ◌<◌, ◌≡◌, refl, ◌≢◌, ◌↔◌, ◌⊎◌, arith, if◌then◌else◌, inl, inr, ◌==◌,
}
use local_cast.Base.Int.{ℤ, pos, pos_part, neg_part, ◌+ℤ◌, ◌-ℤ◌}
use local_cast.RateLimit.{Bucket, min_ℤ, ceil_div, refill, take}

-- `Math.ceil` is the least number of milliseconds that refills the difference.
ceil_div-le_iff : (d c k : ℕ) → 0 < c → (ceil_div d c ≤ k) ↔ (d ≤ k * c)
ceil_div-le_iff d c k h = (
  (λ le. grind (arith, div-add-mod (d + (c - 1)) c)),
  (λ le. grind (arith, div-add-mod (d + (c - 1)) c)),
)

-- The fraction that a bucket holds is not below zero.
abbrev pub IsSound : Bucket → Type 0
IsSound b = neg_part b.units ≡ 0

take_gap :
    (r : ℤ) (w : ℕ)
    → pos_part r < w + neg_part r
    → pos_part (pos w -ℤ r) ≡ w + neg_part r - pos_part r
unfolding ◌-ℤ◌
take_gap r w h = ground arith

-- 1 for a token that is taken, 0 for a refusal.
abbrev pub granted : ℕ → ℕ
granted wait = if wait == 0 then 1 else 0

sub_part :
    (r : ℤ) (w : ℕ)
    → neg_part r ≡ 0
    → w ≤ pos_part r
    → (neg_part (r -ℤ pos w) ≡ 0) × (pos_part (r -ℤ pos w) + w ≡ pos_part r)
unfolding ◌-ℤ◌
sub_part r w h k = ground arith

pub gap_mul : (t t' c : ℕ) → t ≤ t' → (t' - t) * c + t * c ≡ t' * c
gap_mul t t' c h = let e : t' - t + t ≡ t' = omega arith in rw (← add-mul (t' - t) t c, e)

le_or_lt : (a b : ℕ) → (a ≤ b) ⊎ (b < a)
le_or_lt a b = ground arith

module _ (b : Bucket) (c w t : ℕ) where
  -- The two branches of `take`.
  take_refused :
      pos_part (refill b c w t) < w + neg_part (refill b c w t)
      → take b c w t ≡ (
        record { units = refill b c w t; updated_at = t },
        ceil_div (w + neg_part (refill b c w t) - pos_part (refill b c w t)) c,
      )
  unfolding take
  take_refused h = ground (arith, take_gap (refill b c w t) w h)

  take_granted :
      w + neg_part (refill b c w t) ≤ pos_part (refill b c w t)
      → take b c w t ≡ (record { units = refill b c w t -ℤ pos w; updated_at = t }, 0)
  unfolding take
  take_granted h = ground arith

  -- A whole token is there exactly when what was left and what has come since make one.
  refill-ge_iff :
      0 < c
      → (w + neg_part (refill b c w t) ≤ pos_part (refill b c w t))
        ↔ (w + neg_part b.units + b.updated_at * c ≤ pos_part b.units + t * c)
  unfolding refill min_ℤ ◌+ℤ◌
  refill-ge_iff h = let mono : w ≤ c * w = grind arith in ground arith

  refill_sound :
      b.updated_at ≤ t
      → IsSound b
      → (neg_part (refill b c w t) ≡ 0)
        × (pos_part (refill b c w t) + b.updated_at * c ≤ pos_part b.units + t * c)
  unfolding refill min_ℤ ◌+ℤ◌
  refill_sound k s = let mono : b.updated_at * c ≤ t * c = grind arith in ground arith

  pub take-updated_at : (take b c w t).0.updated_at ≡ t
  unfolding take
  take-updated_at = ground arith

  ceil_div-pos : (d : ℕ) → 0 < c → 0 < d → 0 < ceil_div d c
  ceil_div-pos d h k = grind (arith, (ceil_div-le_iff d c 0 h).0)

  -- The tokens that are left and the one that is taken come from those that were there and from the
  -- time that has passed.
  pub take_potential :
      0 < c
      → b.updated_at ≤ t
      → IsSound b
      → IsSound (take b c w t).0
        × (granted (take b c w t).1 * w + pos_part (take b c w t).0.units + b.updated_at * c
            ≤ pos_part b.units + t * c)
  take_potential h k s =
      let (sound, bound) = refill_sound k s in
      elim (le_or_lt (w + neg_part (refill b c w t)) (pos_part (refill b c w t))) [
        | inl le ↦ rw (take_granted le) (omega (arith, sub_part (refill b c w t) w sound))
        | inr lt ↦ rw (take_refused lt) (
            ground
              (arith, ceil_div-pos (w + neg_part (refill b c w t) - pos_part (refill b c w t))))
      ]

  -- `take` grants exactly when what was left and what has come since make a whole token.
  pub take-wait-eq-zero_iff :
      0 < c
      → ((take b c w t).1 ≡ 0)
        ↔ (w + neg_part b.units + b.updated_at * c ≤ pos_part b.units + t * c)
  take-wait-eq-zero_iff h =
      elim (le_or_lt (w + neg_part (refill b c w t)) (pos_part (refill b c w t))) [
        | inl le ↦ rw (take_granted le) ((λ _. (refill-ge_iff h).0 le), (λ _. refl))
        | inr lt ↦ rw (take_refused lt) (
          (λ e. absurd (
              omega (
                arith,
                ceil_div-pos (w + neg_part (refill b c w t) - pos_part (refill b c w t)) h
                    (omega arith),
              ))),
          (λ le. absurd (omega (arith, (refill-ge_iff h).1 le))),
        )
      ]

-- The wait that a refusal names is exact, for a positive capacity: without a call in between, an
-- attempt no earlier than the refusal succeeds at that time and later, and not before.
take_wait_exact :
    (b : Bucket) (c w t t' : ℕ)
    → 0 < c
    → (take b c w t).1 ≢ 0
    → t ≤ t'
    → ((take (take b c w t).0 c w t').1 ≡ 0) ↔ (t + (take b c w t).1 ≤ t')
take_wait_exact b c w t t' h r k =
    elim (le_or_lt (w + neg_part (refill b c w t)) (pos_part (refill b c w t))) [
      | inl le ↦ absurd (r (rw (take_granted b c w t le)))
      | inr lt ↦
          let r1 = refill b c w t in
          let d = w + neg_part r1 - pos_part r1 in
          let next = take-wait-eq-zero_iff (record { units = r1; updated_at = t }) c w t' h in
          let least = ceil_div-le_iff d c (t' - t) h in
          let split = gap_mul t t' c k in
          rw (take_refused b c w t lt) (
            (λ e. omega (arith, least.1 (omega (arith, next.0 e)))),
            (λ le. next.1 (omega (arith, least.0 (omega arith)))),
          )
    ]
