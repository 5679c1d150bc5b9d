-- ===== src/Pairing/SingleUse.antt =====
-- A pairing code of auth/pairing.ts is used once, however its claims are interleaved.
use mathlib.Core.Path.{subst}
use local_cast.Base.{
  ℕ, ◌+◌, ◌≤◌, ◌≡◌, refl, ap, ◌∙◌, Bool, true, false, Bool-cases, Option-cases, inl, inr, ◌⊎◌, ◌≢◌,
  List, [], ◌∷◌, Option, none, some, Text, text_eq, text_eq_iff, arith, if◌then◌else◌, Result, ok,
  err,
}
use local_cast.Contract.Errors.{plain, pairing_consumed}
use local_cast.Maps.{get, set, get-set_self, get-set_ne}
use local_cast.Tokens.{DeviceRow}
use local_cast.Pairing.{
  PairingTokenRow, Store, ClaimRequest, is_set, register_failure, can_consume, consume_found,
  consume, is_wrong, finish_claim,
}

-- The second half of a claim, with the row that its first half has read, however old.
pub record Finish : Type 0 where
  pub token : PairingTokenRow
  pub req : ClaimRequest
  pub device_id : Text
  pub user_id : Text
  pub began : ℕ
  pub ended : ℕ

abbrev pub paired : Result Text → ℕ
paired (ok device) = 1
paired (err e) = 0

-- The code's row says that it is used.
abbrev IsConsumed : Text → Store → Type 0
IsConsumed id s =
    (row : PairingTokenRow) × (get id s.tokens ≡ some row) × (is_set row.consumed_at ≡ true)

-- A row with the same marks keeps the code used.
IsConsumed-set :
    (s : Store) (id other : Text) (row row' : PairingTokenRow)
    → get other s.tokens ≡ some row
    → (is_set row.consumed_at ≡ true → is_set row'.consumed_at ≡ true)
    → IsConsumed id s
    → IsConsumed id (record s { tokens = set other row' s.tokens })
IsConsumed-set s id other row row' at_other marks (mine, found, used) =
    elim (Bool-cases (text_eq other id)) [
      | inl same ↦
          let e : other ≡ id = (text_eq_iff other id).0 same in
          let row_mine : row ≡ mine = cc in
          (
            row',
            rw (← e) (get-set_self other row' s.tokens),
            marks (ap (λ (r : PairingTokenRow). is_set r.consumed_at) row_mine ∙ used),
          )
      | inr differ ↦
          let ne : other ≢ id = λ e. ground (arith, (text_eq_iff other id).1 e) in
          (mine, get-set_ne other id row' s.tokens ne ∙ found, used)
    ]

register_failure-IsConsumed :
    (s : Store) (id other : Text) (attempts t : ℕ)
    → IsConsumed id s
    → IsConsumed id (register_failure s other attempts t)
unfolding register_failure
register_failure-IsConsumed s id other attempts t used = elim (Option-cases (get other s.tokens)) [
  | inl gone ↦ rw (gone, register_failure) used
  | inr (row, found) ↦
      rw (found, register_failure) (IsConsumed-set s id other row _ found (λ u. u) used)
]

can_consume-used :
    (t : ℕ) (row : PairingTokenRow) → is_set row.consumed_at ≡ true → can_consume t row ≡ false
unfolding can_consume
can_consume-used t row used = rw (used, can_consume) refl

consume_open :
    (s : Store) (id : Text) (found : Option PairingTokenRow) (device : DeviceRow) (t : ℕ)
    → get id s.tokens ≡ found
    → consume s id device t ≡ consume_found s id found device t
unfolding consume
consume_open s id found device t e = ap (λ f. consume_found s id f device t) e

consume_refused :
    (s : Store) (id : Text) (row : PairingTokenRow) (device : DeviceRow) (t : ℕ)
    → can_consume t row ≡ false
    → consume_found s id (some row) device t ≡ (s, err (plain pairing_consumed))
unfolding consume_found
consume_refused s id row device t e = rw (e, consume_found) refl

abbrev used_by : DeviceRow → ℕ → PairingTokenRow → PairingTokenRow
used_by device t row = record row { consumed_at = some t; consumed_by_device = some device.id }

consume_done :
    (s : Store) (id : Text) (row : PairingTokenRow) (device : DeviceRow) (t : ℕ)
    → can_consume t row ≡ true
    → consume_found s id (some row) device t ≡ (
      record {
        tokens = set id (used_by device t row) s.tokens;
        devices = set device.id device s.devices;
      },
      ok device.id,
    )
unfolding consume_found
consume_done s id row device t e = rw (e, consume_found) refl

consume_none :
    (s : Store) (id : Text) (device : DeviceRow) (t : ℕ)
    → consume_found s id none device t ≡ (s, err (plain pairing_consumed))
unfolding consume_found
consume_none s id device t = refl

consume-IsConsumed :
    (s : Store) (id other : Text) (device : DeviceRow) (t : ℕ)
    → IsConsumed id s
    → IsConsumed id (consume s other device t).0
consume-IsConsumed s id other device t used = elim (Option-cases (get other s.tokens)) [
  | inl gone ↦ rw (consume_open s other none device t gone, consume_none s other device t) used
  | inr (row, found) ↦ elim (Bool-cases (can_consume t row)) [
    | inl yes_ ↦
        rw (consume_open s other (some row) device t found, consume_done s other row device t yes_)
          (IsConsumed-set s id other row (used_by device t row) found (λ _. refl) used)
    | inr no_ ↦
        rw
          (consume_open s other (some row) device t found, consume_refused s other row device t no_)
          used
  ]
]

-- A code that is used pairs nothing any more.
consume-used :
    (s : Store) (id : Text) (device : DeviceRow) (t : ℕ)
    → IsConsumed id s
    → paired (consume s id device t).1 ≡ 0
consume-used s id device t (row, found, used) =
    rw
      (
        consume_open s id (some row) device t found,
        consume_refused s id row device t (can_consume-used t row used),
      )
      refl

-- What pairs leaves the code used.
consume-first :
    (s : Store) (id : Text) (device : DeviceRow) (t : ℕ)
    → (paired (consume s id device t).1 ≡ 0)
      ⊎ ((paired (consume s id device t).1 ≡ 1) × IsConsumed id (consume s id device t).0)
consume-first s id device t = elim (Option-cases (get id s.tokens)) [
  | inl gone ↦ inl (rw (consume_open s id none device t gone, consume_none s id device t) refl)
  | inr (row, found) ↦ elim (Bool-cases (can_consume t row)) [
    | inl yes_ ↦ inr (
        rw (consume_open s id (some row) device t found, consume_done s id row device t yes_)
          (refl, (used_by device t row, get-set_self id (used_by device t row) s.tokens, refl)))
    | inr no_ ↦ inl (
        rw (consume_open s id (some row) device t found, consume_refused s id row device t no_)
          refl)
  ]
]

module _ (verify_password : Text → Text → Bool) where
  unfoldable pub finish : Store → Finish → Store × Result Text
  finish s f = finish_claim verify_password s f.token f.req f.device_id f.user_id f.began f.ended

  -- How many of these claims pair a device by the code `id`.
  unfoldable pub count_paired : Text → Store → List Finish → ℕ
  count_paired id s [] = 0
  count_paired id s (f ∷ fs) =
      (if text_eq f.token.id id then paired (finish s f).1 else 0)
      + count_paired id (finish s f).0 fs

  finish-IsConsumed :
      (s : Store) (f : Finish) (id : Text) → IsConsumed id s → IsConsumed id (finish s f).0
  unfolding finish finish_claim
  finish-IsConsumed s f id used =
      elim (Bool-cases (is_wrong verify_password f.req.secret f.token.secret_hash)) [
        | inl wrong ↦ rw wrong (register_failure-IsConsumed s id f.token.id _ f.ended used)
        | inr right ↦ rw right (consume-IsConsumed s id f.token.id _ f.began used)
      ]

  finish-used :
      (s : Store) (f : Finish) (id : Text)
      → IsConsumed id s
      → f.token.id ≡ id
      → paired (finish s f).1 ≡ 0
  unfolding finish finish_claim
  finish-used s f id used same =
      elim (Bool-cases (is_wrong verify_password f.req.secret f.token.secret_hash)) [
        | inl wrong ↦ rw wrong refl
        | inr right ↦ rw (right, same) (consume-used s id _ f.began used)
      ]

  finish-first :
      (s : Store) (f : Finish)
      → (paired (finish s f).1 ≡ 0)
        ⊎ ((paired (finish s f).1 ≡ 1) × IsConsumed f.token.id (finish s f).0)
  unfolding finish finish_claim
  finish-first s f = elim (Bool-cases (is_wrong verify_password f.req.secret f.token.secret_hash)) [
    | inl wrong ↦ rw wrong (inl refl)
    | inr right ↦ rw right (consume-first s f.token.id _ f.began)
  ]

  count_paired_used :
      (id : Text) (s : Store) (fs : List Finish) → IsConsumed id s → count_paired id s fs ≡ 0
  unfolding count_paired
  count_paired_used id s [] used = refl
  count_paired_used id s (f ∷ fs) used =
      let rest = count_paired_used id (finish s f).0 fs (finish-IsConsumed s f id used) in
      elim (Bool-cases (text_eq f.token.id id)) [
        | inl same ↦
            rw (same, rest, finish-used s f id used ((text_eq_iff f.token.id id).0 same)) refl
        | inr other ↦ rw (other, rest) refl
      ]

  -- Whatever claims wait at the same time and in whatever order they go on, each with the row that
  -- it has read, however old: a code pairs at most one device.
  pub count_paired_bound : (id : Text) (s : Store) (fs : List Finish) → count_paired id s fs ≤ 1
  unfolding count_paired
  count_paired_bound id s [] = omega arith
  count_paired_bound id s (f ∷ fs) =
      let rest = count_paired_bound id (finish s f).0 fs in
      elim (Bool-cases (text_eq f.token.id id)) [
        | inl same ↦ elim (finish-first s f) [
          | inl none_yet ↦ rw (same, none_yet) (omega (arith, rest))
          | inr (one, used) ↦
              let e : f.token.id ≡ id = (text_eq_iff f.token.id id).0 same in
              let here = subst (λ k. IsConsumed k (finish s f).0) e used in
              rw (same, one, count_paired_used id (finish s f).0 fs here) (omega arith)
        ]
        | inr other ↦ rw other (omega (arith, rest))
      ]
