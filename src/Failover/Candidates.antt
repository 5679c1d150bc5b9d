-- ===== src/Failover/Candidates.antt =====
-- packages/client-core/src/origin-failover.ts: the addresses that a request is tried at.
use local_cast.Base.{
  ◌≡◌, ◌≢◌, ◌↔◌, refl, sym, ◌∙◌, Bool, true, false, List, [], ◌∷◌, ◌++◌, map, Text, text_eq,
  text_eq_iff, arith, Bool-cases, inl, inr,
}
use local_cast.Failover.{Transport, unique, normalise_base_url, candidates}
use local_cast.Sets.{has, without}

has-without : (o v : Text) (vs : List Text) → o ≢ v → has o vs ≡ true → has o (without v vs) ≡ true
unfolding has without
has-without o v [] h e = e
has-without o v (w ∷ vs) h e = elim (Bool-cases (text_eq w v)) [
  | inl k ↦ rw k (
      has-without o v vs h (elim (Bool-cases (text_eq w o)) [
        | inl m ↦ absurd (h (sym ((text_eq_iff w o).0 m) ∙ (text_eq_iff w v).0 k))
        | inr m ↦ (rw m at e)
      ]))
  | inr k ↦ rw k (elim (Bool-cases (text_eq w o)) [
    | inl m ↦ rw m
    | inr m ↦ rw m (has-without o v vs h (rw m at e))
  ])
]

without-has : (o v : Text) (vs : List Text) → has o (without v vs) ≡ true → has o vs ≡ true
unfolding has without
without-has o v [] e = e
without-has o v (w ∷ vs) e = elim (Bool-cases (text_eq w v)) [
  | inl k ↦ ground (arith, without-has o v vs (rw k at e))
  | inr k ↦ ground (arith, without-has o v vs, (rw k at e))
]

without_self : (v : Text) (vs : List Text) → has v (without v vs) ≡ false
unfolding has without
without_self v [] = refl
without_self v (w ∷ vs) = elim (Bool-cases (text_eq w v)) [
  | inl k ↦ rw k (without_self v vs)
  | inr k ↦ rw (k, has, k) (without_self v vs)
]

-- No address twice.
abbrev pub Distinct : List Text → Type 0
Distinct [] = Unit
Distinct (v ∷ vs) = (has v vs ≡ false) × Distinct vs

without-Distinct : (v : Text) (vs : List Text) → Distinct vs → Distinct (without v vs)
unfolding without
without-Distinct v [] d = tt
without-Distinct v (w ∷ vs) (h, d) = elim (Bool-cases (text_eq w v)) [
  | inl k ↦ rw k (without-Distinct v vs d)
  | inr k ↦ rw k (
    (elim (Bool-cases (has w (without v vs))) [
      | inl m ↦ absurd (no_both (without-has w v vs m) h)
      | inr m ↦ m
    ]),
    without-Distinct v vs d,
  )
]
  where
    no_both : {b : Bool} → b ≡ true → b ≡ false → ⊥
    no_both e f = cc

unique-Distinct : (vs : List Text) → Distinct (unique vs)
unfolding unique
unique-Distinct [] = tt
unique-Distinct ([] ∷ vs) = unique-Distinct vs
unique-Distinct ((c ∷ v) ∷ vs) =
    (without_self (c ∷ v) (unique vs), without-Distinct (c ∷ v) (unique vs) (unique-Distinct vs))

pub has-unique : (o : Text) (vs : List Text) → o ≢ [] → has o vs ≡ true → has o (unique vs) ≡ true
unfolding unique has text_eq
has-unique o [] h e = e
has-unique [] ([] ∷ vs) h e = absurd (h refl)
has-unique (d ∷ o) ([] ∷ vs) h e = has-unique (d ∷ o) vs h e
has-unique o ((c ∷ v) ∷ vs) h e = elim (Bool-cases (text_eq (c ∷ v) o)) [
  | inl k ↦ rw k
  | inr k ↦ rw k (
      has-without o (c ∷ v) (unique vs) (λ m. ground (arith, (text_eq_iff (c ∷ v) o).1 (sym m)))
        (has-unique o vs h (rw k at e)))
]

unique-has : (o : Text) (vs : List Text) → has o (unique vs) ≡ true → (o ≢ []) × (has o vs ≡ true)
unfolding unique has
unique-has o [] e = absurd cc
unique-has o ([] ∷ vs) e = let (filled, h) = unique-has o vs e in (filled, ground (arith, h))
unique-has o ((c ∷ v) ∷ vs) e = elim (Bool-cases (text_eq (c ∷ v) o)) [
  | inl k ↦ ((λ m. cc ((text_eq_iff (c ∷ v) o).0 k, m)), ground (arith, k))
  | inr k ↦
      let (filled, h) = unique-has o vs (without-has o (c ∷ v) (unique vs) (rw k at e)) in
      (filled, ground (arith, h))
]

unique_first :
    (v : Text) (vs : List Text) → v ≢ [] → (later : List Text) × (unique (v ∷ vs) ≡ v ∷ later)
unfolding unique
unique_first [] vs h = absurd (h refl)
unique_first (c ∷ v) vs h = (without (c ∷ v) (unique vs), refl)

-- What a request is tried at: the active address, the alternates and the primary one.
abbrev pub origins_of : Transport → List Text → List Text
origins_of t alternates = t.active ∷ (map normalise_base_url alternates ++ (t.primary ∷ []))

-- A request is tried at each address that the transport has and that is not empty, and at no other;
-- at none of them twice; and at the active one first.
pub candidates-Distinct :
    (t : Transport) (alternates : List Text)
    → ((o : Text)
        → (has o (candidates t alternates) ≡ true)
          ↔ ((o ≢ []) × (has o (origins_of t alternates) ≡ true)))
      × Distinct (candidates t alternates)
      × (t.active ≢ [] → (later : List Text) × (candidates t alternates ≡ t.active ∷ later))
unfolding candidates
candidates-Distinct t alternates = (
  (λ o. (
    unique-has o (origins_of t alternates),
    (λ h. has-unique o (origins_of t alternates) h.0 h.1),
  )),
  unique-Distinct (origins_of t alternates),
  (λ h. unique_first t.active (map normalise_base_url alternates ++ (t.primary ∷ [])) h),
)
