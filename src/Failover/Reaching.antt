-- ===== src/Failover/Reaching.antt =====
-- packages/client-core/src/origin-failover.ts: which address of the server answers a request.
use mathlib.Core.Path.{subst}
use local_cast.Base.{
  ◌≡◌, ◌≢◌, refl, sym, ap, ◌∙◌, Bool, true, false, List, [], ◌∷◌, ◌++◌, map, Option, none, some,
  Text, text_eq, text_eq_iff, starts_with, length, drop, arith, Bool-cases, inl, inr,
}
use local_cast.Failover.{
  Failure, Reply, answered, failed, is_network_failure, Transport, Outcome, got, thrown, Attempt,
  unique, normalise_base_url, candidates, known_origins, is_at, find_origin, adopt, try_each,
  attempt,
}
use local_cast.Failover.Candidates.{origins_of, has-unique}
use local_cast.Sets.{has}

starts_with-append : (s t : Text) → starts_with (s ++ t) s ≡ true
unfolding starts_with
starts_with-append [] t = refl
starts_with-append (c ∷ s) t = ground (arith, starts_with-append s t)

slash_behind : (s t : Text) → starts_with (s ++ (b'/' ∷ t)) (s ++ (b'/' ∷ [])) ≡ true
unfolding starts_with
slash_behind [] t = refl
slash_behind (c ∷ s) t = ground (arith, slash_behind s t)

drop-append : (s t : Text) → drop (length s) (s ++ t) ≡ t
drop-append [] t = refl
drop-append (c ∷ s) t = drop-append s t

is_at-append : (p path : Text) → is_at (p ++ (b'/' ∷ path)) p ≡ true
unfolding is_at
is_at-append p path = ground (arith, slash_behind p path)

find_primary :
    (p path : Text) (others : List Text)
    → p ≢ []
    → find_origin (p ++ (b'/' ∷ path)) (unique (p ∷ others)) ≡ some p
unfolding find_origin unique
find_primary [] path others h = absurd (h refl)
find_primary (c ∷ p) path others h = rw (is_at-append (c ∷ p) path)

-- Where a request goes: the path behind each of the origins.
abbrev pub urls : Text → List Text → List Text
urls path [] = []
urls path (o ∷ os) = (o ++ path) ∷ urls path os

module _ {ℓ} {A : Type ℓ} where
  -- Nobody answers.
  abbrev pub is_silent : Reply A → Bool
  is_silent (answered a) = false
  is_silent (failed aborted e) = is_network_failure aborted e

  -- What a reply from an origin comes to.
  abbrev pub outcome_of : Reply A → Outcome A
  outcome_of (answered a) = got a
  outcome_of (failed aborted e) = thrown (some e)

  abbrev pub followed : Transport → Text → Reply A → Transport
  followed t o (answered a) = adopt t o
  followed t o (failed aborted e) = t

module _ {ℓ} {A : Type ℓ} (run : Text → Reply A) (path : Text) where
  abbrev pub AllSilent : List Text → Type 0
  AllSilent [] = Unit
  AllSilent (o ∷ os) = (is_silent (run (o ++ path)) ≡ true) × AllSilent os

  -- A request is settled by the first of the origins that is not silent, after one request to each
  -- before it.
  pub record Reached (t : Transport) (os : List Text) (r : Attempt A) : Type ℓ where
    pub silent : List Text
    pub origin : Text
    pub untried : List Text
    pub order : os ≡ silent ++ (origin ∷ untried)
    pub all_silent : AllSilent silent
    pub replied : is_silent (run (origin ++ path)) ≡ false
    pub outcome_is : r.outcome ≡ outcome_of (run (origin ++ path))
    pub transport_is : r.transport ≡ followed t origin (run (origin ++ path))
    pub sent_is : r.sent ≡ urls path (silent ++ (origin ∷ []))

  -- No origin has replied.
  pub record Unreached (t : Transport) (os : List Text) (r : Attempt A) : Type ℓ where
    pub aborted : Bool
    pub error : Failure
    pub no_answer : is_network_failure aborted error ≡ true
    pub outcome_is : r.outcome ≡ thrown (some error)
    pub transport_is : r.transport ≡ t
    pub sent_is : r.sent ≡ urls path os

  -- A silent origin in front.
  abbrev behind : Text → Attempt A → Attempt A
  behind w r = record { transport = r.transport; outcome = r.outcome; sent = (w ++ path) ∷ r.sent }

  behind-Reached :
      (w : Text) (t : Transport) (os : List Text) (r : Attempt A)
      → is_silent (run (w ++ path)) ≡ true
      → Reached t os r
      → Reached t (w ∷ os) (behind w r)
  behind-Reached w t os r h k = record {
    silent = w ∷ k.silent;
    origin = k.origin;
    untried = k.untried;
    order = ap (λ x. w ∷ x) k.order;
    all_silent = (h, k.all_silent);
    replied = k.replied;
    outcome_is = k.outcome_is;
    transport_is = k.transport_is;
    sent_is = ap (λ x. (w ++ path) ∷ x) k.sent_is;
  }

  try_each-front :
      (w : Text) (os : List Text) (last : Option Failure) (t : Transport)
      → is_silent (run (w ++ path)) ≡ false
      → Reached t (w ∷ os) (try_each run path (w ∷ os) last t)
  unfolding try_each
  try_each-front w os last t h = go (run (w ++ path)) refl
    where
      go :
          (m : Reply A)
          → run (w ++ path) ≡ m
          → Reached t (w ∷ os) (try_each run path (w ∷ os) last t)
      go (answered a) k = record {
        silent = [];
        origin = w;
        untried = os;
        order = refl;
        all_silent = tt;
        replied = h;
        outcome_is = rw (k, try_each);
        transport_is = rw (k, try_each);
        sent_is = rw (k, try_each);
      }
      go (failed aborted e) k =
          let kept : is_network_failure aborted e ≡ false = rw k at h in
          record {
            silent = [];
            origin = w;
            untried = os;
            order = refl;
            all_silent = tt;
            replied = h;
            outcome_is = rw (k, try_each, kept);
            transport_is = rw (k, try_each, kept);
            sent_is = rw (k, try_each, kept);
          }

  not_true : false ≡ true → ⊥
  not_true e = cc

  -- What goes on behind a silent origin.
  try_each-behind :
      (w : Text) (os : List Text) (last : Option Failure) (t : Transport)
      → is_silent (run (w ++ path)) ≡ true
      → (aborted : Bool) × (e : Failure) × (is_network_failure aborted e ≡ true)
        × (try_each run path (w ∷ os) last t ≡ behind w (try_each run path os (some e) t))
  unfolding try_each
  try_each-behind w os last t h = go (run (w ++ path)) refl
    where
      go :
          (m : Reply A)
          → run (w ++ path) ≡ m
          → (aborted : Bool) × (e : Failure) × (is_network_failure aborted e ≡ true)
            × (try_each run path (w ∷ os) last t ≡ behind w (try_each run path os (some e) t))
      go (answered a) k = absurd (not_true (rw k at h))
      go (failed aborted e) k =
          let lost : is_network_failure aborted e ≡ true = rw k at h in
          (aborted, e, lost, rw (k, try_each, lost))

  try_each-Reached :
      (o : Text) (os : List Text) (last : Option Failure) (t : Transport)
      → has o os ≡ true
      → is_silent (run (o ++ path)) ≡ false
      → Reached t os (try_each run path os last t)
  unfolding has
  try_each-Reached o [] last t h e = absurd cc
  try_each-Reached o (w ∷ os) last t h e = elim (Bool-cases (is_silent (run (w ++ path)))) [
    | inr k ↦ try_each-front w os last t k
    | inl k ↦
        let (_, error, _, same) = try_each-behind w os last t k in
        subst (Reached t (w ∷ os)) (sym same) (
          behind-Reached w t os _ k (
            try_each-Reached o os (some error) t
              (elim (Bool-cases (text_eq w o)) [
                | inl m ↦ absurd (
                    not_true (
                      sym e
                      ∙ (ap (λ x. is_silent (run (x ++ path))) (sym ((text_eq_iff w o).0 m)) ∙ k)))
                | inr m ↦ (rw m at h)
              ])
              e))
  ]

module _ {ℓ} {A : Type ℓ} (run : Text → Reply A) (t : Transport) (alternates : List Text)
    (s : Text) where
  -- A request that was built against the primary origin is tried at the candidates.
  attempt-try_each :
      t.primary ≢ []
      → attempt run (t.primary ++ (b'/' ∷ s)) alternates t
        ≡ try_each run (b'/' ∷ s) (candidates t alternates) none t
  unfolding attempt known_origins
  attempt-try_each h = rw (
    find_primary t.primary s (t.active ∷ map normalise_base_url alternates) h,
    attempt,
    drop-append t.primary (b'/' ∷ s),
  )

  -- As long as one of the server's addresses replies, be it the active one, an alternate or the
  -- primary one, a request that was built against the primary address is settled by the first of
  -- them that does. It is sent once to each address before that one, and there, with the path
  -- unchanged, and to no other. If the reply is an answer the transport stays with that address, and
  -- if it is another failure than of the network the transport stays as it was.
  pub attempt-Reached :
      (o : Text)
      → t.primary ≢ []
      → o ≢ []
      → has o (origins_of t alternates) ≡ true
      → is_silent (run (o ++ (b'/' ∷ s))) ≡ false
      → Reached run
          (b'/' ∷ s)
          t
          (candidates t alternates)
          (attempt run (t.primary ++ (b'/' ∷ s)) alternates t)
  unfolding candidates
  attempt-Reached o h filled there replied =
      subst (Reached run (b'/' ∷ s) t (candidates t alternates)) (sym (attempt-try_each h)) (
        try_each-Reached run (b'/' ∷ s) o (candidates t alternates) none t
          (has-unique o (origins_of t alternates) filled there) replied)
