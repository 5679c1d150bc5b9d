-- ===== src/Failover/Changes.antt =====
-- packages/client-core/src/origin-failover.ts: the changes of address that are reported.
use local_cast.Base.{
  ◌≡◌, ◌≢◌, refl, sym, List, [], ◌∷◌, ◌++◌, Option, none, some, Text, text_eq, text_eq_iff, arith,
  Bool-cases, inl, inr,
}
use local_cast.Failover.{
  Failure, Reply, answered, failed, is_network_failure, OriginChange, Transport, new_transport,
  normalise_base_url, find_origin, known_origins, candidates, adopt, reset, try_each, direct,
  attempt,
}

-- The changes lead from one address to another, and each is to another one than before.
abbrev pub Leads : Text → List OriginChange → Text → Type 0
Leads a [] b = a ≡ b
Leads a (c ∷ cs) b = (c.previous ≡ a) × (c.origin ≢ c.previous) × Leads c.origin cs b

Leads-snoc :
    (a : Text) (cs : List OriginChange) (b o : Text)
    → Leads a cs b
    → o ≢ b
    → Leads a (cs ++ (record { origin = o; previous = b } ∷ [])) o
Leads-snoc a [] b o h k = (sym h, k, refl)
Leads-snoc a (c ∷ cs) b o (h, m, rest) k = (h, m, Leads-snoc c.origin cs b o rest k)

-- What has been reported leads from an address to the active one.
abbrev pub Reported : Text → Transport → Type 0
Reported p t = Leads p t.events t.active

adopt-Reported : (p : Text) (t : Transport) (o : Text) → Reported p t → Reported p (adopt t o)
unfolding adopt
adopt-Reported p t o h = elim (Bool-cases (text_eq o t.active)) [
  | inl e ↦ rw e h
  | inr e ↦
      rw e (Leads-snoc p t.events t.active o h (λ k. ground (arith, (text_eq_iff o t.active).1 k)))
]

-- A call on the transport: a request with the alternates of that time and what comes back from each
-- address, or `reset`.
pub data Call {ℓ} (A : Type ℓ) : Type ℓ where
  asked : Text → List Text → (Text → Reply A) → Call A
  signed_out : Call A

module _ {ℓ} {A : Type ℓ} where
  abbrev pub called : Transport → Call A → Transport
  called t (asked url alternates run) = (attempt run url alternates t).transport
  called t signed_out = reset t

  abbrev pub calls : Transport → List (Call A) → Transport
  calls t [] = t
  calls t (c ∷ cs) = calls (called t c) cs

module _ {ℓ} {A : Type ℓ} (p : Text) where
  try_each-Reported :
      (run : Text → Reply A) (path : Text) (os : List Text) (last : Option Failure) (t : Transport)
      → Reported p t
      → Reported p (try_each run path os last t).transport
  unfolding try_each
  try_each-Reported run path [] last t h = h
  try_each-Reported run path (o ∷ os) last t h =
      go (run (o ++ path)) (λ e. try_each-Reported run path os (some e) t h) refl
    where
      go :
          (m : Reply A)
          → ((e : Failure) → Reported p (try_each run path os (some e) t).transport)
          → run (o ++ path) ≡ m
          → Reported p (try_each run path (o ∷ os) last t).transport
      go (answered a) rest k = rw (k, try_each) (adopt-Reported p t o h)
      go (failed aborted e) rest k = elim (Bool-cases (is_network_failure aborted e)) [
        | inl lost ↦ rw (k, try_each, lost) (rest e)
        | inr kept ↦ rw (k, try_each, kept) h
      ]

  direct-Reported :
      (run : Text → Reply A) (url : Text) (t : Transport)
      → Reported p t
      → Reported p (direct run url t).transport
  unfolding direct
  direct-Reported run url t h = go (run url) refl
    where
      go : (m : Reply A) → run url ≡ m → Reported p (direct run url t).transport
      go (answered a) k = rw (k, direct) h
      go (failed aborted e) k = rw (k, direct) h

  attempt-Reported :
      (run : Text → Reply A) (url : Text) (alternates : List Text) (t : Transport)
      → Reported p t
      → Reported p (attempt run url alternates t).transport
  unfolding attempt
  attempt-Reported run url alternates t h = go (find_origin url (known_origins t alternates)) refl
    where
      go :
          (m : Option Text)
          → find_origin url (known_origins t alternates) ≡ m
          → Reported p (attempt run url alternates t).transport
      go none k = rw (k, attempt) (direct-Reported run url t h)
      go (some o) k = rw (k, attempt) (try_each-Reported run _ (candidates t alternates) none t h)

  calls-Reported : (cs : List (Call A)) (t : Transport) → Reported p t → Reported p (calls t cs)
  unfolding reset
  calls-Reported [] t h = h
  calls-Reported (asked url alternates run ∷ cs) t h =
      calls-Reported cs _ (attempt-Reported run url alternates t h)
  calls-Reported (signed_out ∷ cs) t h = calls-Reported cs _ (adopt-Reported p t t.primary h)

-- Whatever is asked of a new transport, with whatever alternates and replies, the changes that it
-- has reported lead without a gap from its primary address to the active one, and each of them is to
-- another address than before.
pub calls_reported {ℓ} :
    {A : Type ℓ} (primary : Text) (cs : List (Call A))
    → Leads
        (normalise_base_url primary)
        (calls (new_transport primary) cs).events
        (calls (new_transport primary) cs).active
unfolding new_transport
calls_reported primary cs =
    calls-Reported (normalise_base_url primary) cs (new_transport primary) refl
