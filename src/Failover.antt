-- ===== src/Failover.antt =====
-- packages/client-core/src/origin-failover.ts: `OriginFailoverTransport`, which follows the server
-- to its other addresses.
--
-- `run` is the transport inside, as what it comes back with for each address of a request. Requests
-- do not overlap, and the log is left out.
pub mod Candidates
pub mod Reaching
pub mod Changes
mod Tests
use local_cast.Base.{
  ℕ, zero, suc, Bool, true, false, not, ◌&&◌, ◌||◌, List, [], ◌∷◌, ◌++◌, map, Option, none, some,
  Text, codes, text_eq, starts_with, ◌==◌, if◌then◌else◌, length, drop,
}
use local_cast.Sets.{without}

-- What a request is rejected with, as far as it is looked at.
pub data Failure : Type 0 where
  network_error local_cast_error type_error : Failure
  named : Text → Failure

-- An answer of any status, or a failure; with it goes whether the caller's signal has fired by then.
pub data Reply {ℓ} (A : Type ℓ) : Type ℓ where
  answered : A → Reply A
  failed : Bool → Failure → Reply A

pub is_network_failure : Bool → Failure → Bool
unfolding text_eq
is_network_failure true e = false
is_network_failure false network_error = true
is_network_failure false local_cast_error = false
is_network_failure false type_error = true
is_network_failure false (named n) =
    text_eq n (codes "AbortError") || text_eq n (codes "TimeoutError")

pub record OriginChange : Type 0 where
  pub origin : Text
  pub previous : Text

-- The transport, with the changes that it has reported.
pub record Transport : Type 0 where
  pub primary : Text
  pub active : Text
  pub events : List OriginChange

-- What a request comes to; `throw lastError` throws null where no origin was tried.
pub data Outcome {ℓ} (A : Type ℓ) : Type ℓ where
  got : A → Outcome A
  thrown : Option Failure → Outcome A

-- A request that has been dealt with, and the addresses it was sent to.
pub record Attempt {ℓ} (A : Type ℓ) : Type ℓ where
  pub transport : Transport
  pub outcome : Outcome A
  pub sent : List Text

abbrev pub is_empty : Text → Bool
is_empty [] = true
is_empty (c ∷ s) = false

-- `baseUrl.replace(/\/+$/, '')`
pub normalise_base_url : Text → Text
normalise_base_url [] = []
normalise_base_url (c ∷ s) =
    let rest = normalise_base_url s in if c == b'/' && is_empty rest then [] else c ∷ rest

-- The first occurrence of each value that is not empty.
pub unique : List Text → List Text
unfolding without
unique [] = []
unique (v ∷ vs) = let rest = unique vs in if is_empty v then rest else v ∷ without v rest

pub new_transport : Text → Transport
unfolding normalise_base_url
new_transport primary = record {
  primary = normalise_base_url primary;
  active = normalise_base_url primary;
  events = [];
}

pub candidates : Transport → List Text → List Text
unfolding unique normalise_base_url
candidates t alternates =
    unique (t.active ∷ (map normalise_base_url alternates ++ (t.primary ∷ [])))

pub known_origins : Transport → List Text → List Text
unfolding unique normalise_base_url
known_origins t alternates = unique (t.primary ∷ t.active ∷ map normalise_base_url alternates)

pub is_at : Text → Text → Bool
unfolding text_eq starts_with
is_at url origin = text_eq url origin || starts_with url (origin ++ codes "/")

pub find_origin : Text → List Text → Option Text
unfolding is_at
find_origin url [] = none
find_origin url (o ∷ os) = if is_at url o then some o else find_origin url os

pub adopt : Transport → Text → Transport
unfolding text_eq
adopt t origin = if text_eq origin t.active then t else record t {
  active = origin;
  events = t.events ++ (record { origin = origin; previous = t.active } ∷ []);
}

pub reset : Transport → Transport
unfolding adopt
reset t = adopt t t.primary

module _ {ℓ} {A : Type ℓ} (run : Text → Reply A) where
  -- The loop over the candidates; `last` is the error of the one before.
  pub try_each : Text → List Text → Option Failure → Transport → Attempt A
  unfolding adopt is_network_failure
  try_each path [] last t = record { transport = t; outcome = thrown last; sent = [] }
  try_each path (o ∷ os) last t = elim (run (o ++ path)) [
    | answered a ↦ record { transport = adopt t o; outcome = got a; sent = (o ++ path) ∷ [] }
    | failed aborted e ↦ elim (is_network_failure aborted e) [
      | true ↦
          let rest = try_each path os (some e) t in
          record {
            transport = rest.transport;
            outcome = rest.outcome;
            sent = (o ++ path) ∷ rest.sent;
          }
      | false ↦ record { transport = t; outcome = thrown (some e); sent = (o ++ path) ∷ [] }
    ]
  ]

  -- A request to somewhere else.
  pub direct : Text → Transport → Attempt A
  direct url t = elim (run url) [
    | answered a ↦ record { transport = t; outcome = got a; sent = url ∷ [] }
    | failed aborted e ↦ record { transport = t; outcome = thrown (some e); sent = url ∷ [] }
  ]

  pub attempt : Text → List Text → Transport → Attempt A
  unfolding find_origin known_origins try_each candidates direct
  attempt url alternates t = elim (find_origin url (known_origins t alternates)) [
    | none ↦ direct url t
    | some o ↦ try_each (drop (length o) url) (candidates t alternates) none t
  ]
