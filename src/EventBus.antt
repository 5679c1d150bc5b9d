-- ===== src/EventBus.antt =====
-- apps/server/src/events/bus.ts and http/routes/events.ts: the bus that numbers the events and keeps
-- the last of them for a reconnect, and the text that the events route writes.
--
-- A handler is outside the model: what it receives is returned, per subscriber, and a handler that
-- throws changes nothing. `Event` is the program's event with its type and its JSON.
pub mod Replay
pub mod Wire
mod Tests
use local_cast.Base.{
  ℕ, zero, suc, ◌+◌, ◌-◌, Bool, true, false, not, ◌&&◌, List, [], ◌∷◌, ◌++◌, Option, none, some,
  Text, codes, text_eq, ltb, ◌==◌, if◌then◌else◌, length,
}
use local_cast.Js.{decimal}

pub record Event : Type 0 where
  pub kind : Text
  pub json : Text

pub record StoredEvent : Type 0 where
  pub id : ℕ
  pub event : Event

pub record Subscriber : Type 0 where
  pub id : ℕ
  pub device_id : Text

pub record EventBus : Type 0 where
  pub next_id : ℕ
  pub buffer : List StoredEvent
  pub buffer_size : ℕ
  pub subscribers : List Subscriber
  pub next_subscriber_id : ℕ

pub new : ℕ → EventBus
new buffer_size = record {
  next_id = 1;
  buffer = [];
  buffer_size = buffer_size;
  subscribers = [];
  next_subscriber_id = 1;
}

abbrev pub is_heartbeat : Event → Bool
is_heartbeat e = text_eq e.kind (codes "heartbeat")

-- `buffer.shift()`
shift : List StoredEvent → List StoredEvent
shift [] = []
shift (e ∷ es) = es

-- `buffer.push`, and one `shift` where the buffer has become too long
store : ℕ → List StoredEvent → StoredEvent → List StoredEvent
unfolding shift
store size buffer e =
    let longer = buffer ++ (e ∷ []) in if ltb size (length longer) then shift longer else longer

-- Who is told of an event: subscriber, id and event.
module _ (visibility : Event → Text → Bool) where
  notified : List Subscriber → ℕ → Event → List (ℕ × ℕ × Event)
  notified [] id e = []
  notified (s ∷ subs) id e =
      let rest = notified subs id e in
      if visibility e s.device_id then (s.id, id, e) ∷ rest else rest

  pub publish : EventBus → Event → EventBus × List (ℕ × ℕ × Event)
  unfolding store notified
  publish b e =
      let id = b.next_id in
      (
        record b {
          next_id = id + 1;
          buffer =
              if is_heartbeat e
              then b.buffer
              else store b.buffer_size b.buffer (record { id = id; event = e });
        },
        notified b.subscribers id e,
      )

  -- The filter of `replay`.
  pub replay_of : Text → ℕ → List StoredEvent → List StoredEvent
  replay_of device after [] = []
  replay_of device after (e ∷ es) =
      let rest = replay_of device after es in
      if ltb after e.id && visibility e.event device then e ∷ rest else rest

  pub replay : EventBus → Text → ℕ → List StoredEvent
  unfolding replay_of
  replay b device after = replay_of device after b.buffer

pub subscribe_with_id : EventBus → Text → EventBus × ℕ
subscribe_with_id b device =
    let id = b.next_subscriber_id in
    (
      record b {
        subscribers = b.subscribers ++ (record { id = id; device_id = device } ∷ []);
        next_subscriber_id = id + 1;
      },
      id,
    )

without : ℕ → List Subscriber → List Subscriber
without id [] = []
without id (s ∷ subs) = let rest = without id subs in if s.id == id then rest else s ∷ rest

pub unsubscribe : EventBus → ℕ → EventBus
unfolding without
unsubscribe b id = record b { subscribers = without id b.subscribers }

pub current_id : EventBus → ℕ
current_id b = b.next_id - 1

pub subscriber_count : EventBus → ℕ
subscriber_count b = length b.subscribers

pub dispose : EventBus → EventBus
dispose b = record b { subscribers = []; buffer = [] }

-- `send` of the events route: `id: …`, `event: …`, `data: …`, and a blank line.
pub send : ℕ → Event → Text
send id e =
    codes "id: "
    ++ (decimal id
        ++ (10
            ∷ (codes "event: "
                ++ (e.kind ++ (10 ∷ (codes "data: " ++ (e.json ++ (10 ∷ 10 ∷ []))))))))
