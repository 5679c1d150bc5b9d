-- ===== src/EventBus/Tests.antt =====
-- A bus with a small buffer, and its theorems at concrete events.
use local_cast.Base.{
  ℕ, ◌≤◌, ◌≡◌, refl, arith, Bool, true, List, [], ◌∷◌, Option, none, some, Text, codes, length,
}
use local_cast.EventBus.{Event, new, replay, current_id, send}
use local_cast.EventBus.Replay.{publish_all, stored_from, visible, replay-publish_all}
use local_cast.EventBus.Wire.{push-send}
use local_cast.Js.{decimal}
use local_cast.Sse.{SseDecoder, push}

abbrev to_all : Event → Text → Bool
to_all e device = true

abbrev ready : Event
ready = record { kind = codes "ready"; json = codes "{}" }

abbrev beat : Event
beat = record { kind = codes "heartbeat"; json = codes "{}" }

kept_since :
    length
      (stored_from (publish_all to_all (new 2) (ready ∷ [])).next_id (ready ∷ beat ∷ ready ∷ []))
    ≤ 2
unfolding local_cast.Base.text_eq
kept_since = omega arith

replay-publish_all_example :
    replay to_all
      (publish_all to_all (publish_all to_all (new 2) (ready ∷ [])) (ready ∷ beat ∷ ready ∷ []))
      (codes "phone")
      (current_id (publish_all to_all (new 2) (ready ∷ [])))
    ≡ visible to_all
        (codes "phone")
        (stored_from (publish_all to_all (new 2) (ready ∷ [])).next_id (ready ∷ beat ∷ ready ∷ []))
replay-publish_all_example =
    replay-publish_all to_all 2 (ready ∷ []) (ready ∷ beat ∷ ready ∷ []) (codes "phone") kept_since

abbrev between_events : SseDecoder
between_events = record {
  buffer = [];
  fields = record { data_lines = []; event = none; last_id = none; retry_ms = none };
}

abbrev no_number : Text → Option ℕ
no_number s = none

push-send_example : push no_number between_events (send 12 ready) ≡ (
  record {
    buffer = [];
    fields = record { data_lines = []; event = none; last_id = some (decimal 12); retry_ms = none };
  },
  record { id = some (decimal 12); event = some (codes "ready"); data_text = codes "{}" } ∷ [],
)
push-send_example =
    push-send no_number between_events 12 ready refl refl (ground arith) (ground arith)
