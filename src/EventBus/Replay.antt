-- ===== src/EventBus/Replay.antt =====
-- What a device that reconnects is given by the bus of events/bus.ts.
use mathlib.Core.List.{append-nil, append_assoc}
use local_cast.Base.{
  ℕ, ◌+◌, ◌-◌, ◌≤◌, ◌<◌, ◌≡◌, refl, sym, ap, ◌∙◌, Bool, false, Bool-cases, inl, inr, List, [], ◌∷◌,
  ◌++◌, Text, arith, ltb, length, length-append, if◌then◌else◌,
}
use local_cast.EventBus.{
  Event, StoredEvent, EventBus, new, is_heartbeat, shift, store, publish, replay_of, replay,
  current_id,
}

abbrev AllBelow : ℕ → List StoredEvent → Type 0
AllBelow n [] = Unit
AllBelow n (e ∷ es) = (e.id < n) × AllBelow n es

AllBelow-mono : (m n : ℕ) (es : List StoredEvent) → m ≤ n → AllBelow m es → AllBelow n es
AllBelow-mono m n [] h a = tt
AllBelow-mono m n (e ∷ es) h (lt, a) = (omega arith, AllBelow-mono m n es h a)

AllBelow-append :
    (n : ℕ) (xs ys : List StoredEvent) → AllBelow n xs → AllBelow n ys → AllBelow n (xs ++ ys)
AllBelow-append n [] ys a b = b
AllBelow-append n (x ∷ xs) ys (h, a) b = (h, AllBelow-append n xs ys a b)

AllBelow-shift : (n : ℕ) (es : List StoredEvent) → AllBelow n es → AllBelow n (shift es)
unfolding shift
AllBelow-shift n [] a = tt
AllBelow-shift n (e ∷ es) a = a.1

-- The events that are kept for a reconnect, with their numbers.
abbrev pub stored_from : ℕ → List Event → List StoredEvent
stored_from id [] = []
stored_from id (e ∷ es) =
    let rest = stored_from (id + 1) es in
    if is_heartbeat e then rest else record { id = id; event = e } ∷ rest

stored_from-stored :
    (id : ℕ) (e : Event) (es : List Event)
    → is_heartbeat e ≡ false
    → stored_from id (e ∷ es) ≡ record { id = id; event = e } ∷ stored_from (id + 1) es
stored_from-stored id e es h = rw h refl

-- A store keeps what is new, as long as the buffer has room for it.
store_keeps :
    (size n : ℕ) (old news : List StoredEvent) (e : StoredEvent)
    → AllBelow n old
    → length news < size
    → (old' : List StoredEvent) × AllBelow n old'
      × (store size (old ++ news) e ≡ old' ++ (news ++ (e ∷ [])))
unfolding store shift
store_keeps size n [] news e a h = ([], tt, ground (arith, length-append news (e ∷ [])))
store_keeps size n (o ∷ old) news e a h =
    elim (Bool-cases (ltb size (length (((o ∷ old) ++ news) ++ (e ∷ []))))) [
      | inl full ↦ (old, a.1, rw (full, append_assoc old news (e ∷ [])) refl)
      | inr fits ↦ (o ∷ old, a, rw (fits, append_assoc old news (e ∷ [])) refl)
    ]

new_lem :
    (size : ℕ)
    → (0 < (new size).next_id)
      × AllBelow (new size).next_id (new size).buffer
      × ((new size).buffer_size ≡ size)
unfolding new
new_lem size = (omega arith, tt, refl)

module _ (visibility : Event → Text → Bool) where
  pub publish_all : EventBus → List Event → EventBus
  publish_all b [] = b
  publish_all b (e ∷ es) = publish_all (publish visibility b e).0 es

  publish-AllBelow :
      (b : EventBus) (e : Event)
      → AllBelow b.next_id b.buffer
      → AllBelow (b.next_id + 1) (publish visibility b e).0.buffer
  unfolding publish store
  publish-AllBelow b e a =
      let up = AllBelow-mono b.next_id (b.next_id + 1) b.buffer (omega arith) a in
      let longer =
        AllBelow-append (b.next_id + 1) b.buffer (record { id = b.next_id; event = e } ∷ []) up
          (omega arith, tt) in
      let shorter = AllBelow-shift (b.next_id + 1) _ longer in ground (arith, up, longer, shorter)

  -- The numbers that the bus has given are below the next one.
  publish_all-AllBelow :
      (b : EventBus) (es : List Event)
      → AllBelow b.next_id b.buffer
      → AllBelow (publish_all b es).next_id (publish_all b es).buffer
  unfolding publish_all publish
  publish_all-AllBelow b [] a = a
  publish_all-AllBelow b (e ∷ es) a =
      publish_all-AllBelow (publish visibility b e).0 es (publish-AllBelow b e a)

  publish_all-buffer_size :
      (b : EventBus) (es : List Event) → (publish_all b es).buffer_size ≡ b.buffer_size
  unfolding publish_all publish
  publish_all-buffer_size b [] = refl
  publish_all-buffer_size b (e ∷ es) = publish_all-buffer_size (publish visibility b e).0 es

  publish_all-next_id-pos :
      (b : EventBus) (es : List Event) → 0 < b.next_id → 0 < (publish_all b es).next_id
  unfolding publish_all publish
  publish_all-next_id-pos b [] h = h
  publish_all-next_id-pos b (e ∷ es) h =
      publish_all-next_id-pos (publish visibility b e).0 es (omega arith)

  publish-stored :
      (b : EventBus) (e : Event)
      → is_heartbeat e ≡ false
      → (publish visibility b e).0.buffer
        ≡ store b.buffer_size b.buffer (record { id = b.next_id; event = e })
  unfolding publish
  publish-stored b e h = rw h refl

  publish_all_keeps :
      (n : ℕ) (b : EventBus) (old news : List StoredEvent) (es : List Event)
      → b.buffer ≡ old ++ news
      → AllBelow n old
      → length news + length (stored_from b.next_id es) ≤ b.buffer_size
      → (old' : List StoredEvent) × AllBelow n old'
        × ((publish_all b es).buffer ≡ old' ++ (news ++ stored_from b.next_id es))
  unfolding publish_all publish
  publish_all_keeps n b old news [] q a h = (old, a, q ∙ ap (◌++◌ old) (sym (append-nil news)))
  publish_all_keeps n b old news (e ∷ es) q a h = elim (Bool-cases (is_heartbeat e)) [
    | inl beat ↦
        let (old', below, eq) =
          publish_all_keeps n (publish visibility b e).0 old news es (rw beat q) a (rw beat at h) in
        (old', below, eq ∙ rw beat refl)
    | inr real ↦
        let new_event : StoredEvent = record { id = b.next_id; event = e } in
        let room = stored_from-stored b.next_id e es real in
        let (kept, kept_below, kept_eq) =
          store_keeps b.buffer_size n old news new_event a (omega (arith, ap length room)) in
        let (old', below, eq) =
          publish_all_keeps n (publish visibility b e).0 kept (news ++ (new_event ∷ [])) es
            (publish-stored b e real ∙ ap (λ x. store b.buffer_size x new_event) q ∙ kept_eq)
            kept_below (omega (arith, ap length room, length-append news (new_event ∷ []))) in
        (
          old',
          below,
          eq
              ∙ ap (◌++◌ old') (
                  append_assoc news (new_event ∷ []) (stored_from (b.next_id + 1) es)
                  ∙ ap (◌++◌ news) (sym room)),
        )
  ]

  -- The events that the device may see.
  pub visible : Text → List StoredEvent → List StoredEvent
  visible device [] = []
  visible device (e ∷ es) =
      let rest = visible device es in if visibility e.event device then e ∷ rest else rest

  replay_of-append :
      (device : Text) (n : ℕ) (xs ys : List StoredEvent)
      → AllBelow (n + 1) xs
      → replay_of visibility device n (xs ++ ys) ≡ replay_of visibility device n ys
  unfolding replay_of
  replay_of-append device n [] ys a = refl
  replay_of-append device n (x ∷ xs) ys (h, a) = ground (arith, replay_of-append device n xs ys a)

  replay_of-stored :
      (device : Text) (n id : ℕ) (es : List Event)
      → n < id
      → replay_of visibility device n (stored_from id es) ≡ visible device (stored_from id es)
  unfolding replay_of visible
  replay_of-stored device n id [] h = refl
  replay_of-stored device n id (e ∷ es) h =
      let ih = replay_of-stored device n (id + 1) es (omega arith) in
      elim (Bool-cases (is_heartbeat e)) [
        | inl beat ↦ rw beat ih
        | inr real ↦ rw real (ground (arith, ih))
      ]

  replay_since :
      (b : EventBus) (since : List Event) (device : Text)
      → 0 < b.next_id
      → AllBelow b.next_id b.buffer
      → length (stored_from b.next_id since) ≤ b.buffer_size
      → replay visibility (publish_all b since) device (current_id b)
        ≡ visible device (stored_from b.next_id since)
  unfolding replay current_id
  replay_since b since device pos below h =
      let n = b.next_id - 1 in
      let next : n + 1 ≡ b.next_id = omega arith in
      let (old, old_below, eq) =
        publish_all_keeps b.next_id b b.buffer [] since (sym (append-nil b.buffer)) below
          (omega (arith, h)) in
      ap (replay_of visibility device n) eq
      ∙ replay_of-append device n old (stored_from b.next_id since) (rw next old_below)
      ∙ replay_of-stored device n b.next_id since (omega arith)

  -- A device that has seen everything up to some moment and comes back with that moment's last id is
  -- given exactly the events since then that it may see, with their ids and in order, provided that
  -- the bus has kept no more events since than its buffer holds. Heartbeats are not replayed.
  pub replay-publish_all :
      (size : ℕ) (before since : List Event) (device : Text)
      → length (stored_from (publish_all (new size) before).next_id since) ≤ size
      → replay visibility
          (publish_all (publish_all (new size) before) since)
          device
          (current_id (publish_all (new size) before))
        ≡ visible device (stored_from (publish_all (new size) before).next_id since)
  replay-publish_all size before since device h =
      replay_since (publish_all (new size) before) since device
        (publish_all-next_id-pos (new size) before (new_lem size).0)
        (publish_all-AllBelow (new size) before (new_lem size).1)
        (rw (publish_all-buffer_size (new size) before ∙ (new_lem size).2) h)
