-- ===== src/Ipc/EventHub.antt =====
-- server/internal/ipc/eventhub.go. A subscriber is its channel, with what the session has taken
-- from it; each step is one call under the hub's mutex, or one receive.
use sshbackup.Common.{ℕ, suc, List, [], ◌∷◌, ◌++◌, length, ltb, ◌==◌, if◌then◌else◌}

-- `eventBufferSize`.
abbrev pub event_buffer_size : ℕ
event_buffer_size = 64

-- A channel with its number, and, for the statements, what was sent to the subscriber since it
-- subscribed and what it has received.
pub record Subscriber (Event : Type 0) : Type 0 where
  pub key : ℕ
  pub buffer : List Event
  pub sent : List Event
  pub received : List Event

-- The set of subscribers, and the number of the next channel.
pub record Hub (Event : Type 0) : Type 0 where
  pub subs : List (Subscriber Event)
  pub next : ℕ

module _ {Event : Type 0} where
  -- `NewEventHub`.
  abbrev pub new_event_hub : Hub Event
  new_event_hub = record { subs = []; next = 0 }

  -- `Subscribe`.
  abbrev pub subscribe : Hub Event → ℕ × Hub Event
  subscribe h = (
    h.next,
    record {
      subs = record { key = h.next; buffer = []; sent = []; received = [] } ∷ h.subs;
      next = suc h.next;
    },
  )

  abbrev pub without : ℕ → List (Subscriber Event) → List (Subscriber Event)
  without k [] = []
  without k (s ∷ ss) = let rest = without k ss in if s.key == k then rest else s ∷ rest

  -- The function that `Subscribe` returns.
  abbrev pub unsubscribe : ℕ → Hub Event → Hub Event
  unsubscribe k h = record h { subs = without k h.subs }

  -- The `select` of `Publish`: the event goes into the channel's buffer, or is dropped.
  abbrev pub offer : Event → Subscriber Event → Subscriber Event
  offer e s =
      if ltb (length s.buffer) event_buffer_size
      then record s { buffer = s.buffer ++ e ∷ []; sent = s.sent ++ e ∷ [] }
      else record s { sent = s.sent ++ e ∷ [] }

  abbrev pub offer_all : Event → List (Subscriber Event) → List (Subscriber Event)
  offer_all e [] = []
  offer_all e (s ∷ ss) = offer e s ∷ offer_all e ss

  -- `Publish`.
  abbrev pub publish : Event → Hub Event → Hub Event
  publish e h = record h { subs = offer_all e h.subs }

  -- `SubscriberCount`.
  abbrev pub subscriber_count : Hub Event → ℕ
  subscriber_count h = length h.subs

  -- A receive of `pushEvents` from the channel.
  abbrev pub take_next : List Event → Subscriber Event → Subscriber Event
  take_next [] s = s
  take_next (e ∷ es) s = record s { buffer = es; received = s.received ++ e ∷ [] }

  abbrev pub take_event : Subscriber Event → Subscriber Event
  take_event s = take_next s.buffer s

  abbrev pub receive_from : ℕ → List (Subscriber Event) → List (Subscriber Event)
  receive_from k [] = []
  receive_from k (s ∷ ss) = (if s.key == k then take_event s else s) ∷ receive_from k ss

  abbrev pub receive : ℕ → Hub Event → Hub Event
  receive k h = record h { subs = receive_from k h.subs }

  -- The calls and receives, in any order.
  pub data Reach : Hub Event → Type 0 where
    start : Reach new_event_hub
    after_subscribe : {h : Hub Event} → Reach h → Reach (subscribe h).1
    after_unsubscribe : {h : Hub Event} (k : ℕ) → Reach h → Reach (unsubscribe k h)
    after_publish : {h : Hub Event} (e : Event) → Reach h → Reach (publish e h)
    after_receive : {h : Hub Event} (k : ℕ) → Reach h → Reach (receive k h)
