-- ===== src/Broker.antt =====
-- internal/broker/broker.go: the channel into which events are published, the subscribers, each
-- with a buffered channel, and the goroutine that hands an event to all of them.
pub mod Channels
pub mod Sending
pub mod Mailbox
pub mod Runs
pub mod Logger
pub mod LogOrder
mod Tests
use comin.Base.{
  ℕ, zero, suc, ◌+◌, Bool, true, false, not, ◌&&◌, Option, none, some, List, [], ◌∷◌, ◌++◌, String,
  length, ltb, leb, nat_eq, if◌then◌else◌,
}

pub data LogEvent : Type 0 where
  opened closed : LogEvent
  line : String → String → LogEvent

-- `protobuf.Event`: what a logger writes of an object, or an event of another component.
pub data Event : Type 0 where
  log : String → String → LogEvent → Event
  other : String → Event

-- A channel of a subscriber is named by a number. It outlives its subscription: who holds it can
-- still read what it holds.
pub record Broker : Type 0 where
  pub running : Bool
  pub stopped : Bool
  pub publish_ch : List Event
  pub subscribers : List ℕ
  pub channels : ℕ → List Event
  pub next_channel : ℕ

-- The capacities of the channels that `New` and `Subscribe` make.
abbrev pub publish_capacity : ℕ
publish_capacity = 1

abbrev pub subscriber_capacity : ℕ
subscriber_capacity = 5

unfoldable pub new : Broker
new = record {
  running = false;
  stopped = false;
  publish_ch = [];
  subscribers = [];
  channels = λ ch. [];
  next_channel = 0;
}

abbrev pub set_channel : ℕ → List Event → (ℕ → List Event) → ℕ → List Event
set_channel ch events channels other_ch = if nat_eq other_ch ch then events else channels other_ch

-- The send under a `select` with a default: an event that finds no room is dropped.
unfoldable pub send : List Event → Event → List Event
send buffer msg = if ltb (length buffer) subscriber_capacity then buffer ++ msg ∷ [] else buffer

-- The loop over the subscribers.
unfoldable pub send_all : List ℕ → Event → (ℕ → List Event) → ℕ → List Event
unfolding send
send_all [] msg channels = channels
send_all (ch ∷ rest) msg channels =
    send_all rest msg (set_channel ch (send (channels ch) msg) channels)

-- `delete` on the map of the subscribers.
unfoldable pub without : ℕ → List ℕ → List ℕ
without ch [] = []
without ch (c ∷ rest) = let others = without ch rest in if nat_eq c ch then others else c ∷ others

-- What may happen: the calls of the methods, the two cases of the goroutine's `select`, and a
-- subscriber who takes an event from his channel.
pub data Action : Type 0 where
  start stop subscribe dispatch leave : Action
  publish : Event → Action
  unsubscribe receive : ℕ → Action

abbrev pub tail_of : ℕ → List Event → Broker → Option Broker
tail_of ch [] b = none
tail_of ch (msg ∷ rest) b = some (record b { channels = set_channel ch rest b.channels })

abbrev pub dispatched : List Event → Broker → Option Broker
dispatched [] b = none
dispatched (msg ∷ rest) b =
    some (record b { publish_ch = rest; channels = send_all b.subscribers msg b.channels })

-- One step, or `none` where the call blocks or, at a second `Stop`, panics.
unfoldable pub step : Action → Broker → Option Broker
unfolding send_all without
step start b = if b.running then none else some (record b { running = true })
step stop b = if b.stopped then none else some (record b { stopped = true })
step leave b = if b.running && b.stopped then some (record b { running = false }) else none
step subscribe b = some (record b {
  subscribers = b.next_channel ∷ b.subscribers;
  channels = set_channel b.next_channel [] b.channels;
  next_channel = b.next_channel + 1;
})
step (unsubscribe ch) b = some (record b { subscribers = without ch b.subscribers })
step (publish msg) b =
    if ltb (length b.publish_ch) publish_capacity
    then some (record b { publish_ch = b.publish_ch ++ msg ∷ [] })
    else none
step dispatch b = if b.running then dispatched b.publish_ch b else none
step (receive ch) b = tail_of ch (b.channels ch) b
