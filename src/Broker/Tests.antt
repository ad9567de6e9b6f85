-- ===== src/Broker/Tests.antt =====
-- Runs and witnesses of the broker (internal/broker/broker.go).
use comin.Base.{Bool, not, String, ◌==◌, ◌≡◌, refl, true, false, some, List, [], ◌∷◌, ◌++◌, arith}
use comin.Broker.{
  Event, Broker, log, other, closed, line, dispatch, publish, step, new, send, send_all, without,
  set_channel, receive,
}
use comin.Broker.Channels.{IsValid}
use comin.Broker.Sending.{listed}
use comin.Broker.Mailbox.{mailbox}
use comin.Broker.Runs.{Run, none_yet, then_run, run_refines, full_channel_loses_event}
use comin.Broker.Logger.{Logger, get_logger}

unfoldable broker : Unit {0}
unfolding step new send send_all without listed
broker = tt

-- A broker that runs, with one subscriber.
abbrev one_subscriber : Broker
one_subscriber = record {
  running = true;
  stopped = false;
  publish_ch = [];
  subscribers = 0 ∷ [];
  channels = λ ch. [];
  next_channel = 1;
}

one_subscriber-IsValid : IsValid one_subscriber
one_subscriber-IsValid = record {
  published = ground arith;
  buffered = λ ch. ground arith;
  apart = (tt, tt);
  named = (ground arith, tt);
}

abbrev fetched : Event
fetched = other "fetched"

abbrev with_event : Broker
with_event = record one_subscriber { publish_ch = fetched ∷ [] }

published_first : step (publish fetched) one_subscriber ≡ some with_event
unfolding broker
published_first = refl

is_listed : listed 0 one_subscriber.subscribers ≡ true
unfolding broker
is_listed = refl

abbrev handed : Broker
handed = record one_subscriber { channels = send_all (0 ∷ []) fetched one_subscriber.channels }

-- The event is published, handed out, and taken.
abbrev taken_last : Broker
taken_last = record handed { channels = set_channel 0 [] handed.channels }

one_event : Run 0 one_subscriber (fetched ∷ []) (fetched ∷ []) taken_last
unfolding broker
one_event = then_run (publish fetched) {b' = with_event} refl refl (
    then_run dispatch {b' = handed} refl refl
      (then_run (receive 0) {b' = taken_last} refl refl none_yet))

run_refines_example :
    (fetched ∷ []) ++ mailbox 0 taken_last ≡ mailbox 0 one_subscriber ++ fetched ∷ []
unfolding one_event broker
run_refines_example =
    run_refines 0 one_subscriber-IsValid is_listed one_event (tt, (ground arith, (tt, tt)))

-- Five lines of a log fill the channel of a subscriber who is busy.
abbrev output : Event
output = log "build" "uuid" (line "stderr" "copying path")

abbrev five : List Event
five = output ∷ output ∷ output ∷ output ∷ output ∷ []

abbrev busy : Broker
busy = record with_event { channels = λ ch. five }

busy-IsValid : IsValid busy
busy-IsValid = record {
  published = ground arith;
  buffered = λ ch. ground arith;
  apart = (tt, tt);
  named = (ground arith, tt);
}

abbrev after_busy : Broker
after_busy = record busy { publish_ch = []; channels = send_all (0 ∷ []) fetched busy.channels }

busy_hands_out : step dispatch busy ≡ some after_busy
unfolding broker
busy_hands_out = refl

full_channel_loses_event_example : (after_busy.channels 0 ≡ five) × (after_busy.publish_ch ≡ [])
full_channel_loses_event_example =
    full_channel_loses_event 0 fetched [] busy after_busy busy-IsValid is_listed refl refl
      busy_hands_out

-- A scanner that takes every line but one.
abbrev is_short : String → Bool
is_short msg = not (msg == "long")

abbrev pipes : Logger
pipes = get_logger ("a" ∷ "long" ∷ "b" ∷ []) []

abbrev ended : Logger
ended = record {
  stdout_lines = "long" ∷ "b" ∷ [];
  stderr_lines = [];
  scans_stdout = false;
  scans_stderr = false;
  has_ended = true;
}

abbrev whole_log : List Event
whole_log = log "build" "uuid" (line "stdout" "a") ∷ log "build" "uuid" closed ∷ []
