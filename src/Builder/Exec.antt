-- ===== src/Builder/Exec.antt =====
-- `Exec` (internal/builder/exec.go): a runnable with a context, in a goroutine of its own, and the
-- goroutine that waits for its end. Each event is what one of them does between two points at which the
-- other can act; the block under the mutex at the end of the run is one event.

pub mod Stopping
pub mod Waiting
pub mod Tests
use comin.Base.{Bool, true, false, Option, none, some, List, [], ◌∷◌, String, if◌then◌else◌}
use comin.Types.{Error}

-- The goroutine of `Start`: `Run` is under way, has returned its error, or the end is recorded.
pub data Goroutine : Type 0 where
  not_launched : Goroutine
  running : Goroutine
  returned : Error → Goroutine
  recorded : Goroutine

-- The caller of `Wait`: before the call, after the read of `started`, blocked on `done`, and after it.
pub data Waiter : Type 0 where
  before_wait : Waiter
  about_to_receive : Waiter
  receiving : Waiter
  waited : Waiter

-- `context` is what `ctx.Err` answers. Nobody but the caller of `Wait` receives on `done`.
pub record Exec : Type 0 where
  pub started : Bool
  pub finished : Bool
  pub error : Error
  pub context : Error
  pub goroutine : Goroutine
  pub waiter : Waiter

unfoldable pub new_exec : Exec
new_exec = record {
  started = false;
  finished = false;
  error = none;
  context = none;
  goroutine = not_launched;
  waiter = before_wait;
}

-- The first error of a context stays.
abbrev pub first_error : Error → String → Error
first_error none e = some e
first_error (some e) _ = some e

-- The send on `done` that does not block: it is received only when the caller of `Wait` is blocked.
abbrev pub send_done : Waiter → Waiter
send_done before_wait = before_wait
send_done about_to_receive = about_to_receive
send_done receiving = waited
send_done waited = waited

-- The error of the context goes before the one of `Run`.
abbrev pub recorded_error : Error → Error → Error
recorded_error none result = result
recorded_error (some e) result = some e

pub data Event : Type 0 where
  starts : Event
  run_returns : Error → Event
  records : Event
  stops : Event
  times_out : Event
  wait_reads : Event
  wait_receives : Event

unfoldable pub start : Exec → Exec
start e = record e { started = true; context = none; goroutine = running }

abbrev pub return_from : Goroutine → Error → Goroutine
return_from running result = returned result
return_from not_launched result = not_launched
return_from (returned r) result = returned r
return_from recorded result = recorded

-- The end of the goroutine, under the mutex, and its deferred calls, which cancel the context.
abbrev pub record_from : Goroutine → Exec → Exec
record_from (returned result) e = record e {
  error = recorded_error e.context result;
  started = false;
  finished = true;
  waiter = send_done e.waiter;
  goroutine = recorded;
  context = first_error e.context "context canceled";
}
record_from not_launched e = e
record_from running e = e
record_from recorded e = e

-- `Stop`.
unfoldable pub stop : Exec → Exec
stop e = if e.started then record e { context = first_error e.context "context canceled" } else e

abbrev pub time_out : Exec → Exec
time_out e =
    if e.started
    then record e { context = first_error e.context "context deadline exceeded" }
    else e

-- `Wait`: the read of `started`, and then the receive.
abbrev pub read_from : Waiter → Bool → Waiter
read_from before_wait true = about_to_receive
read_from before_wait false = waited
read_from about_to_receive _ = about_to_receive
read_from receiving _ = receiving
read_from waited _ = waited

abbrev pub receive_from : Waiter → Waiter
receive_from before_wait = before_wait
receive_from about_to_receive = receiving
receive_from receiving = receiving
receive_from waited = waited

unfoldable pub step : Exec → Event → Exec
unfolding start stop
step e starts = start e
step e (run_returns result) = record e { goroutine = return_from e.goroutine result }
step e records = record_from e.goroutine e
step e stops = stop e
step e times_out = time_out e
step e wait_reads = record e { waiter = read_from e.waiter e.started }
step e wait_receives = record e { waiter = receive_from e.waiter }

unfoldable pub run : Exec → List Event → Exec
unfolding step
run e [] = e
run e (event ∷ events) = run (step e event) events
