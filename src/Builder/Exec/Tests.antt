-- ===== src/Builder/Exec/Tests.antt =====
-- Runs of `Exec` (internal/builder/exec.go), and the theorems at some of them.
use comin.Base.{◌≡◌, ◌≢◌, refl, true, false, none, some, [], ◌∷◌}
use comin.Builder.Exec.{
  Exec, new_exec, start, stop, step, run, running, waited, receiving, run_returns, records, stops,
  times_out, wait_reads, wait_receives,
}
use comin.Builder.Exec.Waiting.{missed_wait_hangs}
use comin.Builder.Exec.Stopping.{stopped_run_is_canceled}

unfoldable executes : Unit {0}
unfolding new_exec start stop step run
executes = tt

-- The run of the test of a timeout.
timed_out :
    (run
      (start new_exec)
      (wait_reads ∷ wait_receives ∷ times_out ∷ run_returns (some "killed") ∷ records ∷ [])).error
    ≡ some "context deadline exceeded"
unfolding executes
timed_out = refl

-- A `Wait` that comes after the end returns at once.
wait_after_end :
    (run (start new_exec) (run_returns none ∷ records ∷ wait_reads ∷ [])).waiter ≡ waited
unfolding executes
wait_after_end = refl

missed_wait_hangs_example :
    (run
      (start new_exec)
      (wait_reads ∷ run_returns none ∷ records ∷ wait_receives ∷ stops ∷ [])).waiter
    ≢ waited
missed_wait_hangs_example = missed_wait_hangs none (wait_receives ∷ stops ∷ []) (tt, (tt, tt))

abbrev blocked : Exec
blocked = record {
  started = true;
  finished = false;
  error = none;
  context = none;
  goroutine = running;
  waiter = receiving;
}

ends_stopped :
    (run (stop blocked) (run_returns (some "killed") ∷ times_out ∷ records ∷ [])).finished ≡ true
unfolding executes
ends_stopped = refl

stopped_run_is_canceled_example :
    (run (stop blocked) (run_returns (some "killed") ∷ times_out ∷ records ∷ [])).error
    ≡ some "context canceled"
stopped_run_is_canceled_example =
    stopped_run_is_canceled blocked (run_returns (some "killed") ∷ times_out ∷ records ∷ [])
      (refl, refl) refl refl (tt, (tt, (tt, tt))) ends_stopped
