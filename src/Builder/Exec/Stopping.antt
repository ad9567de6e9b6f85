-- ===== src/Builder/Exec/Stopping.antt =====
-- The end of a run of `Exec` (internal/builder/exec.go) that `Stop` has canceled.
use comin.Base.{◌≡◌, refl, ap, subst, Bool, true, none, some, List, All, arith}
use comin.Types.{Error}
use comin.Builder.Exec.{
  Exec, Goroutine, not_launched, running, returned, recorded, Event, starts, run_returns, records,
  stops, times_out, wait_reads, wait_receives, first_error, return_from, record_from,
  recorded_error, stop, step, run,
}
use comin.Builder.Exec.Waiting.{
  IsLater, run-kept, Agrees, IsLaunched, Agrees-return_from, context_only,
}

-- The context is canceled, and an end that is recorded says so.
abbrev Reports : Goroutine → Error → Type 0
Reports not_launched error = Unit
Reports running error = Unit
Reports (returned result) error = Unit
Reports recorded error = error ≡ some "context canceled"

abbrev IsCanceled : Exec → Type 0
IsCanceled e = IsLaunched e × (e.context ≡ some "context canceled") × Reports e.goroutine e.error

Reports-return_from :
    (g : Goroutine) (result error : Error) → Reports g error → Reports (return_from g result) error
Reports-return_from not_launched result error h = h
Reports-return_from running result error h = tt
Reports-return_from (returned r) result error h = tt
Reports-return_from recorded result error h = h

record_from-IsCanceled :
    (g : Goroutine) (e : Exec) → IsCanceled e → e.goroutine ≡ g → IsCanceled (record_from g e)
record_from-IsCanceled not_launched e h at = h
record_from-IsCanceled running e h at = h
record_from-IsCanceled (returned result) e (h, c, r) at = (
  (refl, refl),
  ap (λ x. first_error x "context canceled") c,
  ap (λ x. recorded_error x result) c,
)
record_from-IsCanceled recorded e h at = h

step-IsCanceled :
    (e : Exec) (event : Event) → IsLater event → IsCanceled e → IsCanceled (step e event)
unfolding step stop
step-IsCanceled e starts later h = absurd later
step-IsCanceled e (run_returns result) later (h, c, r) = (
  Agrees-return_from e.goroutine result e.started e.finished h,
  c,
  Reports-return_from e.goroutine result e.error r,
)
step-IsCanceled e records later h = record_from-IsCanceled e.goroutine e h refl
step-IsCanceled e stops later (h, c, r) =
    context_only IsCanceled e.started e _ (h, ap (λ x. first_error x "context canceled") c, r)
      (h, c, r)
step-IsCanceled e times_out later (h, c, r) =
    context_only IsCanceled e.started e _
      (h, ap (λ x. first_error x "context deadline exceeded") c, r) (h, c, r)
step-IsCanceled e wait_reads later h = h
step-IsCanceled e wait_receives later h = h

Reports-started :
    (g : Goroutine) (s f : Bool) (error : Error) → Agrees g s f → s ≡ true → Reports g error
Reports-started not_launched s f error h started = tt
Reports-started running s f error h started = tt
Reports-started (returned r) s f error h started = tt
Reports-started recorded s f error (ended, _) started = absurd (ground arith)

stop-IsCanceled :
    (e : Exec) → IsLaunched e → e.started ≡ true → e.context ≡ none → IsCanceled (stop e)
unfolding stop
stop-IsCanceled e launched started live = rw started (
  subst (λ s. Agrees e.goroutine s e.finished) started launched,
  ap (λ x. first_error x "context canceled") live,
  Reports-started e.goroutine e.started e.finished e.error launched started,
)

Reports-finished :
    (g : Goroutine) (s f : Bool) (error : Error)
    → Agrees g s f
    → f ≡ true
    → Reports g error
    → error ≡ some "context canceled"
Reports-finished not_launched s f error h finished r = absurd h
Reports-finished running s f error (_, unfinished) finished r = absurd (ground arith)
Reports-finished (returned _) s f error (_, unfinished) finished r = absurd (ground arith)
Reports-finished recorded s f error h finished r = r

-- When `Stop` finds a run that goes on, with its context neither canceled nor at its deadline, then in every
-- later state in which the run is finished its error is the one of the canceled context, whatever `Run`
-- itself returned, and a timeout that comes later does not change it.
pub stopped_run_is_canceled :
    (e : Exec) (events : List Event)
    → IsLaunched e
    → e.started ≡ true
    → e.context ≡ none
    → All IsLater events
    → (run (stop e) events).finished ≡ true
    → (run (stop e) events).error ≡ some "context canceled"
stopped_run_is_canceled e events launched started live later finished =
    let stopped = run (stop e) events in
    let (h, _, r) =
      run-kept IsCanceled step-IsCanceled (stop e) events later
        (stop-IsCanceled e launched started live) in
    Reports-finished stopped.goroutine stopped.started stopped.finished stopped.error h finished r
