-- ===== src/Builder/Exec/Waiting.antt =====
-- The waits of `Exec` (internal/builder/exec.go): which of them end, and with which error.
use comin.Base.{
  ◌≡◌, ◌≢◌, refl, sym, ap, subst, ◌⊎◌, inl, inr, Bool, true, false, List, [], ◌∷◌, All, arith,
  if◌then◌else◌,
}
use comin.Types.{Error}
use comin.Builder.Exec.{
  Exec, new_exec, Goroutine, not_launched, running, returned, recorded, about_to_receive, receiving,
  waited, Event, starts, run_returns, records, stops, times_out, wait_reads, wait_receives,
  send_done, return_from, record_from, read_from, receive_from, start, stop, step, run,
}

-- An `Exec` is started once: the builder makes a new one for every run.
abbrev pub IsLater : Event → Type 0
IsLater starts = ⊥
IsLater (run_returns result) = Unit
IsLater records = Unit
IsLater stops = Unit
IsLater times_out = Unit
IsLater wait_reads = Unit
IsLater wait_receives = Unit

-- What every later event keeps, a run keeps.
pub run-kept :
    (P : Exec → Type 0)
    → ((e : Exec) (event : Event) → IsLater event → P e → P (step e event))
    → (e : Exec) (events : List Event) → All IsLater events
    → P e
    → P (run e events)
unfolding run
run-kept P kept e [] later h = h
run-kept P kept e (event ∷ events) (first, later) h =
    run-kept P kept (step e event) events later (kept e event first h)

-- The flags of a run that has started, for where its goroutine is.
abbrev pub Agrees : Goroutine → Bool → Bool → Type 0
Agrees not_launched started finished = ⊥
Agrees running started finished = (started ≡ true) × (finished ≡ false)
Agrees (returned result) started finished = (started ≡ true) × (finished ≡ false)
Agrees recorded started finished = (started ≡ false) × (finished ≡ true)

abbrev pub IsLaunched : Exec → Type 0
IsLaunched e = Agrees e.goroutine e.started e.finished

pub Agrees-return_from :
    (g : Goroutine) (result : Error) (s f : Bool) → Agrees g s f → Agrees (return_from g result) s f
Agrees-return_from not_launched result s f h = h
Agrees-return_from running result s f h = h
Agrees-return_from (returned r) result s f h = h
Agrees-return_from recorded result s f h = h

-- `Stop` and the timeout change the context alone.
pub context_only :
    (P : Exec → Type 0) (b : Bool) (e : Exec) (context : Error)
    → P (record e { context = context })
    → P e
    → P (if b then record e { context = context } else e)
context_only P true e context h h₁ = h
context_only P false e context h h₁ = h₁

record_from-IsLaunched :
    (g : Goroutine) (e : Exec) → IsLaunched e → e.goroutine ≡ g → IsLaunched (record_from g e)
record_from-IsLaunched not_launched e h at = h
record_from-IsLaunched running e h at = h
record_from-IsLaunched (returned result) e h at = (refl, refl)
record_from-IsLaunched recorded e h at = h

pub step-IsLaunched :
    (e : Exec) (event : Event) → IsLater event → IsLaunched e → IsLaunched (step e event)
unfolding step stop
step-IsLaunched e starts later h = absurd later
step-IsLaunched e (run_returns result) later h =
    Agrees-return_from e.goroutine result e.started e.finished h
step-IsLaunched e records later h = record_from-IsLaunched e.goroutine e h refl
step-IsLaunched e stops later h = context_only IsLaunched e.started e _ h h
step-IsLaunched e times_out later h = context_only IsLaunched e.started e _ h h
step-IsLaunched e wait_reads later h = h
step-IsLaunched e wait_receives later h = h

-- The end of the run is recorded and the caller of `Wait` has still to receive.
abbrev IsMissed : Exec → Type 0
IsMissed e = (e.goroutine ≡ recorded) × ((e.waiter ≡ about_to_receive) ⊎ (e.waiter ≡ receiving))

step-IsMissed : (e : Exec) (event : Event) → IsLater event → IsMissed e → IsMissed (step e event)
unfolding step stop
step-IsMissed e starts later h = absurd later
step-IsMissed e (run_returns result) later (at, waits) = (ap (λ g. return_from g result) at, waits)
step-IsMissed e records later (at, waits) =
    subst (λ g. IsMissed (record_from g e)) (sym at) (at, waits)
step-IsMissed e stops later h = context_only IsMissed e.started e _ h h
step-IsMissed e times_out later h = context_only IsMissed e.started e _ h h
step-IsMissed e wait_reads later (at, inl w) = (at, inl (ap (λ x. read_from x e.started) w))
step-IsMissed e wait_reads later (at, inr w) = (at, inr (ap (λ x. read_from x e.started) w))
step-IsMissed e wait_receives later (at, inl w) = (at, inr (ap receive_from w))
step-IsMissed e wait_receives later (at, inr w) = (at, inr (ap receive_from w))

missed-never_waited :
    (e : Exec) (events : List Event)
    → All IsLater events
    → IsMissed e
    → (run e events).waiter ≢ waited
missed-never_waited e events later h returns =
    elim (run-kept IsMissed step-IsMissed e events later h).1 [
      | inl about ↦ absurd (ground arith)
      | inr blocked ↦ absurd (ground arith)
    ]

-- When the run ends after `Wait` has read that it is started and before it receives, the signal on `done`
-- is lost: whatever happens later, `Wait` never returns.
pub missed_wait_hangs :
    (result : Error) (events : List Event)
    → All IsLater events
    → (run (start new_exec) (wait_reads ∷ run_returns result ∷ records ∷ events)).waiter ≢ waited
unfolding run step start new_exec
missed_wait_hangs result events later =
    let missed = run (start new_exec) (wait_reads ∷ run_returns result ∷ records ∷ []) in
    missed-never_waited missed events later (refl, inl refl)

-- Blocked while the run goes on, or released by its end.
abbrev IsServed : Exec → Type 0
IsServed e = IsLaunched e × ((e.waiter ≡ receiving) × (e.started ≡ true) ⊎ (e.waiter ≡ waited))

record_from-IsServed :
    (g : Goroutine) (e : Exec) → IsServed e → e.goroutine ≡ g → IsServed (record_from g e)
record_from-IsServed not_launched e h at = h
record_from-IsServed running e h at = h
record_from-IsServed (returned result) e (h, inl (w, s)) at = ((refl, refl), inr (ap send_done w))
record_from-IsServed (returned result) e (h, inr w) at = ((refl, refl), inr (ap send_done w))
record_from-IsServed recorded e h at = h

step-IsServed : (e : Exec) (event : Event) → IsLater event → IsServed e → IsServed (step e event)
unfolding step stop
step-IsServed e starts later h = absurd later
step-IsServed e (run_returns result) later (h, waits) =
    (Agrees-return_from e.goroutine result e.started e.finished h, waits)
step-IsServed e records later h = record_from-IsServed e.goroutine e h refl
step-IsServed e stops later h = context_only IsServed e.started e _ h h
step-IsServed e times_out later h = context_only IsServed e.started e _ h h
step-IsServed e wait_reads later (h, inl (w, s)) = (h, inl (ap (λ x. read_from x e.started) w, s))
step-IsServed e wait_reads later (h, inr w) = (h, inr (ap (λ x. read_from x e.started) w))
step-IsServed e wait_receives later (h, inl (w, s)) = (h, inl (ap receive_from w, s))
step-IsServed e wait_receives later (h, inr w) = (h, inr (ap receive_from w))

pub Agrees-exclusive : (g : Goroutine) (s f : Bool) → Agrees g s f → s ≡ true → f ≡ true → ⊥
Agrees-exclusive not_launched s f h started finished = h
Agrees-exclusive running s f (_, unfinished) started finished = ground arith
Agrees-exclusive (returned r) s f (_, unfinished) started finished = ground arith
Agrees-exclusive recorded s f (ended, _) started finished = ground arith

-- A `Wait` that is blocked while the run goes on has returned in every later state in which the run is
-- finished.
pub blocked_wait_ends :
    (e : Exec) (events : List Event)
    → IsLaunched e
    → e.started ≡ true
    → e.waiter ≡ receiving
    → All IsLater events
    → (run e events).finished ≡ true
    → (run e events).waiter ≡ waited
blocked_wait_ends e events launched started blocked later finished =
    let (h, waits) =
      run-kept IsServed step-IsServed e events later (launched, inl (blocked, started)) in
    elim waits [
      | inl (w, s) ↦ absurd (Agrees-exclusive (run e events).goroutine _ _ h s finished)
      | inr w ↦ w
    ]
