-- ===== src/Deployer/Signals.antt =====
-- The signals that wake the runner, where more of them are left than there is to deploy.
use comin.Base.{
  ◌≡◌, ◌⊎◌, refl, ◌∙◌, inl, inr, true, false, none, some, [], ◌∷◌, String, Option-cases,
}
use comin.Types.{Generation, Deployment}
use comin.Store.Retention.Sorting.{Sorter}
use comin.Store.Deployments.{created, started, new_deployment, deployment_started}
use comin.Deployer.{
  Runner, Deployer, Surroundings, Happening, suspend, resume, submit, begin, take, wake, step, run,
}

abbrev HasBegun : Deployer → Runner → Type 0
HasBegun d Runner.waiting = d.runner ≡ Runner.waiting
HasBegun d (Runner.deploying dpl) = d.runner ≡ Runner.deploying dpl
HasBegun d _ = ⊥

-- What `begin` leaves, whether the store finds the new deployment or not.
record IsBegun (g : Generation) (d d' : Deployer) : Type 0 where
  taken : d'.generation_to_deploy ≡ none
  busy : d'.is_deploying ≡ true
  available : d'.generation_available ≡ d.generation_available
  suspended : d'.is_suspended ≡ d.is_suspended
  runner : HasBegun d' d'.runner
  last : Deployment
  current : d'.deployment ≡ some last
  of_generation : last.generation ≡ g
  on_runner : (d'.runner ≡ Runner.deploying last) ⊎ (d'.runner ≡ Runner.waiting)

begin-IsBegun :
    (sorter : Sorter) (env : Surroundings) (d : Deployer) (g : Generation)
    → IsBegun g d (begin sorter env d g)
unfolding begin new_deployment created started
begin-IsBegun sorter env d g =
    let (s, dpl) =
      new_deployment sorter d.store g d.operation d.reason env.booted env.created_at env.uuid
        env.current_inhibitors env.new_inhibitors in
    elim (Option-cases (deployment_started sorter s dpl.uuid env.booted env.started_at).1) [
      | inl e ↦
          rw (e, begin)
            (record {
              taken = refl;
              busy = refl;
              available = refl;
              suspended = refl;
              runner = refl;
              last = started env.started_at dpl;
              current = refl;
              of_generation = refl;
              on_runner = inl refl;
            })
      | inr (m, e) ↦
          rw (e, begin)
            (record {
              taken = refl;
              busy = refl;
              available = refl;
              suspended = refl;
              runner = refl;
              last = dpl;
              current = refl;
              of_generation = refl;
              on_runner = inr refl;
            })
    ]

wake-IsBegun :
    (sorter : Sorter) (env : Surroundings) (d : Deployer) (g : Generation)
    → d.runner ≡ Runner.suspended
    → d.resume_signal ≡ true
    → d.generation_to_deploy ≡ some g
    → IsBegun g d (wake sorter env d)
unfolding wake take
wake-IsBegun sorter env d g w signal waits =
    let begun = begin-IsBegun sorter env (record d { resume_signal = false }) g in
    rw (w, signal, waits)
      (record {
        taken = begun.taken;
        busy = begun.busy;
        available = begun.available;
        suspended = begun.suspended;
        runner = begun.runner;
        last = begun.last;
        current = begun.current;
        of_generation = begun.of_generation;
        on_runner = begun.on_runner;
      })

-- A signal of `Resume` that no suspended runner takes is not lost: it ends the next suspension.
-- Whatever is submitted with `force` while the idle deployer is suspended again then leaves the queue
-- at the second move of the runner, as if it were not suspended.
pub resume_outlives_suspend :
    (sorter : Sorter) (d : Deployer) (why : String) (g : Generation) (operation reason : String)
    (env env' : Surroundings)
    → d.runner ≡ Runner.waiting
    → let d' = run sorter d (
        Happening.resumes
        ∷ Happening.suspends why
        ∷ Happening.submitted g operation true reason
        ∷ Happening.wakes env
        ∷ Happening.wakes env'
        ∷ []) in
      (d'.is_suspended ≡ true) × (d'.generation_to_deploy ≡ none) × (d'.is_deploying ≡ true)
unfolding run step submit suspend resume wake take begin
resume_outlives_suspend sorter d why g operation reason env env' w =
    let held : Deployer = run sorter d (
      Happening.resumes
      ∷ Happening.suspends why
      ∷ Happening.submitted g operation true reason
      ∷ Happening.wakes env
      ∷ []) in
    let woken = wake-IsBegun sorter env' held g (rw w refl) (rw w refl) (rw w refl) in
    (woken.suspended ∙ rw w refl, woken.taken, woken.busy)
