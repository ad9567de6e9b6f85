-- ===== src/Deployer/Previous.antt =====
-- Which submission is deployed, and which deployment a submission is compared with.
use comin.Base.{
  ℕ, ◌≡◌, refl, ◌∙◌, inl, inr, Bool, true, false, ◌&&◌, ◌||◌, not, Option, none, some, List, [],
  ◌∷◌, ◌++◌, String, ◌==◌, Bool-cases, Option-cases, if◌then◌else◌,
}
use comin.Types.{Generation, Deployment}
use comin.Store.Retention.{Booted}
use comin.Store.Retention.Sorting.{Sorter}
use comin.Store.Deployments.{
  new_deployment, deployment_started, deployment_finished, started, created,
}
use comin.Deployer.{
  Runner, Deployer, Surroundings, Outcome, Happening, submit, is_already_deployed, begin, take,
  wake, outcome_of, complete, finish, step, run,
}

-- The deployment in hand is the one of a generation, with an operation and under a uuid.
abbrev pub IsFor : Option Deployment → Generation → String → String → Type 0
IsFor none g operation uuid = ⊥
IsFor (some dpl) g operation uuid =
    (dpl.generation ≡ g) × (dpl.operation_submitted ≡ operation) × (dpl.uuid ≡ uuid)

module _ (sorter : Sorter) where
  begin-IsFor :
      (env : Surroundings) (d : Deployer) (g : Generation)
      → IsFor (begin sorter env d g).deployment g d.operation env.uuid
        × ((begin sorter env d g).generation_to_deploy ≡ none)
        × ((begin sorter env d g).previous_deployment ≡ d.deployment)
  unfolding begin new_deployment created started
  begin-IsFor env d g =
      let (s, dpl) =
        new_deployment sorter d.store g d.operation d.reason env.booted env.created_at env.uuid
          env.current_inhibitors env.new_inhibitors in
      elim (Option-cases (deployment_started sorter s dpl.uuid env.booted env.started_at).1) [
        | inl e ↦ rw (e, begin) ((refl, refl, refl), refl, refl)
        | inr (m, e) ↦ rw (e, begin) ((refl, refl, refl), refl, refl)
      ]

  record IsReady (d : Deployer) : Type 0 where
    waiting : d.runner ≡ Runner.waiting
    awake : d.is_suspended ≡ false

  submit-IsReady :
      (d : Deployer) (g : Generation) (operation : String) (force : Bool) (reason : String)
      → IsReady d
      → IsReady (submit d g operation force reason)
  unfolding submit
  submit-IsReady d g operation force reason h =
      elim (Bool-cases (force || not (is_already_deployed d g operation))) [
        | inl e ↦ rw e (record { waiting = h.waiting; awake = h.awake })
        | inr e ↦ rw e h
      ]

  abbrev pub AreSubmissions : List Happening → Type 0
  AreSubmissions [] = Unit
  AreSubmissions (Happening.submitted _ _ _ _ ∷ hs) = AreSubmissions hs
  AreSubmissions (_ ∷ hs) = ⊥

  submissions-IsReady :
      (d : Deployer) (hs : List Happening)
      → AreSubmissions hs
      → IsReady d
      → IsReady (run sorter d hs)
  unfolding run step
  submissions-IsReady d [] a h = h
  submissions-IsReady d (Happening.submitted g operation force reason ∷ hs) a h =
      submissions-IsReady (submit d g operation force reason) hs a
        (submit-IsReady d g operation force reason h)
  submissions-IsReady d (Happening.suspends why ∷ hs) a h = absurd a
  submissions-IsReady d (Happening.resumes ∷ hs) a h = absurd a
  submissions-IsReady d (Happening.wakes env ∷ hs) a h = absurd a
  submissions-IsReady d (Happening.finishes b o now ∷ hs) a h = absurd a

  run-append :
      (d : Deployer) (hs more : List Happening)
      → run sorter d (hs ++ more) ≡ run sorter (run sorter d hs) more
  unfolding run
  run-append d [] more = refl
  run-append d (h ∷ hs) more = run-append (step sorter d h) hs more

  forced-IsFor :
      (d : Deployer) (g : Generation) (operation reason : String) (env : Surroundings)
      → IsReady d
      → let d' =
          run sorter d (Happening.submitted g operation true reason ∷ Happening.wakes env ∷ []) in
        IsFor d'.deployment g operation env.uuid
        × (d'.generation_to_deploy ≡ none)
        × (d'.previous_deployment ≡ d.deployment)
  unfolding run step submit wake take
  forced-IsFor d g operation reason env h =
      rw (h.waiting, h.awake)
        (begin-IsFor env
          (record d {
            generation_to_deploy = some g;
            operation = operation;
            reason = reason;
            generation_available = false;
            runner = Runner.waiting;
            is_suspended = false;
          })
          g)

  -- The last forced submission wins: whatever was submitted before it while the runner that is not
  -- suspended was waiting, the next deployment is of its generation and with its operation, under the
  -- uuid drawn, and nothing is left to deploy.
  pub last_submission_wins :
      (d : Deployer) (hs : List Happening) (g : Generation) (operation reason : String)
      (env : Surroundings)
      → d.runner ≡ Runner.waiting
      → d.is_suspended ≡ false
      → AreSubmissions hs
      → let d' =
          run sorter d
            (hs ++ Happening.submitted g operation true reason ∷ Happening.wakes env ∷ []) in
        IsFor d'.deployment g operation env.uuid × (d'.generation_to_deploy ≡ none)
  last_submission_wins d hs g operation reason env w a only =
      rw (run-append d hs (Happening.submitted g operation true reason ∷ Happening.wakes env ∷ []))
        (let (for, nothing, _) =
            forced-IsFor (run sorter d hs) g operation reason env
              (submissions-IsReady d hs only (record { waiting = w; awake = a })) in
          (for, nothing))

  finish-previous :
      (b : Booted) (o : Outcome) (now : ℕ) (d : Deployer)
      → (finish sorter b o now d).previous_deployment ≡ d.previous_deployment
  unfolding finish
  finish-previous b o now d = go d.runner refl
    where
      go :
          (runner : Runner)
          → d.runner ≡ runner
          → (finish sorter b o now d).previous_deployment ≡ d.previous_deployment
      go Runner.waiting e = rw e refl
      go Runner.suspended e = rw e refl
      go Runner.crashed e = rw e refl
      go (Runner.deploying dpl) e =
          let after : Outcome = outcome_of dpl o in
          elim (Option-cases
            (deployment_finished sorter d.store dpl.uuid after.error after.need_restart
              after.profile_path b now).1) [
                | inl f ↦ rw (e, f, complete) refl
                | inr (m, f) ↦ rw (e, f, complete) refl
              ]

  compared :
      (d : Deployer) (last : Deployment) (g : Generation) (operation reason : String)
      → d.previous_deployment ≡ some last
      → submit d g operation false reason ≡ (
          if g.out_path == last.generation.out_path && last.operation == operation
          then d
          else submit d g operation true reason)
  unfolding submit is_already_deployed
  compared d last g operation reason e =
      elim (Bool-cases (g.out_path == last.generation.out_path)) [
        | inr f ↦ rw (e, f) refl
        | inl f ↦ elim (Bool-cases (last.operation == operation)) [
          | inl h ↦ rw (e, f, h) refl
          | inr h ↦ rw (e, f, h) refl
        ]
      ]

  -- A submission is compared with the deployment before the last one: once a generation has been
  -- deployed after the deployment `last`, one that is not forced is skipped exactly if its store path
  -- and operation are those of `last`, whatever has been deployed since.
  pub submit_compares_with_older :
      (d : Deployer) (last : Deployment) (g g' : Generation)
      (operation operation' reason reason' : String) (env : Surroundings) (b : Booted) (o : Outcome)
      (now : ℕ)
      → d.runner ≡ Runner.waiting
      → d.is_suspended ≡ false
      → d.deployment ≡ some last
      → let d' = run sorter d (
          Happening.submitted g operation true reason
          ∷ Happening.wakes env
          ∷ Happening.finishes b o now
          ∷ []) in
        submit d' g' operation' false reason' ≡ (
          if g'.out_path == last.generation.out_path && last.operation == operation'
          then d'
          else submit d' g' operation' true reason')
  unfolding run step
  submit_compares_with_older d last g g' operation operation' reason reason' env b o now w a e =
      let taken : Deployer =
        run sorter d (Happening.submitted g operation true reason ∷ Happening.wakes env ∷ []) in
      let (_, _, before) =
        forced-IsFor d g operation reason env (record { waiting = w; awake = a }) in
      let previous = finish-previous b o now taken ∙ before ∙ e in
      compared (finish sorter b o now taken) last g' operation' reason' previous
