-- ===== src/Deployer/Waiting.antt =====
-- The runner while it is suspended.
use comin.Base.{
  ℕ, ◌≡◌, refl, ap, subst, ◌∙◌, inl, inr, true, false, ◌||◌, not, List, [], ◌∷◌, Bool-cases,
}
use comin.Store.{deployer_update, commit}
use comin.Store.Retention.{Booted}
use comin.Store.Retention.Sorting.{Sorter}
use comin.Deployer.{
  Runner, Deployer, Surroundings, Outcome, Happening, suspend, submit, is_already_deployed, wake,
  finish, step, run,
}

-- The runner is suspended for good: nothing is left in `resumeCh`, and no deployment runs.
abbrev pub IsIdle : Runner → Type 0
IsIdle Runner.waiting = Unit
IsIdle Runner.suspended = Unit
IsIdle _ = ⊥

pub record IsHeld (d : Deployer) : Type 0 where
  pub suspended : d.is_suspended ≡ true
  pub silent : d.resume_signal ≡ false
  pub idle : IsIdle d.runner

abbrev pub IsNotResume : Happening → Type 0
IsNotResume Happening.resumes = ⊥
IsNotResume _ = Unit

abbrev pub AreNotResume : List Happening → Type 0
AreNotResume [] = Unit
AreNotResume (h ∷ hs) = IsNotResume h × AreNotResume hs

module _ (sorter : Sorter) where
  wake-IsHeld :
      (env : Surroundings) (d : Deployer) (runner : Runner)
      → d.runner ≡ runner
      → IsHeld d
      → IsHeld (wake sorter env d)
        × ((wake sorter env d).done ≡ d.done)
        × ((wake sorter env d).store ≡ d.store)
  unfolding wake
  wake-IsHeld env d Runner.suspended e h =
      rw (e, h.silent) (record { suspended = h.suspended; silent = refl; idle = tt }, refl, refl)
  wake-IsHeld env d Runner.waiting e h = elim (Bool-cases d.generation_available) [
    | inl g ↦
        rw (e, g, h.suspended)
          (record { suspended = refl; silent = h.silent; idle = tt }, refl, refl)
    | inr g ↦
        rw (e, g) (record { suspended = h.suspended; silent = h.silent; idle = tt }, refl, refl)
  ]
  wake-IsHeld env d Runner.crashed e h = absurd (subst IsIdle e h.idle)
  wake-IsHeld env d (Runner.deploying dpl) e h = absurd (subst IsIdle e h.idle)

  finish-IsHeld :
      (b : Booted) (o : Outcome) (now : ℕ) (d : Deployer) (runner : Runner)
      → d.runner ≡ runner
      → IsHeld d
      → finish sorter b o now d ≡ d
  unfolding finish
  finish-IsHeld b o now d Runner.suspended e h = rw e refl
  finish-IsHeld b o now d Runner.waiting e h = rw e refl
  finish-IsHeld b o now d Runner.crashed e h = absurd (subst IsIdle e h.idle)
  finish-IsHeld b o now d (Runner.deploying dpl) e h = absurd (subst IsIdle e h.idle)

  step-IsHeld :
      (d : Deployer) (h : Happening)
      → IsNotResume h
      → IsHeld d
      → IsHeld (step sorter d h)
        × ((step sorter d h).done ≡ d.done)
        × ((step sorter d h).store.persisted.deployments ≡ d.store.persisted.deployments)
  unfolding step submit suspend deployer_update commit
  step-IsHeld d (Happening.submitted g operation force reason) n h =
      elim (Bool-cases (force || not (is_already_deployed d g operation))) [
        | inl e ↦
            rw e (record { suspended = h.suspended; silent = h.silent; idle = h.idle }, refl, refl)
        | inr e ↦ rw e (h, refl, refl)
      ]
  step-IsHeld d (Happening.suspends why) n h =
      (record { suspended = refl; silent = h.silent; idle = h.idle }, refl, refl)
  step-IsHeld d Happening.resumes n h = absurd n
  step-IsHeld d (Happening.wakes env) n h =
      let (held, same, stored) = wake-IsHeld env d d.runner refl h in
      (held, same, ap (λ s. s.persisted.deployments) stored)
  step-IsHeld d (Happening.finishes b o now) n h =
      rw (finish-IsHeld b o now d d.runner refl h) (h, refl, refl)

  -- Of a deployer that is suspended, whose channel `resumeCh` is empty and whose runner is not in the
  -- middle of a deployment, nothing is deployed and no deployment is made in the store before it is
  -- resumed, whatever is submitted and however often it is suspended again.
  pub suspended_deploys_nothing :
      (d : Deployer) (hs : List Happening)
      → AreNotResume hs
      → IsHeld d
      → IsHeld (run sorter d hs)
        × ((run sorter d hs).done ≡ d.done)
        × ((run sorter d hs).store.persisted.deployments ≡ d.store.persisted.deployments)
  unfolding run
  suspended_deploys_nothing d [] n h = (h, refl, refl)
  suspended_deploys_nothing d (x ∷ hs) n h =
      let (held, same, stored) = step-IsHeld d x n.0 h in
      let (held', same', stored') = suspended_deploys_nothing (step sorter d x) hs n.1 held in
      (held', same' ∙ same, stored' ∙ stored)
