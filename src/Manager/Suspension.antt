-- ===== src/Manager/Suspension.antt =====
-- The suspension of the manager, the builder and the deployer, and what is left of it by a restart.
use comin.Base.{ℕ, ◌≡◌, refl, true, false, List, [], Option, none, some, String}
use comin.Types.{Deployment}
use comin.Store.Retention.Sorting.{Sorter}
use comin.Deployer.Waiting.{IsHeld, AreNotResume, suspended_deploys_nothing}
use comin.Store.{Store, deployer_update, commit, publish}
use comin.Confirmer.{Confirmer}
use comin.Builder.{Builder, new_builder, stop_build, suspend as builder_suspend}
use comin.Builder.Held.{stop_build-kept}
use comin.Deployer.{Happening, run as deployer_run, new_deployer, suspend as deployer_suspend}
use comin.Manager.{Operations, Manager, builder_of, new_manager, suspend, suspend_deployer, resume}

remembered :
    (b : Builder) (m : Manager)
    → (suspend_deployer b m).store.persisted.deployer.is_suspended ≡ true
unfolding suspend_deployer deployer_suspend deployer_update commit publish
remembered b m = refl

held : (b : Builder) (m : Manager) → (suspend_deployer b m).deployer.is_suspended ≡ true
unfolding suspend_deployer deployer_suspend
held b m = refl

-- The suspension of a manager that, like its builder, is not suspended reports no error. It suspends
-- the manager, the builder and the deployer together, stops the build that runs, and the store
-- remembers it.
pub suspend_together :
    (now : ℕ) (m : Manager)
    → m.is_suspended ≡ false
    → m.builder.is_suspended ≡ false
    → let (m', error) = suspend now m in
      (error ≡ none)
      × (m'.is_suspended ≡ true)
      × (m'.builder.is_suspended ≡ true)
      × (m'.builder.is_building ≡ false)
      × (m'.deployer.is_suspended ≡ true)
      × (m'.store.persisted.deployer.is_suspended ≡ true)
unfolding suspend suspend_deployer builder_suspend
suspend_together now m awake idle =
    let b : Builder = record (stop_build now (builder_of m)) { is_suspended = true } in
    let stopped : builder_suspend now (builder_of m) ≡ (b, none) = simp (idle, builder_suspend) in
    let same : suspend now m ≡ (suspend_deployer b m, none) = simp (awake, stopped, suspend) in
    rw same (refl, refl, refl, (stop_build-kept now (builder_of m)).0, held b m, remembered b m)

-- A suspension that the store remembers cannot be ended after a restart by `Resume` alone: the
-- builder that `New` makes is not suspended, but the deployer is, and `Resume` of the manager refuses and
-- changes nothing; and as long as the deployer itself is not resumed, it stays suspended and deploys
-- nothing, whatever is submitted to it.
pub resume-new_manager :
    (sorter : Sorter) (now : ℕ) (s : Store) (previous : Option Deployment)
    (machine_id hostname dir attr : String) (build_confirmer deploy_confirmer : Confirmer)
    (operations : Operations) (hs : List Happening)
    → s.persisted.deployer.is_suspended ≡ true
    → AreNotResume hs
    → let m =
        new_manager s
          (new_builder s)
          (new_deployer s previous)
          machine_id
          hostname
          dir
          attr
          build_confirmer
          deploy_confirmer
          operations in
      (m.builder.is_suspended ≡ false)
      × (resume now m ≡ (m, some "the manager is not suspended"))
      × IsHeld (deployer_run sorter m.deployer hs)
      × ((deployer_run sorter m.deployer hs).done ≡ [])
      × ((deployer_run sorter m.deployer hs).store.persisted.deployments ≡ s.persisted.deployments)
unfolding new_manager new_builder new_deployer resume
resume-new_manager sorter now s previous machine_id hostname dir attr build_confirmer
      deploy_confirmer operations hs e n =
    let (held_on, none_done, none_made) =
      suspended_deploys_nothing sorter (new_deployer s previous) hs n
        (record { suspended = e; silent = refl; idle = tt }) in
    (refl, refl, held_on, none_done, none_made)
