-- ===== src/Deployer/Tests.antt =====
-- The theorems on the deployer at concrete states.
use comin.Base.{◌≡◌, refl, true, false, none, some, [], ◌∷◌}
use comin.Types.{Deployment}
use comin.Store.Retention.Insertion.{insertion}
use comin.Samples.{sample_store, sample_generation, sample_deployment, sample_booted}
use comin.Deployer.{Runner, Deployer, Surroundings, Outcome, Happening, new_deployer, submit, run}
use comin.Deployer.Waiting.{IsHeld, suspended_deploys_nothing}
use comin.Deployer.Signals.{resume_outlives_suspend}
use comin.Deployer.Previous.{submit_compares_with_older}

abbrev last : Deployment
last = sample_deployment "d1" 4

abbrev idle : Deployer
unfolding new_deployer
idle = new_deployer (sample_store [] []) (some last)

abbrev held : Deployer
unfolding new_deployer
held = record idle { is_suspended = true; runner = Runner.suspended }

abbrev surroundings : Surroundings
surroundings = record {
  booted = sample_booted;
  uuid = "d2";
  current_inhibitors = [];
  new_inhibitors = [];
  created_at = 5;
  started_at = 6;
}

abbrev outcome : Outcome
outcome = record { need_restart = false; profile_path = "p"; error = none }

abbrev submission : Happening
submission = Happening.submitted (sample_generation "g1") "test" true "r"

suspended_deploys_nothing_example :
    let d = run insertion held (submission ∷ Happening.wakes surroundings ∷ []) in
    IsHeld d × (d.done ≡ []) × (d.store.persisted.deployments ≡ [])
unfolding new_deployer
suspended_deploys_nothing_example =
    suspended_deploys_nothing insertion held (submission ∷ Happening.wakes surroundings ∷ [])
      (tt, (tt, tt)) (record { suspended = refl; silent = refl; idle = tt })

resume_outlives_suspend_example :
    let d' = run insertion idle (
      Happening.resumes
      ∷ Happening.suspends "why"
      ∷ Happening.submitted (sample_generation "g1") "test" true "r"
      ∷ Happening.wakes surroundings
      ∷ Happening.wakes surroundings
      ∷ []) in
    (d'.is_suspended ≡ true) × (d'.generation_to_deploy ≡ none) × (d'.is_deploying ≡ true)
unfolding new_deployer
resume_outlives_suspend_example =
    resume_outlives_suspend insertion idle "why" (sample_generation "g1") "test" "r" surroundings
      surroundings refl

abbrev resumed : Deployer
unfolding new_deployer
resumed = run insertion held (
    Happening.submitted (sample_generation "g1") "test" false "r"
    ∷ Happening.resumes
    ∷ Happening.wakes surroundings
    ∷ [])

-- The generation of the last but one deployment is skipped, though another one is deployed.
submit_compares_with_older_example :
    let d' = run insertion idle (
      Happening.submitted (sample_generation "g1") "test" true "r"
      ∷ Happening.wakes surroundings
      ∷ Happening.finishes sample_booted outcome 9
      ∷ []) in
    submit d' (sample_generation "g3") "switch" false "r" ≡ d'
unfolding new_deployer
submit_compares_with_older_example =
    submit_compares_with_older insertion idle last (sample_generation "g1") (sample_generation "g3")
      "test" "switch" "r" "r" surroundings sample_booted outcome 9 refl refl refl
