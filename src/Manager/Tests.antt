-- ===== src/Manager/Tests.antt =====
-- The theorems on the manager at concrete states.
use comin.Base.{◌≡◌, ◌≢◌, refl, ap, true, false, Option, none, some, List, [], ◌∷◌, arith}
use comin.Types.{Git}
use comin.Samples.{sample_store, sample_cells, sample_generation, sample_status}
use comin.Store.{Store}
use comin.Store.Generations.{
  new_generation, generation_eval_started, set_cell, generations_gc, alive_cells, is_alive,
}
use comin.Confirmer.{Mode, new_confirmer, Message, step as confirmer_step}
use comin.Builder.{Evaluation, new_builder, eval, stop, stop_eval, stop_build, start_eval}
use comin.Store.Retention.Insertion.{insertion}
use comin.Deployer.Waiting.{IsHeld}
use comin.Deployer.{Happening, run as deployer_run, new_deployer, is_already_deployed}
use comin.Fetcher.{is_verified}
use comin.Repository.{update}
use comin.Repository.Signatures.{verifier}
use comin.Repository.Accepted.{IsSignedBy}
use comin.Repository.Tests.{history, objects, program}
use comin.Manager.{Manager, new_manager, on_fetched, on_evaluation_done, on_build_done, resume}
use comin.Manager.Gates.{evaluated_is_signed}
use comin.Manager.Foreign.{evaluated, on_build_done-foreign}
use comin.Manager.Suspension.{resume-new_manager}

abbrev manager_on : Store → Manager
unfolding new_manager new_builder new_deployer new_confirmer
manager_on s =
    new_manager s (new_builder s) (new_deployer s none) "m1" "host" "." "attr"
      (new_confirmer Mode.manual 5) (new_confirmer Mode.manual 5)
      (("origin", ("main", "switch") ∷ []) ∷ [])

abbrev manager : Manager
unfolding new_manager new_builder new_deployer new_confirmer
manager = manager_on (sample_store [] sample_cells)

abbrev evaluation : Evaluation
evaluation = record {
  drv_path = "drv";
  out_path = "st2";
  machine_id = "";
  error = none;
  exists = false;
}

abbrev git_of : Option Git → Git
git_of none = record {
  repository_subdir = "";
  system_attr = "";
  hostname = "";
  selected_remote_url = "";
  selected_remote_name = "";
  selected_branch_name = "";
  selected_commit_id = "";
  selected_commit_msg = "";
  selected_branch_is_testing = none;
  main_commit_id = "";
  main_remote_name = "";
  main_branch_name = "";
}
git_of (some g) = g

-- The evaluation gives the machine-id of another host and a store path that exists.
abbrev abroad : Evaluation
abroad = record evaluation { machine_id = "m2"; exists = true }

on_build_done-foreign_example :
    let m' = evaluated abroad 4 manager "g" in
    (m'.builder.build_done ≡ some "g")
    × (m'.builder.evaluation_done ≡ none)
    × (on_evaluation_done "g" 4 m' ≡ m')
    × (on_build_done "g" 4 m' ≡ record m' {
      deploy_confirmer = confirmer_step m'.deploy_confirmer (Message.submit "g", 4);
    })
unfolding new_manager new_builder new_deployer new_confirmer is_already_deployed
on_build_done-foreign_example =
    on_build_done-foreign abroad "g" 4 manager (sample_generation "g")
      (git_of (sample_generation "g").source) refl refl refl refl refl refl refl refl

abbrev suspended_store : Store
suspended_store = record (sample_store [] []) {
  persisted = record ((sample_store [] []).persisted) {
    deployer = record { is_suspended = true; suspend_reason = "why" };
  };
}

abbrev submissions : List Happening
submissions = Happening.submitted (sample_generation "g1") "switch" true "r" ∷ []

resume-new_manager_example :
    let m =
      new_manager suspended_store
        (new_builder suspended_store)
        (new_deployer suspended_store none)
        "m1"
        "host"
        "."
        "attr"
        (new_confirmer Mode.manual 5)
        (new_confirmer Mode.manual 5)
        [] in
    (m.builder.is_suspended ≡ false)
    × (resume 4 m ≡ (m, some "the manager is not suspended"))
    × IsHeld (deployer_run insertion m.deployer submissions)
    × ((deployer_run insertion m.deployer submissions).done ≡ [])
    × ((deployer_run insertion m.deployer submissions).store.persisted.deployments ≡ [])
unfolding new_manager new_builder new_deployer
resume-new_manager_example =
    resume-new_manager insertion 4 suspended_store none "m1" "host" "." "attr"
      (new_confirmer Mode.manual 5) (new_confirmer Mode.manual 5) [] submissions refl (tt, tt)

-- The manager evaluates the commit that the repository selects.
acts :
    (let rs = update history (verifier objects ("k" ∷ []) []) sample_status in
      on_fetched rs true (is_verified rs) "g9" evaluation 4 manager)
    ≢ manager
unfolding program new_manager new_builder new_deployer new_confirmer on_fetched is_verified
    new_generation eval stop stop_eval stop_build start_eval generation_eval_started set_cell
    generations_gc alive_cells is_alive
acts e = absurd (differ (ap (λ (m : Manager). m.builder.is_evaluating) e))
  where
    differ : true ≡ false → ⊥
    differ h = ground arith

evaluated_is_signed_example :
    let rs = update history (verifier objects ("k" ∷ []) []) sample_status in
    IsSignedBy objects ("k" ∷ []) [] rs.selected_commit_id rs.selected_commit_signed_by
evaluated_is_signed_example =
    evaluated_is_signed history objects ("k" ∷ []) [] sample_status "object not found" true "g9"
      evaluation 4 manager refl refl acts
