-- ===== src/Manager/Foreign.antt =====
-- A generation of another host whose store path exists at the end of its evaluation: what `Eval`
-- (internal/builder/builder.go) and the handlers of internal/manager/manager.go make of it.
use comin.Base.{
  ℕ, ◌≡◌, refl, sym, ap, subst, ◌∙◌, Bool-cases, inl, inr, true, false, none, some, String, ◌==◌,
}
use comin.Types.{Git, Generation}
use comin.Store.{Store}
use comin.Store.Generations.{
  generation_get, eval_finished_of, eval_outcome, build_started_of, build_finished_of,
}
use comin.Store.Generations.Status.{Change, effect, apply_change, generation_get-apply_change}
use comin.Confirmer.{step as confirmer_step, Message}
use comin.Builder.{Builder, Evaluation, notify, end_eval}
use comin.Deployer.{is_already_deployed}
use comin.Manager.{
  Manager, operation_of, on_evaluation_done, on_build_done, is_foreign, submit_to_deploy_confirmer,
  deployer_of, builder_of, set_builder,
}

-- The three writes of the end of an evaluation whose store path exists.
abbrev stored_as : Evaluation → ℕ → Generation → Generation
stored_as ev now g = effect (Change.build_finishes none) now (
    effect (Change.build_starts "already built") now
      (effect (Change.eval_finishes ev.drv_path ev.out_path ev.machine_id ev.error) now g))

abbrev stored_after : Evaluation → ℕ → Store → String → Store
stored_after ev now s uuid =
    let s₁ =
      (apply_change s uuid (Change.eval_finishes ev.drv_path ev.out_path ev.machine_id ev.error)
        now).0 in
    let s₂ = (apply_change s₁ uuid (Change.build_starts "already built") now).0 in
    (apply_change s₂ uuid (Change.build_finishes none) now).0

stored_after-get :
    (ev : Evaluation) (now : ℕ) (s : Store) (uuid : String) (g : Generation)
    → generation_get s uuid ≡ some g
    → generation_get (stored_after ev now s uuid) uuid ≡ some (stored_as ev now g)
stored_after-get ev now s uuid g found =
    let (_, one) = generation_get-apply_change s uuid _ now g found in
    let (_, two) =
      generation_get-apply_change _ uuid (Change.build_starts "already built") now _ one in
    (generation_get-apply_change _ uuid (Change.build_finishes none) now _ two).1

-- What the manager holds after the end of the evaluation.
abbrev pub evaluated : Evaluation → ℕ → Manager → String → Manager
evaluated ev now m uuid = set_builder m (end_eval ev now (builder_of m) uuid)

abbrev announced : Evaluation → ℕ → Builder → String → Builder
announced ev now b uuid = record b {
  store = stored_after ev now b.store uuid;
  is_evaluating = false;
  evaluator = none;
  build_done = notify b.build_done uuid;
}

end_eval-announced :
    (ev : Evaluation) (now : ℕ) (b : Builder) (uuid : String)
    → ev.exists ≡ true
    → end_eval ev now b uuid ≡ announced ev now b uuid
unfolding end_eval apply_change
end_eval-announced ev now b uuid there = rw there refl

-- The generation is as the evaluation gives it, of the source that it had, and built without an error.
stored_as-facts :
    (ev : Evaluation) (now : ℕ) (g : Generation)
    → ev.error ≡ none
    → ((stored_as ev now g).source ≡ g.source)
      × ((stored_as ev now g).machine_id ≡ ev.machine_id)
      × ((stored_as ev now g).build_err ≡ "")
unfolding effect eval_finished_of eval_outcome build_started_of build_finished_of
stored_as-facts ev now g fine = rw fine (refl, refl, refl)

-- Both handlers on a built generation of another host.
handled_foreign :
    (uuid : String) (now : ℕ) (m : Manager) (g : Generation) (git : Git)
    → generation_get m.store uuid ≡ some g
    → g.source ≡ some git
    → g.build_err ≡ ""
    → is_foreign m g ≡ true
    → is_already_deployed (deployer_of m) g (operation_of m git) ≡ false
    → (on_evaluation_done uuid now m ≡ m)
      × (on_build_done uuid now m ≡ record m {
        deploy_confirmer = confirmer_step m.deploy_confirmer (Message.submit uuid, now);
      })
unfolding submit_to_deploy_confirmer on_evaluation_done on_build_done
handled_foreign uuid now m g git found sourced fine foreign new = (
  elim (Bool-cases (g.eval_err == "")) [
    | inl well ↦ simp (found, well, foreign, on_evaluation_done)
    | inr failed ↦ simp (found, failed, on_evaluation_done)
  ],
  simp (found, fine, sourced, new, on_build_done),
)

-- The evaluation of a generation ends without an error, with the machine-id of another host and with a
-- store path that exists, and no event waits in `BuildDone`. Then the builder announces the end of a
-- build instead of the end of the evaluation, so that the machine-id is not compared: the handler of
-- the build submits the generation to the deploy confirmer, where it is not the one deployed last but
-- one, though the handler of the evaluation would do nothing with it.
pub on_build_done-foreign :
    (ev : Evaluation) (uuid : String) (now : ℕ) (m : Manager) (g : Generation) (git : Git)
    → generation_get m.store uuid ≡ some g
    → g.source ≡ some git
    → ev.error ≡ none
    → ev.exists ≡ true
    → (ev.machine_id == "") ≡ false
    → (m.machine_id == ev.machine_id) ≡ false
    → m.builder.build_done ≡ none
    → is_already_deployed (deployer_of m) (stored_as ev now g) (operation_of m git) ≡ false
    → let m' = evaluated ev now m uuid in
      (m'.builder.build_done ≡ some uuid)
      × (m'.builder.evaluation_done ≡ m.builder.evaluation_done)
      × (on_evaluation_done uuid now m' ≡ m')
      × (on_build_done uuid now m' ≡ record m' {
        deploy_confirmer = confirmer_step m'.deploy_confirmer (Message.submit uuid, now);
      })
unfolding is_already_deployed is_foreign
on_build_done-foreign ev uuid now m g git found sourced fine there named other free new =
    let b = announced ev now (builder_of m) uuid in
    let g' = stored_as ev now g in
    let (source, machine, no_error) = stored_as-facts ev now g fine in
    let (evaluation_handled, build_handled) =
      handled_foreign uuid now (set_builder m b) g' git
        (stored_after-get ev now m.store uuid g found) (source ∙ sourced) no_error
        (rw (machine, named, other) refl) new in
    subst
      (λ (b' : Builder).
        let m' = set_builder m b' in
        (m'.builder.build_done ≡ some uuid)
        × (m'.builder.evaluation_done ≡ m.builder.evaluation_done)
        × (on_evaluation_done uuid now m' ≡ m')
        × (on_build_done uuid now m' ≡ record m' {
          deploy_confirmer = confirmer_step m'.deploy_confirmer (Message.submit uuid, now);
        }))
      (sym (end_eval-announced ev now (builder_of m) uuid there))
      (ap (λ w. notify w uuid) free, refl, evaluation_handled, build_handled)
