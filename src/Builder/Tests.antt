-- ===== src/Builder/Tests.antt =====
-- The theorems on the builder at concrete states.
use comin.Base.{ℕ, ◌≡◌, refl, true, false, none, some, List, [], ◌∷◌, arith}
use comin.Samples.{sample_store, sample_cells, sample_generation, sample_status}
use comin.Store.Generations.{
  new_generation, generation_eval_started, generation_eval_finished, generation_build_start,
  no_generation, set_cell, generations_gc, alive_cells, is_alive, build_started_of,
}
use comin.Builder.{
  Builder, Evaluation, Happening, new_builder, eval, end_eval, stop, stop_eval, stop_build,
  start_eval, submit_build, build, build_refusal, start_build,
}
use comin.Builder.Suspending.{
  Move, happens, begins, waits, clears, ends, alone, move, run as suspending_run,
}
use comin.Builder.Suspending.Idle.{AreQuiet, suspended_builds_nothing, late_build_runs_suspended}
use comin.Builder.Preempted.{eval_loses_new_generation}

abbrev ready : Builder
unfolding new_builder
ready = new_builder (sample_store [] sample_cells)

abbrev evaluation : Evaluation
evaluation = record {
  drv_path = "drv";
  out_path = "st2";
  machine_id = "";
  error = none;
  exists = false;
}

started : (build 3 ready "g").1 ≡ none
unfolding new_builder build build_refusal start_build generation_build_start set_cell generations_gc
    alive_cells is_alive build_started_of
started = refl

-- A suspension, in the middle of which an evaluation ends, and calls after it.
abbrev history : List (Move × ℕ)
history =
    (happens (Happening.evaluates evaluation "g"), 3)
    ∷ (begins, 4)
    ∷ (waits, 4)
    ∷ (happens (Happening.eval_ends evaluation), 4)
    ∷ (clears, 5)
    ∷ (ends, 5)
    ∷ (happens (Happening.submits_build "g"), 6)
    ∷ []

unfoldable called : Unit {0}
unfolding new_builder suspending_run move eval stop stop_eval stop_build start_eval end_eval
    generation_eval_started generation_eval_finished set_cell generations_gc alive_cells is_alive
    submit_build
called = tt

history-AreQuiet : AreQuiet (alone ready) history
unfolding called
history-AreQuiet = ((λ g h. h), (tt, (tt, ((λ g h. h), (tt, (tt, ((λ g h. g), tt)))))))

is_held : (suspending_run (alone ready) history).builder.is_suspended ≡ true
unfolding called
is_held = refl

suspended_builds_nothing_example : (suspending_run (alone ready) history).builder.buildator ≡ none
unfolding new_builder
suspended_builds_nothing_example =
    suspended_builds_nothing ready history refl history-AreQuiet is_held

late_build_runs_suspended_example :
    let s = suspending_run (alone ready) (
      (begins, 3)
      ∷ (waits, 3)
      ∷ (happens (Happening.submits_build "g"), 3)
      ∷ (clears, 3)
      ∷ (ends, 3)
      ∷ []) in
    (s.builder.is_suspended ≡ true)
    × (s.builder.buildator ≡ some "g")
    × (s.builder.is_building ≡ false)
unfolding new_builder
late_build_runs_suspended_example = late_build_runs_suspended ready "g" 3 refl refl started

abbrev evaluating : Builder
unfolding new_builder
evaluating = record (new_builder (sample_store [] sample_cells)) {
  is_evaluating = true;
  evaluator = some "g";
}

eval_loses_new_generation_example :
    let (store, g) = new_generation evaluating.store "host" "." "attr" sample_status "h" in
    let (b', error) = eval evaluation 3 (record evaluating { store = store }) "h" in
    (error ≡ no_generation "h") × (b'.is_evaluating ≡ true) × (b'.evaluator ≡ none)
unfolding new_builder
eval_loses_new_generation_example =
    eval_loses_new_generation evaluating "g"
      (record { ref = 0; generation = sample_generation "g" }) evaluation 3 "host" "." "attr"
      sample_status "h" refl refl refl
      (record {
        cells = (omega arith, tt);
        eval_started = omega arith;
        build_started = tt;
        build_finished = tt;
      })
      refl refl
