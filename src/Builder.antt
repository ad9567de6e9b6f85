-- ===== src/Builder.antt =====
-- internal/builder/builder.go and the runs of internal/builder/exec.go: one evaluation and one build
-- at a time, each a run that ends by itself or is stopped. `EvaluationDone` and `BuildDone` hold one
-- uuid; a notification that finds its channel full is dropped.
pub mod Exec
pub mod Held
pub mod Suspending
pub mod Flags
pub mod Preempted
mod Tests
use comin.Base.{
  ℕ, ◌≡◌, Bool, true, false, ◌&&◌, ◌||◌, not, Option, none, some, List, [], ◌∷◌, String, ◌==◌,
  if◌then◌else◌,
}
use comin.Types.{Generation, Error}
use comin.Store.{Store}
use comin.Store.Generations.{
  EvalStatus, BuildStatus, eval_status_string, build_status_string, generation_get,
  generation_eval_started, generation_eval_finished, generation_build_start,
  generation_build_finished, generation_has_to_be_built, no_generation,
}

-- `evaluator` and `buildator` are the generations whose runs have started and not ended.
pub record Builder : Type 0 where
  pub store : Store
  pub is_evaluating : Bool
  pub is_building : Bool
  pub generation_uuid : String
  pub evaluation_done : Option String
  pub build_done : Option String
  pub evaluator : Option String
  pub buildator : Option String
  pub is_suspended : Bool

unfoldable pub new_builder : Store → Builder
new_builder store = record {
  store = store;
  is_evaluating = false;
  is_building = false;
  generation_uuid = "";
  evaluation_done = none;
  build_done = none;
  evaluator = none;
  buildator = none;
  is_suspended = false;
}

-- A send that does not block, on a channel of capacity one.
abbrev pub notify : Option String → String → Option String
notify none uuid = some uuid
notify (some waiting) uuid = some waiting

-- What the executor's evaluation returns, with the error of the context in the place of its own
-- where the context has ended, and whether the store path is there at the end.
pub record Evaluation : Type 0 where
  pub drv_path : String
  pub out_path : String
  pub machine_id : String
  pub error : Error
  pub exists : Bool

abbrev pub cancelled : Error
cancelled = some "context canceled"

-- The end of the goroutine of `Eval`. The errors of the store are only logged.
unfoldable pub end_eval : Evaluation → ℕ → Builder → String → Builder
end_eval ev now b uuid =
    let (s, _) =
      generation_eval_finished b.store uuid ev.drv_path ev.out_path ev.machine_id ev.error now in
    let b' : Builder = record b { store = s; is_evaluating = false; evaluator = none } in
    if ev.exists
    then (let (s1, _) = generation_build_start s uuid "already built" now in
        let (s2, _) = generation_build_finished s1 uuid none now in
        record b' { store = s2; build_done = notify b.build_done uuid })
    else record b' { evaluation_done = notify b.evaluation_done uuid }

-- The end of the goroutine of `build`.
unfoldable pub end_build : Error → ℕ → Builder → String → Builder
end_build error now b uuid =
    let (s, _) = generation_build_finished b.store uuid error now in
    record b {
      store = s;
      is_building = false;
      buildator = none;
      build_done = notify b.build_done uuid;
    }

-- `stopEval`: a run that has started is cancelled and waited for.
unfoldable pub stop_eval : Evaluation → ℕ → Builder → Builder
unfolding end_eval
stop_eval ev now b = elim b.evaluator [
  | none ↦ record b { is_evaluating = false }
  | some uuid ↦ end_eval (record ev { error = cancelled }) now b uuid
]

unfoldable pub stop_build : ℕ → Builder → Builder
unfolding end_build
stop_build now b = elim b.buildator [
  | none ↦ record b { is_building = false }
  | some uuid ↦ end_build cancelled now b uuid
]

-- `Stop`.
unfoldable pub stop : Evaluation → ℕ → Builder → Builder
unfolding stop_eval stop_build
stop ev now b = stop_build now (stop_eval ev now b)

-- `Eval` after its call of `Stop`. Where the store does not know the generation, `isEvaluating` stays
-- set.
unfoldable pub start_eval : ℕ → Builder → String → Builder × Error
start_eval now b uuid =
    let (s, error) = generation_eval_started b.store uuid now in
    elim error [
      | some e ↦ (record b { store = s; is_evaluating = true }, some e)
      | none ↦ (
        record b { store = s; is_evaluating = true; generation_uuid = uuid; evaluator = some uuid },
        none,
      )
    ]

unfoldable pub eval : Evaluation → ℕ → Builder → String → Builder × Error
unfolding stop start_eval
eval stopped now b uuid = start_eval now (stop stopped now b) uuid

-- Why `build` refuses a generation that the store holds.
unfoldable pub build_refusal : Builder → Generation → Error
build_refusal b g =
    if not (g.eval_status == eval_status_string EvalStatus.evaluated)
    then some "the generation is not evaluated"
    else if b.is_building
    then some "the builder is already building"
    else if g.build_status == build_status_string BuildStatus.built
    then some "the generation is already built"
    else none

unfoldable pub start_build : ℕ → Builder → String → Builder × Error
start_build now b uuid =
    let (s, error) = generation_build_start b.store uuid "need to be built" now in
    elim error [
      | some e ↦ (record b { store = s }, some e)
      | none ↦ (record b { store = s; is_building = true; buildator = some uuid }, none)
    ]

unfoldable pub build : ℕ → Builder → String → Builder × Error
unfolding build_refusal start_build no_generation
build now b uuid =
    if not (b.generation_uuid == "") && not (uuid == b.generation_uuid)
    then (b, some "another generation is evaluating or evaluated")
    else elim (generation_get b.store uuid) [
      | none ↦ (b, no_generation uuid)
      | some g ↦ elim (build_refusal b g) [ some e ↦ (b, some e) | none ↦ start_build now b uuid ]
    ]

-- `SubmitBuild`: the error is only logged.
unfoldable pub submit_build : ℕ → Builder → String → Builder
unfolding build
submit_build now b uuid = if b.is_suspended then b else (build now b uuid).0

-- `Suspend`, where nothing comes between its parts; Builder/Suspending has them one by one.
unfoldable pub suspend : ℕ → Builder → Builder × Error
unfolding stop_build
suspend now b =
    if b.is_suspended
    then (b, some "the builder is already suspended")
    else (record (stop_build now b) { is_suspended = true }, none)

-- `Resume` after it has reset the flag: the generation in hand is built if it has to be.
unfoldable pub resume_build : ℕ → Builder → Builder × Error
unfolding build no_generation generation_has_to_be_built
resume_build now b =
    if b.generation_uuid == "" then (b, none) else elim (generation_get b.store b.generation_uuid) [
      | none ↦ (b, no_generation b.generation_uuid)
      | some g ↦
          if generation_has_to_be_built g
          then ((build now b b.generation_uuid).0, none)
          else (b, none)
    ]

unfoldable pub resume : ℕ → Builder → Builder × Error
unfolding resume_build
resume now b =
    if not b.is_suspended
    then (b, some "the builder is not suspended")
    else resume_build now (record b { is_suspended = false })

-- What happens to a builder: the calls of its methods but for `Suspend`, and the ends of its runs.
pub data Happening : Type 0 where
  evaluates : Evaluation → String → Happening
  eval_ends : Evaluation → Happening
  submits_build : String → Happening
  build_ends : Error → Happening
  resumes : Happening

unfoldable pub step : Builder → Happening × ℕ → Builder
unfolding eval submit_build resume end_eval end_build
step b (evaluates stopped uuid, now) = (eval stopped now b uuid).0
step b (eval_ends ev, now) = elim b.evaluator [ none ↦ b | some uuid ↦ end_eval ev now b uuid ]
step b (submits_build uuid, now) = submit_build now b uuid
step b (build_ends error, now) = elim b.buildator [
  | none ↦ b
  | some uuid ↦ end_build error now b uuid
]
step b (resumes, now) = (resume now b).0

unfoldable pub run : Builder → List (Happening × ℕ) → Builder
unfolding step
run b [] = b
run b (h ∷ hs) = run (step b h) hs
