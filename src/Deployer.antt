-- ===== src/Deployer.antt =====
-- internal/deployer/deployer.go: what is submitted, the runner and its suspension. The runner is
-- taken apart where it waits: `begin` up to the call of the deploy function, `finish` after it. The
-- channels of capacity one, `generationAvailableCh` and `resumeCh`, are Booleans; what goes on
-- `DeploymentDoneCh` is listed in `done`.
pub mod Waiting
pub mod Signals
pub mod Previous
mod Tests
use comin.Base.{
  ℕ, ◌≡◌, Bool, true, false, ◌&&◌, ◌||◌, not, Option, none, some, List, [], ◌∷◌, ◌++◌, String, ◌==◌,
  if◌then◌else◌,
}
use comin.Types.{Generation, Deployment, DeployerState, Inhibitors, Error, operation_null}
use comin.Store.{Store, deployer_update}
use comin.Store.Retention.{Booted}
use comin.Store.Retention.Sorting.{Sorter}
use comin.Store.Deployments.{
  new_deployment, deployment_started, deployment_finished, started, finished,
}

-- `waiting` is the runner before a generation is available, `suspended` while it waits to be
-- resumed, `deploying` while the deploy function runs, `crashed` after it has read the uuid of a nil
-- generation.
pub data Runner : Type 0 where
  waiting suspended crashed : Runner
  deploying : Deployment → Runner

pub record Deployer : Type 0 where
  pub deployment : Option Deployment
  pub previous_deployment : Option Deployment
  pub is_deploying : Bool
  pub generation_to_deploy : Option Generation
  pub operation : String
  pub reason : String
  pub generation_available : Bool
  pub is_suspended : Bool
  pub resume_signal : Bool
  pub runner : Runner
  pub store : Store
  pub done : List Deployment

-- `New`: the suspension is read from the store.
unfoldable pub new_deployer : Store → Option Deployment → Deployer
new_deployer store previous = record {
  deployment = previous;
  previous_deployment = previous;
  is_deploying = false;
  generation_to_deploy = none;
  operation = "";
  reason = "";
  generation_available = false;
  is_suspended = store.persisted.deployer.is_suspended;
  resume_signal = false;
  runner = Runner.waiting;
  store = store;
  done = [];
}

unfoldable pub suspend : Deployer → String → Deployer
suspend d why = record d {
  is_suspended = true;
  store = deployer_update d.store (record { is_suspended = true; suspend_reason = why });
}

unfoldable pub resume : Deployer → Deployer
resume d = record d {
  is_suspended = false;
  store = deployer_update d.store (record { is_suspended = false; suspend_reason = "" });
  resume_signal = true;
}

unfoldable pub is_already_deployed : Deployer → Generation → String → Bool
is_already_deployed d g operation = elim d.previous_deployment [
  | none ↦ false
  | some previous ↦
      if not (g.out_path == previous.generation.out_path)
      then false
      else if not (previous.operation == operation)
      then false
      else true
]

unfoldable pub submit : Deployer → Generation → String → Bool → String → Deployer
unfolding is_already_deployed
submit d g operation force reason =
    if force || not (is_already_deployed d g operation)
    then record d {
      generation_to_deploy = some g;
      operation = operation;
      reason = reason;
      generation_available = true;
    }
    else d

-- What one run of the loop reads from outside: the store paths, the inhibitors of the current and
-- the new one, the uuid drawn, and the times of its three calls of the store.
pub record Surroundings : Type 0 where
  pub booted : Booted
  pub uuid : String
  pub current_inhibitors : Inhibitors
  pub new_inhibitors : Inhibitors
  pub created_at : ℕ
  pub started_at : ℕ

-- What the deploy function returns. It is not called for the null operation.
pub record Outcome : Type 0 where
  pub need_restart : Bool
  pub profile_path : String
  pub error : Error

abbrev pub no_outcome : Outcome
no_outcome = record { need_restart = false; profile_path = ""; error = none }

abbrev pub outcome_of : Deployment → Outcome → Outcome
outcome_of d o = if d.operation == operation_null then no_outcome else o

-- What happens to a deployer: the calls of its methods, and the two moves of its runner.
pub data Happening : Type 0 where
  submitted : Generation → String → Bool → String → Happening
  suspends : String → Happening
  resumes : Happening
  wakes : Surroundings → Happening
  finishes : Booted → Outcome → ℕ → Happening

module _ (sorter : Sorter) where
  -- From the generation to the call of the deploy function. Where the store has lost the new
  -- deployment, the loop continues and `isDeploying` stays set.
  unfoldable pub begin : Surroundings → Deployer → Generation → Deployer
  begin env d g =
      let (s, dpl) =
        new_deployment sorter d.store g d.operation d.reason env.booted env.created_at env.uuid
          env.current_inhibitors env.new_inhibitors in
      let (s', error) = deployment_started sorter s dpl.uuid env.booted env.started_at in
      let d' = record d {
        generation_to_deploy = none;
        previous_deployment = d.deployment;
        is_deploying = true;
        store = s';
      } in
      elim error [
        | some _ ↦ record d' { deployment = some dpl; runner = Runner.waiting }
        | none ↦
            let dpl' = started env.started_at dpl in
            record d' { deployment = some dpl'; runner = Runner.deploying dpl' }
      ]

  unfoldable pub take : Surroundings → Deployer → Deployer
  unfolding begin
  take env d = elim d.generation_to_deploy [
    | none ↦ record d { runner = Runner.crashed }
    | some g ↦ begin env d g
  ]

  -- The runner takes the signal of a generation, and waits if it is suspended.
  unfoldable pub wake : Surroundings → Deployer → Deployer
  unfolding take
  wake env d = elim d.runner [
    | Runner.waiting ↦
        if d.generation_available
        then (let d' : Deployer = record d { generation_available = false } in
            if d'.is_suspended then record d' { runner = Runner.suspended } else take env d')
        else d
    | Runner.suspended ↦
        if d.resume_signal then take env (record d { resume_signal = false }) else d
    | _ ↦ d
  ]

  -- From the return of the deploy function to the end of the loop.
  unfoldable pub complete : Booted → Outcome → ℕ → Deployer → Deployment → Deployer
  complete b o now d dpl =
      let (s, error) =
        deployment_finished sorter d.store dpl.uuid o.error o.need_restart o.profile_path b now in
      elim error [
        | some _ ↦ record d {
          store = s;
          deployment = some (record dpl { ended_at = some now });
          runner = Runner.waiting;
        }
        | none ↦
            let dpl' = finished o.error o.need_restart o.profile_path now dpl in
            record d {
              store = s;
              deployment = some dpl';
              is_deploying = false;
              runner = Runner.waiting;
              done = d.done ++ dpl' ∷ [];
            }
      ]

  unfoldable pub finish : Booted → Outcome → ℕ → Deployer → Deployer
  unfolding complete
  finish b o now d = elim d.runner [
    | Runner.deploying dpl ↦ complete b (outcome_of dpl o) now d dpl
    | _ ↦ d
  ]

  unfoldable pub step : Deployer → Happening → Deployer
  unfolding submit suspend resume wake finish
  step d (submitted g operation force reason) = submit d g operation force reason
  step d (suspends why) = suspend d why
  step d resumes = resume d
  step d (wakes env) = wake env d
  step d (finishes b o now) = finish b o now d

  unfoldable pub run : Deployer → List Happening → Deployer
  unfolding step
  run d [] = d
  run d (h ∷ hs) = run (step d h) hs
