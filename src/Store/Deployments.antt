-- ===== src/Store/Deployments.antt =====
-- The operations on deployments (internal/store/deployment.go).
pub mod Live
pub mod Lifecycle
use comin.Base.{
  ℕ, suc, ◌≡◌, Bool, true, false, ◌&&◌, ◌||◌, not, Option, none, some, List, [], ◌∷◌, ◌++◌, map,
  String, ◌==◌, str_append, ltb, if◌then◌else◌, contains,
}
use comin.Types.{
  Generation, Deployment, DeployerState, Event, Error, Timestamp, as_time, Inhibitors,
}
use comin.Store.{Store, Persisted, commit, publish}
use comin.Store.Inhibitors.{compute_operation}
use comin.Store.Retention.{
  Booted, Capacities, Retained, retention, find_first, status_to_string, Status,
}
use comin.Store.Retention.Sorting.{Sorter}

-- `for i, d := range … { uuids[i] = d.Uuid }`.
abbrev uuids_of : List Deployment → List String
uuids_of = map λ d. d.uuid

abbrev pub capacities : Persisted → Capacities
capacities p = record {
  boot_entry = p.deployment_boot_entry_capacity;
  successful = p.deployment_successful_capacity;
  any = p.deployment_any_capacity;
}

-- The persisted fields that a run of `retention` sets. The code assigns the uuids of the switched
-- and the booted deployment only where they differ, which comes to the same.
unfoldable pub retained_persisted : Persisted → Retained → Persisted
retained_persisted p r = record p {
  deployments = r.dpls;
  deployment_switched = r.current.uuid;
  deployment_booted = r.booted.uuid;
  deployments_boot_entry = uuids_of r.boot_entries;
  deployments_successful = uuids_of r.successful;
  deployments_any = uuids_of r.any;
}

-- `deploymentGet`.
abbrev pub deployment_get : List Deployment → String → Option Deployment
deployment_get l uuid = find_first (λ d. d.uuid == uuid) l

-- A write through the pointer that `deploymentGet` returns.
unfoldable pub set_deployment : List Deployment → String → Deployment → List Deployment
set_deployment [] uuid v = []
set_deployment (d ∷ ds) uuid v = if d.uuid == uuid then v ∷ ds else d ∷ set_deployment ds uuid v

-- `GetDeploymentByOutpath`.
unfoldable pub get_deployment_by_outpath : Store → String → Option Deployment
get_deployment_by_outpath s outpath =
    find_first (λ d. d.generation.out_path == outpath) s.persisted.deployments

-- `GetDeploymentLastest`.
latest_step : Option Deployment → Deployment → Option Deployment
latest_step none d = some d
latest_step (some l) d = elim d.ended_at [
  | none ↦ some l
  | some _ ↦ if ltb (as_time l.created_at) (as_time d.created_at) then some d else some l
]

unfoldable pub latest_from : Option Deployment → List Deployment → Option Deployment
unfolding latest_step
latest_from l [] = l
latest_from l (d ∷ ds) = latest_from (latest_step l d) ds

unfoldable pub get_deployment_lastest : Store → Option Deployment
unfolding latest_from
get_deployment_lastest s = latest_from none s.persisted.deployments

-- `LastDeployment`.
unfoldable pub last_deployment : List Deployment → Option Deployment
last_deployment [] = none
last_deployment (d ∷ []) = none
last_deployment (d ∷ e ∷ ds) = some d

-- `GetDeploymentProfilePaths`: the keys of a set, here in the order of insertion.
unfoldable pub profile_paths_from : List String → List Deployment → List String
profile_paths_from m [] = m
profile_paths_from m (d ∷ ds) =
    profile_paths_from
      (if d.profile_path == "" || contains m d.profile_path then m else m ++ d.profile_path ∷ []) ds

unfoldable pub get_deployment_profile_paths : Store → List String
unfolding profile_paths_from
get_deployment_profile_paths s = profile_paths_from [] s.persisted.deployments

no_deployment : String → Error
no_deployment uuid =
    some (str_append "store: no deployment with uuid " (str_append uuid " has been found"))

-- What `DeploymentStarted` writes into the deployment.
unfoldable pub started : ℕ → Deployment → Deployment
started now d = record d { started_at = some now; status = status_to_string Status.running }

-- What `DeploymentFinished` writes into it: the message and the status of the error, if there is one.
unfoldable pub with_outcome : Error → Deployment → Deployment
with_outcome (some msg) d = record d { error_msg = msg; status = status_to_string Status.failed }
with_outcome none d = record d { status = status_to_string Status.done }

unfoldable pub finished : Error → Bool → String → ℕ → Deployment → Deployment
unfolding with_outcome
finished deployment_err need_restart profile_path now d = record (with_outcome deployment_err d) {
  ended_at = some now;
  restart_comin = some need_restart;
  profile_path = profile_path;
}

-- The deployment that `NewDeployment` makes.
unfoldable pub created :
    Generation → String → String → ℕ → String → Inhibitors → Inhibitors → Deployment
unfolding compute_operation
created g operation_submitted reason now uuid current_inhibitors new_inhibitors =
    let (operation, operation_reason) =
      compute_operation operation_submitted current_inhibitors new_inhibitors in
    record {
      uuid = uuid;
      reason = reason;
      generation = g;
      started_at = none;
      ended_at = none;
      error_msg = "";
      restart_comin = none;
      profile_path = "";
      status = status_to_string Status.init;
      operation_submitted = operation_submitted;
      operation = operation;
      operation_reason = operation_reason;
      created_at = some now;
      current_inhibitors = current_inhibitors;
      new_inhibitors = new_inhibitors;
    }

module _ (sorter : Sorter) where
  -- `updateDataDeployments`.
  unfoldable pub update_data_deployments : Store → Booted → Option Deployment → Store
  unfolding commit retained_persisted
  update_data_deployments s b new =
      let p = s.persisted in
      commit (record s {
        persisted = retained_persisted p (retention sorter p.deployments new b (capacities p));
      })

  -- `DeploymentStarted` after its lookup.
  unfoldable pub mark_started : Store → Booted → ℕ → Deployment → Store
  unfolding set_deployment publish update_data_deployments started
  mark_started s b now d =
      let d' = started now d in
      let p = s.persisted in
      let s' = record s {
        persisted = record p { deployments = set_deployment p.deployments d.uuid d' };
      } in
      update_data_deployments (publish s' (Event.deployment_started d')) b (some d')

  unfoldable pub deployment_started : Store → String → Booted → ℕ → Store × Error
  unfolding mark_started no_deployment
  deployment_started s uuid b now = elim (deployment_get s.persisted.deployments uuid) [
    | none ↦ (s, no_deployment uuid)
    | some d ↦ (mark_started s b now d, none)
  ]

  -- `DeploymentFinished` after its lookup.
  unfoldable pub mark_finished : Store → Error → Bool → String → Booted → ℕ → Deployment → Store
  unfolding set_deployment publish update_data_deployments finished
  mark_finished s deployment_err need_restart profile_path b now d =
      let d' = finished deployment_err need_restart profile_path now d in
      let p = s.persisted in
      let s' = record s {
        persisted = record p { deployments = set_deployment p.deployments d.uuid d' };
      } in
      update_data_deployments (publish s' (Event.deployment_finished d')) b (some d')

  unfoldable pub deployment_finished :
      Store → String → Error → Bool → String → Booted → ℕ → Store × Error
  unfolding mark_finished no_deployment
  deployment_finished s uuid deployment_err need_restart profile_path b now =
      elim (deployment_get s.persisted.deployments uuid) [
        | none ↦ (s, no_deployment uuid)
        | some d ↦ (mark_finished s deployment_err need_restart profile_path b now d, none)
      ]

  -- `NewDeployment`. The inhibitors are those that `loadInhibitors` reads from the two store paths.
  unfoldable pub new_deployment :
      Store
      → Generation
      → String
      → String
      → Booted
      → ℕ
      → String
      → Inhibitors
      → Inhibitors
      → Store × Deployment
  unfolding commit update_data_deployments created
  new_deployment s g operation_submitted reason b now uuid current_inhibitors new_inhibitors =
      let d = created g operation_submitted reason now uuid current_inhibitors new_inhibitors in
      (commit (update_data_deployments s b (some d)), d)
