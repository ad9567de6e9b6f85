-- ===== src/Manager.antt =====
-- internal/manager/manager.go: the handlers of `FetchAndBuild` and `Run`, which join the components,
-- and the requests of the users. The builder and the deployer share the store of the manager: each
-- call hands it to the component and takes it back.
pub mod Foreign
pub mod Gates
pub mod Suspension
mod Tests
use comin.Base.{
  ℕ, ◌≡◌, Bool, true, false, ◌&&◌, ◌||◌, not, Option, none, some, List, [], ◌∷◌, String, ◌==◌,
  str_append, lookup, if◌then◌else◌,
}
use comin.Types.{
  Git, Generation, Deployment, GitRepositoryStatus, Event, Error, operation_test, operation_switch,
}
use comin.Store.{Store, publish}
use comin.Store.Generations.{new_generation, generation_get}
use comin.Store.Deployments.{get_deployment_lastest}
use comin.Confirmer.{Confirmer, step as confirmer_step, Message}
use comin.Builder.{
  Builder, Evaluation, eval, submit_build, suspend as builder_suspend, resume as builder_resume,
}
use comin.Deployer.{
  Deployer, submit as deployer_submit, is_already_deployed, suspend as deployer_suspend,
  resume as deployer_resume,
}

-- `ConfigurationOperations`.
abbrev pub Operations : Type 0
Operations = List (String × List (String × String))

pub record Manager : Type 0 where
  pub machine_id : String
  pub hostname : String
  pub repository_dir : String
  pub system_attr : String
  pub operations : Operations
  pub need_to_reboot : Bool
  pub is_suspended : Bool
  pub exited : Bool
  pub store : Store
  pub builder : Builder
  pub deployer : Deployer
  pub build_confirmer : Confirmer
  pub deploy_confirmer : Confirmer

-- `New`, with the settings that the builder keeps (`GetHostname`, `GetRepositoryDir`, `GetSystemAttr`).
unfoldable pub new_manager :
    Store
    → Builder
    → Deployer
    → String
    → String
    → String
    → String
    → Confirmer
    → Confirmer
    → Operations
    → Manager
new_manager s builder deployer machine_id hostname repository_dir system_attr build_confirmer
      deploy_confirmer operations =
    record {
      machine_id = machine_id;
      hostname = hostname;
      repository_dir = repository_dir;
      system_attr = system_attr;
      operations = operations;
      need_to_reboot = false;
      is_suspended = false;
      exited = false;
      store = s;
      builder = builder;
      deployer = deployer;
      build_confirmer = build_confirmer;
      deploy_confirmer = deploy_confirmer;
    }

-- `getOperationFromConfigurationOperations`. A branch that the remote lacks gives the empty text.
unfoldable pub get_operation : Operations → String → String → String
get_operation operations remote branch = elim (lookup remote operations) [
  | none ↦ operation_test
  | some branches ↦ elim (lookup branch branches) [ none ↦ "" | some operation ↦ operation ]
]

abbrev pub operation_of : Manager → Git → String
operation_of m git = get_operation m.operations git.selected_remote_name git.selected_branch_name

abbrev pub set_builder : Manager → Builder → Manager
set_builder m b = record m { builder = b; store = b.store }

abbrev pub set_deployer : Manager → Deployer → Manager
set_deployer m d = record m { deployer = d; store = d.store }

abbrev pub builder_of : Manager → Builder
builder_of m = record (m.builder) { store = m.store }

abbrev pub deployer_of : Manager → Deployer
deployer_of m = record (m.deployer) { store = m.store }

-- The handler of a fetched event, with the uuid drawn for the generation and what the stopped
-- evaluation returns. The error of `Eval` is only logged.
unfoldable pub on_fetched :
    GitRepositoryStatus → Bool → Bool → String → Evaluation → ℕ → Manager → Manager
unfolding new_generation eval
on_fetched rs updated verified uuid stopped now m =
    if not updated
    then m
    else if verified
    then (let (s, g) = new_generation m.store m.hostname m.repository_dir m.system_attr rs uuid in
        let (b, _) = eval stopped now (record (m.builder) { store = s }) g.uuid in set_builder m b)
    else m

unfoldable pub submit_to_build_confirmer : String → ℕ → Manager → Manager
unfolding confirmer_step
submit_to_build_confirmer uuid now m = record m {
  build_confirmer = confirmer_step m.build_confirmer (Message.submit uuid, now);
}

unfoldable pub submit_to_deploy_confirmer : String → ℕ → Manager → Manager
unfolding confirmer_step
submit_to_deploy_confirmer uuid now m = record m {
  deploy_confirmer = confirmer_step m.deploy_confirmer (Message.submit uuid, now);
}

-- The machine-id of the generation is that of another host.
unfoldable pub is_foreign : Manager → Generation → Bool
is_foreign m g = not (g.machine_id == "") && not (m.machine_id == g.machine_id)

unfoldable pub on_evaluation_done : String → ℕ → Manager → Manager
unfolding submit_to_build_confirmer is_foreign
on_evaluation_done uuid now m = elim (generation_get m.store uuid) [
  | none ↦ m
  | some g ↦
      if not (g.eval_err == "")
      then m
      else if is_foreign m g
      then m
      else submit_to_build_confirmer uuid now m
]

unfoldable pub on_build_confirmed : String → ℕ → Manager → Manager
unfolding submit_build
on_build_confirmed uuid now m = set_builder m (submit_build now (builder_of m) uuid)

-- The handlers read the Git source of the generation. Each generation of `NewGeneration` has one;
-- where it is missing they do nothing here.
unfoldable pub on_build_done : String → ℕ → Manager → Manager
unfolding submit_to_deploy_confirmer get_operation is_already_deployed
on_build_done uuid now m = elim (generation_get m.store uuid) [
  | none ↦ m
  | some g ↦ if not (g.build_err == "") then m else elim g.source [
    | none ↦ m
    | some git ↦
        if is_already_deployed (deployer_of m) g (operation_of m git)
        then m
        else submit_to_deploy_confirmer uuid now m
  ]
]

unfoldable pub on_deploy_confirmed : String → Manager → Manager
unfolding get_operation deployer_submit
on_deploy_confirmed uuid m = elim (generation_get m.store uuid) [
  | none ↦ m
  | some g ↦ elim g.source [
    | none ↦ m
    | some git ↦
        let reason = str_append "The generation " (str_append uuid " needs to be deployed") in
        set_deployer m (deployer_submit (deployer_of m) g (operation_of m git) false reason)
  ]
]

-- The operation of `DeploymentLatestSubmit` where none is given.
unfoldable pub default_operation : Generation → String
default_operation g = elim g.source [
  | none ↦ operation_switch
  | some git ↦ elim git.selected_branch_is_testing [
    | none ↦ operation_switch
    | some testing ↦ if testing then operation_test else operation_switch
  ]
]

unfoldable pub deployment_latest_submit : String → Manager → Manager × Error
unfolding get_deployment_lastest default_operation deployer_submit
deployment_latest_submit operation m = elim (get_deployment_lastest m.store) [
  | none ↦ (m, some "manager: no previous deployment")
  | some latest ↦
      let wanted = if operation == "" then default_operation latest.generation else operation in
      let reason =
        str_append "The latest deployment " (str_append latest.uuid " has been resubmitted") in
      (set_deployer m (deployer_submit (deployer_of m) latest.generation wanted true reason), none)
]

-- `Suspend` after the builder has been suspended.
unfoldable pub suspend_deployer : Builder → Manager → Manager
unfolding deployer_suspend publish
suspend_deployer b m =
    let d =
      deployer_suspend (record (m.deployer) { store = b.store })
        "manager has been manually suspended" in
    let s = publish d.store Event.suspended in
    record m { builder = b; deployer = d; store = s; is_suspended = true }

unfoldable pub suspend : ℕ → Manager → Manager × Error
unfolding builder_suspend suspend_deployer
suspend now m =
    if m.is_suspended
    then (m, some "the manager is already suspended")
    else (let (b, error) = builder_suspend now (builder_of m) in
        elim error [ some e ↦ (set_builder m b, some e) | none ↦ (suspend_deployer b m, none) ])

unfoldable pub resume_deployer : Builder → Manager → Manager
unfolding deployer_resume publish
resume_deployer b m =
    let d = deployer_resume (record (m.deployer) { store = b.store }) in
    let s = publish d.store Event.resumed in
    record m { builder = b; deployer = d; store = s; is_suspended = false }

unfoldable pub resume : ℕ → Manager → Manager × Error
unfolding builder_resume resume_deployer
resume now m =
    if not m.is_suspended
    then (m, some "the manager is not suspended")
    else (let (b, error) = builder_resume now (builder_of m) in
        elim error [ some e ↦ (set_builder m b, some e) | none ↦ (resume_deployer b m, none) ])

-- `Run` on the end of a deployment; whether the host needs a reboot is what the executor says.
unfoldable pub on_deployment_done : Deployment → Bool → Manager → Manager
unfolding publish
on_deployment_done dpl reboot m = record m {
  need_to_reboot = reboot;
  store = if reboot then publish m.store (Event.reboot_required dpl) else m.store;
  exited = elim dpl.restart_comin [ none ↦ m.exited | some restart ↦ m.exited || restart ];
}
