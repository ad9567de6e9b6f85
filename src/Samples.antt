-- ===== src/Samples.antt =====
-- The states on which the tests of all components run.
use comin.Base.{ℕ, true, false, none, some, List, [], ◌∷◌, String}
use comin.Types.{
  Generation, empty_generation, empty_git, Deployment, Branch, Remote, GitRepositoryStatus,
}
use comin.Store.{Store, Cell}
use comin.Store.Retention.{Booted}

abbrev pub sample_generation : String → Generation
sample_generation uuid = record empty_generation {
  uuid = uuid;
  source = some (record empty_git {
    selected_remote_name = "origin";
    selected_branch_name = "main";
    selected_commit_id = "c2";
  });
  eval_status = "evaluated";
  out_path = "st2";
}

abbrev pub sample_deployment : String → ℕ → Deployment
sample_deployment uuid time = record {
  uuid = uuid;
  reason = "";
  generation = sample_generation "g";
  started_at = none;
  ended_at = none;
  error_msg = "";
  restart_comin = none;
  profile_path = "";
  status = "init";
  operation_submitted = "switch";
  operation = "switch";
  operation_reason = "";
  created_at = some time;
  current_inhibitors = [];
  new_inhibitors = [];
}

abbrev pub sample_store : List Deployment → List Cell → Store
sample_store deployments generations = record {
  persisted = record {
    deployments = deployments;
    generations = generations;
    deployment_switched = "";
    deployment_booted = "";
    deployments_boot_entry = [];
    deployments_successful = [];
    deployments_any = [];
    deployer = record { is_suspended = false; suspend_reason = "" };
    deployment_boot_entry_capacity = 2;
    deployment_successful_capacity = 2;
    deployment_any_capacity = 2;
  };
  last_eval_started = some 0;
  last_eval_finished = none;
  last_build_started = none;
  last_build_finished = none;
  next_ref = 1;
  disk = record { marshals = λ p. true; writable = true; removable = true; linkable = true };
  file = none;
  gc_root = none;
  events = [];
}

abbrev pub sample_cells : List Cell
sample_cells = record { ref = 0; generation = sample_generation "g" } ∷ []

abbrev pub sample_booted : Booted
sample_booted = record {
  booted_storepath = "st1";
  switched_storepath = "st1";
  boot_uuid = "b";
  switched_uuid = "s";
}

abbrev pub sample_branch : String → Branch
sample_branch name = record {
  name = name;
  commit_id = "";
  commit_msg = "";
  error_msg = "";
  on_top_of = "";
}

abbrev pub sample_remote : Remote
sample_remote = record {
  name = "origin";
  url = "https://example.org/config";
  fetch_error_msg = "";
  main = sample_branch "main";
  testing = sample_branch "testing";
  fetched_at = none;
  fetched = true;
}

abbrev pub sample_status : GitRepositoryStatus
sample_status = record {
  selected_commit_id = "c1";
  selected_commit_msg = "";
  selected_remote_name = "origin";
  selected_branch_name = "main";
  selected_branch_is_testing = some false;
  selected_commit_signed = false;
  selected_commit_signed_by = "";
  selected_commit_should_be_signed = false;
  main_commit_id = "c1";
  main_remote_name = "origin";
  main_branch_name = "main";
  remotes = sample_remote ∷ [];
  error_msg = "";
}
