-- ===== src/Types.antt =====
-- The messages that the components exchange (pkg/protobuf/services.proto) and the names of the
-- operations (internal/types/types.go). A timestamp is the nanoseconds since 1970, `none` where
-- the pointer is nil; an optional Boolean is false where its pointer is nil.
use comin.Base.{ℕ, Bool, Option, none, some, List, String}

abbrev pub Timestamp : Type 0
Timestamp = Option ℕ

-- `AsTime` of a nil timestamp is the epoch.
abbrev pub as_time : Timestamp → ℕ
as_time none = 0
as_time (some t) = t

-- `error`: its message, `none` where it is nil.
abbrev pub Error : Type 0
Error = Option String

abbrev pub operation_test : String
operation_test = "test"

abbrev pub operation_switch : String
operation_switch = "switch"

abbrev pub operation_boot : String
operation_boot = "boot"

abbrev pub operation_null : String
operation_null = "null"

pub record Git : Type 0 where
  pub repository_subdir : String
  pub system_attr : String
  pub hostname : String
  pub selected_remote_url : String
  pub selected_remote_name : String
  pub selected_branch_name : String
  pub selected_commit_id : String
  pub selected_commit_msg : String
  pub selected_branch_is_testing : Option Bool
  pub main_commit_id : String
  pub main_remote_name : String
  pub main_branch_name : String

abbrev pub empty_git : Git
empty_git = record {
  repository_subdir = "";
  system_attr = "";
  hostname = "";
  selected_remote_url = "";
  selected_remote_name = "";
  selected_branch_name = "";
  selected_commit_id = "";
  selected_commit_msg = "";
  selected_branch_is_testing = none;
  main_commit_id = "";
  main_remote_name = "";
  main_branch_name = "";
}

-- `source` is the one case of the oneof; `legacy` holds the deprecated fields, which are those of
-- `Git` by their names.
pub record Generation : Type 0 where
  pub uuid : String
  pub source : Option Git
  pub legacy : Git
  pub eval_status : String
  pub eval_started_at : Timestamp
  pub eval_ended_at : Timestamp
  pub eval_err : String
  pub out_path : String
  pub drv_path : String
  pub machine_id : String
  pub build_status : String
  pub build_reason : String
  pub build_started_at : Timestamp
  pub build_ended_at : Timestamp
  pub build_err : String

-- `&protobuf.Generation{}`.
abbrev pub empty_generation : Generation
empty_generation = record {
  uuid = "";
  source = none;
  legacy = empty_git;
  eval_status = "";
  eval_started_at = none;
  eval_ended_at = none;
  eval_err = "";
  out_path = "";
  drv_path = "";
  machine_id = "";
  build_status = "";
  build_reason = "";
  build_started_at = none;
  build_ended_at = none;
  build_err = "";
}

-- A `map[string]string` with its entries in some order.
abbrev pub Inhibitors : Type 0
Inhibitors = List (String × String)

pub record Deployment : Type 0 where
  pub uuid : String
  pub reason : String
  pub generation : Generation
  pub started_at : Timestamp
  pub ended_at : Timestamp
  pub error_msg : String
  pub restart_comin : Option Bool
  pub profile_path : String
  pub status : String
  pub operation_submitted : String
  pub operation : String
  pub operation_reason : String
  pub created_at : Timestamp
  pub current_inhibitors : Inhibitors
  pub new_inhibitors : Inhibitors

pub record DeployerState : Type 0 where
  pub is_suspended : Bool
  pub suspend_reason : String

pub record Branch : Type 0 where
  pub name : String
  pub commit_id : String
  pub commit_msg : String
  pub error_msg : String
  pub on_top_of : String

pub record Remote : Type 0 where
  pub name : String
  pub url : String
  pub fetch_error_msg : String
  pub main : Branch
  pub testing : Branch
  pub fetched_at : Timestamp
  pub fetched : Bool

pub record GitRepositoryStatus : Type 0 where
  pub selected_commit_id : String
  pub selected_commit_msg : String
  pub selected_remote_name : String
  pub selected_branch_name : String
  pub selected_branch_is_testing : Option Bool
  pub selected_commit_signed : Bool
  pub selected_commit_signed_by : String
  pub selected_commit_should_be_signed : Bool
  pub main_commit_id : String
  pub main_remote_name : String
  pub main_branch_name : String
  pub remotes : List Remote
  pub error_msg : String

-- The events of the broker, without their time of publication.
pub data Event : Type 0 where
  eval_started eval_finished build_started build_finished : Generation → Event
  confirmation_confirmed confirmation_cancelled : String → Event
  suspended resumed : Event
  deployment_started deployment_finished reboot_required : Deployment → Event
  fetched : GitRepositoryStatus → (updated verified : Bool) → Event
