-- ===== src/Store.antt =====
-- internal/store/store.go: the state of the store, and what it writes to its file. The store holds
-- pointers to its generations: a cell pairs one with its address, which `last_eval_started` and
-- its kin name. The file system is a value: whether it lets a file be written, removed or linked.
pub mod Retention
pub mod Inhibitors
pub mod Deployments
pub mod Generations
pub mod Loading
mod Tests
use comin.Base.{
  not, ℕ, suc, ◌≡◌, Bool, true, false, Option, none, some, List, [], ◌∷◌, ◌++◌, map, String, leb,
  ltb, if◌then◌else◌,
}
use comin.Types.{Generation, Deployment, DeployerState, Event, Error}

pub record Cell : Type 0 where
  pub ref : ℕ
  pub generation : Generation

-- `protobuf.Store`.
pub record Persisted : Type 0 where
  pub deployments : List Deployment
  pub generations : List Cell
  pub deployment_switched : String
  pub deployment_booted : String
  pub deployments_boot_entry : List String
  pub deployments_successful : List String
  pub deployments_any : List String
  pub deployer : DeployerState
  pub deployment_boot_entry_capacity : ℕ
  pub deployment_successful_capacity : ℕ
  pub deployment_any_capacity : ℕ

pub record Disk : Type 0 where
  pub marshals : Persisted → Bool
  pub writable : Bool
  pub removable : Bool
  pub linkable : Bool

pub record Store : Type 0 where
  pub persisted : Persisted
  pub last_eval_started : Option ℕ
  pub last_eval_finished : Option ℕ
  pub last_build_started : Option ℕ
  pub last_build_finished : Option ℕ
  pub next_ref : ℕ
  pub disk : Disk
  pub file : Option Persisted
  pub gc_root : Option String
  pub events : List Event

abbrev empty_persisted : ℕ → ℕ → ℕ → Persisted
empty_persisted boot successful any = record {
  deployments = [];
  generations = [];
  deployment_switched = "";
  deployment_booted = "";
  deployments_boot_entry = [];
  deployments_successful = [];
  deployments_any = [];
  deployer = record { is_suspended = false; suspend_reason = "" };
  deployment_boot_entry_capacity = boot;
  deployment_successful_capacity = successful;
  deployment_any_capacity = any;
}

-- `New`, on a disk where the directory of the gc roots can be made. A capacity below 1 is refused.
unfoldable pub new : Disk → ℕ → ℕ → ℕ → Option Persisted → Option String → Option Store
new disk boot successful any file gc_root =
    if ltb boot 1
    then none
    else if ltb successful 1
    then none
    else if ltb any 1
    then none
    else some (record {
      persisted = empty_persisted boot successful any;
      last_eval_started = none;
      last_eval_finished = none;
      last_build_started = none;
      last_build_finished = none;
      next_ref = 0;
      disk = disk;
      file = file;
      gc_root = gc_root;
      events = [];
    })

-- `broker.Publish`, seen from the store: events go out in order.
unfoldable pub publish : Store → Event → Store
publish s e = record s { events = s.events ++ e ∷ [] }

-- `Commit`: a state that cannot be marshaled, such as one with a text that is not UTF-8, and a write that
-- fails are only logged. What protojson marshals is a parameter.
unfoldable pub commit : Store → Store
commit s = record s {
  file =
      if not (s.disk.marshals s.persisted)
      then s.file
      else if s.disk.writable
      then some s.persisted
      else s.file;
}

unfoldable pub deployer_update : Store → DeployerState → Store
unfolding commit
deployer_update s state =
    commit (record s { persisted = record (s.persisted) { deployer = state } })
