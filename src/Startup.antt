-- ===== src/Startup.antt =====
-- The start of the agent (cmd/run.go): the configuration is read, the parts are made from it and from the
-- state that the last run has left, and they are handed to the manager. What is only served or counted (the
-- HTTP servers, the socket, the metrics) is left out; an error ends the process.
pub mod Configured
pub mod Resumed
mod Tests
use comin.Base.{
  ltb, ℕ, ◌≡◌, Bool, true, false, ◌&&◌, not, Option, none, some, List, [], ◌∷◌, map, String, ◌==◌,
  Result, ok, err, ◌>>=◌, insert, str_append, if◌then◌else◌, nat_eq,
}
use Prim.Native.Nat.{◌*◌}
use comin.Base.Texts.Paths.{path_join}
use comin.Types.{Git, empty_git, Generation, Deployment, GitRepositoryStatus, Error}
use comin.Config.{
  RemoteConfig, GitConfig, Configuration, RetentionConfig, Files, read, mk_git_config,
}
use comin.Store.{Store, Persisted, Disk, new as new_store}
use comin.Store.Retention.{Booted}
use comin.Store.Retention.Sorting.{Sorter}
use comin.Store.Loading.{Contents, load}
use comin.Store.Deployments.{last_deployment}
use comin.Repository.Signers.{KeyParser}
use comin.Repository.Opening.{RemoteCalls, Disk as RepositoryDisk, Opened, new as new_repository}
use comin.Repository.Fetching.{RemoteConfig as FetchedRemote, new_git_repository_status}
use comin.Executor.Nix.{Executor, new as new_executor}
use comin.Fetcher.{Fetcher, new_fetcher}
use comin.Builder.{new_builder}
use comin.Deployer.{new_deployer}
use comin.Confirmer.{Confirmer, parse_mode, new_confirmer}
use comin.Manager.{Operations, Manager, new_manager}

-- `getGitFromGeneration`.
unfoldable pub get_git_from_generation : Generation → Git
get_git_from_generation g = elim g.source [ some git ↦ git | none ↦ empty_git ]

-- The map of one remote: the testing branch is written after main.
unfoldable pub branch_operations : RemoteConfig → List (String × String)
branch_operations c =
    insert c.branches.testing.branch_name c.branches.testing.operation
      (insert c.branches.main.branch_name c.branches.main.operation [])

-- The loop that fills `configurationOperations`.
unfoldable pub configuration_operations : Operations → List RemoteConfig → Operations
unfolding branch_operations
configuration_operations operations [] = operations
configuration_operations operations (c ∷ rest) =
    configuration_operations (insert c.remote_name (branch_operations c) operations) rest

-- `FetchRemotes` (internal/scheduler/scheduler.go): the remotes that have a job, and its period.
unfoldable pub fetch_remotes : List RemoteConfig → List (String × ℕ)
fetch_remotes [] = []
fetch_remotes (c ∷ rest) =
    let jobs = fetch_remotes rest in
    if nat_eq c.poller_period 0 then jobs else (c.remote_name, c.poller_period) ∷ jobs

-- What `NewGitRepositoryStatus` reads of a remote.
abbrev fetched_remote : RemoteConfig → FetchedRemote
fetched_remote c = record {
  name = c.remote_name;
  url = c.url;
  main = c.branches.main.branch_name;
  testing = c.branches.testing.branch_name;
  access_token = c.auth.access_token;
  ssh_deploy_key_path = c.auth.ssh_deploy_key_path;
  ssh_known_hosts_path = c.auth.ssh_known_hosts_path;
  username = c.auth.username;
}

abbrev pub done_or : String → String → Error → Result (Unit {0})
done_or what dir none = ok tt
done_or what dir (some e) = err (str_append what (str_append dir (str_append ": " e)))

abbrev done : Error → Result (Unit {0})
done none = ok tt
done (some e) = err e

abbrev some_or {ℓ} : {A : Type ℓ} → String → Option A → Result A
some_or e none = err e
some_or e (some a) = ok a

abbrev nanoseconds : ℕ → ℕ
nanoseconds seconds = seconds * 1000000000

abbrev pub confirmer_of : String → ℕ → Result Confirmer
confirmer_of mode duration =
    some_or (str_append "confirmer: invalid confirmer mode: '" (str_append mode "'"))
      (parse_mode mode)
    >>= λ m. ok (new_confirmer m (nanoseconds duration))

-- The message of `New` of the store for a capacity that it refuses.
abbrev capacity_error : RetentionConfig → String
capacity_error c =
    if ltb c.deployment_boot_entry_capacity 1
    then "store: bootEntryCapacity cannot be < 1"
    else if ltb c.deployment_successful_capacity 1
    then "store: successfulCapacity cannot be < 1"
    else "store: anyCapacity cannot be < 1"

-- The host at the start.
pub record Host (W R : Type 0) : Type 0 where
  pub goos : String
  pub files : Files
  pub make_state_dir : String → Error
  pub chmod_state_dir : String → Error
  pub make_gcroots_dir : String → Error
  pub read_machine_id : Executor → Result String
  pub store_disk : Disk
  pub store_contents : String → Contents
  pub gc_root : Option String
  pub booted : Booted
  pub first_uuid : String
  pub second_uuid : String
  pub world : W
  pub repository_disk : RepositoryDisk W R
  pub git : RemoteCalls R
  pub key_parser : KeyParser

pub record Daemon (R : Type 0) : Type 0 where
  pub manager : Manager
  pub fetcher : Fetcher
  pub repository : Opened R
  pub jobs : List (String × ℕ)

-- The commit of the last deployment, which the repository goes on from.
unfoldable pub main_commit_of : Option Deployment → String
unfolding get_git_from_generation
main_commit_of none = ""
main_commit_of (some d) = (get_git_from_generation d.generation).main_commit_id

abbrev file_of : Contents → Option Persisted
file_of (Contents.holds deployer p) = some p
file_of Contents.missing = none
file_of (Contents.unreadable e) = none
file_of (Contents.garbled e) = none

module _ {W R : Type 0} (sorter : Sorter) (host : Host W R) where
  abbrev contents_for : Configuration → Contents
  contents_for c = host.store_contents (path_join c.state_dir "store.json")

  -- The store with what `Load` has taken; its error is only logged.
  unfoldable pub loaded_store : Configuration → Result Store
  unfolding new_store load path_join
  loaded_store c =
      some_or (capacity_error c.retention_capacities) (
        new_store host.store_disk c.retention_capacities.deployment_boot_entry_capacity
          c.retention_capacities.deployment_successful_capacity
          c.retention_capacities.deployment_any_capacity (file_of (contents_for c)) host.gc_root)
      >>= λ s. done (host.make_gcroots_dir (path_join c.state_dir "gcroots")) >>= λ _.
          ok (load sorter (contents_for c) host.booted host.first_uuid host.second_uuid s).0

  -- The parts, once the store and the repository are there.
  unfoldable pub daemon_of :
      Configuration → String → Store → Opened R → Confirmer → Confirmer → Daemon R
  unfolding configuration_operations fetch_remotes main_commit_of last_deployment new_fetcher
      new_git_repository_status new_builder new_deployer new_manager
  daemon_of c machine_id s repository build_confirmer deploy_confirmer =
      let last = last_deployment s.persisted.deployments in
      record {
        manager =
            new_manager s (new_builder s) (new_deployer s last) machine_id c.hostname
              (mk_git_config c).dir c.system_attr build_confirmer deploy_confirmer
              (configuration_operations [] c.remotes);
        fetcher =
            new_fetcher
              (new_git_repository_status (map fetched_remote c.remotes) (main_commit_of last));
        repository = repository;
        jobs = fetch_remotes c.remotes;
      }

  -- The command `run`.
  unfoldable pub start : String → Result (Daemon R)
  unfolding read mk_git_config new_executor loaded_store new_repository daemon_of
  start path = read host.files path >>= λ c.
      done_or "Failed to create the state dir " c.state_dir (host.make_state_dir c.state_dir)
      >>= λ _.
          done_or "Failed to chmod the state dir " c.state_dir (host.chmod_state_dir c.state_dir)
          >>= λ _.
              new_executor host.goos c.repository_type (mk_git_config c).repository_path
                c.submodules
              >>= λ executor. host.read_machine_id executor >>= λ machine_id.
                  loaded_store c >>= λ s.
                  new_repository host.repository_disk host.git host.key_parser host.world
                    (mk_git_config c)
                  >>= λ repository.
                      confirmer_of c.build_confirmer.mode c.build_confirmer.auto_duration
                      >>= λ build_confirmer.
                          confirmer_of c.deploy_confirmer.mode c.deploy_confirmer.auto_duration
                          >>= λ deploy_confirmer.
                              ok (
                                daemon_of c machine_id s repository build_confirmer
                                  deploy_confirmer)
