-- ===== src/Startup/Tests.antt =====
-- A start (cmd/run.go) on a host that has run before, and the theorems at it.
use comin.Base.{
  ℕ, Result, ◌≡◌, refl, arith, true, false, none, some, List, [], ◌∷◌, String, eq_iff, All, ok, err,
}
use comin.Types.{Deployment, empty_git}
use comin.Base.Texts.{
  is_space, trim_left, trim_right, trim_space, has_prefix, split_from, split, join,
}
use comin.Base.Texts.Paths.{clean, path_join}
use comin.Samples.{sample_store, sample_generation, sample_deployment, sample_booted}
use comin.Config.{fill_remote, access_token_of, fill_remotes, fill, read, mk_git_config}
use comin.Config.Tests.{files, filled, minimal_is_read}
use comin.Store.{Store, new as new_store}
use comin.Store.Loading.{
  Contents, load, load_state, take_over, ensure_deployment, migrate, migrate_generations_to_source,
}
use comin.Store.Deployments.{get_deployment_by_outpath, update_data_deployments, retained_persisted}
use comin.Store.Retention.{
  dummy, retention, any_loop, boot_loop, boot_step, booted_dummy, keep, keep_booted, keep_switched,
  list_step, successful_loop, switched_dummy,
}
use comin.Store.Retention.Insertion.{insertion}
use comin.Confirmer.{Mode, parse_mode, new_confirmer}
use comin.Executor.Nix.{new as new_executor}
use comin.Repository.Opening.{
  RemoteAnswer, found, Opened, after_delete, manage_remote_by, manage_remote, manage_remotes,
  read_gpg_key, read_gpg_keys, read_ssh_allowed_signers, delete_old_repository, repository_open,
  new as new_repository,
}
use comin.Repository.Opening.Tests.{disk, calls, no_keys, moved, changed}
use comin.Repository.{update}
use comin.Repository.Forward.{IsForward}
use comin.Repository.Fetching.{fetch}
use comin.Repository.Signatures.{verifier}
use comin.Repository.Tests.{history, objects, client}
use comin.Startup.{Host, Daemon, loaded_store, daemon_of, start, get_git_from_generation}
use comin.Startup.Configured.{IsConfigured}
use comin.Startup.Resumed.{start-IsConfigured, resumed_update-IsForward}

-- The deployment of the commit c1 of main, to the system `path`.
abbrev deployed : String → ℕ → String → Deployment
deployed uuid time path = record (sample_deployment uuid time) {
  generation = record (sample_generation "g") {
    source = some (record empty_git { main_commit_id = "c1"; selected_commit_id = "c1" });
    out_path = path;
  };
  status = "done";
}

abbrev contents : List Deployment → Contents
contents l = Contents.holds none (sample_store l []).persisted

abbrev host : List Deployment → Host (String → RemoteAnswer) (String → RemoteAnswer)
host l = record {
  goos = "linux";
  files = files;
  make_state_dir = λ dir. none;
  chmod_state_dir = λ dir. none;
  make_gcroots_dir = λ dir. none;
  read_machine_id = λ executor. ok "machine";
  store_disk = (sample_store [] []).disk;
  store_contents = λ path. contents l;
  gc_root = none;
  booted = sample_booted;
  first_uuid = "b";
  second_uuid = "s";
  world = moved;
  repository_disk = disk;
  git = calls;
  key_parser = no_keys;
}

abbrev two : List Deployment
two = deployed "d2" 2 "st1" ∷ deployed "d1" 1 "st0" ∷ []

abbrev one : List Deployment
one = deployed "d1" 1 "st1" ∷ []

-- The value of a result that is one.
abbrev value_or {ℓ} : {A : Type ℓ} → A → Result A → A
value_or a (ok b) = b
value_or a (err e) = a

abbrev stored : List Deployment → Store
stored l = value_or (sample_store [] []) (loaded_store insertion (host l) filled)

abbrev repository : Opened (String → RemoteAnswer)
repository = record {
  opened_repository =
      changed (changed moved "origin" RemoteAnswer.not_found) "origin"
        (found "https://example.org/config" []);
  gpg_public_keys = [];
  ssh_allowed_signers = [];
}

abbrev daemon : List Deployment → Daemon (String → RemoteAnswer)
daemon l =
    let confirmer = new_confirmer Mode.without 0 in
    daemon_of insertion (host l) filled "machine" (stored l) repository confirmer confirmer

unfoldable starter : Unit {0}
unfolding is_space trim_left trim_right trim_space has_prefix split_from split join clean path_join
    fill_remote access_token_of fill_remotes fill read mk_git_config new_store load load_state
    take_over ensure_deployment dummy migrate migrate_generations_to_source
    get_deployment_by_outpath update_data_deployments retained_persisted retention any_loop
    boot_loop boot_step booted_dummy keep keep_booted keep_switched list_step successful_loop
    switched_dummy insertion loaded_store new_executor parse_mode daemon_of start after_delete
    manage_remote_by manage_remote manage_remotes read_gpg_key read_gpg_keys
    read_ssh_allowed_signers delete_old_repository repository_open new_repository
starter = tt

two_is_loaded : loaded_store insertion (host two) filled ≡ ok (stored two)
unfolding starter
two_is_loaded = refl

two_starts : start insertion (host two) "minimal.yaml" ≡ ok (daemon two)
unfolding starter
two_starts = refl

two_are_loaded :
    (stored two).persisted.deployments ≡ deployed "d2" 2 "st1" ∷ deployed "d1" 1 "st0" ∷ []
unfolding starter
two_are_loaded = refl

start-IsConfigured_example : All (IsConfigured (daemon two).manager.operations) filled.remotes
start-IsConfigured_example =
    start-IsConfigured insertion (host two) "minimal.yaml" filled (daemon two) minimal_is_read
      (tt, tt)
      ((λ e. let h : false ≡ true = (eq_iff "testing" "main").1 e in absurd (ground arith)), tt)
      two_starts

resumed_update-IsForward_example :
    IsForward history "c1"
      (update history
        (verifier objects [] [])
        (fetch client ("origin" ∷ []) 7 [] (daemon two).fetcher.repository_status)).main_commit_id
unfolding get_git_from_generation
resumed_update-IsForward_example =
    resumed_update-IsForward insertion (host two) "minimal.yaml" filled (stored two) (daemon two)
      (deployed "d2" 2 "st1") (deployed "d1" 1 "st0") [] history (verifier objects [] []) client
      ("origin" ∷ []) 7 [] minimal_is_read two_is_loaded two_are_loaded two_starts
