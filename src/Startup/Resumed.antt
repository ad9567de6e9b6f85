-- ===== src/Startup/Resumed.antt =====
-- A start (cmd/run.go) that succeeds: what its parts have of the configuration and of the last run.
use comin.Base.{
  ℕ, ◌≡◌, ap, subst, ◌∙◌, Option, some, List, ◌∷◌, String, arith, Result, ok, ◌>>=◌, All,
}
use comin.Types.{Deployment}
use comin.Config.{Configuration, read, mk_git_config}
use comin.Config.Defaults.{before}
use comin.Store.{Store}
use comin.Store.Retention.Sorting.{Sorter}
use comin.Store.Deployments.{last_deployment}
use comin.Confirmer.{Confirmer}
use comin.Executor.Nix.{new as new_executor}
use comin.Deployer.{new_deployer}
use comin.Fetcher.{new_fetcher}
use comin.Manager.{new_manager}
use comin.Repository.{GitRepository, Verifier, update}
use comin.Repository.Forward.{IsForward}
use comin.Repository.Selection.{update-IsForward}
use comin.Repository.Fetching.{
  Client, RemoteConfig as FetchedRemote, fetch, new_git_repository_status,
}
use comin.Repository.Opening.{Opened, new as new_repository}
use comin.Repository.Opening.Remotes.{HasDistinctNames}
use comin.Startup.{
  get_git_from_generation, main_commit_of, Host, Daemon, loaded_store, daemon_of, done_or,
  confirmer_of, start,
}
use comin.Startup.Configured.{
  HasDistinctBranches, IsConfigured, configuration_operations-IsConfigured,
}

given {ℓ κ} :
    {A : Type ℓ} {B : Type κ} (r : Result A) (next : A → Result B) (a : A) (b : B)
    → r ≡ ok a
    → r >>= next ≡ ok b
    → next a ≡ ok b
given r next a b e h = subst (λ x. x >>= next ≡ ok b) e h

module _ {W R : Type 0} (sorter : Sorter) (host : Host W R) where
  -- The parts that a start has made.
  record IsMade (c : Configuration) (d : Daemon R) : Type 0 where
    s : Store
    loaded : loaded_store sorter host c ≡ ok s
    machine_id : String
    repository : Opened R
    build_confirmer : Confirmer
    deploy_confirmer : Confirmer
    pub made : daemon_of sorter host c machine_id s repository build_confirmer deploy_confirmer ≡ d

  start-IsMade :
      (path : String) (c : Configuration) (d : Daemon R)
      → read host.files path ≡ ok c
      → start sorter host path ≡ ok d
      → IsMade c d
  unfolding start
  start-IsMade path c d configured h =
      let git_config = mk_git_config c in
      let h₁ = given (read host.files path) _ c d configured h in
      let (_, _, h₂) =
        before
          (done_or "Failed to create the state dir " c.state_dir (host.make_state_dir c.state_dir))
          _ d h₁ in
      let (_, _, h₃) =
        before
          (done_or "Failed to chmod the state dir " c.state_dir (host.chmod_state_dir c.state_dir))
          _ d h₂ in
      let (executor, _, h₄) =
        before (new_executor host.goos c.repository_type git_config.repository_path c.submodules) _
          d h₃ in
      let (machine_id, _, h₅) = before (host.read_machine_id executor) _ d h₄ in
      let (s, e₆, h₆) = before (loaded_store sorter host c) _ d h₅ in
      let (repository, _, h₇) =
        before (new_repository host.repository_disk host.git host.key_parser host.world git_config)
          _ d h₆ in
      let (build_confirmer, _, h₈) =
        before (confirmer_of c.build_confirmer.mode c.build_confirmer.auto_duration) _ d h₇ in
      let (deploy_confirmer, _, h₉) =
        before (confirmer_of c.deploy_confirmer.mode c.deploy_confirmer.auto_duration) _ d h₈ in
      record {
        s = s;
        loaded = e₆;
        machine_id = machine_id;
        repository = repository;
        build_confirmer = build_confirmer;
        deploy_confirmer = deploy_confirmer;
        made = ground arith;
      }

  -- When the start gives a daemon, its manager has for every remote of the configuration the operations
  -- of both branches, where no two remotes have one name and the branches of each remote have two names.
  pub start-IsConfigured :
      (path : String) (c : Configuration) (d : Daemon R)
      → read host.files path ≡ ok c
      → HasDistinctNames c.remotes
      → All HasDistinctBranches c.remotes
      → start sorter host path ≡ ok d
      → All (IsConfigured d.manager.operations) c.remotes
  unfolding daemon_of new_manager
  start-IsConfigured path c d configured names branches h =
      subst (λ (e : Daemon R). All (IsConfigured e.manager.operations) c.remotes)
        (start-IsMade path c d configured h).made
        (configuration_operations-IsConfigured c.remotes names branches)

  -- What the parts have of the last deployment.
  record Remembers (last : Option Deployment) (d : Daemon R) : Type 0 where
    main_commit : d.fetcher.repository_status.main_commit_id ≡ main_commit_of last
    previous : d.manager.deployer.previous_deployment ≡ last

  daemon_of-Remembers :
      (path : String) (c : Configuration) (s : Store) (d : Daemon R) (last : Option Deployment)
      → read host.files path ≡ ok c
      → loaded_store sorter host c ≡ ok s
      → last_deployment s.persisted.deployments ≡ last
      → start sorter host path ≡ ok d
      → Remembers last d
  unfolding daemon_of new_manager new_deployer new_fetcher new_git_repository_status
  daemon_of-Remembers path c s d last configured loaded e h =
      let m = start-IsMade path c d configured h in
      let same : m.s ≡ s = ground (arith, m.loaded) in
      subst (Remembers last) m.made (record {
        main_commit =
            ap (λ (x : Store). main_commit_of (last_deployment x.persisted.deployments)) same
            ∙ ap main_commit_of e;
        previous = ap (λ (x : Store). last_deployment x.persisted.deployments) same ∙ e;
      })

  -- When the loaded state has two deployments or more, the first update after the start, with any fetch
  -- before it, leaves a main commit that has the one of the last deployment in its history, or is it, or the
  -- last deployment had none.
  pub resumed_update-IsForward :
      (path : String) (c : Configuration) (s : Store) (d : Daemon R) (last next : Deployment)
      (rest : List Deployment) (r : GitRepository) (v : Verifier) (client : Client)
      (names : List String) (now : ℕ) (remotes : List FetchedRemote)
      → read host.files path ≡ ok c
      → loaded_store sorter host c ≡ ok s
      → s.persisted.deployments ≡ last ∷ next ∷ rest
      → start sorter host path ≡ ok d
      → IsForward r
          (get_git_from_generation last.generation).main_commit_id
          (update r v (fetch client names now remotes d.fetcher.repository_status)).main_commit_id
  unfolding fetch main_commit_of last_deployment
  resumed_update-IsForward path c s d last next rest r v client names now remotes configured loaded
        e h =
      let m =
        daemon_of-Remembers path c s d (some last) configured loaded (ap last_deployment e) h in
      let status = fetch client names now remotes d.fetcher.repository_status in
      subst (λ base. IsForward r base (update r v status).main_commit_id) m.main_commit
        (update-IsForward r v status).0
