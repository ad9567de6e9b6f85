-- ===== src/Store/Loading.antt =====
-- `Load` and `migrateGenerationsToSource` (internal/store/store.go): what a new store takes from its
-- file.
use comin.Base.{
  ℕ, suc, ◌≡◌, refl, ap, ◌∙◌, inl, inr, Bool, true, false, ◌||◌, not, Option, none, some, List, [],
  ◌∷◌, ◌++◌, map, String, ◌==◌, if◌then◌else◌, All, Bool-cases, Option-cases,
}
use comin.Types.{
  Generation, Git, Deployment, DeployerState, Error, operation_boot, operation_switch,
}
use comin.Store.{Store, Persisted, Cell}
use comin.Store.Retention.{Booted, dummy, has_uuid, retention}
use comin.Store.Retention.Sorting.{Sorter}
use comin.Store.Retention.Kept.{retention_keeps_booted}
use comin.Store.Deployments.{
  capacities, get_deployment_by_outpath, update_data_deployments, retained_persisted,
}
use comin.Store.Deployments.Live.{update-persisted}

-- What reading the file gives: no file, an error of the read or of the decoding, or a state, whose
-- deployer may be missing.
pub data Contents : Type 0 where
  missing : Contents
  unreadable garbled : String → Contents
  holds : Option DeployerState → Persisted → Contents

abbrev pub has_legacy : Git → Bool
has_legacy g =
    not (g.repository_subdir == "")
    || not (g.system_attr == "")
    || not (g.hostname == "")
    || not (g.selected_remote_url == "")
    || not (g.selected_remote_name == "")
    || not (g.selected_branch_name == "")
    || not (g.selected_commit_id == "")
    || not (g.selected_commit_msg == "")
    || not (g.main_commit_id == "")
    || not (g.main_remote_name == "")
    || not (g.main_branch_name == "")

unfoldable pub migrate : Generation → Generation
migrate g = elim g.source [
  | some git ↦ g
  | none ↦ if has_legacy g.legacy then record g { source = some g.legacy } else g
]

-- The generation has a Git source, or no deprecated field to make one of.
abbrev pub is_migrated : Generation → Bool
is_migrated g = elim g.source [ some git ↦ true | none ↦ not (has_legacy g.legacy) ]

abbrev pub migrate_cell : Cell → Cell
migrate_cell c = record c { generation = migrate c.generation }

abbrev pub migrate_deployment : Deployment → Deployment
migrate_deployment d = record d { generation = migrate d.generation }

unfoldable pub migrate_generations_to_source : Store → Store
unfolding migrate
migrate_generations_to_source s = record s {
  persisted = record (s.persisted) {
    generations = map migrate_cell s.persisted.generations;
    deployments = map migrate_deployment s.persisted.deployments;
  };
}

-- Decoding makes new objects: the cells get the next addresses.
unfoldable pub renumber : ℕ → List Cell → List Cell
renumber n [] = []
renumber n (c ∷ cs) = record c { ref = n } ∷ renumber (suc n) cs

unfoldable pub refs_after : ℕ → List Cell → ℕ
refs_after n [] = n
refs_after n (c ∷ cs) = refs_after (suc n) cs

abbrev pub deployer_or_new : Option DeployerState → DeployerState
deployer_or_new none = record { is_suspended = false; suspend_reason = "" }
deployer_or_new (some state) = state

-- The state read, with the capacities of the configuration.
unfoldable pub take_over : Store → Option DeployerState → Persisted → Store
unfolding renumber refs_after
take_over s deployer p = record s {
  persisted = record p {
    generations = renumber s.next_ref p.generations;
    deployer = deployer_or_new deployer;
    deployment_boot_entry_capacity = s.persisted.deployment_boot_entry_capacity;
    deployment_successful_capacity = s.persisted.deployment_successful_capacity;
    deployment_any_capacity = s.persisted.deployment_any_capacity;
  };
  next_ref = refs_after s.next_ref p.generations;
}

abbrev empty_state : Persisted
empty_state = record {
  deployments = [];
  generations = [];
  deployment_switched = "";
  deployment_booted = "";
  deployments_boot_entry = [];
  deployments_successful = [];
  deployments_any = [];
  deployer = record { is_suspended = false; suspend_reason = "" };
  deployment_boot_entry_capacity = 0;
  deployment_successful_capacity = 0;
  deployment_any_capacity = 0;
}

-- A deployment is made up where none has the store path.
unfoldable pub ensure_deployment : String → String → String → Store → Store
unfolding dummy get_deployment_by_outpath
ensure_deployment uuid path operation s = elim (get_deployment_by_outpath s path) [
  | some d ↦ s
  | none ↦ record s {
    persisted = record (s.persisted) {
      deployments =
          s.persisted.deployments
          ++ dummy uuid path operation "Dummy deployment because not found in the deployment list"
            ∷ [];
    };
  }
]

module _ (sorter : Sorter) where
  -- `Load` after the read. The two uuids are drawn for the deployments made up.
  unfoldable pub load_state :
      Option DeployerState → Persisted → Booted → String → String → Store → Store
  unfolding take_over ensure_deployment migrate_generations_to_source
  load_state deployer p b first second s =
      let s1 = take_over s deployer p in
      let s2 = ensure_deployment first b.booted_storepath operation_boot s1 in
      let s3 = ensure_deployment second b.switched_storepath operation_switch s2 in
      migrate_generations_to_source (update_data_deployments sorter s3 b none)

  unfoldable pub load : Contents → Booted → String → String → Store → Store × Error
  unfolding load_state
  load missing b first second s = (load_state none empty_state b first second s, none)
  load (unreadable e) b first second s = (s, some e)
  load (garbled e) b first second s = (s, some e)
  load (holds deployer p) b first second s = (load_state deployer p b first second s, none)

  -- What the steps before the retention leave alone.
  ensure_deployment-kept :
      (uuid path operation : String) (s : Store)
      → ((ensure_deployment uuid path operation s).persisted.deployer ≡ s.persisted.deployer)
        × (capacities (ensure_deployment uuid path operation s).persisted ≡ capacities s.persisted)
  unfolding ensure_deployment
  ensure_deployment-kept uuid path operation s =
      elim (Option-cases (get_deployment_by_outpath s path)) [
        | inl e ↦ rw (e, ensure_deployment) (refl, refl)
        | inr (d, e) ↦ rw (e, ensure_deployment) (refl, refl)
      ]

  take_over-kept :
      (s : Store) (deployer : Option DeployerState) (p : Persisted)
      → ((take_over s deployer p).persisted.deployer ≡ deployer_or_new deployer)
        × (capacities (take_over s deployer p).persisted ≡ capacities s.persisted)
  unfolding take_over
  take_over-kept s deployer p = (refl, refl)

  has_uuid-migrate :
      (l : List Deployment) (u : String) → has_uuid (map migrate_deployment l) u ≡ has_uuid l u
  has_uuid-migrate [] u = refl
  has_uuid-migrate (d ∷ l) u = ap (λ b. d.uuid == u || b) (has_uuid-migrate l u)

  migrate-is_migrated : (g : Generation) → is_migrated (migrate g) ≡ true
  unfolding migrate
  migrate-is_migrated g = elim (Option-cases g.source) [
    | inr (git, e) ↦ let same : migrate g ≡ g = simp (e, migrate) in ap is_migrated same ∙ rw e refl
    | inl e ↦ elim (Bool-cases (has_legacy g.legacy)) [
      | inl h ↦ simp (e, h, migrate)
      | inr h ↦
          let same : migrate g ≡ g = simp (e, h, migrate) in ap is_migrated same ∙ rw (e, h) refl
    ]
  ]

  cells_are_migrated :
      (l : List Cell) → All (λ c. is_migrated c.generation ≡ true) (map migrate_cell l)
  cells_are_migrated [] = tt
  cells_are_migrated (c ∷ l) = (migrate-is_migrated c.generation, cells_are_migrated l)

  -- The store that `update_data_deployments` is called on.
  ensured : Option DeployerState → Persisted → Booted → String → String → Store → Store
  ensured deployer p b first second s =
      ensure_deployment second b.switched_storepath operation_switch
        (ensure_deployment first b.booted_storepath operation_boot (take_over s deployer p))

  ensured-kept :
      (deployer : Option DeployerState) (p : Persisted) (b : Booted) (first second : String)
      (s : Store)
      → ((ensured deployer p b first second s).persisted.deployer ≡ deployer_or_new deployer)
        × (capacities (ensured deployer p b first second s).persisted ≡ capacities s.persisted)
  unfolding ensured
  ensured-kept deployer p b first second s =
      let s1 = take_over s deployer p in
      let (d1, c1) = take_over-kept s deployer p in
      let (d2, c2) = ensure_deployment-kept first b.booted_storepath operation_boot s1 in
      let s2 = ensure_deployment first b.booted_storepath operation_boot s1 in
      let (d3, c3) = ensure_deployment-kept second b.switched_storepath operation_switch s2 in
      (d3 ∙ d2 ∙ d1, c3 ∙ c2 ∙ c1)

  -- A store that loads a state from its file reports no error. It takes the state of the deployer from
  -- the file and the capacities from its configuration, names as booted a deployment that it holds, and
  -- each of its generations has a Git source or had none to migrate.
  pub load_lem :
      (s : Store) (deployer : Option DeployerState) (p : Persisted) (b : Booted)
      (first second : String)
      → let (s', error) = load (Contents.holds deployer p) b first second s in
        (error ≡ none)
        × (s'.persisted.deployer ≡ deployer_or_new deployer)
        × (capacities s'.persisted ≡ capacities s.persisted)
        × (has_uuid s'.persisted.deployments s'.persisted.deployment_booted ≡ true)
        × All (λ c. is_migrated c.generation ≡ true) s'.persisted.generations
  unfolding load load_state migrate_generations_to_source retained_persisted ensured
  load_lem s deployer p b first second =
      let t = ensured deployer p b first second s in
      let (d, c) = ensured-kept deployer p b first second s in
      let r = retention sorter t.persisted.deployments none b (capacities t.persisted) in
      let same = update-persisted sorter t b none in
      let (kept, _, _, _) =
        retention_keeps_booted sorter t.persisted.deployments none b (capacities t.persisted) in
      let s3 = update_data_deployments sorter t b none in
      (
        refl,
        ap (λ (q : Persisted). q.deployer) same ∙ d,
        ap capacities same ∙ c,
        has_uuid-migrate s3.persisted.deployments s3.persisted.deployment_booted
            ∙ ap (λ (q : Persisted). has_uuid q.deployments q.deployment_booted) same
            ∙ kept,
        cells_are_migrated s3.persisted.generations,
      )
