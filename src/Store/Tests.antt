-- ===== src/Store/Tests.antt =====
-- The theorems on deployments and generations at concrete stores.
use comin.Base.{
  ◌≤◌, ◌≡◌, ◌≢◌, refl, inl, true, false, none, some, List, [], ◌∷◌, String, ◌==◌, eq_iff, arith,
  length, lookup, All,
}
use comin.Types.{empty_generation, empty_git, Deployment, Inhibitors}
use comin.Samples.{sample_store, sample_generation, sample_deployment, sample_booted, sample_status}
use comin.Store.{Store, Persisted, Cell}
use comin.Store.Loading.{Contents, load, load_lem, is_migrated}
use comin.Store.Retention.{has_uuid}
use comin.Store.Inhibitors.{compare_switch_inhibitors, lookup-compare_switch_inhibitors, IsConflict}
use comin.Store.Retention.Insertion.{insertion}
use comin.Store.Deployments.{capacities, created, new_deployment}
use comin.Store.Deployments.Live.{AreFresh, LiveIn}
use comin.Store.Deployments.Lifecycle.{new_deployment-LiveIn}
use comin.Store.Generations.{find_cell, is_alive, new_generation}
use comin.Store.Generations.Status.{Change, effect, apply_change}
use comin.Store.Generations.Bounded.{Call, run, step, generations_bounded}

abbrev current : Inhibitors
current = ("dbus", "1") ∷ ("systemd", "255") ∷ []

abbrev wanted : Inhibitors
wanted = ("systemd", "256") ∷ ("kernel", "6") ∷ []

lookup-compare_switch_inhibitors_example :
    lookup "systemd" (compare_switch_inhibitors current wanted)
    ≡ some (record { old = "255"; new = "256" })
lookup-compare_switch_inhibitors_example =
    lookup-compare_switch_inhibitors current wanted "systemd" (refl, (refl, tt)) (refl, (refl, tt))

no_clash : (u v : String) → (u == v) ≢ true → u ≢ v
no_clash u v h e = h ((eq_iff u v).1 e)

fresh :
    (d : Deployment)
    → d.uuid ≡ "d1"
    → (l : List Deployment) → All (λ e. e.uuid ≢ "s") l
    → AreFresh d l sample_booted
fresh d e l unused = record {
  unused = unused;
  apart = no_clash "b" "s" (λ h. cc);
  boot_ne = ground (arith, eq_iff "b" "d1");
  switched_ne = ground (arith, eq_iff "s" "d1");
}

new_deployment-LiveIn_example :
    let (s', d) =
      new_deployment insertion
        (sample_store [] [])
        (sample_generation "g")
        "switch"
        "r"
        sample_booted
        5
        "d1"
        []
        [] in
    LiveIn d s'
unfolding created
new_deployment-LiveIn_example =
    new_deployment-LiveIn insertion (sample_store [] []) (sample_generation "g") "switch" "r"
      sample_booted 5 "d1" [] [] (omega arith) (omega arith)
      (fresh (created (sample_generation "g") "switch" "r" 5 "d1" [] []) refl [] tt) tt

abbrev dpl : Deployment
dpl = sample_deployment "d1" 5

abbrev under_way : Store
under_way = sample_store (dpl ∷ []) []

live : LiveIn dpl under_way
live = (
  record { listed = refl; others = (inl refl, tt); distinct = (refl, tt) },
  omega arith,
  omega arith,
)

abbrev calls : List Call
calls = Call.creates "host" "." "attr" sample_status "g1" ∷ []

abbrev first : Store
first = sample_store [] []

abbrev made : Cell
unfolding new_generation
made = record {
  ref = 1;
  generation = (new_generation first "host" "." "attr" sample_status "g1").1;
}

made_is_found : find_cell "g1" (run first calls).persisted.generations ≡ some made
unfolding run step new_generation
made_is_found = refl

generations_bounded_example :
    let s' = (apply_change (run first calls) "g1" Change.eval_starts 8).0 in
    (length s'.persisted.generations ≤ 4)
    × All (λ y. is_alive s' y ≡ true) s'.persisted.generations
    × (find_cell "g1" s'.persisted.generations
        ≡ some (record made { generation = effect Change.eval_starts 8 made.generation }))
generations_bounded_example =
    generations_bounded first calls "g1" Change.eval_starts 8 made refl made_is_found

conflict : IsConflict current wanted
conflict = record {
  key = "systemd";
  was = "255";
  becomes = "256";
  in_current = refl;
  in_new = refl;
  differ = no_clash "255" "256" (λ e. cc);
}

agree : ¬ IsConflict current []
agree x = absurd (ground (arith, x.in_new))

abbrev legacy_state : Persisted
legacy_state =
    (sample_store (dpl ∷ []) (
      record {
        ref = 0;
        generation = record empty_generation {
          uuid = "g";
          legacy = record empty_git { selected_commit_id = "c1" };
        };
      }
      ∷ [])).persisted

load_lem_example :
    let (s', error) =
      load insertion (Contents.holds none legacy_state) sample_booted "u1" "u2" first in
    (error ≡ none)
    × (s'.persisted.deployer ≡ record { is_suspended = false; suspend_reason = "" })
    × (capacities s'.persisted ≡ capacities first.persisted)
    × (has_uuid s'.persisted.deployments s'.persisted.deployment_booted ≡ true)
    × All (λ c. is_migrated c.generation ≡ true) s'.persisted.generations
load_lem_example = load_lem insertion first none legacy_state sample_booted "u1" "u2"
