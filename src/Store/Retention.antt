-- ===== src/Store/Retention.antt =====
-- `retention` (internal/store/deployment.go): which deployments the store keeps.
pub mod Sorting
pub mod Loops
pub mod Kept
pub mod BootEntries
pub mod Bounds
pub mod Insertion
pub mod Entries
pub mod Newest
pub mod Twice
mod Tests
use comin.Base.{
  ℕ, suc, Bool, true, false, not, ◌&&◌, ◌||◌, Option, none, some, List, [], ◌∷◌, ◌++◌, map, String,
  ◌==◌, str_append, length, contains_func, leb, if◌then◌else◌,
}
use comin.Types.{Generation, empty_generation, Deployment, operation_boot, operation_switch}
use Sorting.{Sorter}

pub data Status : Type 0 where
  init running done failed : Status

abbrev pub status_to_string : Status → String
status_to_string init = "init"
status_to_string running = "running"
status_to_string done = "done"
status_to_string failed = "failed"

unfoldable pub string_to_status : String → Status
string_to_status s =
    if s == "init"
    then init
    else if s == "running"
    then running
    else if s == "done"
    then done
    else if s == "failed"
    then failed
    else init

abbrev pub is_boot_entry : Deployment → Bool
is_boot_entry d = d.operation == operation_boot || d.operation == operation_switch

abbrev pub is_done : Deployment → Bool
is_done d = d.status == "done"

-- What the `slices.ContainsFunc` calls of the loops ask.
abbrev pub has_uuid : List Deployment → String → Bool
has_uuid l u = contains_func l (λ e. e.uuid == u)

-- Append unless a deployment with this uuid is there.
unfoldable pub keep : List Deployment → Deployment → List Deployment
keep l d = if has_uuid l d.uuid then l else l ++ d ∷ []

-- The deployment that is made up for a store path that no deployment has.
unfoldable pub dummy : String → String → String → String → Deployment
dummy uuid out_path operation reason = record {
  uuid = uuid;
  reason = reason;
  generation = record empty_generation { out_path = out_path };
  started_at = none;
  ended_at = none;
  error_msg = "";
  restart_comin = none;
  profile_path = "";
  status = status_to_string done;
  operation_submitted = "";
  operation = operation;
  operation_reason = "";
  created_at = none;
  current_inhibitors = [];
  new_inhibitors = [];
}

abbrev pub is_booted : String → Deployment → Bool
is_booted path d = is_boot_entry d && is_done d && d.generation.out_path == path

abbrev pub is_switched : String → Deployment → Bool
is_switched path d = is_done d && d.generation.out_path == path

-- The loops of steps 1 and 2 stop at the first match.
abbrev pub find_first : (Deployment → Bool) → List Deployment → Option Deployment
find_first p [] = none
find_first p (d ∷ ds) = if p d then some d else find_first p ds

-- What a step hands to the next: the deployments, sorted, those kept, and the one that it looked for.
pub record Found : Type 0 where
  pub dpls : List Deployment
  pub result : List Deployment
  pub found : Deployment

-- What the run is given: the two store paths, and the two uuids that `uuid.New` may hand out.
pub record Booted : Type 0 where
  pub booted_storepath : String
  pub switched_storepath : String
  pub boot_uuid : String
  pub switched_uuid : String

pub record Capacities : Type 0 where
  pub boot_entry : ℕ
  pub successful : ℕ
  pub any : ℕ

abbrev pub dummy_reason : String → String → String
dummy_reason what path = str_append "Empty deployment because the " (
    str_append what
      (str_append " storepath " (str_append path " has not be found in the deployment list")))

pub record BootState : Type 0 where
  pub storepaths : List String
  pub entries : List Deployment
  pub result : List Deployment

pub record ListState : Type 0 where
  pub entries : List Deployment
  pub result : List Deployment

abbrev pub boot_start : List Deployment → BootState
boot_start result = record { storepaths = []; entries = []; result = result }

abbrev pub list_start : List Deployment → ListState
list_start result = record { entries = []; result = result }

-- Step 3, the body after the test of the capacity.
unfoldable pub boot_step : BootState → Deployment → BootState
boot_step s d =
    if not (is_boot_entry d) || not (is_done d)
    then s
    else if contains_func s.storepaths (λ p. p == d.generation.out_path)
    then s
    else record {
      storepaths = s.storepaths ++ d.generation.out_path ∷ [];
      entries = keep s.entries d;
      result = keep s.result d;
    }

unfoldable pub boot_loop : ℕ → List Deployment → BootState → BootState
boot_loop capacity [] s = s
boot_loop capacity (d ∷ ds) s = elim (leb capacity (length s.storepaths)) [
  | true ↦ s
  | false ↦ boot_loop capacity ds (boot_step s d)
]

unfoldable pub list_step : ListState → Deployment → ListState
list_step s d = record { entries = keep s.entries d; result = keep s.result d }

-- Step 4.
unfoldable pub successful_loop : ℕ → ℕ → List Deployment → ListState → ListState
successful_loop capacity counter [] s = s
successful_loop capacity counter (d ∷ ds) s = elim (is_done d) [
  | false ↦ successful_loop capacity counter ds s
  | true ↦ elim (leb capacity counter) [
    | true ↦ s
    | false ↦ successful_loop capacity (suc counter) ds (list_step s d)
  ]
]

-- Step 5.
unfoldable pub any_loop : ℕ → ℕ → List Deployment → ListState → ListState
any_loop capacity counter [] s = s
any_loop capacity counter (d ∷ ds) s = elim (leb capacity counter) [
  | true ↦ s
  | false ↦ any_loop capacity (suc counter) ds (list_step s d)
]

pub record Retained : Type 0 where
  pub dpls : List Deployment
  pub current : Deployment
  pub booted : Deployment
  pub boot_entries : List Deployment
  pub successful : List Deployment
  pub any : List Deployment

abbrev pub append_new : List Deployment → Option Deployment → List Deployment
append_new dpls none = dpls
append_new dpls (some d) = dpls ++ d ∷ []

unfoldable pub booted_dummy : Booted → Deployment
unfolding dummy
booted_dummy b =
    dummy b.boot_uuid b.booted_storepath operation_boot (dummy_reason "booted" b.booted_storepath)

unfoldable pub switched_dummy : Booted → Deployment
unfolding dummy
switched_dummy b =
    dummy b.switched_uuid b.switched_storepath operation_switch
      (dummy_reason "switched" b.switched_storepath)

module _ (sorter : Sorter) where
  open sorter use {sort}

  -- Step 1.
  unfoldable pub keep_booted : Booted → List Deployment → Found
  keep_booted b dpls = elim (find_first (is_booted b.booted_storepath) dpls) [
    | some d ↦ record { dpls = dpls; result = keep [] d; found = d }
    | none ↦
        let d = booted_dummy b in
        record { dpls = sort (dpls ++ d ∷ []); result = d ∷ []; found = d }
  ]

  -- Step 2.
  unfoldable pub keep_switched : Booted → List Deployment → List Deployment → Found
  keep_switched b dpls result = elim (find_first (is_switched b.switched_storepath) dpls) [
    | some d ↦ record { dpls = dpls; result = keep result d; found = d }
    | none ↦
        let d = switched_dummy b in
        record { dpls = sort (dpls ++ d ∷ []); result = result ++ d ∷ []; found = d }
  ]

  unfoldable pub retention : List Deployment → Option Deployment → Booted → Capacities → Retained
  retention dpls new b capacity =
      let one = keep_booted b (sort (append_new dpls new)) in
      let two = keep_switched b one.dpls one.result in
      let boot = boot_loop capacity.boot_entry two.dpls (boot_start two.result) in
      let good = successful_loop capacity.successful 0 two.dpls (list_start boot.result) in
      let all = any_loop capacity.any 0 two.dpls (list_start good.result) in
      record {
        dpls = sort all.result;
        current = two.found;
        booted = one.found;
        boot_entries = boot.entries;
        successful = good.entries;
        any = all.entries;
      }
