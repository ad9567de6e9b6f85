-- ===== src/Store/Retention/Tests.antt =====
-- Runs of `retention` on the lists of internal/store/store_test.go, and the theorems at such inputs.
use comin.Base.{
  ◌≡◌, ◌≢◌, refl, ◌+◌, ◌≤◌, ◌⊎◌, inl, true, none, some, List, [], ◌∷◌, ◌++◌, ◌==◌, eq_iff, String,
  ℕ, arith, length, All,
}
use comin.Types.{Deployment, operation_boot, operation_switch}
use comin.Store.Retention.{
  Booted, Capacities, retention, has_uuid, dummy, keep, boot_loop, boot_step, list_step,
  successful_loop, any_loop, keep_booted, keep_switched, booted_dummy, switched_dummy,
}
use comin.Store.Retention.Insertion.{insertion}
use comin.Store.Retention.Kept.{retention_keeps_booted}
use comin.Store.Retention.Newest.{retention_keeps_newest}
use comin.Store.Retention.Bounds.{retention_bounds}
use comin.Store.Retention.Entries.{uuids}
use comin.Store.Retention.Twice.{retention_counts_twice}

abbrev deployment : String → String → String → ℕ → Deployment
deployment uuid operation path time = record (dummy uuid path operation "") {
  created_at = some time;
}

abbrev history : List Deployment
unfolding dummy
history =
    deployment "5" "test" "st1" 5
    ∷ deployment "4" "boot" "st1" 4
    ∷ deployment "3" "test" "st1" 3
    ∷ deployment "2" "boot" "st1" 2
    ∷ deployment "1" "switch" "st2" 1
    ∷ []

abbrev newest : Deployment
unfolding dummy
newest = deployment "6" "test" "st1" 6

abbrev paths : String → String → Booted
paths booted switched = record {
  booted_storepath = booted;
  switched_storepath = switched;
  boot_uuid = "b";
  switched_uuid = "s";
}

abbrev allow : ℕ → ℕ → ℕ → Capacities
allow boot successful any = record { boot_entry = boot; successful = successful; any = any }

program : Unit {0}
unfolding retention keep boot_loop boot_step list_step successful_loop any_loop keep_booted
    keep_switched booted_dummy switched_dummy dummy insertion
program = tt

retention_test :
    uuids (retention insertion history (some newest) (paths "st1" "st1") (allow 2 2 2)).dpls
    ≡ "6" ∷ "5" ∷ "4" ∷ "1" ∷ []
unfolding program
retention_test = refl

retention_small :
    uuids (retention insertion history none (paths "st1" "st1") (allow 1 3 3)).dpls
    ≡ "5" ∷ "4" ∷ "3" ∷ []
unfolding program
retention_small = refl

retention_first_run :
    uuids (retention insertion [] none (paths "st1" "st2") (allow 3 3 5)).dpls ≡ "s" ∷ "b" ∷ []
unfolding program
retention_first_run = refl

retention_keeps_booted_example :
    let r = retention insertion history none (paths "st1" "st2") (allow 1 1 1) in
    (has_uuid r.dpls r.booted.uuid ≡ true)
    × (r.booted.generation.out_path ≡ "st1")
    × (r.booted.status ≡ "done")
    × ((r.booted.operation ≡ operation_boot) ⊎ (r.booted.operation ≡ operation_switch))
retention_keeps_booted_example =
    retention_keeps_booted insertion history none (paths "st1" "st2") (allow 1 1 1)

retention_keeps_newest_example :
    has_uuid (retention insertion history (some newest) (paths "st2" "st2") (allow 1 1 1)).dpls "6"
    ≡ true
unfolding dummy
retention_keeps_newest_example =
    retention_keeps_newest insertion newest history (paths "st2" "st2") (allow 1 1 1) (omega arith)
      (omega arith) (omega arith)

retention_bounds_example :
    let r = retention insertion history (some newest) (paths "st1" "st2") (allow 1 1 1) in
    (length r.dpls ≤ 5)
    × (length r.boot_entries ≤ 1)
    × (length r.successful ≤ 1)
    × (length r.any ≤ 1)
retention_bounds_example =
    retention_bounds insertion history (some newest) (paths "st1" "st2") (allow 1 1 1)

no_clash : (u v : String) → (u == v) ≢ true → u ≢ v
no_clash u v h e = h ((eq_iff u v).1 e)

apart : ◌≢◌ {A = String} "b" "s"
apart = ground (arith, eq_iff "b" "s")

others_apart : All (λ d. d.uuid ≢ "s") (history ++ newest ∷ [])
unfolding dummy
others_apart = (
  no_clash "5" "s" (λ e. cc),
  (
    no_clash "4" "s" (λ e. cc),
    (
      no_clash "3" "s" (λ e. cc),
      (no_clash "2" "s" (λ e. cc), (no_clash "1" "s" (λ e. cc), (no_clash "6" "s" (λ e. cc), tt))),
    ),
  ),
)

retention_counts_twice_example :
    length (retention insertion (newest ∷ []) (some newest) (paths "st1" "st2") (allow 2 2 2)).any
      + 1
    ≤ 2
unfolding dummy
retention_counts_twice_example =
    retention_counts_twice insertion newest (newest ∷ []) (paths "st1" "st2") (allow 2 2 2)
      (omega arith) refl (inl refl, tt) (omega arith) (no_clash "b" "6" (λ e. cc))
      (no_clash "s" "6" (λ e. cc))
