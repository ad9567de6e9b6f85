-- ===== src/Store/Retention/Bounds.antt =====
-- How large the lists of `retention` get, and what they hold.
use comin.Base.{
  ℕ, suc, ◌+◌, ◌≤◌, ◌<◌, inl, inr, List, [], ◌∷◌, Option, arith, length, length-append, length-perm,
  All-intro, Option-cases,
}
use comin.Types.{Deployment}
use comin.Store.Retention.{
  keep, switched_dummy, is_booted, is_switched, find_first, Booted, Capacities, BootState,
  ListState, boot_start, list_start, boot_step, boot_loop, list_step, successful_loop, any_loop,
  append_new, keep_booted, keep_switched, retention,
}
use comin.Store.Retention.Sorting.{Sorter}
use comin.Store.Retention.Loops.{length-keep, boot_loop_ind, any_loop_ind, successful_loop_ind}

-- The state of a loop over `base` deployments kept before it, after `n` additions.
record ListBound (base n : ℕ) (s : ListState) : Type 0 where
  entries_le : length s.entries ≤ n
  result_le : length s.result ≤ base + n

list_step-ListBound :
    (base n : ℕ) (s : ListState) (d : Deployment)
    → ListBound base n s
    → ListBound base (suc n) (list_step s d)
unfolding list_step
list_step-ListBound base n s d h = ground (arith, length-keep s.entries d, length-keep s.result d)

record BootBound (base capacity : ℕ) (s : BootState) : Type 0 where
  storepaths_le : length s.storepaths ≤ capacity
  entries_le : length s.entries ≤ length s.storepaths
  result_le : length s.result ≤ base + length s.storepaths

boot_step-BootBound :
    (base capacity : ℕ) (s : BootState) (d : Deployment)
    → length s.storepaths < capacity
    → BootBound base capacity s
    → BootBound base capacity (boot_step s d)
unfolding boot_step
boot_step-BootBound base capacity s d room h = ground (
  arith,
  length-keep s.entries d,
  length-keep s.result d,
  length-append s.storepaths (d.generation.out_path ∷ []),
)

-- What the loops leave, from `base` deployments kept before.
pub boot_loop_bound :
    (capacity : ℕ) (ds result : List Deployment)
    → let s = boot_loop capacity ds (boot_start result) in
      (length s.entries ≤ capacity) × (length s.result ≤ length result + capacity)
boot_loop_bound capacity ds result =
    let b =
      boot_loop_ind (BootBound (length result) capacity) capacity ds (boot_start result)
        (All-intro (λ d s room h. boot_step-BootBound (length result) capacity s d room h) ds)
        (omega arith) in
    omega (arith, b.storepaths_le, b.entries_le, b.result_le)

abbrev Counted : ℕ → ℕ → ℕ → ListState → Type 0
Counted base capacity n s = (n ≤ capacity) × ListBound base n s

pub successful_loop_bound :
    (capacity : ℕ) (ds result : List Deployment)
    → let s = successful_loop capacity 0 ds (list_start result) in
      (length s.entries ≤ capacity) × (length s.result ≤ length result + capacity)
successful_loop_bound capacity ds result =
    let (m, h) =
      successful_loop_ind (Counted (length result) capacity) capacity 0 ds (list_start result)
        (All-intro (λ d _ n s room h. (room, list_step-ListBound (length result) n s d h.1)) ds)
        (omega arith, omega arith) in
    omega (arith, h.0, h.1.entries_le, h.1.result_le)

pub any_loop_bound :
    (capacity : ℕ) (ds result : List Deployment)
    → let s = any_loop capacity 0 ds (list_start result) in
      (length s.entries ≤ capacity) × (length s.result ≤ length result + capacity)
any_loop_bound capacity ds result =
    let (m, h) =
      any_loop_ind (Counted (length result) capacity) capacity 0 ds (list_start result)
        (All-intro (λ d n s room h. (room, list_step-ListBound (length result) n s d h.1)) ds)
        (omega arith, omega arith) in
    omega (arith, h.0, h.1.entries_le, h.1.result_le)

module _ (sorter : Sorter) (b : Booted) where
  open sorter use {sort}

  length-keep_booted : (l : List Deployment) → length (keep_booted sorter b l).result ≤ 1
  unfolding keep_booted keep
  length-keep_booted l = elim (Option-cases (find_first (is_booted b.booted_storepath) l)) [
    | inl absent ↦ rw (absent, keep_booted) (omega arith)
    | inr (x, e) ↦ rw (e, keep_booted) (omega arith)
  ]

  length-keep_switched :
      (l result : List Deployment)
      → length (keep_switched sorter b l result).result ≤ length result + 1
  unfolding keep_switched
  length-keep_switched l result =
      elim (Option-cases (find_first (is_switched b.switched_storepath) l)) [
        | inl absent ↦
            rw (absent, keep_switched) (omega (arith, length-append result (switched_dummy b ∷ [])))
        | inr (x, e) ↦ rw (e, keep_switched) (length-keep result x)
      ]

-- `retention` returns at most two deployments more than the three capacities allow together, and
-- each of the three lists that it names stays within its own capacity.
pub retention_bounds :
    (sorter : Sorter) (dpls : List Deployment) (new : Option Deployment) (b : Booted)
    (capacity : Capacities)
    → let r = retention sorter dpls new b capacity in
      (length r.dpls ≤ 2 + capacity.boot_entry + capacity.successful + capacity.any)
      × (length r.boot_entries ≤ capacity.boot_entry)
      × (length r.successful ≤ capacity.successful)
      × (length r.any ≤ capacity.any)
unfolding retention
retention_bounds sorter dpls new b capacity =
    let one = keep_booted sorter b (sorter.sort (append_new dpls new)) in
    let two = keep_switched sorter b one.dpls one.result in
    let boot = boot_loop capacity.boot_entry two.dpls (boot_start two.result) in
    let good = successful_loop capacity.successful 0 two.dpls (list_start boot.result) in
    omega (
      arith,
      length-keep_booted sorter b (sorter.sort (append_new dpls new)),
      length-keep_switched sorter b one.dpls one.result,
      boot_loop_bound capacity.boot_entry two.dpls two.result,
      successful_loop_bound capacity.successful two.dpls boot.result,
      any_loop_bound capacity.any two.dpls good.result,
      length-perm
          (sorter.sort-perm (any_loop capacity.any 0 two.dpls (list_start good.result)).result),
    )
