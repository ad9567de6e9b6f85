-- ===== src/Store/Retention/Kept.antt =====
-- What `retention` never drops: the booted and the switched system.
use mathlib.Core.List.{Permᴰ}
use comin.Base.{
  ℕ, ◌≡◌, refl, ◌∙◌, ◌⊎◌, inl, inr, Bool, true, List, [], ◌∷◌, Option, some, String, eq_iff,
  eq_refl, arith, All-intro, Option-cases,
}
use comin.Types.{Deployment, operation_boot, operation_switch}
use comin.Store.Retention.{
  has_uuid, keep, booted_dummy, switched_dummy, is_booted, is_switched, find_first, Found, Booted,
  Capacities, BootState, ListState, boot_step, boot_loop, list_step, successful_loop, any_loop,
  append_new, keep_booted, keep_switched, retention,
}
use comin.Store.Retention.Sorting.{Sorter}
use comin.Store.Retention.Loops.{
  has_uuid-append, has_uuid-keep, boot_loop_ind, any_loop_ind, successful_loop_ind,
}

pub has_uuid-perm : (u : String) {l m : List Deployment} → Permᴰ l m → has_uuid l u ≡ has_uuid m u
has_uuid-perm u Permᴰ.nil = refl
has_uuid-perm u (Permᴰ.cons e p) = rw (e, has_uuid-perm u p)
has_uuid-perm u (Permᴰ.swap {l} e f) = rw (e, f) (ground arith)
has_uuid-perm u (Permᴰ.trans p q) = has_uuid-perm u p ∙ has_uuid-perm u q

pub find_first_lem :
    (p : Deployment → Bool) (ds : List Deployment) (d : Deployment)
    → find_first p ds ≡ some d
    → p d ≡ true
find_first_lem p [] d h = cc
find_first_lem p (x ∷ ds) d h = ground (arith, find_first_lem p ds d)

is_booted_lem :
    (path : String) (d : Deployment)
    → is_booted path d ≡ true
    → (d.generation.out_path ≡ path)
      × (d.status ≡ "done")
      × ((d.operation ≡ operation_boot) ⊎ (d.operation ≡ operation_switch))
is_booted_lem path d h = ground (
  arith,
  eq_iff d.generation.out_path path,
  eq_iff d.status "done",
  eq_iff d.operation "boot",
  eq_iff d.operation "switch",
)

is_switched_lem :
    (path : String) (d : Deployment)
    → is_switched path d ≡ true
    → (d.generation.out_path ≡ path) × (d.status ≡ "done")
is_switched_lem path d h = ground (arith, eq_iff d.generation.out_path path, eq_iff d.status "done")

module _ (u : String) where
  pub boot_loop_has :
      (capacity : ℕ) (ds : List Deployment) (s : BootState)
      → has_uuid s.result u ≡ true
      → has_uuid (boot_loop capacity ds s).result u ≡ true
  unfolding boot_step
  boot_loop_has capacity ds s h =
      boot_loop_ind (λ t. has_uuid t.result u ≡ true) capacity ds s
        (All-intro (λ d t _ q. ground (arith, has_uuid-keep t.result d u)) ds) h

  pub successful_loop_has :
      (capacity : ℕ) (ds : List Deployment) (s : ListState)
      → has_uuid s.result u ≡ true
      → has_uuid (successful_loop capacity 0 ds s).result u ≡ true
  unfolding list_step
  successful_loop_has capacity ds s h =
      (successful_loop_ind (λ _ t. has_uuid t.result u ≡ true) capacity 0 ds s
        (All-intro (λ d _ n t _ q. ground (arith, has_uuid-keep t.result d u)) ds) h).1

  pub any_loop_has :
      (capacity n : ℕ) (ds : List Deployment) (s : ListState)
      → has_uuid s.result u ≡ true
      → has_uuid (any_loop capacity n ds s).result u ≡ true
  unfolding list_step
  any_loop_has capacity n ds s h =
      (any_loop_ind (λ _ t. has_uuid t.result u ≡ true) capacity n ds s
        (All-intro (λ d _ t _ q. ground (arith, has_uuid-keep t.result d u)) ds) h).1

module _ (sorter : Sorter) (b : Booted) where
  open sorter use {sort, sort-perm}

  abbrev pub HasBooted : Found → Type 0
  HasBooted f =
      (has_uuid f.result f.found.uuid ≡ true) × (is_booted b.booted_storepath f.found ≡ true)

  abbrev pub HasSwitched : Found → Type 0
  HasSwitched f =
      (has_uuid f.result f.found.uuid ≡ true) × (is_switched b.switched_storepath f.found ≡ true)

  keep_booted_lem : (dpls : List Deployment) → HasBooted (keep_booted sorter b dpls)
  unfolding keep_booted keep booted_dummy
  keep_booted_lem dpls = elim (Option-cases (find_first (is_booted b.booted_storepath) dpls)) [
    | inl absent ↦
        rw (absent, keep_booted) (ground (arith, eq_refl b.boot_uuid, eq_refl b.booted_storepath))
    | inr (d, e) ↦
        rw (e, keep_booted)
          (ground (arith, eq_refl d.uuid), find_first_lem (is_booted b.booted_storepath) dpls d e)
  ]

  keep_switched_lem :
      (dpls result : List Deployment) → HasSwitched (keep_switched sorter b dpls result)
  unfolding keep_switched switched_dummy
  keep_switched_lem dpls result =
      elim (Option-cases (find_first (is_switched b.switched_storepath) dpls)) [
        | inl absent ↦
            rw (absent, keep_switched)
              (ground (
                arith,
                eq_refl b.switched_uuid,
                has_uuid-append result (switched_dummy b ∷ []) b.switched_uuid,
                eq_refl b.switched_storepath,
              ))
        | inr (d, e) ↦
            rw (e, keep_switched)
              (
                ground (arith, eq_refl d.uuid, has_uuid-keep result d d.uuid),
                find_first_lem (is_switched b.switched_storepath) dpls d e,
              )
      ]

  keep_switched_has :
      (u : String) (dpls result : List Deployment)
      → has_uuid result u ≡ true
      → has_uuid (keep_switched sorter b dpls result).result u ≡ true
  unfolding keep_switched switched_dummy
  keep_switched_has u dpls result h =
      elim (Option-cases (find_first (is_switched b.switched_storepath) dpls)) [
        | inl absent ↦
            rw (absent, keep_switched)
              (ground (arith, has_uuid-append result (switched_dummy b ∷ []) u))
        | inr (d, e) ↦ rw (e, keep_switched) (ground (arith, has_uuid-keep result d u))
      ]

module _ (sorter : Sorter) (dpls : List Deployment) (new : Option Deployment) (b : Booted)
    (capacity : Capacities) where
  open sorter use {sort, sort-perm}

  -- Whatever step 2 has kept is among the deployments returned.
  retention_has :
      (u : String)
      → let one = keep_booted sorter b (sort (append_new dpls new)) in
        has_uuid (keep_switched sorter b one.dpls one.result).result u ≡ true
        → has_uuid (retention sorter dpls new b capacity).dpls u ≡ true
  unfolding retention
  retention_has u h =
      has_uuid-perm u (sort-perm _)
      ∙ any_loop_has u capacity.any 0 _ _ (
          successful_loop_has u capacity.successful _ _ (boot_loop_has u capacity.boot_entry _ _ h))

  -- `retention` returns a deployment of the booted store path that is done and is a boot entry, and
  -- keeps it in the list, whatever the capacities are.
  pub retention_keeps_booted :
      let r = retention sorter dpls new b capacity in
      (has_uuid r.dpls r.booted.uuid ≡ true)
      × (r.booted.generation.out_path ≡ b.booted_storepath)
      × (r.booted.status ≡ "done")
      × ((r.booted.operation ≡ operation_boot) ⊎ (r.booted.operation ≡ operation_switch))
  unfolding retention
  retention_keeps_booted =
      let (kept, good) = keep_booted_lem sorter b (sort (append_new dpls new)) in
      let r = retention sorter dpls new b capacity in
      let facts = is_booted_lem b.booted_storepath r.booted good in
      (retention_has _ (keep_switched_has sorter b _ _ _ kept), facts.0, facts.1, facts.2)

  -- The same of the switched store path, whose deployment may be a test.
  pub retention_keeps_switched :
      let r = retention sorter dpls new b capacity in
      (has_uuid r.dpls r.current.uuid ≡ true)
      × (r.current.generation.out_path ≡ b.switched_storepath)
      × (r.current.status ≡ "done")
  unfolding retention
  retention_keeps_switched =
      let one = keep_booted sorter b (sort (append_new dpls new)) in
      let (kept, good) = keep_switched_lem sorter b one.dpls one.result in
      let r = retention sorter dpls new b capacity in
      let facts = is_switched_lem b.switched_storepath r.current good in
      (retention_has _ kept, facts.0, facts.1)
