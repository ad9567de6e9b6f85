-- ===== src/Store/Retention/BootEntries.antt =====
-- The boot entries that `retention` names.
use mathlib.Core.List.{map-append}
use comin.Base.{
  ◌≡◌, refl, ◌∙◌, ◌⊎◌, inl, inr, true, false, List, [], ◌∷◌, ◌++◌, map, Option, String, eq_iff,
  eq_refl, arith, All, All-intro, All-append, All-mono, Bool-cases, contains, Distinct,
  Distinct-append, contains-append,
}
use comin.Types.{Deployment, operation_boot, operation_switch}
use comin.Store.Retention.{
  has_uuid, keep, is_done, is_boot_entry, Booted, Capacities, BootState, boot_start, boot_step,
  boot_loop, append_new, keep_booted, keep_switched, retention,
}
use comin.Store.Retention.Sorting.{Sorter}
use comin.Store.Retention.Loops.{has_uuid-keep, boot_loop_ind}
use comin.Store.Retention.Kept.{has_uuid-perm, successful_loop_has, any_loop_has}

abbrev pub storepaths_of : List Deployment → List String
storepaths_of = map λ d. d.generation.out_path

record EntriesInv (s : BootState) : Type 0 where
  bootable : All (λ d. (is_boot_entry d ≡ true) × (is_done d ≡ true)) s.entries
  kept : All (λ d. has_uuid s.result d.uuid ≡ true) s.entries
  seen : All (λ d. contains s.storepaths d.generation.out_path ≡ true) s.entries
  distinct : Distinct (storepaths_of s.entries)

absent_storepath :
    (paths : List String) (l : List Deployment) (p : String)
    → All (λ d. contains paths d.generation.out_path ≡ true) l
    → contains paths p ≡ false
    → contains (storepaths_of l) p ≡ false
absent_storepath paths [] p h a = refl
absent_storepath paths (d ∷ l) p h a =
    ground (arith, absent_storepath paths l p h.1 a, eq_iff d.generation.out_path p)

-- The parts of the invariant when the entries are `l` and more is seen and kept.
still_kept :
    (result l : List Deployment) (d : Deployment)
    → All (λ e. has_uuid result e.uuid ≡ true) l
    → All (λ e. has_uuid (keep result d) e.uuid ≡ true) l
still_kept result l d = All-mono (λ e h. ground (arith, has_uuid-keep result d e.uuid)) l

still_seen :
    (paths : List String) (l : List Deployment) (p : String)
    → All (λ e. contains paths e.generation.out_path ≡ true) l
    → All (λ e. contains (paths ++ p ∷ []) e.generation.out_path ≡ true) l
still_seen paths l p =
    All-mono (λ e h. ground (arith, contains-append paths (p ∷ []) e.generation.out_path)) l

-- The step that adds `d`.
module _ (s : BootState) (d : Deployment) (boot : is_boot_entry d ≡ true) (good : is_done d ≡ true)
    (new : contains s.storepaths d.generation.out_path ≡ false) (h : EntriesInv s) where
  kept_now : has_uuid (keep s.result d) d.uuid ≡ true
  kept_now = ground (arith, has_uuid-keep s.result d d.uuid, eq_refl d.uuid)

  seen_now : contains (s.storepaths ++ d.generation.out_path ∷ []) d.generation.out_path ≡ true
  seen_now = ground (
    arith,
    contains-append s.storepaths (d.generation.out_path ∷ []) d.generation.out_path,
    eq_refl d.generation.out_path,
  )

  add-EntriesInv : EntriesInv (record {
    storepaths = s.storepaths ++ d.generation.out_path ∷ [];
    entries = keep s.entries d;
    result = keep s.result d;
  })
  add-EntriesInv = elim (Bool-cases (has_uuid s.entries d.uuid)) [
    | inl old ↦
        let e : keep s.entries d ≡ s.entries = unfold keep in rw old in
        record {
          bootable = rw e h.bootable;
          kept = rw e (still_kept s.result s.entries d h.kept);
          seen = rw e (still_seen s.storepaths s.entries d.generation.out_path h.seen);
          distinct = rw e h.distinct;
        }
    | inr other ↦
        let e : keep s.entries d ≡ s.entries ++ d ∷ [] = unfold keep in rw other in
        record {
          bootable = rw e (All-append _ s.entries _ h.bootable ((boot, good), tt));
          kept =
              rw e
                (All-append _ s.entries _ (still_kept s.result s.entries d h.kept) (kept_now, tt));
          seen = rw e (
              All-append _ s.entries _
                (still_seen s.storepaths s.entries d.generation.out_path h.seen) (seen_now, tt));
          distinct =
              rw (e, map-append (λ x. x.generation.out_path) s.entries (d ∷ []))
                (Distinct-append _ _
                  (absent_storepath s.storepaths s.entries d.generation.out_path h.seen new)
                  h.distinct);
        }
  ]

boot_step-EntriesInv : (s : BootState) (d : Deployment) → EntriesInv s → EntriesInv (boot_step s d)
unfolding boot_step
boot_step-EntriesInv s d h = elim (Bool-cases (is_boot_entry d)) [
  | inr other ↦ rw (other, boot_step) h
  | inl boot ↦ elim (Bool-cases (is_done d)) [
    | inr other ↦ rw (boot, other, boot_step) h
    | inl good ↦ elim (Bool-cases (contains s.storepaths d.generation.out_path)) [
      | inl old ↦ rw (boot, good, old, boot_step) h
      | inr new ↦ rw (boot, good, new, boot_step) (add-EntriesInv s d boot good new h)
    ]
  ]
]

boot_entry_lem :
    (d : Deployment)
    → (is_boot_entry d ≡ true) × (is_done d ≡ true)
    → ((d.operation ≡ operation_boot) ⊎ (d.operation ≡ operation_switch)) × (d.status ≡ "done")
boot_entry_lem d h =
    ground (arith, eq_iff d.operation "boot", eq_iff d.operation "switch", eq_iff d.status "done")

-- The boot entries that `retention` returns were deployed by a boot or a switch operation and are
-- done, no two of them have one store path, and each is among the deployments returned.
pub retention_boot_entries :
    (sorter : Sorter) (dpls : List Deployment) (new : Option Deployment) (b : Booted)
    (capacity : Capacities)
    → let r = retention sorter dpls new b capacity in
      All
        (λ d.
          ((d.operation ≡ operation_boot) ⊎ (d.operation ≡ operation_switch)) × (d.status ≡ "done"))
        r.boot_entries
      × Distinct (storepaths_of r.boot_entries)
      × All (λ d. has_uuid r.dpls d.uuid ≡ true) r.boot_entries
unfolding retention
retention_boot_entries sorter dpls new b capacity =
    let one = keep_booted sorter b (sorter.sort (append_new dpls new)) in
    let two = keep_switched sorter b one.dpls one.result in
    let s = boot_loop capacity.boot_entry two.dpls (boot_start two.result) in
    let inv : EntriesInv s =
      boot_loop_ind EntriesInv capacity.boot_entry two.dpls (boot_start two.result)
        (All-intro (λ d t _ h. boot_step-EntriesInv t d h) two.dpls)
        (record { bootable = tt; kept = tt; seen = tt; distinct = tt }) in
    (
      All-mono boot_entry_lem s.entries inv.bootable,
      inv.distinct,
      All-mono
          (λ d h.
            has_uuid-perm d.uuid (sorter.sort-perm _)
            ∙ any_loop_has d.uuid capacity.any 0 _ _
                (successful_loop_has d.uuid capacity.successful _ _ h))
          s.entries inv.kept,
    )
