-- ===== src/Store/Retention/Entries.antt =====
-- What the lists of `retention` hold: distinct deployments, all of them given or made up.
use mathlib.Core.List.{map-append}
use comin.Base.{
  ◌≡◌, refl, subst, ◌∙◌, ◌≢◌, inl, inr, Bool, false, List, [], ◌∷◌, ◌++◌, map, Option, some, String,
  eq_iff, arith, map-perm, All, All-append, All-mono, All-perm, Bool-cases, Option-cases, contains,
  Distinct, Distinct-append, Distinct-perm,
}
use comin.Types.{Deployment}
use comin.Store.Retention.{
  has_uuid, keep, booted_dummy, switched_dummy, is_booted, is_switched, find_first, Booted,
  Capacities, BootState, ListState, boot_start, list_start, boot_step, boot_loop, list_step,
  successful_loop, any_loop, append_new, keep_booted, keep_switched, retention,
}
use comin.Store.Retention.Sorting.{Sorter, IsNewestFirst}
use comin.Store.Retention.Loops.{boot_loop_ind, any_loop_ind, successful_loop_ind}

abbrev pub uuids : List Deployment → List String
uuids = map λ d. d.uuid

contains-uuids : (l : List Deployment) (u : String) → contains (uuids l) u ≡ has_uuid l u
contains-uuids [] u = refl
contains-uuids (d ∷ l) u = ground (arith, contains-uuids l u)

-- What `keep` keeps: distinct uuids, and any property of the deployments.
record IsKept {ℓ} (P : Deployment → Type ℓ) (l : List Deployment) : Type ℓ where
  distinct : Distinct (uuids l)
  given : All P l

module _ {ℓ} (P : Deployment → Type ℓ) where
  snoc-IsKept :
      (l : List Deployment) (d : Deployment)
      → has_uuid l d.uuid ≡ false
      → P d
      → IsKept P l
      → IsKept P (l ++ d ∷ [])
  snoc-IsKept l d absent p h = record {
    distinct =
        rw (map-append (λ e. e.uuid) l (d ∷ []))
          (Distinct-append (uuids l) d.uuid (contains-uuids l d.uuid ∙ absent) h.distinct);
    given = All-append P l (d ∷ []) h.given (p, tt);
  }

  keep-IsKept : (l : List Deployment) (d : Deployment) → P d → IsKept P l → IsKept P (keep l d)
  unfolding keep
  keep-IsKept l d p h = elim (Bool-cases (has_uuid l d.uuid)) [
    | inl old ↦ rw (old) h
    | inr new ↦ rw (new) (snoc-IsKept l d new p h)
  ]

module _ (P : Deployment → Type 0) where
  list_step-IsKept :
      (s : ListState) (d : Deployment) → P d → IsKept P s.result → IsKept P (list_step s d).result
  unfolding list_step
  list_step-IsKept s d = keep-IsKept P s.result d

  boot_step-IsKept :
      (s : BootState) (d : Deployment) → P d → IsKept P s.result → IsKept P (boot_step s d).result
  unfolding boot_step
  boot_step-IsKept s d p h = ground (arith, keep-IsKept P s.result d p h)

  loops-IsKept :
      (capacity : Capacities) (ds result : List Deployment)
      → All P ds
      → IsKept P result
      → let boot = boot_loop capacity.boot_entry ds (boot_start result) in
        let good = successful_loop capacity.successful 0 ds (list_start boot.result) in
        IsKept P (any_loop capacity.any 0 ds (list_start good.result)).result
  loops-IsKept capacity ds result given h =
      let boot = boot_loop capacity.boot_entry ds (boot_start result) in
      let good = successful_loop capacity.successful 0 ds (list_start boot.result) in
      let first : IsKept P boot.result =
        boot_loop_ind (λ s. IsKept P s.result) capacity.boot_entry ds (boot_start result)
          (All-mono (λ d p s _ k. boot_step-IsKept s d p k) ds given) h in
      let second : IsKept P good.result =
        (successful_loop_ind (λ _ s. IsKept P s.result) capacity.successful 0 ds
          (list_start boot.result) (All-mono (λ d p _ n s _ k. list_step-IsKept s d p k) ds given)
          first).1 in
      (any_loop_ind (λ _ s. IsKept P s.result) capacity.any 0 ds (list_start good.result)
        (All-mono (λ d p n s _ k. list_step-IsKept s d p k) ds given) second).1

  find_first-All :
      (p : Deployment → Bool) (l : List Deployment) (d : Deployment)
      → find_first p l ≡ some d
      → All P l
      → P d
  find_first-All p [] d e h = absurd (cc)
  find_first-All p (x ∷ l) d e h = elim (Bool-cases (p x)) [
    | inl hit ↦ subst P (ground arith) h.0
    | inr miss ↦ find_first-All p l d (ground arith) h.1
  ]

  module _ (sorter : Sorter) (b : Booted) where
    open sorter use {sort, sort-perm}

    keep_booted-IsKept :
        (l : List Deployment)
        → P (booted_dummy b)
        → All P l
        → IsKept P (keep_booted sorter b l).result × All P (keep_booted sorter b l).dpls
    unfolding keep_booted keep
    keep_booted-IsKept l made h =
        elim (Option-cases (find_first (is_booted b.booted_storepath) l)) [
          | inl absent ↦
              rw (absent, keep_booted)
                (
                  record { distinct = (refl, tt); given = (made, tt) },
                  All-perm P (sort-perm _) (All-append P l _ h (made, tt)),
                )
          | inr (x, e) ↦
              rw (e, keep_booted)
                (
                  record {
                    distinct = (refl, tt);
                    given = (find_first-All (is_booted b.booted_storepath) l x e h, tt);
                  },
                  h,
                )
        ]

    keep_switched-IsKept :
        (l result : List Deployment)
        → P (switched_dummy b)
        → has_uuid result b.switched_uuid ≡ false
        → IsKept P result
        → All P l
        → IsKept P (keep_switched sorter b l result).result
          × All P (keep_switched sorter b l result).dpls
    unfolding keep_switched switched_dummy
    keep_switched-IsKept l result made fresh k h =
        elim (Option-cases (find_first (is_switched b.switched_storepath) l)) [
          | inl absent ↦
              rw (absent, keep_switched)
                (
                  snoc-IsKept P result (switched_dummy b) fresh made k,
                  All-perm P (sort-perm _) (All-append P l _ h (made, tt)),
                )
          | inr (x, e) ↦
              rw (e, keep_switched)
                (
                  keep-IsKept P result x (find_first-All (is_switched b.switched_storepath) l x e h)
                      k,
                  h,
                )
        ]

absent_of_All : (u : String) (l : List Deployment) → All (λ d. d.uuid ≢ u) l → has_uuid l u ≡ false
absent_of_All u [] h = refl
absent_of_All u (d ∷ l) h = ground (arith, absent_of_All u l h.1, eq_iff d.uuid u, h.0)

-- If the uuids that may be handed out are fresh, the deployments that `retention` returns have
-- distinct uuids and are sorted from newer to older; what holds of every deployment given and of
-- the two that may be made up holds of every deployment returned.
pub retention_entries :
    (sorter : Sorter) (P : Deployment → Type 0) (dpls : List Deployment) (new : Option Deployment)
    (b : Booted) (capacity : Capacities)
    → All (λ d. d.uuid ≢ b.switched_uuid) (append_new dpls new)
    → b.boot_uuid ≢ b.switched_uuid
    → All P (append_new dpls new)
    → P (booted_dummy b)
    → P (switched_dummy b)
    → let r = retention sorter dpls new b capacity in
      Distinct (uuids r.dpls) × IsNewestFirst r.dpls × All P r.dpls
unfolding retention booted_dummy
retention_entries sorter P dpls new b capacity fresh differ given made₁ made₂ =
    let all = append_new dpls new in
    let sorted = sorter.sort all in
    let one = keep_booted sorter b sorted in
    let two = keep_switched sorter b one.dpls one.result in
    let others =
      keep_booted-IsKept (λ d. d.uuid ≢ b.switched_uuid) sorter b sorted differ
        (All-perm (λ d. d.uuid ≢ b.switched_uuid) (sorter.sort-perm all) fresh) in
    let (first, given₁) =
      keep_booted-IsKept P sorter b sorted made₁ (All-perm P (sorter.sort-perm all) given) in
    let (second, given₂) =
      keep_switched-IsKept P sorter b one.dpls one.result made₂
        (absent_of_All b.switched_uuid one.result others.0.given) first given₁ in
    let kept = loops-IsKept P capacity two.dpls two.result given₂ second in
    (
      Distinct-perm (map-perm (λ d. d.uuid) (sorter.sort-perm _)) kept.distinct,
      sorter.sort-IsNewestFirst _,
      All-perm P (sorter.sort-perm _) kept.given,
    )
