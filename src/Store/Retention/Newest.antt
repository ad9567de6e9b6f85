-- ===== src/Store/Retention/Newest.antt =====
-- The newest deployment survives `retention`.
use mathlib.Core.List.{Memᴰ}
use mathlib.Core.List.Memᴰ.{not-nil}
use comin.Base.{
  ℕ, ◌≤◌, ◌<◌, ◌≡◌, refl, ◌∙◌, ◌≢◌, ◌⊎◌, inl, inr, true, false, List, [], ◌∷◌, ◌++◌, some, eq_refl,
  arith, All, All-append, All-perm, All-mem, mem-perm, mem-append_left, mem-append_last, leb,
  Option-cases,
}
use comin.Types.{Deployment, as_time}
use comin.Store.Retention.{
  has_uuid, booted_dummy, switched_dummy, is_booted, is_switched, find_first, Booted, Capacities,
  ListState, list_step, any_loop, keep_booted, keep_switched, retention,
}
use comin.Store.Retention.Sorting.{Sorter, IsNewestFirst}
use comin.Store.Retention.Loops.{has_uuid-keep}
use comin.Store.Retention.Kept.{has_uuid-perm, any_loop_has}

-- `e` is `d` itself, or was created before `d`.
abbrev pub NotAfter : Deployment → Deployment → Type 0
NotAfter d e = (e ≡ d) ⊎ (as_time e.created_at < as_time d.created_at)

-- `e` is `d` itself, or another deployment that was created before it.
abbrev pub IsOther : Deployment → Deployment → Type 0
IsOther d e = (e ≡ d) ⊎ ((e.uuid ≢ d.uuid) × (as_time e.created_at < as_time d.created_at))

pub IsOther-NotAfter : (d e : Deployment) → IsOther d e → NotAfter d e
IsOther-NotAfter d e (inl h) = inl h
IsOther-NotAfter d e (inr h) = inr h.1

-- `d` is in the list and is its newest.
abbrev pub IsNewest : Deployment → List Deployment → Type 0
IsNewest d l = Memᴰ d l × All (NotAfter d) l

module _ (sorter : Sorter) (d : Deployment) where
  open sorter use {sort, sort-perm, sort-IsNewestFirst}

  sort-IsNewest : (l : List Deployment) → IsNewest d l → IsNewest d (sort l)
  sort-IsNewest l h = (mem-perm (sort-perm l) h.0, All-perm (NotAfter d) (sort-perm l) h.1)

  append-IsNewest :
      (l : List Deployment) (e : Deployment)
      → NotAfter d e
      → IsNewest d l
      → IsNewest d (l ++ e ∷ [])
  append-IsNewest l e n h = (mem-append_left l _ h.0, All-append (NotAfter d) l _ h.1 (n, tt))

  head_of_older :
      (x : Deployment) (xs : List Deployment)
      → IsNewestFirst (x ∷ xs)
      → as_time x.created_at < as_time d.created_at
      → Memᴰ d (x ∷ xs)
      → x ∷ xs ≡ d ∷ xs
  head_of_older x xs s older (Memᴰ.head e) = rw e
  head_of_older x xs s older (Memᴰ.tail m) =
      absurd (omega (arith, All-mem (λ y. as_time y.created_at ≤ as_time x.created_at) xs s.0 m))

  -- A sorted list starts with its newest deployment.
  pub head_of_IsNewest :
      (l : List Deployment)
      → IsNewestFirst l
      → IsNewest d l
      → (rest : List Deployment) × (l ≡ d ∷ rest)
  head_of_IsNewest [] s h = absurd (not-nil h.0)
  head_of_IsNewest (x ∷ xs) s h = elim h.1.0 [
    | inl e ↦ (xs, rw e)
    | inr older ↦ (xs, head_of_older x xs s older h.0)
  ]

  any_loop_head :
      (capacity : ℕ) (rest : List Deployment) (s : ListState)
      → 0 < capacity
      → has_uuid (any_loop capacity 0 (d ∷ rest) s).result d.uuid ≡ true
  unfolding any_loop list_step
  any_loop_head capacity rest s h =
      let room : leb capacity 0 ≡ false = ground arith in
      rw (room, any_loop)
        (any_loop_has d.uuid capacity 1 rest (list_step s d)
          (ground (arith, has_uuid-keep s.result d d.uuid, eq_refl d.uuid)))

  any_loop_newest :
      (capacity : ℕ) (l : List Deployment) (s : ListState)
      → 0 < capacity
      → IsNewestFirst l
      → IsNewest d l
      → has_uuid (any_loop capacity 0 l s).result d.uuid ≡ true
  any_loop_newest capacity l s room sorted newest =
      let (rest, e) = head_of_IsNewest l sorted newest in rw e (any_loop_head capacity rest s room)

  abbrev SortedNewest : List Deployment → Type 0
  SortedNewest l = IsNewestFirst l × IsNewest d l

  dummy_is_older :
      (b : Booted)
      → 0 < as_time d.created_at
      → NotAfter d (booted_dummy b) × NotAfter d (switched_dummy b)
  unfolding booted_dummy switched_dummy
  dummy_is_older b h = (inr h, inr h)

  keep_booted_newest :
      (b : Booted) (l : List Deployment)
      → NotAfter d (booted_dummy b)
      → SortedNewest l
      → SortedNewest (keep_booted sorter b l).dpls
  unfolding keep_booted
  keep_booted_newest b l old h = elim (Option-cases (find_first (is_booted b.booted_storepath) l)) [
    | inl absent ↦
        rw (absent, keep_booted)
          (sort-IsNewestFirst _, sort-IsNewest _ (append-IsNewest l (booted_dummy b) old h.1))
    | inr (x, e) ↦ rw (e, keep_booted) h
  ]

  keep_switched_newest :
      (b : Booted) (l result : List Deployment)
      → NotAfter d (switched_dummy b)
      → SortedNewest l
      → SortedNewest (keep_switched sorter b l result).dpls
  unfolding keep_switched
  keep_switched_newest b l result old h =
      elim (Option-cases (find_first (is_switched b.switched_storepath) l)) [
        | inl absent ↦
            rw (absent, keep_switched)
              (sort-IsNewestFirst _, sort-IsNewest _ (append-IsNewest l (switched_dummy b) old h.1))
        | inr (x, e) ↦ rw (e, keep_switched) h
      ]

  -- A deployment that is handed to `retention` and is the newest, with a creation time after 1970,
  -- is among those returned as soon as one deployment of any status is to be kept. The list may
  -- hold the deployment already.
  pub retention_keeps_newest :
      (dpls : List Deployment) (b : Booted) (capacity : Capacities)
      → 0 < capacity.any
      → 0 < as_time d.created_at
      → All (NotAfter d) dpls
      → has_uuid (retention sorter dpls (some d) b capacity).dpls d.uuid ≡ true
  unfolding retention
  retention_keeps_newest dpls b capacity room late old =
      let all = dpls ++ d ∷ [] in
      let newest : IsNewest d all =
        (mem-append_last dpls d, All-append (NotAfter d) dpls (d ∷ []) old (inl refl, tt)) in
      let (one, two) = dummy_is_older b late in
      let first : SortedNewest (keep_booted sorter b (sort all)).dpls =
        keep_booted_newest b (sort all) one (sort-IsNewestFirst all, sort-IsNewest all newest) in
      let second = keep_switched_newest b _ (keep_booted sorter b (sort all)).result two first in
      has_uuid-perm d.uuid (sort-perm _) ∙ any_loop_newest capacity.any _ _ room second.0 second.1
