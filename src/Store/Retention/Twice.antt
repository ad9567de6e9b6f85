-- ===== src/Store/Retention/Twice.antt =====
-- A deployment that is handed to `retention` while the list holds it already is counted twice.
use mathlib.Core.List.{Permᴰ, Memᴰ}
use comin.Base.{
  ℕ, suc, ◌+◌, ◌≤◌, ◌<◌, ◌≡◌, refl, sym, ap, subst, ◌∙◌, ◌≢◌, inl, inr, true, false, some, List, [],
  ◌∷◌, ◌++◌, String, ◌==◌, eq_iff, eq_refl, arith, length, All, All-intro, All-append, All-mono,
  All-perm, Option-cases, if◌then◌else◌, leb,
}
use comin.Types.{Deployment, as_time}
use comin.Store.Retention.{
  has_uuid, keep, booted_dummy, switched_dummy, is_booted, is_switched, find_first, Booted,
  Capacities, ListState, list_start, list_step, any_loop, keep_booted, keep_switched, retention,
}
use comin.Store.Retention.Sorting.{Sorter, IsNewestFirst}
use comin.Store.Retention.Loops.{length-keep, any_loop_ind}
use comin.Store.Retention.Newest.{IsOther, IsOther-NotAfter, head_of_IsNewest}

count : String → List Deployment → ℕ
count u [] = 0
count u (d ∷ l) = let rest = count u l in if d.uuid == u then suc rest else rest

count-perm : (u : String) {l m : List Deployment} → Permᴰ l m → count u l ≡ count u m
unfolding count
count-perm u Permᴰ.nil = refl
count-perm u (Permᴰ.cons e p) = rw (e, count-perm u p)
count-perm u (Permᴰ.swap e f) = rw (e, f) (ground arith)
count-perm u (Permᴰ.trans p q) = count-perm u p ∙ count-perm u q

count-append : (u : String) (l m : List Deployment) → count u (l ++ m) ≡ count u l + count u m
unfolding count
count-append u [] m = ground arith
count-append u (d ∷ l) m = ground (arith, count-append u l m)

count_of_has : (u : String) (l : List Deployment) → has_uuid l u ≡ true → 0 < count u l
unfolding count
count_of_has u [] h = absurd (cc)
count_of_has u (d ∷ l) h = ground (arith, count_of_has u l)

module _ (d : Deployment) where
  mem_of_count : (l : List Deployment) → 0 < count d.uuid l → All (IsOther d) l → Memᴰ d l
  unfolding count
  mem_of_count [] h o = absurd (omega arith)
  mem_of_count (x ∷ l) h o = elim o.0 [
    | inl e ↦ Memᴰ.head (sym e)
    | inr other ↦ Memᴰ.tail (mem_of_count l (ground (arith, eq_iff x.uuid d.uuid, other.0)) o.1)
  ]

  module _ (sorter : Sorter) where
    open sorter use {sort, sort-perm, sort-IsNewestFirst}

    -- A sorted list that holds `d` twice, all others being older.
    record IsTwice (l : List Deployment) : Type 0 where
      sorted : IsNewestFirst l
      others : All (IsOther d) l
      twice : 2 ≤ count d.uuid l

    head_of_count :
        (l : List Deployment)
        → IsNewestFirst l
        → All (IsOther d) l
        → 0 < count d.uuid l
        → (rest : List Deployment) × (l ≡ d ∷ rest)
    head_of_count l s o h =
        head_of_IsNewest sorter d l s (mem_of_count l h o, All-mono (IsOther-NotAfter d) l o)

    count_tail : (rest : List Deployment) → count d.uuid (d ∷ rest) ≡ suc (count d.uuid rest)
    unfolding count
    count_tail rest = ground (arith, eq_refl d.uuid)

    heads_of_IsTwice :
        (l : List Deployment) → IsTwice l → (rest : List Deployment) × (l ≡ d ∷ d ∷ rest)
    heads_of_IsTwice l t =
        let (rest, e) = head_of_count l t.sorted t.others (omega (arith, t.twice)) in
        let t' : IsTwice (d ∷ rest) = subst IsTwice e t in
        let (more, f) =
          head_of_count rest t'.sorted.1 t'.others.1 (omega (arith, t'.twice, count_tail rest)) in
        (more, e ∙ ap (◌∷◌ d) f)

    append-IsTwice :
        (l : List Deployment) (e : Deployment)
        → IsOther d e
        → All (IsOther d) l
        → 2 ≤ count d.uuid (l ++ e ∷ [])
        → IsTwice (sort (l ++ e ∷ []))
    append-IsTwice l e o h t = record {
      sorted = sort-IsNewestFirst (l ++ e ∷ []);
      others = All-perm (IsOther d) (sort-perm _) (All-append (IsOther d) l _ h (o, tt));
      twice = rw (count-perm d.uuid (sort-perm (l ++ e ∷ []))) t;
    }

    dummy-IsTwice :
        (l : List Deployment) (e : Deployment)
        → IsOther d e
        → IsTwice l
        → IsTwice (sort (l ++ e ∷ []))
    dummy-IsTwice l e o t =
        append-IsTwice l e o t.others (omega (arith, count-append d.uuid l (e ∷ []), t.twice))

    keep_booted-IsTwice :
        (b : Booted) (l : List Deployment)
        → IsOther d (booted_dummy b)
        → IsTwice l
        → IsTwice (keep_booted sorter b l).dpls
    unfolding keep_booted
    keep_booted-IsTwice b l o h =
        elim (Option-cases (find_first (is_booted b.booted_storepath) l)) [
          | inl absent ↦ rw (absent, keep_booted) (dummy-IsTwice l (booted_dummy b) o h)
          | inr (x, e) ↦ rw (e, keep_booted) h
        ]

    keep_switched-IsTwice :
        (b : Booted) (l result : List Deployment)
        → IsOther d (switched_dummy b)
        → IsTwice l
        → IsTwice (keep_switched sorter b l result).dpls
    unfolding keep_switched
    keep_switched-IsTwice b l result o h =
        elim (Option-cases (find_first (is_switched b.switched_storepath) l)) [
          | inl absent ↦ rw (absent, keep_switched) (dummy-IsTwice l (switched_dummy b) o h)
          | inr (x, e) ↦ rw (e, keep_switched) h
        ]

TwiceBound : ℕ → ℕ → ListState → Type 0
TwiceBound capacity n s = (n ≤ capacity) × (length s.entries + 1 ≤ n)

any_loop_twice :
    (capacity : ℕ) (d : Deployment) (rest result : List Deployment)
    → 2 ≤ capacity
    → length (any_loop capacity 0 (d ∷ d ∷ rest) (list_start result)).entries + 1 ≤ capacity
unfolding list_step keep TwiceBound any_loop
any_loop_twice capacity d rest result room =
    let first : leb capacity 0 ≡ false = ground arith in
    let second : leb capacity 1 ≡ false = ground arith in
    let s = list_step (list_step (list_start result) d) d in
    let start : length s.entries + 1 ≤ 2 = ground (arith, eq_refl d.uuid) in
    let (m, h) =
      any_loop_ind (TwiceBound capacity) capacity 2 rest s
        (All-intro (λ e n t k q. (k, omega (arith, q, length-keep t.entries e))) rest)
        (room, start) in
    rw (first, any_loop) (rw (second, any_loop) (omega (arith, h)))

-- If the newest deployment is handed to `retention` while the list holds it already, as
-- `DeploymentStarted` and `DeploymentFinished` do, it takes two of the places for deployments of any
-- status: with a capacity of two or more, at most one less than the capacity are named.
pub retention_counts_twice :
    (sorter : Sorter) (d : Deployment) (dpls : List Deployment) (b : Booted) (capacity : Capacities)
    → 2 ≤ capacity.any
    → has_uuid dpls d.uuid ≡ true
    → All (IsOther d) dpls
    → 0 < as_time d.created_at
    → b.boot_uuid ≢ d.uuid
    → b.switched_uuid ≢ d.uuid
    → length (retention sorter dpls (some d) b capacity).any + 1 ≤ capacity.any
unfolding retention booted_dummy switched_dummy count
retention_counts_twice sorter d dpls b capacity room listed others late boot_ne switched_ne =
    let all = append-IsTwice d sorter dpls d (inl refl) others (
      omega (
        arith,
        count-append d.uuid dpls (d ∷ []),
        count_of_has d.uuid dpls listed,
        count_tail d sorter [],
      )) in
    let one = keep_booted sorter b (sorter.sort (dpls ++ d ∷ [])) in
    let two = keep_switched sorter b one.dpls one.result in
    let first = keep_booted-IsTwice d sorter b _ (inr (boot_ne, late)) all in
    let second =
      keep_switched-IsTwice d sorter b one.dpls one.result (inr (switched_ne, late)) first in
    let (rest, e) = heads_of_IsTwice d sorter two.dpls second in
    rw e (any_loop_twice capacity.any d rest _ room)
