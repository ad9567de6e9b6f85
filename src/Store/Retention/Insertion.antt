-- ===== src/Store/Retention/Insertion.antt =====
-- A sort that meets the laws of `Sorter`: insertion, the newer in front. It stands for
-- `slices.SortFunc` in the runs.
use mathlib.Core.List.{Permᴰ}
use mathlib.Core.List.Permᴰ
use comin.Base.{
  refl, inl, inr, List, [], ◌∷◌, arith, All-mono, All-perm, leb, if◌then◌else◌, Bool-cases,
}
use comin.Types.{Deployment, as_time}
use comin.Store.Retention.Sorting.{Sorter, IsOlderOrSame, IsNewestFirst}

pub insert : Deployment → List Deployment → List Deployment
insert d [] = d ∷ []
insert d (x ∷ xs) =
    if leb (as_time d.created_at) (as_time x.created_at) then x ∷ insert d xs else d ∷ x ∷ xs

pub insertion_sort : List Deployment → List Deployment
unfolding insert
insertion_sort [] = []
insertion_sort (x ∷ xs) = insert x (insertion_sort xs)

insert-perm : (d : Deployment) (l : List Deployment) → Permᴰ (insert d l) (d ∷ l)
unfolding insert
insert-perm d [] = Permᴰ.cons refl Permᴰ.nil
insert-perm d (x ∷ xs) = elim (Bool-cases (leb (as_time d.created_at) (as_time x.created_at))) [
  | inl older ↦ rw older (Permᴰ.trans (Permᴰ.cons refl (insert-perm d xs)) (Permᴰ.swap refl refl))
  | inr newer ↦ rw newer (Permᴰ.cons refl (Permᴰ.cons refl (Permᴰ.refl xs)))
]

insert-IsNewestFirst :
    (d : Deployment) (l : List Deployment) → IsNewestFirst l → IsNewestFirst (insert d l)
unfolding insert
insert-IsNewestFirst d [] h = (tt, tt)
insert-IsNewestFirst d (x ∷ xs) h =
    elim (Bool-cases (leb (as_time d.created_at) (as_time x.created_at))) [
      | inl older ↦ rw older (
        All-perm (IsOlderOrSame x) (insert-perm d xs) (ground arith, h.0),
        insert-IsNewestFirst d xs h.1,
      )
      | inr newer ↦ rw newer ((ground arith, All-mono (λ e p. ground arith) xs h.0), h)
    ]

pub insertion_sort-perm : (l : List Deployment) → Permᴰ (insertion_sort l) l
unfolding insertion_sort
insertion_sort-perm [] = Permᴰ.nil
insertion_sort-perm (x ∷ xs) =
    Permᴰ.trans (insert-perm x (insertion_sort xs)) (Permᴰ.cons refl (insertion_sort-perm xs))

pub insertion_sort-IsNewestFirst : (l : List Deployment) → IsNewestFirst (insertion_sort l)
unfolding insertion_sort
insertion_sort-IsNewestFirst [] = tt
insertion_sort-IsNewestFirst (x ∷ xs) =
    insert-IsNewestFirst x (insertion_sort xs) (insertion_sort-IsNewestFirst xs)

unfoldable pub insertion : Sorter
unfolding insertion_sort
insertion = record {
  sort = insertion_sort;
  sort-perm = insertion_sort-perm;
  sort-IsNewestFirst = insertion_sort-IsNewestFirst;
}
