-- ===== src/Store/Retention/Sorting.antt =====
-- `slices.SortFunc` by `endedAtCmp`: newest first. Go's sort is not stable, so deployments of one
-- age may come out in any order; the model takes the sort as a parameter with these two laws.
use mathlib.Core.List.{Permᴰ}
use comin.Base.{◌≤◌, List, [], ◌∷◌, All}
use comin.Types.{Deployment, as_time}

abbrev pub IsOlderOrSame : Deployment → Deployment → Type 0
IsOlderOrSame d e = as_time e.created_at ≤ as_time d.created_at

abbrev pub IsNewestFirst : List Deployment → Type 0
IsNewestFirst [] = Unit
IsNewestFirst (d ∷ ds) = All (IsOlderOrSame d) ds × IsNewestFirst ds

pub record Sorter : Type 0 where
  pub sort : List Deployment → List Deployment
  pub sort-perm : (l : List Deployment) → Permᴰ (sort l) l
  pub sort-IsNewestFirst : (l : List Deployment) → IsNewestFirst (sort l)
