-- ===== src/Repository/Forward.antt =====
-- The main commit and the selected commit only move forward.
use comin.Base.{
  ◌≡◌, subst, ◌⊎◌, inl, inr, true, false, String, ◌==◌, eq_iff, ok, Result-cases, Option-cases,
  Bool-cases, arith,
}
use comin.Repository.{
  GitRepository, is_ancestor, has_not_been_hard_reset, get_head_from_remote_and_branch,
  get_remote_commit_hash, reset_unless,
}

-- A head is the base, or there is no base, or the log of the head lists the base below its top.
abbrev pub IsForward : GitRepository → String → String → Type 0
IsForward r base head = (base ≡ "") ⊎ ((base ≡ head) ⊎ (is_ancestor r base head ≡ ok true))

reset-IsForward :
    (r : GitRepository) (base head : String)
    → has_not_been_hard_reset r base head ≡ ok tt
    → IsForward r base head
unfolding has_not_been_hard_reset reset_unless
reset-IsForward r base head h = elim (Bool-cases (base == "")) [
  | inl e ↦ inl (ground (arith, eq_iff base ""))
  | inr e ↦ elim (Bool-cases (base == head)) [
    | inl f ↦ inr (inl (ground (arith, eq_iff base head)))
    | inr f ↦ elim (Result-cases (is_ancestor r base head)) [
      | inl (true, g) ↦ inr (inr g)
      | inl (false, g) ↦ ground arith
      | inr (m, g) ↦ ground arith
    ]
  ]
]

pub head-IsForward :
    (r : GitRepository) (remote branch base head msg : String)
    → get_head_from_remote_and_branch r remote branch base ≡ ok (head, msg)
    → IsForward r base head
unfolding get_head_from_remote_and_branch
head-IsForward r remote branch base head msg h =
    elim (Option-cases (get_remote_commit_hash r remote branch)) [
      | inl e ↦ ground arith
      | inr (found, e) ↦ elim (Result-cases (has_not_been_hard_reset r base found)) [
        | inr (m, f) ↦ ground arith
        | inl (u, f) ↦ elim (Result-cases (r.message found)) [
          | inr (m, g) ↦ ground arith
          | inl (text, g) ↦
              let same : found ≡ head = ground arith in
              subst (IsForward r base) same (reset-IsForward r base found f)
        ]
      ]
    ]
