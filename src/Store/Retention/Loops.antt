-- ===== src/Store/Retention/Loops.antt =====
-- Proof rules for `keep` and for the three loops of `retention`.
use comin.Base.{
  ℕ, suc, ◌+◌, ◌≤◌, ◌<◌, ◌≡◌, refl, inl, inr, true, ◌||◌, List, [], ◌∷◌, ◌++◌, String, ◌==◌, eq_iff,
  arith, length, length-append, leb, All, Bool-cases,
}
use comin.Types.{Deployment}
use comin.Store.Retention.{
  is_done, has_uuid, keep, BootState, ListState, boot_step, boot_loop, list_step, successful_loop,
  any_loop,
}

pub has_uuid-append :
    (l m : List Deployment) (u : String) → has_uuid (l ++ m) u ≡ (has_uuid l u || has_uuid m u)
has_uuid-append [] m u = refl
has_uuid-append (d ∷ l) m u = ground (arith, has_uuid-append l m u)

pub has_uuid-keep :
    (l : List Deployment) (d : Deployment) (u : String)
    → has_uuid (keep l d) u ≡ (has_uuid l u || d.uuid == u)
unfolding keep
has_uuid-keep l d u = ground (arith, has_uuid-append l (d ∷ []) u, eq_iff d.uuid u)

pub length-keep : (l : List Deployment) (d : Deployment) → length (keep l d) ≤ length l + 1
unfolding keep
length-keep l d = ground (arith, length-append l (d ∷ []))

-- The rules of the loops: a property that each addition keeps holds at the end.
module _ {ℓ} (Q : BootState → Type ℓ) (capacity : ℕ) where
  abbrev pub BootKeeps : Deployment → Type ℓ
  BootKeeps d = (s : BootState) → length s.storepaths < capacity → Q s → Q (boot_step s d)

  pub boot_loop_ind :
      (ds : List Deployment) (s : BootState) → All BootKeeps ds → Q s → Q (boot_loop capacity ds s)
  unfolding boot_loop
  boot_loop_ind [] s k q = q
  boot_loop_ind (d ∷ ds) s k q = elim (Bool-cases (leb capacity (length s.storepaths))) [
    | inl full ↦ rw (full, boot_loop) q
    | inr room ↦
        rw (room, boot_loop) (boot_loop_ind ds (boot_step s d) k.1 (k.0 s (ground arith) q))
  ]

module _ {ℓ} (Q : ℕ → ListState → Type ℓ) (capacity : ℕ) where
  abbrev pub ListKeeps : Deployment → Type ℓ
  ListKeeps d = (n : ℕ) (s : ListState) → n < capacity → Q n s → Q (suc n) (list_step s d)

  abbrev pub DoneKeeps : Deployment → Type ℓ
  DoneKeeps d = is_done d ≡ true → ListKeeps d

  pub any_loop_ind :
      (n : ℕ) (ds : List Deployment) (s : ListState)
      → All ListKeeps ds
      → Q n s
      → (m : ℕ) × Q m (any_loop capacity n ds s)
  unfolding any_loop
  any_loop_ind n [] s k q = (n, q)
  any_loop_ind n (d ∷ ds) s k q = elim (Bool-cases (leb capacity n)) [
    | inl full ↦ rw (full, any_loop) (n, q)
    | inr room ↦
        rw (room, any_loop) (any_loop_ind (suc n) ds (list_step s d) k.1 (k.0 n s (ground arith) q))
  ]

  pub successful_loop_ind :
      (n : ℕ) (ds : List Deployment) (s : ListState)
      → All DoneKeeps ds
      → Q n s
      → (m : ℕ) × Q m (successful_loop capacity n ds s)
  unfolding successful_loop
  successful_loop_ind n [] s k q = (n, q)
  successful_loop_ind n (d ∷ ds) s k q = elim (Bool-cases (is_done d)) [
    | inr other ↦ rw (other, successful_loop) (successful_loop_ind n ds s k.1 q)
    | inl good ↦ elim (Bool-cases (leb capacity n)) [
      | inl full ↦ rw (good, full, successful_loop) (n, q)
      | inr room ↦
          rw (good, room, successful_loop)
            (successful_loop_ind (suc n) ds (list_step s d) k.1 (k.0 good n s (ground arith) q))
    ]
  ]
