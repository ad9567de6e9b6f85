-- ===== src/Store/Generations/Bounded.antt =====
-- The store never holds more than the generations that it points to, and those just made.
use comin.Base.{
  ℕ, suc, true, ◌≤◌, ◌<◌, ◌≡◌, ap, ◌∙◌, ◌≢◌, inl, inr, some, List, [], ◌∷◌, ◌++◌, String, arith,
  length, All, sym, subst, All-append, All-mono, Option-cases,
}
use comin.Types.{GitRepositoryStatus}
use comin.Store.{Store, Cell}
use comin.Store.Generations.{find_cell, set_cell, is_alive, alive_cells, new_generation}
use comin.Store.Generations.Collected.{
  AreBelow, HaveRefs, length-alive_cells-le, alive_cells-All, alive_cells-alive,
  alive_cells-HaveRefs, set_cell-All, set_cell-HaveRefs,
}
use comin.Store.Generations.Status.{
  Change, effect, apply_change, marked, marked-cells, apply_change-found, apply_change-missing,
  apply_change-cell, is_alive-apply_change,
}

-- No two cells share an address, and all addresses are below the next one.
pub record IsValid (s : Store) : Type 0 where
  pub below : AreBelow s.next_ref s.persisted.generations
  pub refs : HaveRefs s.persisted.generations

HaveRefs-append :
    (l : List Cell) (c : Cell) → AreBelow c.ref l → HaveRefs l → HaveRefs (l ++ c ∷ [])
HaveRefs-append [] c b h = (tt, tt)
HaveRefs-append (x ∷ l) c b h = (
  All-append (λ e. e.ref ≢ x.ref) l (c ∷ []) h.0 ((λ e. omega arith), tt),
  HaveRefs-append l c b.1 h.1,
)

new_generation-IsValid :
    (s : Store) (hostname dir attr : String) (rs : GitRepositoryStatus) (uuid : String)
    → IsValid s
    → IsValid (new_generation s hostname dir attr rs uuid).0
unfolding new_generation
new_generation-IsValid s hostname dir attr rs uuid v = record {
  below =
      All-append (λ c. c.ref < suc s.next_ref) s.persisted.generations _
        (All-mono (λ c h. omega arith) s.persisted.generations v.below) (omega arith, tt);
  refs = HaveRefs-append s.persisted.generations _ v.below v.refs;
}

-- A status operation that finds its generation.
apply_change-IsValid_found :
    (s : Store) (uuid : String) (c : Change) (now : ℕ) (x : Cell)
    → find_cell uuid s.persisted.generations ≡ some x
    → IsValid s
    → IsValid (apply_change s uuid c now).0
      × (length (apply_change s uuid c now).0.persisted.generations ≤ 4)
apply_change-IsValid_found s uuid c now x found v =
    let t = marked s uuid c now x in
    let l = s.persisted.generations in
    let g = effect c now x.generation in
    let (_, cells, next) = apply_change-found s uuid c now x found in
    let (written, _, _) = marked-cells s uuid c now x in
    let e = cells ∙ ap (alive_cells t) written in
    (
      record {
        below =
            rw (e, next)
              (alive_cells-All (λ c'. c'.ref < s.next_ref) t (set_cell uuid g l)
                (set_cell-All (λ r. r < s.next_ref) uuid g l v.below));
        refs =
            rw e (alive_cells-HaveRefs t (set_cell uuid g l) (set_cell-HaveRefs uuid g l v.refs));
      },
      rw e (length-alive_cells-le t (set_cell uuid g l) (set_cell-HaveRefs uuid g l v.refs)),
    )

pub data Call : Type 0 where
  creates : (hostname dir attr : String) → GitRepositoryStatus → (uuid : String) → Call
  changes : (uuid : String) → Change → (now : ℕ) → Call

unfoldable pub step : Store → Call → Store
step s (creates hostname dir attr rs uuid) = (new_generation s hostname dir attr rs uuid).0
step s (changes uuid c now) = (apply_change s uuid c now).0

step-IsValid : (s : Store) (c : Call) → IsValid s → IsValid (step s c)
unfolding step
step-IsValid s (creates hostname dir attr rs uuid) v =
    new_generation-IsValid s hostname dir attr rs uuid v
step-IsValid s (changes uuid c now) v =
    elim (Option-cases (find_cell uuid s.persisted.generations)) [
      | inl missing ↦ rw (apply_change-missing s uuid c now missing, step) v
      | inr (x, found) ↦ (apply_change-IsValid_found s uuid c now x found v).0
    ]

unfoldable pub run : Store → List Call → Store
run s [] = s
run s (c ∷ cs) = run (step s c) cs

run-IsValid : (s : Store) (cs : List Call) → IsValid s → IsValid (run s cs)
unfolding run
run-IsValid s [] v = v
run-IsValid s (c ∷ cs) v = run-IsValid (step s c) cs (step-IsValid s c v)

-- After any history of calls on a store that starts with no generation, a status operation that
-- finds its generation leaves at most four generations in the store: each of them is one that the
-- last evaluation or build, started or finished, points to, and the one of the operation is among them, as
-- the operation changes it.
pub generations_bounded :
    (s : Store) (cs : List Call) (uuid : String) (c : Change) (now : ℕ) (x : Cell)
    → s.persisted.generations ≡ []
    → find_cell uuid (run s cs).persisted.generations ≡ some x
    → let s' = (apply_change (run s cs) uuid c now).0 in
      (length s'.persisted.generations ≤ 4)
      × All (λ y. is_alive s' y ≡ true) s'.persisted.generations
      × (find_cell uuid s'.persisted.generations
          ≡ some (record x { generation = effect c now x.generation }))
generations_bounded s cs uuid c now x empty found =
    let t = marked (run s cs) uuid c now x in
    let (_, cells, _) = apply_change-found (run s cs) uuid c now x found in
    (
      (apply_change-IsValid_found (run s cs) uuid c now x found
          (run-IsValid s cs (record { below = rw empty tt; refs = rw empty tt }))).1,
      All-mono (λ y live. is_alive-apply_change (run s cs) uuid c now x y found ∙ live) _
          (subst (All (λ y. is_alive t y ≡ true)) (sym cells)
            (alive_cells-alive t t.persisted.generations)),
      apply_change-cell (run s cs) uuid c now x found,
    )
