-- ===== src/Store/Generations/Status.antt =====
-- The status operations as one step, and what each does to the generation that it names.
use comin.Base.{
  ℕ, ◌≡◌, refl, ap, ◌∙◌, inl, inr, true, none, some, List, [], ◌∷◌, String, eq_iff, arith,
  nat_eq_iff, Option-cases,
}
use comin.Types.{Generation, Error}
use comin.Store.{Store, Cell}
use comin.Store.Generations.{
  find_cell, set_cell, is_alive, alive_cells, generation_eval_started, generation_eval_finished,
  generation_build_start, generation_build_finished, generation_get, generation_of,
  write_generation, no_generation, eval_started_of, eval_finished_of, build_started_of,
  build_finished_of, gc_root_after,
}
use comin.Store.Generations.Collected.{find_cell-alive, find_cell-set_cell}

-- A status operation, without the uuid and the time.
pub data Change : Type 0 where
  eval_starts : Change
  eval_finishes : (drv_path out_path machine_id : String) → Error → Change
  build_starts : (reason : String) → Change
  build_finishes : Error → Change

-- What the change does to the generation.
unfoldable pub effect : Change → ℕ → Generation → Generation
unfolding eval_started_of eval_finished_of build_started_of build_finished_of
effect eval_starts now g = eval_started_of now g
effect (eval_finishes drv out machine err) now g = eval_finished_of drv out machine err now g
effect (build_starts reason) now g = build_started_of reason now g
effect (build_finishes err) now g = build_finished_of err now g

unfoldable pub apply_change : Store → String → Change → ℕ → Store × Error
unfolding generation_eval_started generation_eval_finished generation_build_start
    generation_build_finished
apply_change s uuid eval_starts now = generation_eval_started s uuid now
apply_change s uuid (eval_finishes drv out machine err) now =
    generation_eval_finished s uuid drv out machine err now
apply_change s uuid (build_starts reason) now = generation_build_start s uuid reason now
apply_change s uuid (build_finishes err) now = generation_build_finished s uuid err now

pub effect-uuid : (c : Change) (now : ℕ) (g : Generation) → (effect c now g).uuid ≡ g.uuid
unfolding effect
effect-uuid eval_starts now g = refl
effect-uuid (eval_finishes drv out machine none) now g = refl
effect-uuid (eval_finishes drv out machine (some msg)) now g = refl
effect-uuid (build_starts reason) now g = refl
effect-uuid (build_finishes none) now g = refl
effect-uuid (build_finishes (some msg)) now g = refl

pub find_cell-uuid :
    (uuid : String) (l : List Cell) (c : Cell)
    → find_cell uuid l ≡ some c
    → c.generation.uuid ≡ uuid
find_cell-uuid uuid [] c h = absurd (cc)
find_cell-uuid uuid (x ∷ l) c h =
    ground (arith, eq_iff x.generation.uuid uuid, find_cell-uuid uuid l c)

-- The store before the collection: the write, and the pointer that the operation sets.
unfoldable pub marked : Store → String → Change → ℕ → Cell → Store
unfolding effect
marked s uuid eval_starts now c =
    record (write_generation s uuid (effect eval_starts now c.generation)) {
      last_eval_started = some c.ref;
    }
marked s uuid (eval_finishes drv out machine err) now c =
    record (write_generation s uuid (effect (eval_finishes drv out machine err) now c.generation)) {
      last_eval_finished = some c.ref;
    }
marked s uuid (build_starts reason) now c =
    record (write_generation s uuid (effect (build_starts reason) now c.generation)) {
      last_build_started = some c.ref;
    }
marked s uuid (build_finishes err) now c =
    record (write_generation s uuid (effect (build_finishes err) now c.generation)) {
      last_build_finished = some c.ref;
      gc_root = gc_root_after err s c.generation.out_path;
    }

pub marked-cells :
    (s : Store) (uuid : String) (c : Change) (now : ℕ) (x : Cell)
    → ((marked s uuid c now x).persisted.generations
        ≡ set_cell uuid (effect c now x.generation) s.persisted.generations)
      × (is_alive (marked s uuid c now x) (record x { generation = effect c now x.generation })
          ≡ true)
      × ((marked s uuid c now x).next_ref ≡ s.next_ref)
unfolding marked is_alive
marked-cells s uuid eval_starts now x = ground (arith, nat_eq_iff x.ref x.ref)
marked-cells s uuid (eval_finishes drv out machine err) now x =
    ground (arith, nat_eq_iff x.ref x.ref)
marked-cells s uuid (build_starts reason) now x = ground (arith, nat_eq_iff x.ref x.ref)
marked-cells s uuid (build_finishes err) now x = ground (arith, nat_eq_iff x.ref x.ref)

pub apply_change-found :
    (s : Store) (uuid : String) (c : Change) (now : ℕ) (x : Cell)
    → find_cell uuid s.persisted.generations ≡ some x
    → let t = marked s uuid c now x in
      let (s', err) = apply_change s uuid c now in
      (err ≡ none)
      × (s'.persisted.generations ≡ alive_cells t t.persisted.generations)
      × (s'.next_ref ≡ s.next_ref)
unfolding apply_change marked
apply_change-found s uuid eval_starts now x h = rw (h, generation_eval_started) (refl, refl, refl)
apply_change-found s uuid (eval_finishes drv out machine err) now x h =
    rw (h, generation_eval_finished) (refl, refl, refl)
apply_change-found s uuid (build_starts reason) now x h =
    rw (h, generation_build_start) (refl, refl, refl)
apply_change-found s uuid (build_finishes none) now x h =
    rw (h, generation_build_finished) (refl, refl, refl)
apply_change-found s uuid (build_finishes (some msg)) now x h =
    rw (h, generation_build_finished) (refl, refl, refl)

-- The collection moves no pointer.
pub is_alive-apply_change :
    (s : Store) (uuid : String) (c : Change) (now : ℕ) (x y : Cell)
    → find_cell uuid s.persisted.generations ≡ some x
    → is_alive (apply_change s uuid c now).0 y ≡ is_alive (marked s uuid c now x) y
unfolding apply_change marked is_alive
is_alive-apply_change s uuid eval_starts now x y h = rw (h, generation_eval_started) refl
is_alive-apply_change s uuid (eval_finishes drv out machine err) now x y h =
    rw (h, generation_eval_finished) refl
is_alive-apply_change s uuid (build_starts reason) now x y h = rw (h, generation_build_start) refl
is_alive-apply_change s uuid (build_finishes none) now x y h =
    rw (h, generation_build_finished) refl
is_alive-apply_change s uuid (build_finishes (some msg)) now x y h =
    rw (h, generation_build_finished) refl

pub apply_change-missing :
    (s : Store) (uuid : String) (c : Change) (now : ℕ)
    → find_cell uuid s.persisted.generations ≡ none
    → apply_change s uuid c now ≡ (s, no_generation uuid)
unfolding apply_change
apply_change-missing s uuid eval_starts now h = rw (h, generation_eval_started)
apply_change-missing s uuid (eval_finishes drv out machine err) now h =
    rw (h, generation_eval_finished)
apply_change-missing s uuid (build_starts reason) now h = rw (h, generation_build_start)
apply_change-missing s uuid (build_finishes err) now h = rw (h, generation_build_finished)

-- The cell of the generation after the operation.
pub apply_change-cell :
    (s : Store) (uuid : String) (c : Change) (now : ℕ) (x : Cell)
    → find_cell uuid s.persisted.generations ≡ some x
    → find_cell uuid (apply_change s uuid c now).0.persisted.generations
      ≡ some (record x { generation = effect c now x.generation })
apply_change-cell s uuid c now x found =
    let t = marked s uuid c now x in
    let (_, cells, _) = apply_change-found s uuid c now x found in
    let (written, alive, _) = marked-cells s uuid c now x in
    let there =
      find_cell-set_cell uuid (effect c now x.generation) s.persisted.generations x
        (effect-uuid c now x.generation ∙ find_cell-uuid uuid s.persisted.generations x found)
        found in
    ap (find_cell uuid) cells
    ∙ find_cell-alive t uuid t.persisted.generations _ (ap (find_cell uuid) written ∙ there) alive

-- A status operation on a uuid that the store has reports no error, and a lookup of the uuid
-- afterwards gives the generation as the operation changes it: the collection that follows the
-- write spares it.
pub generation_get-apply_change :
    (s : Store) (uuid : String) (c : Change) (now : ℕ) (g : Generation)
    → generation_get s uuid ≡ some g
    → ((apply_change s uuid c now).1 ≡ none)
      × (generation_get (apply_change s uuid c now).0 uuid ≡ some (effect c now g))
generation_get-apply_change s uuid c now g h =
    elim (Option-cases (find_cell uuid s.persisted.generations)) [
      | inl missing ↦ absurd (cc)
      | inr (x, found) ↦
          let e : x.generation ≡ g = ground arith in
          (
            (apply_change-found s uuid c now x found).0,
            ap generation_of (apply_change-cell s uuid c now x found)
                ∙ ap (λ y. some (effect c now y)) e,
          )
    ]
