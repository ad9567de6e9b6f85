-- ===== src/Builder/Preempted.antt =====
-- A generation that is submitted while another one is evaluating.
use comin.Base.{
  ℕ, ◌<◌, All, ◌≡◌, refl, ap, subst, ◌∙◌, ◌≢◌, inl, inr, true, false, Option, none, some, List, [],
  ◌∷◌, ◌++◌, String, ◌==◌, eq_iff, Bool-cases, arith,
}
use comin.Types.{Generation, GitRepositoryStatus, Error}
use comin.Store.{Store, Cell}
use comin.Store.Generations.{
  find_cell, set_cell, is_ref, is_alive, alive_cells, new_generation, generation_eval_started,
  generation_eval_finished, no_generation,
}
use comin.Store.Generations.Status.{
  Change, effect, marked, marked-cells, apply_change, apply_change-found, effect-uuid,
  find_cell-uuid,
}
use comin.Builder.{
  Builder, Evaluation, cancelled, end_eval, stop_eval, stop_build, stop, start_eval, eval,
}

alive-missing :
    (s : Store) (uuid : String) (l : List Cell) (new : Cell)
    → find_cell uuid l ≡ none
    → is_alive s new ≡ false
    → find_cell uuid (alive_cells s (l ++ new ∷ [])) ≡ none
unfolding alive_cells
alive-missing s uuid [] new h dead = rw dead refl
alive-missing s uuid (x ∷ l) new h dead = elim (Bool-cases (x.generation.uuid == uuid)) [
  | inl hit ↦ absurd (ground arith)
  | inr miss ↦ let ih = alive-missing s uuid l new (ground arith) dead in ground (arith, ih)
]

set_alive-missing :
    (s : Store) (running uuid : String) (g : Generation) (l : List Cell) (new x : Cell)
    → g.uuid ≡ running
    → running ≢ uuid
    → find_cell running l ≡ some x
    → find_cell uuid l ≡ none
    → is_alive s new ≡ false
    → find_cell uuid (alive_cells s (set_cell running g (l ++ new ∷ []))) ≡ none
unfolding set_cell alive_cells
set_alive-missing s running uuid g [] new x same other found h dead = absurd (cc)
set_alive-missing s running uuid g (y ∷ l) new x same other found h dead =
    elim (Bool-cases (y.generation.uuid == uuid)) [
      | inl hit ↦ absurd (ground arith)
      | inr miss ↦ elim (Bool-cases (y.generation.uuid == running)) [
        | inl here ↦
            let rest = alive-missing s uuid l new (ground arith) dead in
            ground (arith, rest, eq_iff g.uuid uuid)
        | inr there ↦
            let rest =
              set_alive-missing s running uuid g l new x same other (ground arith) (ground arith)
                dead in
            ground (arith, rest)
      ]
    ]

find_cell-append :
    (uuid : String) (l : List Cell) (new x : Cell)
    → find_cell uuid l ≡ some x
    → find_cell uuid (l ++ new ∷ []) ≡ some x
find_cell-append uuid [] new x h = absurd (cc)
find_cell-append uuid (y ∷ l) new x h = ground (arith, find_cell-append uuid l new x)

-- The store points only to generations that it has made.
abbrev pub IsMade : ℕ → Option ℕ → Type 0
IsMade next none = Unit
IsMade next (some r) = r < next

pub record ArePointersMade (s : Store) : Type 0 where
  pub cells : All (λ c. c.ref < s.next_ref) s.persisted.generations
  pub eval_started : IsMade s.next_ref s.last_eval_started
  pub build_started : IsMade s.next_ref s.last_build_started
  pub build_finished : IsMade s.next_ref s.last_build_finished

new_is_dead :
    (next : ℕ) (r : Option ℕ) (c : Cell) → c.ref ≡ next → IsMade next r → is_ref r c ≡ false
new_is_dead next none c e h = refl
new_is_dead next (some r) c e h = ground arith

found_is_made :
    (n : ℕ) (uuid : String) (l : List Cell) (x : Cell)
    → find_cell uuid l ≡ some x
    → All (λ c. c.ref < n) l
    → x.ref < n
found_is_made n uuid [] x h a = absurd (cc)
found_is_made n uuid (y ∷ l) x h a = elim (Bool-cases (y.generation.uuid == uuid)) [
  | inl hit ↦ let e : y ≡ x = ground arith in subst (λ (c : Cell). c.ref < n) e a.0
  | inr miss ↦ found_is_made n uuid l x (ground arith) a.1
]

differ :
    (running uuid : String) (l : List Cell) (x : Cell)
    → find_cell running l ≡ some x
    → find_cell uuid l ≡ none
    → running ≢ uuid
differ running uuid l x found fresh e = absurd (cc)

dead :
    (s : Store) (c : Cell)
    → is_ref s.last_eval_started c ≡ false
    → is_ref s.last_eval_finished c ≡ false
    → is_ref s.last_build_started c ≡ false
    → is_ref s.last_build_finished c ≡ false
    → is_alive s c ≡ false
unfolding is_alive
dead s c h i j k = ground arith

-- The generation that has just been made is collected when the evaluation of another one ends.
finished-missing :
    (s : Store) (running : String) (x : Cell) (drv out machine : String) (error : Error) (now : ℕ)
    (hostname dir attr : String) (rs : GitRepositoryStatus) (uuid : String)
    → ArePointersMade s
    → find_cell running s.persisted.generations ≡ some x
    → find_cell uuid s.persisted.generations ≡ none
    → let s' = (new_generation s hostname dir attr rs uuid).0 in
      find_cell uuid
        (generation_eval_finished s' running drv out machine error now).0.persisted.generations
      ≡ none
unfolding new_generation apply_change is_alive marked
finished-missing s running x drv out machine error now hostname dir attr rs uuid made found fresh =
    let s' = (new_generation s hostname dir attr rs uuid).0 in
    let new : Cell = record {
      ref = s.next_ref;
      generation = (new_generation s hostname dir attr rs uuid).1;
    } in
    let change = Change.eval_finishes drv out machine error in
    let there = find_cell-append running s.persisted.generations _ x found in
    let (_, cells, _) = apply_change-found s' running change now x there in
    let (written, _, _) = marked-cells s' running change now x in
    let t = marked s' running change now x in
    ap (find_cell uuid) (cells ∙ ap (alive_cells t) written)
    ∙ set_alive-missing t running uuid (effect change now x.generation) s.persisted.generations _ x
        (effect-uuid change now x.generation
          ∙ find_cell-uuid running s.persisted.generations x found)
        (differ running uuid s.persisted.generations x found fresh) found fresh
        (dead t new (new_is_dead s.next_ref s.last_eval_started new refl made.eval_started)
          (new_is_dead s.next_ref (some x.ref) new refl
            (found_is_made s.next_ref running s.persisted.generations x found made.cells))
          (new_is_dead s.next_ref s.last_build_started new refl made.build_started)
          (new_is_dead s.next_ref s.last_build_finished new refl made.build_finished))

stop_eval-running :
    (running : String) (stopped : Evaluation) (now : ℕ) (b : Builder)
    → b.evaluator ≡ some running
    → stopped.exists ≡ false
    → ((stop_eval stopped now b).store
        ≡ (generation_eval_finished b.store running stopped.drv_path stopped.out_path
            stopped.machine_id cancelled now).0)
      × ((stop_eval stopped now b).evaluator ≡ none)
      × ((stop_eval stopped now b).buildator ≡ b.buildator)
unfolding stop_eval end_eval
stop_eval-running running stopped now b r absent =
    rw (r, absent, stop_eval, end_eval) (refl, refl, refl)

stop_build-idle :
    (now : ℕ) (b : Builder)
    → b.buildator ≡ none
    → ((stop_build now b).store ≡ b.store) × ((stop_build now b).evaluator ≡ b.evaluator)
unfolding stop_build
stop_build-idle now b idle = rw (idle, stop_build) (refl, refl)

stop_running :
    (running : String) (stopped : Evaluation) (now : ℕ) (b : Builder)
    → b.evaluator ≡ some running
    → b.buildator ≡ none
    → stopped.exists ≡ false
    → ((stop stopped now b).store
        ≡ (generation_eval_finished b.store running stopped.drv_path stopped.out_path
            stopped.machine_id cancelled now).0)
      × ((stop stopped now b).evaluator ≡ none)
unfolding stop
stop_running running stopped now b r idle absent =
    let (stored, none_left, same) = stop_eval-running running stopped now b r absent in
    let (s, v) = stop_build-idle now (stop_eval stopped now b) (same ∙ idle) in
    (s ∙ stored, v ∙ none_left)

start_eval-missing :
    (now : ℕ) (b : Builder) (uuid : String)
    → find_cell uuid b.store.persisted.generations ≡ none
    → ((start_eval now b uuid).1 ≡ no_generation uuid)
      × ((start_eval now b uuid).0.is_evaluating ≡ true)
      × ((start_eval now b uuid).0.evaluator ≡ b.evaluator)
unfolding start_eval generation_eval_started no_generation
start_eval-missing now b uuid h = rw (h, generation_eval_started, start_eval) (refl, refl, refl)

-- A new generation is lost if an evaluation runs: with the evaluation of the generation `running`
-- under way and no build, the generation that `NewGeneration` adds under a fresh uuid is not
-- evaluated by the call of `Eval` that is made for it. This call stops the evaluation, whose end
-- collects the new generation, so `Eval` does not find it, and `isEvaluating` stays set.
pub eval_loses_new_generation :
    (b : Builder) (running : String) (x : Cell) (stopped : Evaluation) (now : ℕ)
    (hostname dir attr : String) (rs : GitRepositoryStatus) (uuid : String)
    → b.evaluator ≡ some running
    → b.buildator ≡ none
    → stopped.exists ≡ false
    → ArePointersMade b.store
    → find_cell running b.store.persisted.generations ≡ some x
    → find_cell uuid b.store.persisted.generations ≡ none
    → let (store, g) = new_generation b.store hostname dir attr rs uuid in
      let (b', error) = eval stopped now (record b { store = store }) uuid in
      (error ≡ no_generation uuid) × (b'.is_evaluating ≡ true) × (b'.evaluator ≡ none)
unfolding eval
eval_loses_new_generation b running x stopped now hostname dir attr rs uuid r idle absent made found
      fresh =
    let store = (new_generation b.store hostname dir attr rs uuid).0 in
    let gone =
      finished-missing b.store running x stopped.drv_path stopped.out_path stopped.machine_id
        cancelled now hostname dir attr rs uuid made found fresh in
    let (after, none_left) =
      stop_running running stopped now (record b { store = store }) r idle absent in
    let (e, busy, still) =
      start_eval-missing now (stop stopped now (record b { store = store })) uuid
        (ap (λ (s : Store). find_cell uuid s.persisted.generations) after ∙ gone) in
    (e, busy, still ∙ none_left)
