-- ===== src/Builder/Held.antt =====
-- When a build starts and which calls leave the runs alone.
use comin.Base.{
  ℕ, ◌≡◌, refl, sym, ap, ◌∙◌, ◌⊎◌, ◌≢◌, inl, inr, Bool, true, false, ◌&&◌, not, Option, none, some,
  String, ◌==◌, eq_iff, Bool-cases, Option-cases, arith,
}
use comin.Types.{Generation, Error}
use comin.Store.Generations.{
  generation_get, generation_eval_started, generation_build_start, no_generation,
}
use comin.Builder.{
  Builder, Evaluation, cancelled, end_eval, end_build, stop_eval, stop_build, stop, start_eval,
  eval, build_refusal, start_build, build,
}

abbrev pub is_running : Option String → Bool
is_running none = false
is_running (some uuid) = true

-- What the end of an evaluation leaves alone.
pub end_eval-kept :
    (ev : Evaluation) (now : ℕ) (b : Builder) (uuid : String)
    → let b' = end_eval ev now b uuid in
      (b'.is_building ≡ b.is_building)
      × (b'.buildator ≡ b.buildator)
      × (b'.is_suspended ≡ b.is_suspended)
      × (b'.evaluator ≡ none)
      × (b'.is_evaluating ≡ false)
unfolding end_eval
end_eval-kept ev now b uuid = elim (Bool-cases ev.exists) [
  | inl e ↦ rw (e, end_eval) (refl, refl, refl, refl, refl)
  | inr e ↦ rw (e, end_eval) (refl, refl, refl, refl, refl)
]

pub stop_eval-kept :
    (ev : Evaluation) (now : ℕ) (b : Builder)
    → let b' = stop_eval ev now b in
      (b'.is_building ≡ b.is_building)
      × (b'.buildator ≡ b.buildator)
      × (b'.is_suspended ≡ b.is_suspended)
      × (b'.evaluator ≡ none)
      × (b'.is_evaluating ≡ false)
unfolding stop_eval
stop_eval-kept ev now b = elim (Option-cases b.evaluator) [
  | inl e ↦ rw (e, stop_eval) (refl, refl, refl, e, refl)
  | inr (uuid, e) ↦ rw (e, stop_eval) (end_eval-kept (record ev { error = cancelled }) now b uuid)
]

pub stop_build-kept :
    (now : ℕ) (b : Builder)
    → let b' = stop_build now b in
      (b'.is_building ≡ false)
      × (b'.buildator ≡ none)
      × (b'.is_suspended ≡ b.is_suspended)
      × (b'.evaluator ≡ b.evaluator)
      × (b'.is_evaluating ≡ b.is_evaluating)
unfolding stop_build end_build
stop_build-kept now b = elim (Option-cases b.buildator) [
  | inl e ↦ rw (e, stop_build) (refl, e, refl, refl, refl)
  | inr (uuid, e) ↦ rw (e, stop_build) (refl, refl, refl, refl, refl)
]

pub start_eval-kept :
    (now : ℕ) (b : Builder) (uuid : String)
    → let b' = (start_eval now b uuid).0 in
      (b'.is_building ≡ b.is_building)
      × (b'.buildator ≡ b.buildator)
      × (b'.is_suspended ≡ b.is_suspended)
      × (b'.is_evaluating ≡ true)
unfolding start_eval
start_eval-kept now b uuid = elim (Option-cases (generation_eval_started b.store uuid now).1) [
  | inl e ↦ rw (e, start_eval) (refl, refl, refl, refl)
  | inr (m, e) ↦ rw (e, start_eval) (refl, refl, refl, refl)
]

pub eval-kept :
    (ev : Evaluation) (now : ℕ) (b : Builder) (uuid : String)
    → let b' = (eval ev now b uuid).0 in
      (b'.is_building ≡ false)
      × (b'.buildator ≡ none)
      × (b'.is_suspended ≡ b.is_suspended)
      × (b'.is_evaluating ≡ true)
unfolding eval stop
eval-kept ev now b uuid =
    let (_, _, s1, _, _) = stop_eval-kept ev now b in
    let (b2, r2, s2, _, _) = stop_build-kept now (stop_eval ev now b) in
    let (b3, r3, s3, e3) = start_eval-kept now (stop_build now (stop_eval ev now b)) uuid in
    (b3 ∙ b2, r3 ∙ r2, s3 ∙ s2 ∙ s1, e3)

-- What a call of `build` leaves: a refusal leaves the runs alone.
pub record IsBuilt (b b' : Builder) (uuid : String) (error : Error) : Type 0 where
  pub suspended : b'.is_suspended ≡ b.is_suspended
  pub evaluator : b'.evaluator ≡ b.evaluator
  pub evaluating : b'.is_evaluating ≡ b.is_evaluating
  pub runs :
      ((b'.buildator ≡ b.buildator) × (b'.is_building ≡ b.is_building) × is_running error ≡ true)
      ⊎ ((b'.buildator ≡ some uuid) × (b'.is_building ≡ true) × (error ≡ none))

refused-IsBuilt :
    (b : Builder) (uuid : String) (error : Error) → is_running error ≡ true → IsBuilt b b uuid error
refused-IsBuilt b uuid error r = record {
  suspended = refl;
  evaluator = refl;
  evaluating = refl;
  runs = inl (refl, refl, r);
}

start_build-IsBuilt :
    (now : ℕ) (b : Builder) (uuid : String)
    → IsBuilt b (start_build now b uuid).0 uuid (start_build now b uuid).1
unfolding start_build
start_build-IsBuilt now b uuid =
    elim (Option-cases (generation_build_start b.store uuid "need to be built" now).1) [
      | inl e ↦
          rw (e, start_build)
            (record {
              suspended = refl;
              evaluator = refl;
              evaluating = refl;
              runs = inr (refl, refl, refl);
            })
      | inr (m, e) ↦
          rw (e, start_build)
            (record {
              suspended = refl;
              evaluator = refl;
              evaluating = refl;
              runs = inl (refl, refl, refl);
            })
    ]

pub build-IsBuilt :
    (now : ℕ) (b : Builder) (uuid : String)
    → IsBuilt b (build now b uuid).0 uuid (build now b uuid).1
unfolding build no_generation
build-IsBuilt now b uuid =
    elim (Bool-cases (not (b.generation_uuid == "") && not (uuid == b.generation_uuid))) [
      | inl other ↦ rw (other, build) (refused-IsBuilt b uuid _ refl)
      | inr mine ↦ elim (Option-cases (generation_get b.store uuid)) [
        | inl missing ↦ rw (mine, missing, build) (refused-IsBuilt b uuid _ refl)
        | inr (g, found) ↦ elim (Option-cases (build_refusal b g)) [
          | inl e ↦ rw (mine, found, e, build) (start_build-IsBuilt now b uuid)
          | inr (m, e) ↦ rw (mine, found, e, build) (refused-IsBuilt b uuid _ refl)
        ]
      ]
    ]

clash : false ≡ true → ⊥
clash e = ground arith

accepted :
    (b : Builder) (g : Generation)
    → build_refusal b g ≡ none
    → (g.eval_status ≡ "evaluated") × (g.build_status ≢ "built") × (b.is_building ≡ false)
unfolding build_refusal
accepted b g e = ground (arith, eq_iff g.eval_status "evaluated", eq_iff g.build_status "built")

-- A build starts only for a generation that the store holds, that is evaluated and not built, while
-- no build runs and no other generation is in hand; it is then the one that runs.
pub build_starts_when_ready :
    (now : ℕ) (b : Builder) (uuid : String)
    → (build now b uuid).1 ≡ none
    → ((g : Generation) × (generation_get b.store uuid ≡ some g)
        × (g.eval_status ≡ "evaluated")
        × (g.build_status ≢ "built"))
      × (b.is_building ≡ false)
      × ((b.generation_uuid ≡ "") ⊎ (uuid ≡ b.generation_uuid))
      × ((build now b uuid).0.buildator ≡ some uuid)
unfolding build build_refusal no_generation
build_starts_when_ready now b uuid h =
    let in_hand = Bool-cases (not (b.generation_uuid == "") && not (uuid == b.generation_uuid)) in
    elim in_hand [
      | inl other ↦
          let bad : (build now b uuid).1 ≡ some "another generation is evaluating or evaluated" =
            rw (other, build) refl in
          absurd (cc)
      | inr mine ↦ elim (Option-cases (generation_get b.store uuid)) [
        | inl missing ↦
            let bad : (build now b uuid).1 ≡ no_generation uuid = rw (mine, missing, build) refl in
            absurd (cc)
        | inr (g, found) ↦ elim (Option-cases (build_refusal b g)) [
          | inr (m, e) ↦
              let bad : (build now b uuid).1 ≡ some m = rw (mine, found, e, build) refl in
              absurd (cc)
          | inl e ↦
              let (evaluated, unbuilt, free) = accepted b g e in
              (
                (g, found, evaluated, unbuilt),
                free,
                same_generation mine,
                runs_now (build-IsBuilt now b uuid),
              )
        ]
      ]
    ]
  where
    same_generation :
        (not (b.generation_uuid == "") && not (uuid == b.generation_uuid)) ≡ false
        → (b.generation_uuid ≡ "") ⊎ (uuid ≡ b.generation_uuid)
    same_generation m = elim (Bool-cases (b.generation_uuid == "")) [
      | inl e ↦ inl (ground (arith, eq_iff b.generation_uuid ""))
      | inr e ↦ inr (ground (arith, eq_iff uuid b.generation_uuid))
    ]

    runs_now :
        IsBuilt b (build now b uuid).0 uuid (build now b uuid).1
        → (build now b uuid).0.buildator ≡ some uuid
    runs_now built = elim built.runs [
      | inl (_, _, r) ↦ absurd (clash ((ap is_running (sym h)) ∙ r))
      | inr (runs, _, _) ↦ runs
    ]
