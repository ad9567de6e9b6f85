-- ===== src/Builder/Flags.antt =====
-- The flags `isBuilding` and `isEvaluating` against the runs.
use comin.Base.{
  ℕ, ◌≡◌, refl, sym, ap, subst, ◌∙◌, inl, inr, Bool, true, false, ◌&&◌, not, List, [], ◌∷◌, String,
  ◌==◌, Bool-cases, Option-cases, arith,
}
use comin.Types.{Error}
use comin.Store.{Store}
use comin.Store.Generations.{generation_get, generation_has_to_be_built}
use comin.Builder.{
  Builder, Happening, end_eval, end_build, build, submit_build, resume_build, resume, step, run,
  new_builder,
}
use comin.Builder.Held.{is_running, end_eval-kept, eval-kept, build-IsBuilt, IsBuilt}

record AreTrue (b : Builder) : Type 0 where
  building : b.is_building ≡ is_running b.buildator
  evaluating : is_running b.evaluator ≡ true → b.is_evaluating ≡ true

built-AreTrue :
    (b b' : Builder) (uuid : String) (error : Error)
    → IsBuilt b b' uuid error
    → AreTrue b
    → AreTrue b'
built-AreTrue b b' uuid error h t = record {
  building = elim h.runs [
    | inl (r, f, _) ↦ f ∙ t.building ∙ ap is_running (sym r)
    | inr (r, f, _) ↦ f ∙ ap is_running (sym r)
  ];
  evaluating = λ e. h.evaluating ∙ t.evaluating (ap is_running (sym h.evaluator) ∙ e);
}

resume_build-AreTrue : (now : ℕ) (b : Builder) → AreTrue b → AreTrue (resume_build now b).0
unfolding resume_build
resume_build-AreTrue now b t = elim (Bool-cases (b.generation_uuid == "")) [
  | inl e ↦ rw (e, resume_build) t
  | inr e ↦ elim (Option-cases (generation_get b.store b.generation_uuid)) [
    | inl missing ↦ rw (e, missing, resume_build) t
    | inr (g, found) ↦ elim (Bool-cases (generation_has_to_be_built g)) [
      | inl needed ↦
          rw (e, found, needed, resume_build)
            (built-AreTrue b (build now b b.generation_uuid).0 b.generation_uuid _
              (build-IsBuilt now b b.generation_uuid) t)
      | inr done ↦ rw (e, found, done, resume_build) t
    ]
  ]
]

clash : false ≡ true → ⊥
clash e = ground arith

step-AreTrue : (b : Builder) (h : Happening) (now : ℕ) → AreTrue b → AreTrue (step b (h, now))
unfolding step submit_build resume end_build
step-AreTrue b (Happening.evaluates ev uuid) now t =
    let (f, r, _, e) = eval-kept ev now b uuid in
    record { building = f ∙ ap is_running (sym r); evaluating = λ _. e }
step-AreTrue b (Happening.eval_ends ev) now t = elim (Option-cases b.evaluator) [
  | inl e ↦
      let same : step b (Happening.eval_ends ev, now) ≡ b = simp (e, step) in
      subst AreTrue (sym same) t
  | inr (uuid, e) ↦
      let same : step b (Happening.eval_ends ev, now) ≡ end_eval ev now b uuid = simp (e, step) in
      let (f, r, _, gone, off) = end_eval-kept ev now b uuid in
      subst AreTrue (sym same) (record {
        building = f ∙ t.building ∙ ap is_running (sym r);
        evaluating = λ g. absurd (clash (ap is_running (sym gone) ∙ g));
      })
]
step-AreTrue b (Happening.submits_build uuid) now t = elim (Bool-cases b.is_suspended) [
  | inl e ↦
      let same : step b (Happening.submits_build uuid, now) ≡ b = simp (e, step) in
      subst AreTrue (sym same) t
  | inr e ↦
      let same : step b (Happening.submits_build uuid, now) ≡ (build now b uuid).0 =
        simp (e, step) in
      subst AreTrue (sym same) (built-AreTrue b _ uuid _ (build-IsBuilt now b uuid) t)
]
step-AreTrue b (Happening.build_ends error) now t = elim (Option-cases b.buildator) [
  | inl e ↦
      let same : step b (Happening.build_ends error, now) ≡ b = simp (e, step) in
      subst AreTrue (sym same) t
  | inr (uuid, e) ↦
      let same : step b (Happening.build_ends error, now) ≡ end_build error now b uuid =
        simp (e, step) in
      subst AreTrue (sym same) (record { building = refl; evaluating = t.evaluating })
]
step-AreTrue b Happening.resumes now t = elim (Bool-cases b.is_suspended) [
  | inr e ↦
      let same : step b (Happening.resumes, now) ≡ b = simp (e, step) in subst AreTrue (sym same) t
  | inl e ↦
      let awake : Builder = record b { is_suspended = false } in
      let same : step b (Happening.resumes, now) ≡ (resume_build now awake).0 = simp (e, step) in
      subst AreTrue (sym same) (
        resume_build-AreTrue now awake
          (record { building = t.building; evaluating = t.evaluating }))
]

run-AreTrue : (s : Store) (hs : List (Happening × ℕ)) → AreTrue (run (new_builder s) hs)
unfolding run new_builder
run-AreTrue s hs = go (new_builder s) hs (record { building = refl; evaluating = λ e. e })
  where
    go : (b : Builder) (l : List (Happening × ℕ)) → AreTrue b → AreTrue (run b l)
    go b [] t = t
    go b ((h, now) ∷ l) t = go (step b (h, now)) l (step-AreTrue b h now t)

no_stray : (running flag : Bool) → (running ≡ true → flag ≡ true) → (running && not flag) ≡ false
no_stray true flag h = ground (arith, h refl)
no_stray false flag h = refl

-- Whatever has happened to a builder since it was made, but for a call of `Suspend`, a build runs exactly if `isBuilding` is set,
-- and no evaluation runs while `isEvaluating` is not set.
pub run-flags :
    (s : Store) (hs : List (Happening × ℕ))
    → let b = run (new_builder s) hs in
      (b.is_building ≡ is_running b.buildator)
      × ((is_running b.evaluator && not b.is_evaluating) ≡ false)
run-flags s hs = let t = run-AreTrue s hs in (t.building, no_stray _ _ t.evaluating)
