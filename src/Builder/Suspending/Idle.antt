-- ===== src/Builder/Suspending/Idle.antt =====
-- What runs while the builder is suspended, and what comes between the parts of `Suspend`.
use comin.Base.{
  ℕ, Bool, if◌then◌else◌, ap, ◌≡◌, refl, sym, subst, ◌∙◌, inl, inr, true, false, none, some, List,
  [], ◌∷◌, String, ◌==◌, Bool-cases, Option-cases, arith,
}
use comin.Store.Generations.{generation_get, generation_has_to_be_built}
use comin.Builder.{
  Builder, Happening, cancelled, end_build, stop_build, build, submit_build, suspend, resume_build,
  resume, step,
}
use comin.Builder.Held.{end_eval-kept, eval-kept, build-IsBuilt, build_starts_when_ready}
use comin.Builder.Suspending.{
  Phase, apart, stopping, waited, cleared, Suspending, Move, happens, begins, waits, clears, ends,
  alone, begin_suspend, end_wait, wait_for_build, clear_building, end_suspend, move, run,
}

clash : false ≡ true → ⊥
clash e = ground arith

resume_build-suspended :
    (now : ℕ) (b : Builder) → (resume_build now b).0.is_suspended ≡ b.is_suspended
unfolding resume_build
resume_build-suspended now b = elim (Bool-cases (b.generation_uuid == "")) [
  | inl e ↦ rw (e, resume_build) refl
  | inr e ↦ elim (Option-cases (generation_get b.store b.generation_uuid)) [
    | inl missing ↦ rw (e, missing, resume_build) refl
    | inr (g, found) ↦ elim (Bool-cases (generation_has_to_be_built g)) [
      | inl needed ↦
          rw (e, found, needed, resume_build) (build-IsBuilt now b b.generation_uuid).suspended
      | inr done ↦ rw (e, found, done, resume_build) refl
    ]
  ]
]

resume-awake : (now : ℕ) (b : Builder) → (resume now b).0.is_suspended ≡ false
unfolding resume
resume-awake now b = elim (Bool-cases b.is_suspended) [
  | inl e ↦ rw (e, resume) (resume_build-suspended now (record b { is_suspended = false }))
  | inr e ↦ rw (e, resume) refl
]

-- While the builder is suspended, no build runs.
abbrev IsIdle : Builder → Type 0
IsIdle b = b.is_suspended ≡ true → b.buildator ≡ none

if-IsIdle :
    (c : Bool) (x y : Builder) → IsIdle x → (c ≡ false → IsIdle y) → IsIdle (if c then x else y)
if-IsIdle true x y h h₁ = h
if-IsIdle false x y h h₁ = h₁ refl

step-IsIdle : (b : Builder) (h : Happening) (now : ℕ) → IsIdle b → IsIdle (step b (h, now))
unfolding step submit_build end_build
step-IsIdle b (Happening.evaluates ev uuid) now idle =
    λ held. let (_, r, _, _) = eval-kept ev now b uuid in r
step-IsIdle b (Happening.eval_ends ev) now idle = elim (Option-cases b.evaluator) [
  | inl e ↦ rw e idle
  | inr (uuid, e) ↦
      let (_, r, s, _, _) = end_eval-kept ev now b uuid in rw e (λ held. r ∙ idle (sym s ∙ held))
]
step-IsIdle b (Happening.submits_build uuid) now idle =
    if-IsIdle b.is_suspended b (build now b uuid).0 idle
      (λ awake held. absurd (clash (sym awake ∙ sym (build-IsBuilt now b uuid).suspended ∙ held)))
step-IsIdle b (Happening.build_ends error) now idle = elim (Option-cases b.buildator) [
  | inl e ↦ rw e (λ held. refl)
  | inr (uuid, e) ↦ rw e (λ held. refl)
]
step-IsIdle b Happening.resumes now idle = λ held. absurd (clash (sym (resume-awake now b) ∙ held))

-- A call that starts a build.
abbrev IsBuilding : Happening → Type 0
IsBuilding (Happening.submits_build uuid) = Unit
IsBuilding Happening.resumes = Unit
IsBuilding (Happening.evaluates ev uuid) = ⊥
IsBuilding (Happening.eval_ends ev) = ⊥
IsBuilding (Happening.build_ends error) = ⊥

step-none :
    (b : Builder) (h : Happening) (now : ℕ)
    → (IsBuilding h → ⊥)
    → b.buildator ≡ none
    → (step b (h, now)).buildator ≡ none
unfolding step end_build
step-none b (Happening.evaluates ev uuid) now quiet e =
    let (_, r, _, _) = eval-kept ev now b uuid in r
step-none b (Happening.eval_ends ev) now quiet e = elim (Option-cases b.evaluator) [
  | inl f ↦ rw f e
  | inr (uuid, f) ↦ let (_, r, _, _, _) = end_eval-kept ev now b uuid in rw f (r ∙ e)
]
step-none b (Happening.submits_build uuid) now quiet e = absurd (quiet tt)
step-none b (Happening.build_ends error) now quiet e = rw (e, step) e
step-none b Happening.resumes now quiet e = absurd (quiet tt)

-- `Suspend` has waited and not yet returned.
abbrev pub IsGap : Phase → Type 0
IsGap waited = Unit
IsGap cleared = Unit
IsGap apart = ⊥
IsGap stopping = ⊥

abbrev pub IsQuiet : Phase → Move → Type 0
IsQuiet phase (happens h) = IsGap phase → IsBuilding h → ⊥
IsQuiet phase _ = Unit

-- No build is submitted and `Resume` is not called between the wait of a `Suspend` and its end.
abbrev pub AreQuiet : Suspending → List (Move × ℕ) → Type 0
AreQuiet s [] = Unit
AreQuiet s ((m, now) ∷ ms) = IsQuiet s.phase m × AreQuiet (move s (m, now)) ms

record IsHeld (s : Suspending) : Type 0 where
  idle : IsIdle s.builder
  gap : IsGap s.phase → s.builder.buildator ≡ none

if-IsHeld : (c : Bool) (x y : Suspending) → IsHeld x → IsHeld y → IsHeld (if c then x else y)
if-IsHeld true x y h h₁ = h
if-IsHeld false x y h h₁ = h₁

begin_suspend-IsHeld :
    (phase : Phase) (s : Suspending)
    → s.phase ≡ phase
    → IsHeld s
    → IsHeld (begin_suspend phase s.builder)
begin_suspend-IsHeld apart s e h =
    if-IsHeld s.builder.is_suspended _ _ (record { idle = h.idle; gap = λ g. absurd g })
      (record { idle = h.idle; gap = λ g. absurd g })
begin_suspend-IsHeld stopping s e h = record { idle = h.idle; gap = λ g. absurd g }
begin_suspend-IsHeld waited s e h = record {
  idle = h.idle;
  gap = λ g. h.gap (subst IsGap (sym e) g);
}
begin_suspend-IsHeld cleared s e h = record {
  idle = h.idle;
  gap = λ g. h.gap (subst IsGap (sym e) g);
}

wait_for_build-IsHeld :
    (phase : Phase) (s : Suspending)
    → s.phase ≡ phase
    → IsHeld s
    → IsHeld (wait_for_build phase s.builder)
wait_for_build-IsHeld stopping s e h = elim (Option-cases s.builder.buildator) [
  | inl free ↦ record { idle = h.idle; gap = λ g. free }
  | inr (uuid, runs) ↦ record {
    idle = h.idle;
    gap = λ g. absurd (subst (λ o. IsGap (end_wait o)) runs g);
  }
]
wait_for_build-IsHeld apart s e h = record { idle = h.idle; gap = λ g. absurd g }
wait_for_build-IsHeld waited s e h = record {
  idle = h.idle;
  gap = λ g. h.gap (subst IsGap (sym e) g);
}
wait_for_build-IsHeld cleared s e h = record {
  idle = h.idle;
  gap = λ g. h.gap (subst IsGap (sym e) g);
}

clear_building-IsHeld :
    (phase : Phase) (s : Suspending)
    → s.phase ≡ phase
    → IsHeld s
    → IsHeld (clear_building phase s.builder)
clear_building-IsHeld waited s e h = record {
  idle = h.idle;
  gap = λ g. h.gap (subst IsGap (sym e) g);
}
clear_building-IsHeld apart s e h = record { idle = h.idle; gap = λ g. absurd g }
clear_building-IsHeld stopping s e h = record { idle = h.idle; gap = λ g. absurd g }
clear_building-IsHeld cleared s e h = record {
  idle = h.idle;
  gap = λ g. h.gap (subst IsGap (sym e) g);
}

end_suspend-IsHeld :
    (phase : Phase) (s : Suspending)
    → s.phase ≡ phase
    → IsHeld s
    → IsHeld (end_suspend phase s.builder)
end_suspend-IsHeld cleared s e h = record {
  idle = λ held. h.gap (subst IsGap (sym e) tt);
  gap = λ g. absurd g;
}
end_suspend-IsHeld apart s e h = record { idle = h.idle; gap = λ g. absurd g }
end_suspend-IsHeld stopping s e h = record { idle = h.idle; gap = λ g. absurd g }
end_suspend-IsHeld waited s e h = record { idle = h.idle; gap = λ g. h.gap (subst IsGap (sym e) g) }

move-IsHeld :
    (s : Suspending) (m : Move) (now : ℕ) → IsQuiet s.phase m → IsHeld s → IsHeld (move s (m, now))
unfolding move
move-IsHeld s (happens happening) now quiet h = record {
  idle = step-IsIdle s.builder happening now h.idle;
  gap = λ g. step-none s.builder happening now (quiet g) (h.gap g);
}
move-IsHeld s begins now quiet h = begin_suspend-IsHeld s.phase s refl h
move-IsHeld s waits now quiet h = wait_for_build-IsHeld s.phase s refl h
move-IsHeld s clears now quiet h = clear_building-IsHeld s.phase s refl h
move-IsHeld s ends now quiet h = end_suspend-IsHeld s.phase s refl h

run-IsHeld : (s : Suspending) (ms : List (Move × ℕ)) → AreQuiet s ms → IsHeld s → IsHeld (run s ms)
unfolding run
run-IsHeld s [] quiet h = h
run-IsHeld s ((m, now) ∷ ms) quiet h =
    run-IsHeld (move s (m, now)) ms quiet.1 (move-IsHeld s m now quiet.0 h)

-- A suspended builder builds nothing: whatever calls, ends of runs and parts of `Suspend` follow one another
-- from a builder that is not suspended on, whenever the builder is suspended no build runs; provided
-- that no `SubmitBuild` and no `Resume` comes in between the wait of a `Suspend` for the build and the end
-- of this `Suspend`.
pub suspended_builds_nothing :
    (b : Builder) (ms : List (Move × ℕ))
    → b.is_suspended ≡ false
    → AreQuiet (alone b) ms
    → (run (alone b) ms).builder.is_suspended ≡ true
    → (run (alone b) ms).builder.buildator ≡ none
suspended_builds_nothing b ms awake quiet =
    (run-IsHeld (alone b) ms quiet
      (record { idle = λ held. absurd (clash (sym awake ∙ held)); gap = λ g. absurd g })).idle

-- A build that is submitted after `Suspend` has waited and before it resets `isBuilding` is started, where
-- `build` accepts it, and runs on when `Suspend` returns: the builder is suspended, the build
-- runs, and `isBuilding` says that none does.
pub late_build_runs_suspended :
    (b : Builder) (uuid : String) (now : ℕ)
    → b.is_suspended ≡ false
    → b.buildator ≡ none
    → (build now b uuid).1 ≡ none
    → let s = run (alone b) (
        (begins, now)
        ∷ (waits, now)
        ∷ (happens (Happening.submits_build uuid), now)
        ∷ (clears, now)
        ∷ (ends, now)
        ∷ []) in
      (s.builder.is_suspended ≡ true)
      × (s.builder.buildator ≡ some uuid)
      × (s.builder.is_building ≡ false)
unfolding run move step submit_build
late_build_runs_suspended b uuid now awake free accepted =
    let (_, _, _, runs) = build_starts_when_ready now b uuid accepted in
    let later : List (Move × ℕ) =
      (happens (Happening.submits_build uuid), now) ∷ (clears, now) ∷ (ends, now) ∷ [] in
    let last : Builder → Suspending = λ x. record {
      builder = record x { is_building = false; is_suspended = true };
      phase = apart;
    } in
    let submitted : submit_build now b uuid ≡ (build now b uuid).0 = simp (awake, submit_build) in
    let begun : begin_suspend apart b ≡ record { builder = b; phase = stopping } = simp awake in
    let whole : run (alone b) ((begins, now) ∷ (waits, now) ∷ later) ≡ last (build now b uuid).0 =
      ap (λ x. run x ((waits, now) ∷ later)) begun
      ∙ ap (λ phase. run (record { builder = b; phase = phase }) later) (ap end_wait free)
      ∙ ap last submitted in
    subst
      (λ (s : Suspending).
        (s.builder.is_suspended ≡ true)
        × (s.builder.buildator ≡ some uuid)
        × (s.builder.is_building ≡ false))
      (sym whole) (refl, runs, refl)

-- Where nothing else comes between its parts but the end of the build, `Suspend` is the call of
-- Builder.antt.
run-suspend :
    (b : Builder) (uuid : String) (now : ℕ)
    → b.is_suspended ≡ false
    → b.buildator ≡ some uuid
    → (run (alone b) (
        (begins, now)
        ∷ (happens (Happening.build_ends cancelled), now)
        ∷ (waits, now)
        ∷ (clears, now)
        ∷ (ends, now)
        ∷ [])).builder
      ≡ (suspend now b).0
unfolding run move step end_build suspend stop_build
run-suspend b uuid now awake runs =
    let later : List (Move × ℕ) = (waits, now) ∷ (clears, now) ∷ (ends, now) ∷ [] in
    let ended : step b (Happening.build_ends cancelled, now) ≡ end_build cancelled now b uuid =
      simp (runs, step) in
    let stopped : stop_build now b ≡ end_build cancelled now b uuid = simp (runs, stop_build) in
    let begun : begin_suspend apart b ≡ record { builder = b; phase = stopping } = simp awake in
    let called : (suspend now b).0 ≡ record (stop_build now b) { is_suspended = true } =
      simp (awake, suspend) in
    ap (λ x. (run x ((happens (Happening.build_ends cancelled), now) ∷ later)).builder) begun
    ∙ ap (λ x. (run (record { builder = x; phase = stopping }) later).builder) ended
    ∙ sym (called ∙ ap (λ (x : Builder). record x { is_suspended = true }) stopped)
