-- ===== src/Confirmer/Submitted.antt =====
-- What the confirmer sends on was submitted, and sent at most once for a submission.
use comin.Base.{
  ℕ, ◌+◌, ◌≤◌, ◌≡◌, refl, sym, subst, ◌∙◌, ◌≢◌, inl, inr, Bool, true, false, ◌&&◌, not, Option,
  none, some, List, [], ◌∷◌, ◌++◌, String, ◌==◌, eq_iff, eq_refl, arith, length, length-append, All,
  All-append, All-intro, All-mono, contains, Bool-cases, if◌then◌else◌,
}
use comin.Confirmer.{
  Mode, manual, auto, without, Confirmer, Message, submit, confirm, cancel, expired, status,
  new_confirmer, receive, notify, submit_by_mode, is_due, step, run,
}

-- The uuids that the messages submit, and those that they confirm.
abbrev pub submits : List (Message × ℕ) → List String
submits [] = []
submits ((submit uuid, now) ∷ ms) = uuid ∷ submits ms
submits ((_, now) ∷ ms) = submits ms

abbrev pub confirms : List (Message × ℕ) → List String
confirms [] = []
confirms ((confirm uuid, now) ∷ ms) = uuid ∷ confirms ms
confirms ((_, now) ∷ ms) = confirms ms

due_timer : (t : Option ℕ) (now : ℕ) → is_due t now ≡ true → t ≢ none
unfolding is_due
due_timer none now h = absurd (cc)
due_timer (some t) now h = λ e. cc

-- What holds when every uuid submitted so far has `P`, and every uuid confirmed so far has `Q`.
record IsSound (P Q : String → Type 0) (c : Confirmer) : Type 0 where
  submitted_good : c.submitted ≢ "" → P c.submitted
  confirmed_good : c.mode ≡ manual → c.confirmed ≢ "" → Q c.confirmed
  sent_submitted : All P c.sent
  sent_confirmed : c.mode ≡ manual → All Q c.sent
  idle : c.mode ≡ manual → c.timer ≡ none

-- When the loop notifies.
notify_test : Confirmer → Bool
notify_test c =
    not c.notified
    && not (c.submitted == "")
    && not (c.confirmed == "")
    && c.confirmed == c.submitted

notify_facts :
    (c : Confirmer)
    → notify_test c ≡ true
    → (c.notified ≡ false) × (c.submitted ≢ "") × (c.confirmed ≢ "") × (c.confirmed ≡ c.submitted)
unfolding notify_test
notify_facts c h = (
  ground arith,
  (λ e. ground (arith, eq_iff c.submitted "")),
  (λ e. ground (arith, eq_iff c.confirmed "")),
  ground (arith, eq_iff c.confirmed c.submitted),
)

abbrev notified_state : Confirmer → Confirmer
notified_state c = record c {
  notified = true;
  sent = c.sent ++ c.confirmed ∷ [];
  confirmed = "";
  submitted = "";
  autoconfirm_started = some false;
}

notified_of_test : (c : Confirmer) → notify_test c ≡ true → notify c ≡ notified_state c
unfolding notify notify_test
notified_of_test c h = rw h

quiet_of_test : (c : Confirmer) → notify_test c ≡ false → notify c ≡ c
unfolding notify notify_test
quiet_of_test c h = rw h

module _ (P Q : String → Type 0) where
  notify-IsSound : (c : Confirmer) → IsSound P Q c → IsSound P Q (notify c)
  notify-IsSound c h = elim (Bool-cases (notify_test c)) [
    | inr no_ ↦ rw (quiet_of_test c no_) h
    | inl yes_ ↦
        let (_, real, given, same) = notify_facts c yes_ in
        rw (notified_of_test c yes_) (record {
          submitted_good = λ e. absurd (e refl);
          confirmed_good = λ _ e. absurd (e refl);
          sent_submitted =
              All-append P c.sent _ h.sent_submitted
                (subst P (sym same) (h.submitted_good real), tt);
          sent_confirmed =
              λ m. All-append Q c.sent _ (h.sent_confirmed m) (h.confirmed_good m given, tt);
          idle = h.idle;
        })
  ]

  abbrev Allowed : Message → Type 0
  Allowed (submit uuid) = P uuid
  Allowed (confirm uuid) = Q uuid
  Allowed _ = Unit

  submit-IsSound :
      (mode : Mode) (c : Confirmer) (uuid : String) (now : ℕ)
      → c.mode ≡ mode
      → P uuid
      → IsSound P Q c
      → IsSound P Q (submit_by_mode mode uuid now (record c { notified = false; submitted = uuid }))
  unfolding submit_by_mode
  submit-IsSound manual c uuid now e p h = record {
    submitted_good = λ _. p;
    confirmed_good = h.confirmed_good;
    sent_submitted = h.sent_submitted;
    sent_confirmed = h.sent_confirmed;
    idle = h.idle;
  }
  submit-IsSound auto c uuid now e p h = record {
    submitted_good = λ _. p;
    confirmed_good = h.confirmed_good;
    sent_submitted = h.sent_submitted;
    sent_confirmed = h.sent_confirmed;
    idle = λ m. absurd (cc);
  }
  submit-IsSound without c uuid now e p h = record {
    submitted_good = λ _. p;
    confirmed_good = λ m. absurd (cc);
    sent_submitted = h.sent_submitted;
    sent_confirmed = h.sent_confirmed;
    idle = h.idle;
  }

  receive-IsSound :
      (m : Message) (now : ℕ) (c : Confirmer)
      → Allowed m
      → IsSound P Q c
      → IsSound P Q (receive m now c)
  unfolding receive
  receive-IsSound status now c p h = h
  receive-IsSound (submit uuid) now c p h = submit-IsSound c.mode c uuid now refl p h
  receive-IsSound (confirm uuid) now c p h = record {
    submitted_good = h.submitted_good;
    confirmed_good = λ _ _. p;
    sent_submitted = h.sent_submitted;
    sent_confirmed = h.sent_confirmed;
    idle = h.idle;
  }
  receive-IsSound cancel now c p h = record {
    submitted_good = h.submitted_good;
    confirmed_good = λ _ e. absurd (e refl);
    sent_submitted = h.sent_submitted;
    sent_confirmed = h.sent_confirmed;
    idle = λ _. refl;
  }
  receive-IsSound expired now c p h = elim (Bool-cases (is_due c.timer now)) [
    | inr early ↦ rw early h
    | inl due ↦ rw due (record {
      submitted_good = h.submitted_good;
      confirmed_good = λ m. absurd (ground (arith, due_timer c.timer now due, h.idle m));
      sent_submitted = h.sent_submitted;
      sent_confirmed = h.sent_confirmed;
      idle = λ _. refl;
    })
  ]

  run-IsSound :
      (c : Confirmer) (ms : List (Message × ℕ))
      → All P (submits ms)
      → All Q (confirms ms)
      → IsSound P Q c
      → IsSound P Q (run c ms)
  unfolding run step
  run-IsSound c [] p q h = h
  run-IsSound c ((submit uuid, now) ∷ ms) p q h =
      run-IsSound (step c (submit uuid, now)) ms p.1 q
        (notify-IsSound _ (receive-IsSound (submit uuid) now c p.0 h))
  run-IsSound c ((confirm uuid, now) ∷ ms) p q h =
      run-IsSound (step c (confirm uuid, now)) ms p q.1
        (notify-IsSound _ (receive-IsSound (confirm uuid) now c q.0 h))
  run-IsSound c ((status, now) ∷ ms) p q h =
      run-IsSound (step c (status, now)) ms p q
        (notify-IsSound _ (receive-IsSound status now c tt h))
  run-IsSound c ((cancel, now) ∷ ms) p q h =
      run-IsSound (step c (cancel, now)) ms p q
        (notify-IsSound _ (receive-IsSound cancel now c tt h))
  run-IsSound c ((expired, now) ∷ ms) p q h =
      run-IsSound (step c (expired, now)) ms p q
        (notify-IsSound _ (receive-IsSound expired now c tt h))

All-self : (l : List String) → All (λ u. contains l u ≡ true) l
All-self [] = tt
All-self (u ∷ l) = (ground (arith, eq_refl u), All-mono (λ v h. ground arith) l (All-self l))

step-mode : (c : Confirmer) (m : Message) (now : ℕ) → (step c (m, now)).mode ≡ c.mode
unfolding step receive notify submit_by_mode
step-mode c status now = ground arith
step-mode c (submit uuid) now = ground arith
step-mode c (confirm uuid) now = ground arith
step-mode c cancel now = ground arith
step-mode c expired now = ground arith

run-mode : (c : Confirmer) (ms : List (Message × ℕ)) → (run c ms).mode ≡ c.mode
unfolding run
run-mode c [] = refl
run-mode c ((m, now) ∷ ms) = run-mode (step c (m, now)) ms ∙ step-mode c m now

fresh-IsSound :
    (P Q : String → Type 0) (mode : Mode) (duration : ℕ) → IsSound P Q (new_confirmer mode duration)
unfolding new_confirmer
fresh-IsSound P Q mode duration = record {
  submitted_good = λ e. absurd (e refl);
  confirmed_good = λ _ e. absurd (e refl);
  sent_submitted = tt;
  sent_confirmed = λ _. tt;
  idle = λ _. refl;
}

-- In every mode, whatever messages arrive, each uuid that the confirmer sends on was submitted.
pub sent_was_submitted :
    (mode : Mode) (duration : ℕ) (ms : List (Message × ℕ))
    → All (λ u. contains (submits ms) u ≡ true) (run (new_confirmer mode duration) ms).sent
sent_was_submitted mode duration ms =
    (run-IsSound (λ u. contains (submits ms) u ≡ true) (λ _. Unit {0}) (new_confirmer mode duration)
      ms (All-self (submits ms)) (All-intro (λ _. tt) (confirms ms))
      (fresh-IsSound _ _ mode duration)).sent_submitted

-- In the manual mode each uuid that the confirmer sends on was confirmed by a user.
pub manual_was_confirmed :
    (duration : ℕ) (ms : List (Message × ℕ))
    → All (λ u. contains (confirms ms) u ≡ true) (run (new_confirmer manual duration) ms).sent
unfolding new_confirmer
manual_was_confirmed duration ms =
    (run-IsSound (λ _. Unit {0}) (λ u. contains (confirms ms) u ≡ true)
        (new_confirmer manual duration) ms (All-intro (λ _. tt) (submits ms))
        (All-self (confirms ms)) (fresh-IsSound _ _ manual duration)).sent_confirmed
      (run-mode (new_confirmer manual duration) ms)

-- What is sent, and what may yet be: a submission that waits.
abbrev spent : Confirmer → ℕ
spent c = length c.sent + (if c.submitted == "" then 0 else 1)

spent-notify : (c : Confirmer) → spent (notify c) ≤ spent c
spent-notify c = elim (Bool-cases (notify_test c)) [
  | inr no_ ↦ rw (quiet_of_test c no_) (omega arith)
  | inl yes_ ↦
      let (_, real, _, _) = notify_facts c yes_ in
      rw (notified_of_test c yes_)
        (ground (arith, length-append c.sent (c.confirmed ∷ []), eq_iff c.submitted "", real))
]

spent-receive :
    (c : Confirmer) (m : Message) (now : ℕ) (ms : List (Message × ℕ))
    → spent (receive m now c) + length (submits ms) ≤ spent c + length (submits ((m, now) ∷ ms))
unfolding receive submit_by_mode
spent-receive c status now ms = omega arith
spent-receive c (submit uuid) now ms = ground arith
spent-receive c (confirm uuid) now ms = omega arith
spent-receive c cancel now ms = omega arith
spent-receive c expired now ms = ground arith

spent-step :
    (c : Confirmer) (m : Message) (now : ℕ) (ms : List (Message × ℕ))
    → spent (step c (m, now)) + length (submits ms) ≤ spent c + length (submits ((m, now) ∷ ms))
unfolding step
spent-step c m now ms = omega (arith, spent-notify (receive m now c), spent-receive c m now ms)

spent-run :
    (c : Confirmer) (ms : List (Message × ℕ)) → spent (run c ms) ≤ spent c + length (submits ms)
unfolding run
spent-run c [] = omega arith
spent-run c ((m, now) ∷ ms) = omega (arith, spent-step c m now ms, spent-run (step c (m, now)) ms)

-- The confirmer sends at most one uuid for each submission.
pub sent_at_most_once :
    (mode : Mode) (duration : ℕ) (ms : List (Message × ℕ))
    → length (run (new_confirmer mode duration) ms).sent ≤ length (submits ms)
unfolding new_confirmer
sent_at_most_once mode duration ms = omega (arith, spent-run (new_confirmer mode duration) ms)
