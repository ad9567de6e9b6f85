-- ===== src/Confirmer/Modes.antt =====
-- When a submission is sent on, mode by mode.
use comin.Base.{
  ℕ, ◌+◌, ◌*◌, ◌≡◌, refl, ap, ◌∙◌, ◌≢◌, false, none, List, [], ◌∷◌, ◌++◌, String, eq_iff, eq_refl,
  arith, leb, if◌then◌else◌,
}
use comin.Types.{confirmation_confirmed}
use comin.Confirmer.{
  Mode, manual, auto, without, Confirmer, Message, submit, confirm, cancel, expired, status,
  receive, notify, submit_by_mode, is_due, step, run,
}

-- Without confirmation a submitted uuid is sent on at once, and nothing is left pending.
pub without_sends_at_once :
    (c : Confirmer) (uuid : String) (now : ℕ)
    → c.mode ≡ without
    → uuid ≢ ""
    → let c' = step c (submit uuid, now) in
      (c'.sent ≡ c.sent ++ uuid ∷ []) × (c'.submitted ≡ "") × (c'.confirmed ≡ "")
unfolding step receive notify submit_by_mode
without_sends_at_once c uuid now m real = ground (arith, eq_iff uuid "", eq_refl uuid)

-- In the manual and the automatic mode a submission alone sends nothing, unless its uuid is the one
-- that was confirmed beforehand.
pub submit_waits :
    (c : Confirmer) (uuid : String) (now : ℕ)
    → c.mode ≢ without
    → c.confirmed ≢ uuid
    → let c' = step c (submit uuid, now) in
      (c'.sent ≡ c.sent) × (c'.submitted ≡ uuid) × (c'.confirmed ≡ c.confirmed)
unfolding step receive notify submit_by_mode
submit_waits c uuid now m other = elim_mode c.mode refl
  where
    elim_mode :
        (mode : Mode)
        → c.mode ≡ mode
        → let c' = step c (submit uuid, now) in
          (c'.sent ≡ c.sent) × (c'.submitted ≡ uuid) × (c'.confirmed ≡ c.confirmed)
    elim_mode without e = absurd (m e)
    elim_mode manual e = ground (arith, eq_iff c.confirmed uuid)
    elim_mode auto e = ground (arith, eq_iff c.confirmed uuid)

-- In the automatic mode a submission that is not confirmed beforehand is sent on by the timer: not
-- before the duration has passed, and then by the first expiry.
pub auto_sends_after_duration :
    (c : Confirmer) (uuid : String) (start now : ℕ)
    → c.mode ≡ auto
    → uuid ≢ ""
    → c.confirmed ≢ uuid
    → (step (step c (submit uuid, start)) (expired, now)).sent ≡ (
        if leb (start + c.autoconfirm_duration * 1000000000) now
        then c.sent ++ uuid ∷ []
        else c.sent)
unfolding step receive notify submit_by_mode is_due
auto_sends_after_duration c uuid start now m real other =
    ground (arith, eq_iff uuid "", eq_iff c.confirmed uuid, eq_refl uuid)

-- A user's confirmation of the pending submission sends it on.
pub confirm_sends :
    (c : Confirmer) (now : ℕ)
    → c.notified ≡ false
    → c.submitted ≢ ""
    → let c' = step c (confirm c.submitted, now) in
      (c'.sent ≡ c.sent ++ c.submitted ∷ [])
      × (c'.submitted ≡ "")
      × (c'.events ≡ c.events ++ confirmation_confirmed c.submitted ∷ [])
unfolding step receive notify
confirm_sends c now open_ real = ground (arith, eq_iff c.submitted "", eq_refl c.submitted)

-- A message that only asks or that the timer sends.
abbrev pub IsPassive : Message → Type 0
IsPassive status = Unit
IsPassive expired = Unit
IsPassive _ = ⊥

abbrev pub ArePassive : List (Message × ℕ) → Type 0
ArePassive [] = Unit
ArePassive ((m, now) ∷ ms) = IsPassive m × ArePassive ms

notify_quiet : (c : Confirmer) → c.confirmed ≡ "" → notify c ≡ c
unfolding notify
notify_quiet c e = ground (arith, eq_iff c.confirmed "")

passive_step :
    (c : Confirmer) (m : Message) (now : ℕ)
    → IsPassive m
    → c.confirmed ≡ ""
    → c.timer ≡ none
    → step c (m, now) ≡ c
unfolding step receive is_due
passive_step c status now p e t = notify_quiet c e
passive_step c expired now p e t =
    let idle : receive expired now c ≡ c = ground arith in ap notify idle ∙ notify_quiet c e
passive_step c (submit uuid) now p e t = absurd p
passive_step c (confirm uuid) now p e t = absurd p
passive_step c cancel now p e t = absurd p

passive_run :
    (c : Confirmer) (ms : List (Message × ℕ))
    → ArePassive ms
    → c.confirmed ≡ ""
    → c.timer ≡ none
    → run c ms ≡ c
unfolding run
passive_run c [] p e t = refl
passive_run c ((m, now) ∷ ms) p e t =
    ap (λ c'. run c' ms) (passive_step c m now p.0 e t) ∙ passive_run c ms p.1 e t

-- After a cancellation nothing is sent on, neither by the timer nor by a request for the status,
-- until the next submission or confirmation.
pub cancel_silences :
    (c : Confirmer) (ms : List (Message × ℕ)) (now : ℕ)
    → ArePassive ms
    → (run c ((cancel, now) ∷ ms)).sent ≡ c.sent
unfolding run step receive
cancel_silences c ms now p =
    let quiet = notify_quiet (receive cancel now c) refl in
    ap (λ c'. (run c' ms).sent) quiet
    ∙ ap (λ (c' : Confirmer). c'.sent) (passive_run (receive cancel now c) ms p refl refl)
