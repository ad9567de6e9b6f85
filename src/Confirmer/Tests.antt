-- ===== src/Confirmer/Tests.antt =====
-- Runs of the confirmer, and its theorems at such inputs.
use comin.Base.{
  ℕ, ◌≤◌, ◌≡◌, ◌≢◌, refl, true, List, [], ◌∷◌, String, eq_iff, arith, length, All, contains,
}
use comin.Confirmer.{
  Mode, Confirmer, Message, new_confirmer, receive, notify, submit_by_mode, is_due, step, run,
}
use comin.Confirmer.Submitted.{
  submits, confirms, sent_was_submitted, manual_was_confirmed, sent_at_most_once,
}

abbrev exchange : List (Message × ℕ)
exchange =
    (Message.submit "g1", 1)
    ∷ (Message.confirm "g1", 2)
    ∷ (Message.confirm "g1", 3)
    ∷ (Message.submit "g2", 4)
    ∷ []

program : Unit {0}
unfolding new_confirmer receive notify submit_by_mode is_due step run
program = tt

run_manual : (run (new_confirmer Mode.manual 5) exchange).sent ≡ "g1" ∷ []
unfolding program
run_manual = refl

run_without : (run (new_confirmer Mode.without 5) exchange).sent ≡ "g1" ∷ "g2" ∷ []
unfolding program
run_without = refl

sent_was_submitted_example :
    All
      (λ u. contains (submits exchange) u ≡ true)
      (run (new_confirmer Mode.without 5) exchange).sent
sent_was_submitted_example = sent_was_submitted Mode.without 5 exchange

manual_was_confirmed_example :
    All
      (λ u. contains (confirms exchange) u ≡ true)
      (run (new_confirmer Mode.manual 5) exchange).sent
manual_was_confirmed_example = manual_was_confirmed 5 exchange

sent_at_most_once_example :
    length (run (new_confirmer Mode.without 5) exchange).sent ≤ length (submits exchange)
sent_at_most_once_example = sent_at_most_once Mode.without 5 exchange

real_uuid : ◌≢◌ {A = String} "g1" ""
real_uuid = ground (arith, eq_iff "g1" "")

unlike : ◌≢◌ {A = String} "" "g1"
unlike = ground (arith, eq_iff "" "g1")

abbrev automatic : Confirmer
unfolding new_confirmer
automatic = new_confirmer Mode.auto 5
