-- ===== src/Fetcher/Tests.antt =====
-- Runs of the fetcher, and its theorems at such inputs.
use comin.Base.{◌≡◌, refl, true, ◌||◌, some, List, [], ◌∷◌, contains}
use comin.Samples.{sample_status}
use comin.Fetcher.{new_fetcher, union, Message, receive, receive_status, launch, step, run}
use comin.Fetcher.Pending.{is_fetched, step_forgets_nothing}

union_test : union ("r1" ∷ "r2" ∷ []) ("r1" ∷ "r3" ∷ []) ≡ "r1" ∷ "r2" ∷ "r3" ∷ []
unfolding union
union_test = refl

abbrev exchange : List Message
exchange =
    Message.submitted ("r1" ∷ [])
    ∷ Message.submitted ("r2" ∷ [])
    ∷ Message.returned sample_status
    ∷ []

run_test : (run (new_fetcher sample_status) exchange).worker ≡ some ("r2" ∷ [])
unfolding run step receive receive_status launch union new_fetcher
run_test = refl

step_forgets_nothing_example :
    let f = step (new_fetcher sample_status) (Message.submitted ("r1" ∷ [])) in
    (contains f.remotes "r1" || is_fetched f.worker "r1") ≡ true
unfolding new_fetcher
step_forgets_nothing_example =
    step_forgets_nothing (new_fetcher sample_status) (Message.submitted ("r1" ∷ [])) "r1" refl
