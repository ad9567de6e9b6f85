-- ===== src/Confirmer.antt =====
-- internal/manager/confirmer.go: the loop of `start`, one message at a time. The timer is the time
-- at which it fires, `none` when it is stopped or spent; a send on `confirmed` is an entry of `sent`.
pub mod Submitted
pub mod Modes
mod Tests
use comin.Base.{
  ℕ, ◌+◌, ◌*◌, ◌≤◌, ◌≡◌, Bool, true, false, ◌&&◌, ◌||◌, not, Option, none, some, List, [], ◌∷◌,
  ◌++◌, String, ◌==◌, leb, if◌then◌else◌,
}
use comin.Types.{Event, confirmation_confirmed, confirmation_cancelled, Timestamp}

pub data Mode : Type 0 where
  manual auto without : Mode

-- `ParseMode`; `none` is its error.
unfoldable pub parse_mode : String → Option Mode
parse_mode s =
    if s == "manual"
    then some manual
    else if s == "auto"
    then some auto
    else if s == "without"
    then some without
    else none

pub record Confirmer : Type 0 where
  pub mode : Mode
  pub autoconfirm_duration : ℕ
  pub submitted : String
  pub confirmed : String
  pub autoconfirm_started : Option Bool
  pub autoconfirm_started_at : Timestamp
  pub timer : Option ℕ
  pub notified : Bool
  pub sent : List String
  pub events : List Event

-- `NewConfirmer`, and the variables of `start` before its loop.
unfoldable pub new_confirmer : Mode → ℕ → Confirmer
new_confirmer mode duration = record {
  mode = mode;
  autoconfirm_duration = duration;
  submitted = "";
  confirmed = "";
  autoconfirm_started = none;
  autoconfirm_started_at = none;
  timer = none;
  notified = false;
  sent = [];
  events = [];
}

-- What the `select` of the loop receives, at a time.
pub data Message : Type 0 where
  status : Message
  submit confirm : String → Message
  cancel : Message
  expired : Message

unfoldable pub submit_by_mode : Mode → String → ℕ → Confirmer → Confirmer
submit_by_mode manual uuid now c = c
submit_by_mode without uuid now c = record c { confirmed = uuid }
submit_by_mode auto uuid now c = record c {
  timer = some (now + c.autoconfirm_duration * 1000000000);
  autoconfirm_started = some true;
  autoconfirm_started_at = some now;
}

-- The timer's channel delivers once, when its time has come.
unfoldable pub is_due : Option ℕ → ℕ → Bool
is_due none now = false
is_due (some t) now = leb t now

-- The body of the `select`. `Cancel` sends no uuid.
unfoldable pub receive : Message → ℕ → Confirmer → Confirmer
unfolding submit_by_mode is_due
receive status now c = c
receive (submit uuid) now c =
    submit_by_mode c.mode uuid now (record c { notified = false; submitted = uuid })
receive (confirm uuid) now c = record c {
  confirmed = uuid;
  events = c.events ++ confirmation_confirmed uuid ∷ [];
}
receive cancel now c = record c {
  confirmed = "";
  autoconfirm_started = some false;
  timer = none;
  events = c.events ++ confirmation_cancelled "" ∷ [];
}
receive expired now c =
    if is_due c.timer now
    then record c { timer = none; autoconfirm_started = some false; confirmed = c.submitted }
    else c

-- The test after the `select`.
unfoldable pub notify : Confirmer → Confirmer
notify c =
    if not c.notified
      && not (c.submitted == "")
      && not (c.confirmed == "")
      && c.confirmed == c.submitted
    then record c {
      notified = true;
      sent = c.sent ++ c.confirmed ∷ [];
      confirmed = "";
      submitted = "";
      autoconfirm_started = some false;
    }
    else c

unfoldable pub step : Confirmer → Message × ℕ → Confirmer
unfolding receive notify
step c (m, now) = notify (receive m now c)

unfoldable pub run : Confirmer → List (Message × ℕ) → Confirmer
run c [] = c
run c (m ∷ ms) = run (step c m) ms
