-- ===== src/Broker/Logger.antt =====
-- `GetLogger` (internal/broker/broker.go): one goroutine per writer, which publishes the lines of its
-- pipe, and one that waits for both. A line that is too long for `bufio.Scanner` (64 KiB) ends its loop
-- with an error that nothing reads; which lines fit is a parameter. A publication that blocks is a step
-- that has not come yet.
use comin.Base.{
  ◌≡◌, Bool, true, false, not, ◌&&◌, Option, none, some, List, [], ◌∷◌, ◌++◌, String, ◌==◌,
  if◌then◌else◌,
}
use comin.Broker.{Event, log, other, opened, closed, line}

-- What the goroutines have yet to do: the lines of each pipe, whether its goroutine still scans, and
-- whether the end has been published.
pub record Logger : Type 0 where
  pub stdout_lines : List String
  pub stderr_lines : List String
  pub scans_stdout : Bool
  pub scans_stderr : Bool
  pub has_ended : Bool

pub data LoggerAction : Type 0 where
  scan_stdout scan_stderr wait : LoggerAction

-- The lines that will be written to the two writers until they are closed.
unfoldable pub get_logger : List String → List String → Logger
get_logger out err = record {
  stdout_lines = out;
  stderr_lines = err;
  scans_stdout = true;
  scans_stderr = true;
  has_ended = false;
}

module _ (fits : String → Bool) (obj : String) (obj_uuid : String) where
  -- A round of the loop over the scanner, which ends with the pipe or at a line that is too long, and what
  -- it publishes.
  abbrev pub scan_out : List String → Logger → Logger × List Event
  scan_out [] l = (record l { scans_stdout = false }, [])
  scan_out (msg ∷ rest) l =
      if fits msg
      then (record l { stdout_lines = rest }, log obj obj_uuid (line "stdout" msg) ∷ [])
      else (record l { scans_stdout = false }, [])

  abbrev pub scan_err : List String → Logger → Logger × List Event
  scan_err [] l = (record l { scans_stderr = false }, [])
  scan_err (msg ∷ rest) l =
      if fits msg
      then (record l { stderr_lines = rest }, log obj obj_uuid (line "stderr" msg) ∷ [])
      else (record l { scans_stderr = false }, [])

  -- A step of one of the goroutines, where it does not wait.
  unfoldable pub logger_step : LoggerAction → Logger → Option (Logger × List Event)
  logger_step scan_stdout l = if l.scans_stdout then some (scan_out l.stdout_lines l) else none
  logger_step scan_stderr l = if l.scans_stderr then some (scan_err l.stderr_lines l) else none
  logger_step wait l =
      if not l.scans_stdout && not l.scans_stderr && not l.has_ended
      then some (record l { has_ended = true }, log obj obj_uuid closed ∷ [])
      else none

  -- Steps of the goroutines, in any order, and what they publish.
  pub data LoggerRun : Logger → List Event → Logger → Type 0 where
    at_rest : {l : Logger} → LoggerRun l [] l
    after_step :
        (a : LoggerAction) {l l' l'' : Logger} {now later : List Event}
        → logger_step a l ≡ some (l', now)
        → LoggerRun l' later l''
        → LoggerRun l (now ++ later) l''

  -- What is published of a whole log: the opening comes with the call itself.
  abbrev pub opening : Event
  opening = log obj obj_uuid opened

-- The lines before the first one that is too long.
unfoldable pub scanned : (String → Bool) → List String → List String
scanned fits [] = []
scanned fits (msg ∷ rest) = let others = scanned fits rest in if fits msg then msg ∷ others else []

-- The lines that events carry of one source.
unfoldable pub lines_of : String → List Event → List String
lines_of source [] = []
lines_of source (log o u (line s msg) ∷ rest) =
    if s == source then msg ∷ lines_of source rest else lines_of source rest
lines_of source (log o u opened ∷ rest) = lines_of source rest
lines_of source (log o u closed ∷ rest) = lines_of source rest
lines_of source (other x ∷ rest) = lines_of source rest

-- A goroutine that has left its loop finds no further line, and the end is published behind both.
pub record IsOrderly (fits : String → Bool) (l : Logger) : Type 0 where
  pub stdout_read : l.scans_stdout ≡ false → scanned fits l.stdout_lines ≡ []
  pub stderr_read : l.scans_stderr ≡ false → scanned fits l.stderr_lines ≡ []
  pub ended_last : l.has_ended ≡ true → (l.scans_stdout ≡ false) × (l.scans_stderr ≡ false)
