-- ===== src/Broker/LogOrder.antt =====
-- What the goroutines of `GetLogger` (internal/broker/broker.go) publish, in whatever order they run.
use comin.Base.{◌≡◌, Bool, List, ◌++◌, String}
use comin.Broker.{Event}
use comin.Broker.Logger.{Logger, scanned, lines_of, IsOrderly}

-- What one step does: the lines that it publishes are the next ones that are scanned.
record Advances (fits : String → Bool) (l l' : Logger) (now : List Event) : Type 0 where
  stdout_next : lines_of "stdout" now ++ scanned fits l'.stdout_lines ≡ scanned fits l.stdout_lines
  stderr_next : lines_of "stderr" now ++ scanned fits l'.stderr_lines ≡ scanned fits l.stderr_lines
  orderly : IsOrderly fits l'
