-- ===== src/Monitor/Scheduler/Start.antt =====
-- internal/monitor/service.go: Run before its loop, from the call of the repository on.
use service_reliability_watc.Common.{◌++◌}
use service_reliability_watc.Common.Text.{Text, codes}
use service_reliability_watc.Common.Clock.{Time}
use service_reliability_watc.Common.Result.{Result, ok, err}
use service_reliability_watc.Store.Types.{Repository}
use service_reliability_watc.Monitor.Types.{Service}
use service_reliability_watc.Monitor.Scheduler.{Scheduler, launched}

module _ {F R : Type 0} where
  abbrev start_with : Service F R → Time → Result Text (Unit {0}) → Result Text (Scheduler F)
  start_with s now (err e) = err (codes "synchronize endpoints: " ++ e)
  start_with s now (ok u) = ok (launched s now)

  -- The error that Run returns, or the state in which its loop begins.
  unfoldable pub run_start :
      Repository F R → Service F R → Time → Service F R × Result Text (Scheduler F)
  run_start repository s now =
      let (repo, synchronized) = repository.upsert_endpoints s.repo s.endpoints in
      (record s { repo = repo }, start_with (record s { repo = repo }) now synchronized)
