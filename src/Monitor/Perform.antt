-- ===== src/Monitor/Perform.antt =====
-- internal/monitor/service.go: perform, in its two parts: the result of the check, and what is done
-- with it. The logger's calls are left out.
pub mod Breaker
pub mod Report
pub mod Concurrent
use service_reliability_watc.Common.{
  Bool, true, false, not, ◌&&◌, Option, none, some, List, [], ◌∷◌, ◌++◌, if◌then◌else◌,
}
use service_reliability_watc.Common.Int.{ℤ, pos}
use service_reliability_watc.Common.Float.{Float64}
use service_reliability_watc.Common.Text.{Text, codes}
use service_reliability_watc.Common.Clock.{Time}
use service_reliability_watc.Common.Result.{Result, ok, err}
use service_reliability_watc.Domain.Types.{
  State, maintenance, unavailable, state_eq, Endpoint, CheckResult, Alert,
}
use service_reliability_watc.Resilience.Circuit.{CircuitBreaker, allow, success, failure}
use service_reliability_watc.Resilience.Retry.{World, no_result, retry}
use service_reliability_watc.Store.Types.{RecordOutcome, Repository}
use service_reliability_watc.Monitor.Types.{
  Options, Event, observed, alerted, storage_error, Service,
}

-- What one call of perform meets: the reading of the clock at its start, the one after the retries,
-- and the world that the retries run in, in which `check` is `s.executor.Check` of the endpoint.
pub record Visit (F : Type 0) : Type 0 where
  pub now : Time
  pub later : Time
  pub world : World F

-- The two results that no check makes. The other fields are zero.
abbrev pub maintenance_result : Text → Time → CheckResult
maintenance_result id now = record no_result {
  endpoint_id = id;
  checked_at = now;
  state = maintenance;
  message = codes "endpoint is in a configured maintenance window";
}

abbrev pub skipped_result : Text → Time → CheckResult
skipped_result id now = record no_result {
  endpoint_id = id;
  checked_at = now;
  state = unavailable;
  circuit_breaker_open = true;
  message = codes "circuit breaker is open";
  error = codes "check skipped while circuit breaker is open";
}

-- What follows the retries: the breaker learns how the check went.
pub settle : CircuitBreaker → Text → Time → CheckResult → CircuitBreaker × CheckResult
settle b id later result =
    if state_eq result.state unavailable
    then (let (b', opened) = failure b id later in
        (b', record result { circuit_breaker_open = opened }))
    else (success b id, result)

module _ {F : Type 0} (fl : Float64 F) (options : Options) where
  -- The result of the check, and the breaker after it.
  unfoldable pub checked : CircuitBreaker → Endpoint F → Visit F → CircuitBreaker × CheckResult
  unfolding settle
  checked b e v =
      if options.maintenance e.id v.now
      then (b, maintenance_result e.id v.now)
      else (let (b', allowed) = allow b e.id v.now in
          if allowed
          then settle b' e.id v.later
              (retry fl v.world options.retry_base_delay options.retry_max_delay e.retries)
          else (b', skipped_result e.id v.now))

-- The events of an outcome that was stored.
abbrev pub alert_events : {F : Type 0} → Text → Option Alert → List (Event F)
alert_events id none = []
alert_events id (some a) = alerted id a.state ∷ []

abbrev pub stored_events : {F : Type 0} → Text → Result Text RecordOutcome → List (Event F)
stored_events id (err e) = storage_error ∷ []
stored_events id (ok outcome) = alert_events id outcome.alert

module _ {F R : Type 0} (fl : Float64 F) (repository : Repository F R) where
  -- From `s.observer.Observe` on.
  report : Service F R → Endpoint F → CheckResult → Service F R
  report s e result =
      let (repo, outcome) = repository.record_result s.repo result s.options.alert_dedupe in
      record s { repo = repo; events = s.events ++ observed e result ∷ stored_events e.id outcome }

  unfoldable pub perform : Service F R → Endpoint F → Visit F → Service F R
  unfolding checked report
  perform s e v =
      let (b, result) = checked fl s.options s.breaker e v in
      report (record s { breaker = b }) e result
