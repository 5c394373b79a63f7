-- ===== src/Monitor/Perform/Concurrent.antt =====
-- internal/monitor/service.go: calls of perform by several workers at once. The breaker, the repository
-- and the observer each hold a mutex, so a call is a series of actions on them, and the actions of the
-- calls interleave. What a call does alone, as the retries of the check, belongs to the next action.
pub mod Invariant
pub mod Interleaved
use service_reliability_watc.Common.{
  ℕ, ◌+◌, ◌≡◌, Bool, Option, none, some, List, [], ◌∷◌, ◌++◌, if◌then◌else◌,
}
use service_reliability_watc.Common.Float.{Float64}
use service_reliability_watc.Common.Text.{Text}
use service_reliability_watc.Common.Clock.{Time}
use service_reliability_watc.Common.Result.{Result, ok, err}
use service_reliability_watc.Domain.Types.{Endpoint, CheckResult}
use service_reliability_watc.Resilience.Circuit.{allow}
use service_reliability_watc.Resilience.Retry.{World, retry}
use service_reliability_watc.Store.Types.{RecordOutcome, Repository}
use service_reliability_watc.Monitor.Types.{Options, Event, observed, Service}
use service_reliability_watc.Monitor.Perform.{
  maintenance_result, skipped_result, settle, stored_events,
}

-- Where a call stands: before Allow; before the breaker learns how the check went; before Observe;
-- before RecordResult; before the last call of the observer.
pub data Call (F : Type 0) : Type 0 where
  asking : Endpoint F → Time → Call F
  checking : Endpoint F → Call F
  resolved : Endpoint F → CheckResult → Call F
  told : Endpoint F → CheckResult → Call F
  stored : Endpoint F → Result Text RecordOutcome → Call F

-- The service, the calls under way, and how many have begun.
pub record Pool (F R : Type 0) : Type 0 where
  pub service : Service F R
  pub calls : List (Call F)
  pub begun : ℕ

-- What the maintenance windows make of a call.
abbrev pub first_call : {F : Type 0} → Options → Endpoint F → Time → Call F
first_call options e now =
    if options.maintenance e.id now then resolved e (maintenance_result e.id now) else asking e now

-- What Allow makes of it.
abbrev pub asked_call : {F : Type 0} → Endpoint F → Time → Bool → Call F
asked_call e now allowed = if allowed then checking e else resolved e (skipped_result e.id now)

module _ {F R : Type 0} (fl : Float64 F) (repository : Repository F R) where
  abbrev pub retried : Options → Endpoint F → World F → CheckResult
  retried o e world = retry fl world o.retry_base_delay o.retry_max_delay e.retries

  -- One action of one call.
  pub data Action (p : Pool F R) : Pool F R → Type 0 where
    begins :
        (e : Endpoint F) (now : Time)
        → Action p (record p {
          calls = p.calls ++ first_call p.service.options e now ∷ [];
          begun = p.begun + 1;
        })
    asks :
        (left right : List (Call F)) (e : Endpoint F) (now : Time)
        → p.calls ≡ left ++ asking e now ∷ right
        → Action p (record p {
          service = record p.service { breaker = (allow p.service.breaker e.id now).0 };
          calls = left ++ asked_call e now (allow p.service.breaker e.id now).1 ∷ right;
        })
    settles :
        (left right : List (Call F)) (e : Endpoint F) (later : Time) (world : World F)
        → p.calls ≡ left ++ checking e ∷ right
        → Action p (
            let answer = settle p.service.breaker e.id later (retried p.service.options e world) in
            record p {
              service = record p.service { breaker = answer.0 };
              calls = left ++ resolved e answer.1 ∷ right;
            })
    observes :
        (left right : List (Call F)) (e : Endpoint F) (r : CheckResult)
        → p.calls ≡ left ++ resolved e r ∷ right
        → Action p (record p {
          service = record p.service { events = p.service.events ++ observed e r ∷ [] };
          calls = left ++ told e r ∷ right;
        })
    records :
        (left right : List (Call F)) (e : Endpoint F) (r : CheckResult)
        → p.calls ≡ left ++ told e r ∷ right
        → Action p (
            let answer = repository.record_result p.service.repo r p.service.options.alert_dedupe in
            record p {
              service = record p.service { repo = answer.0 };
              calls = left ++ stored e answer.1 ∷ right;
            })
    ends :
        (left right : List (Call F)) (e : Endpoint F) (outcome : Result Text RecordOutcome)
        → p.calls ≡ left ++ stored e outcome ∷ right
        → Action p (record p {
          service = record p.service { events = p.service.events ++ stored_events e.id outcome };
          calls = left ++ right;
        })

  infixr 5 ◌and◌
  pub data Actions : Pool F R → Pool F R → Type 0 where
    none_yet : (p : Pool F R) → Actions p p
    ◌and◌ : {p q r : Pool F R} → Action p q → Actions q r → Actions p r
