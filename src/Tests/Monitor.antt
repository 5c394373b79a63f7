-- ===== src/Tests/Monitor.antt =====
-- internal/monitor/service.go: a service over two endpoints.
use service_reliability_watc.Common.{ℕ, ◌+◌, ◌≡◌, refl, true, [], ◌∷◌, length, map, All}
use service_reliability_watc.Common.Int.{int64, ◌+ℤ◌}
use service_reliability_watc.Common.Text.{text_eq}
use service_reliability_watc.Common.Assoc.{Assoc, lookup, insert, delete}
use service_reliability_watc.Common.Result.{ok, err}
use service_reliability_watc.Common.Clock.{since}
use service_reliability_watc.Domain.Types.{unavailable, CheckResult, StatusSnapshot}
use service_reliability_watc.Resilience.Circuit.{item, allow, success, failure, is_open}
use service_reliability_watc.Resilience.Retry.{retry}
use service_reliability_watc.Store.Types.{Repository}
use service_reliability_watc.Store.Memory.{Memory, new_memory, latest_results}
use service_reliability_watc.Store.Memory.Repository.{memory_repository}
use service_reliability_watc.Monitor.Types.{Service, new_service}
use service_reliability_watc.Monitor.Perform.{checked, perform}
use service_reliability_watc.Monitor.Perform.Breaker.{IsSettled, retried, checks_while_not_open}
use service_reliability_watc.Monitor.Perform.Report.{perform_all, perform_all-new-Inv}
use service_reliability_watc.Monitor.Snapshot.{no_aggregate, snapshot}
use service_reliability_watc.Monitor.Snapshot.Statuses.{IsStatusOf, snapshot-statuses}
use service_reliability_watc.Monitor.Snapshot.Totals.{Counted, snapshot-totals}
use service_reliability_watc.Tests.Data.{
  thousandths, api, at, api_endpoint, db_endpoint, visit, visits, options, unsorted,
}

abbrev repository : Repository ℕ (Memory ℕ)
repository = memory_repository ℕ unsorted

abbrev service : Service ℕ (Memory ℕ)
service = new_service (api_endpoint ∷ db_endpoint ∷ []) new_memory options

abbrev after_all : Service ℕ (Memory ℕ)
after_all = perform_all thousandths repository service visits

after_all-settled : IsSettled after_all.breaker
after_all-settled =
    let i =
      perform_all-new-Inv thousandths unsorted (api_endpoint ∷ db_endpoint ∷ []) options visits in
    i.settled

checks_while_not_open_example :
    (checked thousandths options after_all.breaker api_endpoint (visit api unavailable 95)).1
    ≡ record (retried thousandths options after_all.breaker api_endpoint
        (visit api unavailable 95)) { circuit_breaker_open = true }
unfolding text_eq is_open lookup perform_all perform new_service allow item retry success delete
    insert failure int64 ◌+ℤ◌ since
checks_while_not_open_example =
    checks_while_not_open thousandths options after_all.breaker api_endpoint
      (visit api unavailable 95) refl after_all-settled refl

abbrev latest : Assoc CheckResult
latest = latest_results after_all.repo

abbrev no_snapshot : StatusSnapshot ℕ
no_snapshot = record { generated_at = at 0; aggregate = no_aggregate; endpoints = [] }

abbrev taken : StatusSnapshot ℕ
taken = elim (snapshot thousandths repository after_all (at 80)) [ ok r ↦ r | err e ↦ no_snapshot ]

snapshot-statuses_example :
    (map (λ x. x.endpoint) taken.endpoints ≡ api_endpoint ∷ db_endpoint ∷ [])
    × (taken.aggregate.total ≡ 2)
    × All (IsStatusOf latest) taken.endpoints
unfolding snapshot perform_all perform new_service
snapshot-statuses_example =
    snapshot-statuses thousandths repository after_all (at 80) taken latest refl refl

snapshot-totals_example :
    Counted taken.endpoints taken.aggregate
    × (taken.aggregate.total ≡ length taken.endpoints)
    × (let a = taken.aggregate in
        a.healthy_count + a.degraded_count + a.unavailable_count + a.maintenance_count
          + a.unknown_count
        ≡ a.total)
unfolding snapshot perform_all perform new_service
snapshot-totals_example =
    snapshot-totals thousandths repository after_all (at 80) taken latest refl refl
