-- ===== src/Tests/Concurrent.antt =====
-- internal/monitor/service.go: two calls of perform, of which one begins inside the other.
use service_reliability_watc.Common.{ℕ, ◌≡◌, refl, [], ◌∷◌}
use service_reliability_watc.Common.Text.{text_eq}
use service_reliability_watc.Common.Assoc.{lookup}
use service_reliability_watc.Domain.Types.{healthy}
use service_reliability_watc.Resilience.Circuit.{allow, item}
use service_reliability_watc.Store.Types.{Repository}
use service_reliability_watc.Store.Memory.{Memory, new_memory}
use service_reliability_watc.Store.Memory.Repository.{memory_repository}
use service_reliability_watc.Monitor.Types.{Service, new_service}
use service_reliability_watc.Monitor.Perform.Report.{Inv}
use service_reliability_watc.Monitor.Perform.Concurrent.{
  Pool, asking, checking, resolved, begins, asks, settles, observes, records, ends, Actions,
  none_yet, ◌and◌,
}
use service_reliability_watc.Monitor.Perform.Concurrent.Interleaved.{fresh, interleaved-Inv}
use service_reliability_watc.Tests.Data.{
  thousandths, api, at, api_endpoint, db_endpoint, flaky, options, unsorted,
}

abbrev repository : Repository ℕ (Memory ℕ)
repository = memory_repository ℕ unsorted

abbrev service : Service ℕ (Memory ℕ)
service = new_service (api_endpoint ∷ db_endpoint ∷ []) new_memory options

-- The database, which is in maintenance, is observed before the API's call asks the breaker, and its
-- result is stored while the API is checked.
abbrev two_calls :
    (p : Pool ℕ (Memory ℕ)) × Actions thousandths repository
      (fresh thousandths unsorted (api_endpoint ∷ db_endpoint ∷ []) options)
      p
    × (p.calls ≡ [])
unfolding new_service text_eq allow item lookup
two_calls = (
  _,
  begins api_endpoint (at 0)
      and (begins db_endpoint (at 1)
          and (observes (asking api_endpoint (at 0) ∷ []) [] db_endpoint _ refl
              and (asks [] _ api_endpoint (at 0) refl
                  and (records (checking api_endpoint ∷ []) [] db_endpoint _ refl
                      and (settles [] _ api_endpoint (at 2) (flaky api healthy 0) refl
                          and (ends (resolved api_endpoint _ ∷ []) [] db_endpoint _ refl
                              and (observes [] [] api_endpoint _ refl
                                  and (records [] [] api_endpoint _ refl
                                      and (ends [] [] api_endpoint _ refl and none_yet _))))))))),
  refl,
)

interleaved-Inv_example : Inv two_calls.0.begun two_calls.0.service
interleaved-Inv_example =
    interleaved-Inv thousandths unsorted (api_endpoint ∷ db_endpoint ∷ []) options two_calls.0
      two_calls.1 two_calls.2
