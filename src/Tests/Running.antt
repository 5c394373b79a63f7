-- ===== src/Tests/Running.antt =====
-- internal/monitor/service.go: a run of two checks by two workers, from the first tick to their return.
use service_reliability_watc.Common.{
  true, ◌⊎◌, ℕ, ◌≤◌, ◌≡◌, refl, [], ◌∷◌, All, sum_of, length, arith,
}
use service_reliability_watc.Common.Int.{pos, ◌≤ℤ◌}
use service_reliability_watc.Common.Text.{Text, text_eq}
use service_reliability_watc.Common.Assoc.{lookup, insert}
use service_reliability_watc.Domain.Types.{healthy}
use service_reliability_watc.Resilience.Circuit.{allow, item}
use service_reliability_watc.Store.Types.{Repository}
use service_reliability_watc.Store.Memory.{Memory, upsert_endpoints}
use service_reliability_watc.Store.Memory.Repository.{memory_repository}
use service_reliability_watc.Monitor.Types.{new_service}
use service_reliability_watc.Monitor.Perform.Report.{Inv}
use service_reliability_watc.Monitor.Perform.Concurrent.{
  asking, checking, resolved, asks, settles, observes, records, ends,
}
use service_reliability_watc.Monitor.Scheduler.{
  idle, holding, performing, reporting, returned, offer, rounds, is_in_flight, launched, ticks,
  takes, acquires, releases, cancels, stops, gives_up,
}
use service_reliability_watc.Monitor.Scheduler.Invariant.{flag, places}
use service_reliability_watc.Monitor.Scheduler.Start.{run_start}
use service_reliability_watc.Monitor.Scheduler.Drain.{IsReturned}
use service_reliability_watc.Monitor.Running.{
  Running, calls_for, started, schedules, enters, acts, leaves, Joints, not_yet, ◌next◌,
}
use service_reliability_watc.Monitor.Running.Whole.{new_run, whole_run-Inv, whole_run-bounds}
use service_reliability_watc.Tests.Data.{
  thousandths, api, at, api_endpoint, db_endpoint, flaky, options, unsorted,
}

abbrev repository : Repository ℕ (Memory ℕ)
repository = memory_repository ℕ unsorted

abbrev first : Running ℕ (Memory ℕ)
first = new_run thousandths unsorted (api_endpoint ∷ db_endpoint ∷ []) options (at 0)

-- Both workers are inside perform.
abbrev both_inside : (j : Running ℕ (Memory ℕ)) × Joints thousandths repository first j
unfolding started run_start upsert_endpoints launched new_service offer lookup insert text_eq
both_inside = (
  _,
  schedules (ticks (at 1) refl refl) refl refl
      next (schedules (rounds api_endpoint (db_endpoint ∷ []) refl refl refl) refl refl
          next (schedules (takes [] (idle ∷ []) api_endpoint [] refl refl) refl refl
              next (schedules (rounds db_endpoint [] refl refl refl) refl refl
                  next (schedules (takes (holding api_endpoint ∷ []) [] db_endpoint [] refl refl)
                        refl refl
                      next (enters (acquires [] (holding db_endpoint ∷ []) api_endpoint refl refl)
                            api_endpoint (at 1) refl
                          next (enters
                                (acquires (performing api_endpoint ∷ []) [] db_endpoint refl refl)
                                db_endpoint (at 1) refl
                              next not_yet _)))))),
)

whole_run-bounds_example :
    ((id : Text)
      → sum_of (calls_for id) both_inside.0.pool.calls
        ≤ flag (is_in_flight both_inside.0.scheduler id))
    × ((id : Text)
        → (both_inside.0.scheduler.cancelled ≡ true)
          ⊎ (places both_inside.0.scheduler id ≡ flag (is_in_flight both_inside.0.scheduler id)))
    × (pos (length both_inside.0.pool.calls) ≤ℤ pos 2)
whole_run-bounds_example =
    whole_run-bounds thousandths unsorted (api_endpoint ∷ db_endpoint ∷ []) options (at 0)
      both_inside.0 (omega arith) (omega arith) both_inside.1

-- Their calls end, after the context is done for one of them, and the workers return.
abbrev append :
    (i j k : Running ℕ (Memory ℕ))
    → Joints thousandths repository i j
    → Joints thousandths repository j k
    → Joints thousandths repository i k
append i _ k (not_yet _) rest = rest
append i j k (◌next◌ {j = h} a more) rest = a next append h j k more rest

abbrev ended :
    (j : Running ℕ (Memory ℕ)) × Joints thousandths repository both_inside.0 j
    × All IsReturned j.scheduler.workers
unfolding started run_start upsert_endpoints launched new_service offer lookup insert text_eq allow
    item both_inside
ended = (
  _,
  acts (observes (asking api_endpoint (at 1) ∷ []) [] db_endpoint _ refl) refl
      next (acts (asks [] _ api_endpoint (at 1) refl) refl
          next (acts (records (checking api_endpoint ∷ []) [] db_endpoint _ refl) refl
              next (acts (settles [] _ api_endpoint (at 2) (flaky api healthy 0) refl) refl
                  next (acts (ends (resolved api_endpoint _ ∷ []) [] db_endpoint _ refl) refl
                      next (leaves
                            (releases (performing api_endpoint ∷ []) [] db_endpoint 1 refl refl)
                            db_endpoint refl (omega arith)
                          next (schedules cancels refl refl
                              next (schedules (stops refl refl refl) refl refl
                                  next (acts (observes [] [] api_endpoint _ refl) refl
                                      next (acts (records [] [] api_endpoint _ refl) refl
                                          next (acts (ends [] [] api_endpoint _ refl) refl
                                              next (leaves
                                                    (releases [] (reporting db_endpoint ∷ [])
                                                      api_endpoint 0 refl refl)
                                                    api_endpoint refl (omega arith)
                                                  next (schedules
                                                        (gives_up [] (reporting db_endpoint ∷ [])
                                                          api_endpoint refl refl)
                                                        refl refl
                                                      next (schedules
                                                            (gives_up (returned ∷ []) [] db_endpoint
                                                            refl refl)
                                                            refl refl
                                                          next not_yet _))))))))))))),
  (refl, (refl, tt)),
)

whole_run-Inv_example : (ended.0.pool.calls ≡ []) × Inv ended.0.pool.begun ended.0.pool.service
whole_run-Inv_example =
    whole_run-Inv thousandths unsorted (api_endpoint ∷ db_endpoint ∷ []) options (at 0) ended.0
      (append first both_inside.0 ended.0 both_inside.1 ended.1) ended.2
