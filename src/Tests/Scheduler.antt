-- ===== src/Tests/Scheduler.antt =====
-- internal/monitor/service.go: one check on its way through the queue and a worker.
use service_reliability_watc.Common.Clock.{before}
use service_reliability_watc.Common.{
  ℕ, ◌≤◌, ◌⊎◌, ◌≡◌, refl, true, [], ◌∷◌, length, count_p, All, arith,
}
use service_reliability_watc.Common.Int.{pos, ltb_ℤ, ◌≤ℤ◌}
use service_reliability_watc.Common.Text.{Text, text_eq}
use service_reliability_watc.Common.Assoc.{lookup, insert}
use service_reliability_watc.Store.Memory.{Memory, new_memory}
use service_reliability_watc.Monitor.Types.{Service, new_service}
use service_reliability_watc.Monitor.Scheduler.{
  Scheduler, idle, holding, performing, reporting, cancels, stops, skips, is_in_flight, next_of,
  offer, launched, ticks, rounds, takes, acquires, Steps, here, ◌then◌,
}
use service_reliability_watc.Monitor.Scheduler.Invariant.{flag, is_performing, places}
use service_reliability_watc.Monitor.Scheduler.Runs.{run-Sound}
use service_reliability_watc.Monitor.Scheduler.Drain.{work, all_moves, IsReturned, CanMove}
use service_reliability_watc.Monitor.Scheduler.Shutdown.{run-drains}
use service_reliability_watc.Monitor.Scheduler.Room.{run-has_room}
use service_reliability_watc.Monitor.Scheduler.Tick.{round-loses_none}
use service_reliability_watc.Tests.Data.{at, api_endpoint, db_endpoint, options}

abbrev service : Service ℕ (Memory ℕ)
service = new_service (api_endpoint ∷ db_endpoint ∷ []) new_memory options

abbrev begun : Scheduler ℕ
begun = launched service (at 0)

-- The first worker is in perform for the API, the second holds the database.
abbrev busy : Scheduler ℕ
busy = record (offer (at 1) (offer (at 1) begun api_endpoint) db_endpoint) {
  jobs = [];
  tick_at = at 1;
  semaphore = 1;
  workers = performing api_endpoint ∷ holding db_endpoint ∷ [];
}

busy-Steps : Steps begun busy
unfolding launched new_service offer lookup insert text_eq
busy-Steps =
    ticks (at 1) refl refl
    then rounds api_endpoint (db_endpoint ∷ []) refl refl refl
    then takes [] (idle ∷ []) api_endpoint [] refl refl
    then rounds db_endpoint [] refl refl refl
    then takes (holding api_endpoint ∷ []) [] db_endpoint [] refl refl
    then acquires [] (holding db_endpoint ∷ []) api_endpoint refl refl
    then here _

run-Sound_example :
    ((id : Text) → places busy id ≤ flag (is_in_flight busy id))
    × ((id : Text) → (busy.cancelled ≡ true) ⊎ (places busy id ≡ flag (is_in_flight busy id)))
    × (pos (length busy.jobs) ≤ℤ pos 10)
    × (pos (count_p is_performing busy.workers) ≤ℤ pos 2)
unfolding new_service
run-Sound_example = run-Sound service (at 0) busy (omega arith) (omega arith) busy-Steps

-- A worker has taken the API, and the loop of the tick comes to the database.
abbrev between : Scheduler ℕ
between = record (offer (at 1) begun api_endpoint) {
  jobs = [];
  workers = holding api_endpoint ∷ idle ∷ [];
  tick_at = at 1;
  offering = db_endpoint ∷ [];
}

between-Steps : Steps begun between
unfolding launched new_service offer lookup insert text_eq
between-Steps =
    ticks (at 1) refl refl
    then rounds api_endpoint (db_endpoint ∷ []) refl refl refl
    then takes [] (idle ∷ []) api_endpoint [] refl refl
    then here _

abbrev offered : Scheduler ℕ
offered = offer (at 1) between db_endpoint

round-loses_none_example :
    ((is_in_flight offered db_endpoint.id ≡ true) × (1 ≤ places offered db_endpoint.id))
    ⊎ (before (at 1) (next_of offered db_endpoint.id) ≡ true)
unfolding launched new_service offer lookup insert text_eq
round-loses_none_example =
    round-loses_none service (at 0) between db_endpoint [] between-Steps refl refl (omega arith)

-- The context is done, and Run leaves its loop while the workers go on.
abbrev left_loop : Scheduler ℕ
left_loop = record busy { cancelled = true; stopped = true }

left_loop-Steps : Steps begun left_loop
unfolding launched new_service offer lookup insert text_eq
left_loop-Steps =
    ticks (at 1) refl refl
    then rounds api_endpoint (db_endpoint ∷ []) refl refl refl
    then takes [] (idle ∷ []) api_endpoint [] refl refl
    then rounds db_endpoint [] refl refl refl
    then takes (holding api_endpoint ∷ []) [] db_endpoint [] refl refl
    then acquires [] (holding db_endpoint ∷ []) api_endpoint refl refl
    then cancels
    then stops refl refl refl
    then here _

-- Then the database's worker skips its check.
abbrev skipped : Scheduler ℕ
skipped = record left_loop { workers = performing api_endpoint ∷ reporting db_endpoint ∷ [] }

abbrev skipping : Steps left_loop skipped
skipping = skips (performing api_endpoint ∷ []) [] db_endpoint refl refl then here _

run-drains_example :
    (all_moves skipping ≤ work left_loop) × (All IsReturned skipped.workers ⊎ CanMove skipped)
unfolding new_service
run-drains_example =
    run-drains service (at 0) left_loop skipped (omega arith) (omega arith) left_loop-Steps refl
      skipping

-- In which the worker finds room for its report.
skipped-Steps : Steps begun skipped
unfolding launched new_service offer lookup insert text_eq
skipped-Steps =
    ticks (at 1) refl refl
    then rounds api_endpoint (db_endpoint ∷ []) refl refl refl
    then takes [] (idle ∷ []) api_endpoint [] refl refl
    then rounds db_endpoint [] refl refl refl
    then takes (holding api_endpoint ∷ []) [] db_endpoint [] refl refl
    then acquires [] (holding db_endpoint ∷ []) api_endpoint refl refl
    then cancels
    then stops refl refl refl
    then skips (performing api_endpoint ∷ []) [] db_endpoint refl refl
    then here _

run-has_room_example : ltb_ℤ (pos (length skipped.done)) skipped.done_size ≡ true
unfolding new_service
run-has_room_example =
    run-has_room service (at 0) skipped (performing api_endpoint ∷ []) [] db_endpoint (omega arith)
      (omega arith) skipped-Steps refl
