-- ===== src/Monitor/Running/Whole.antt =====
-- internal/monitor/service.go: a run of the service as a whole, over the repository in memory.
use service_reliability_watc.Common.{true, ◌⊎◌, ◌≤◌, ◌≡◌, List, [], All, sum_of, length, arith}
use service_reliability_watc.Common.Float.{Float64}
use service_reliability_watc.Common.Int.{pos, ◌≤ℤ◌}
use service_reliability_watc.Common.Text.{Text}
use service_reliability_watc.Common.Clock.{Time}
use service_reliability_watc.Domain.Types.{Endpoint, Alert}
use service_reliability_watc.Store.Types.{Repository}
use service_reliability_watc.Store.Memory.{Memory, new_memory, upsert_endpoints, results_of}
use service_reliability_watc.Store.Memory.Repository.{memory_repository}
use service_reliability_watc.Monitor.Types.{Options, new_service}
use service_reliability_watc.Monitor.Scheduler.{is_in_flight, Steps, here, ◌then◌}
use service_reliability_watc.Monitor.Scheduler.Drain.{IsReturned}
use service_reliability_watc.Monitor.Scheduler.Start.{run_start}
use service_reliability_watc.Monitor.Perform.Report.{Inv}
use service_reliability_watc.Monitor.Perform.Concurrent.{Actions, begins, none_yet, ◌and◌}
use service_reliability_watc.Monitor.Perform.Concurrent.Invariant.{Sound}
use service_reliability_watc.Monitor.Perform.Concurrent.Interleaved.{
  fresh-Sound, Sound-Inv, Actions-Sound,
}
use service_reliability_watc.Monitor.Running.{
  Running, calls_for, started, schedules, enters, acts, leaves, Joints, not_yet, ◌next◌,
}
use service_reliability_watc.Monitor.Scheduler.Invariant.{flag, places}
use service_reliability_watc.Monitor.Scheduler.Runs.{run-Sound}
use service_reliability_watc.Monitor.Running.Counts.{
  returned-performs_for, no_calls, performs_for-works_on, length-calls,
}
use service_reliability_watc.Monitor.Running.Linked.{Linked, Joints-Linked}

module _ {F R : Type 0} (fl : Float64 F) (repository : Repository F R) where
  -- What a run is of the scheduler alone, and of the calls alone.
  Joints-Steps : (j k : Running F R) → Joints fl repository j k → Steps j.scheduler k.scheduler
  Joints-Steps j _ (not_yet _) = here j.scheduler
  Joints-Steps i k (◌next◌ {j = j} (schedules a x y) rest) = a then Joints-Steps j k rest
  Joints-Steps i k (◌next◌ {j = j} (enters a e now x) rest) = a then Joints-Steps j k rest
  Joints-Steps i k (◌next◌ {j = j} (acts a x) rest) = Joints-Steps j k rest
  Joints-Steps i k (◌next◌ {j = j} (leaves a e x fewer) rest) = a then Joints-Steps j k rest

  Joints-Actions :
      (j k : Running F R) → Joints fl repository j k → Actions fl repository j.pool k.pool
  Joints-Actions j _ (not_yet _) = none_yet j.pool
  Joints-Actions i k (◌next◌ {j = j} (schedules a x y) rest) = Joints-Actions j k rest
  Joints-Actions i k (◌next◌ {j = j} (enters a e now x) rest) =
      begins e now and Joints-Actions j k rest
  Joints-Actions i k (◌next◌ {j = j} (acts a x) rest) = a and Joints-Actions j k rest
  Joints-Actions i k (◌next◌ {j = j} (leaves a e x fewer) rest) = Joints-Actions j k rest

module _ {F : Type 0} (fl : Float64 F) (sort : List Alert → List Alert)
    (endpoints : List (Endpoint F)) (options : Options) (now : Time) where
  -- The start of Run on a new service.
  abbrev pub new_run : Running F (Memory F)
  new_run = started fl (memory_repository F sort) (new_service endpoints new_memory options) now

  new_run-Linked : Linked fl (memory_repository F sort) new_run
  unfolding started
  new_run-Linked id = omega arith

  new_run-Sound : Sound new_run.pool
  unfolding started run_start upsert_endpoints new_service results_of
  new_run-Sound =
      let i = fresh-Sound fl sort endpoints options in
      record {
        held = i.held;
        consistent = i.consistent;
        spaced = i.spaced;
        all_observed = i.all_observed;
        all_alerted = i.all_alerted;
        no_errors = i.no_errors;
      }

  -- However Run, its workers and the actions of their calls interleave, from the start on a new service
  -- over an empty store in memory: once every worker has returned, no call of perform is under way,
  -- and the service is as calls leave it: one observation for each call that began, as many alerts told
  -- as stored, no storage error, transitions that are the changes of state along the results, alerts of
  -- one dedupe key never closer than the dedupe window, and no circuit in its half-open probe.
  pub whole_run-Inv :
      (j : Running F (Memory F))
      → Joints fl (memory_repository F sort) new_run j
      → All IsReturned j.scheduler.workers
      → (j.pool.calls ≡ []) × Inv j.pool.begun j.pool.service
  whole_run-Inv j steps over =
      let repository = memory_repository F sort in
      let linked = Joints-Linked fl repository new_run j steps new_run-Linked in
      let none_left =
        no_calls j.pool.calls
          (λ id. omega (arith, linked id, returned-performs_for id j.scheduler.workers over)) in
      let sound =
        Actions-Sound fl sort new_run.pool j.pool (Joints-Actions fl repository new_run j steps)
          new_run-Sound in
      (none_left, Sound-Inv fl sort j.pool sound none_left)

  -- However Run, its workers and the actions of their calls interleave, from the start on a new service
  -- over an empty store in memory, with sizes that are not negative: at any moment, at most one call of
  -- perform is under way for each endpoint, and none for one that is not marked as in flight; until the
  -- context is done, an endpoint that is marked as in flight is exactly once among the queued jobs, the
  -- workers and the reports of `done`; and at most concurrencyLimit calls are under way in all.
  pub whole_run-bounds :
      (j : Running F (Memory F))
      → pos 0 ≤ℤ options.queue_size
      → pos 0 ≤ℤ options.concurrency_limit
      → Joints fl (memory_repository F sort) new_run j
      → ((id : Text) → sum_of (calls_for id) j.pool.calls ≤ flag (is_in_flight j.scheduler id))
        × ((id : Text)
            → (j.scheduler.cancelled ≡ true)
              ⊎ (places j.scheduler id ≡ flag (is_in_flight j.scheduler id)))
        × (pos (length j.pool.calls) ≤ℤ options.concurrency_limit)
  unfolding started run_start new_service
  whole_run-bounds j q c steps =
      let repository = memory_repository F sort in
      let linked = Joints-Linked fl repository new_run j steps new_run-Linked in
      let (once, kept, queued, limited) =
        run-Sound new_run.pool.service now j.scheduler q c
          (Joints-Steps fl repository new_run j steps) in
      (
        λ id. ground (arith, linked id, once id, performs_for-works_on id j.scheduler.workers),
        kept,
        ground (arith, limited, length-calls j.pool.calls j.scheduler.workers linked),
      )
