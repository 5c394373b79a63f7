-- ===== src/Monitor/Running.antt =====
-- internal/monitor/service.go: Run and its workers, together with the calls of perform that the workers
-- make. A call begins as its worker comes past the semaphore; the worker goes on when it has ended.
pub mod Linked
pub mod Counts
pub mod Whole
use service_reliability_watc.Common.{
  ℕ, ◌+◌, ◌<◌, ◌≡◌, Bool, true, false, Option, none, some, List, [], ◌∷◌, ◌++◌, if◌then◌else◌,
  sum_of,
}
use service_reliability_watc.Common.Float.{Float64}
use service_reliability_watc.Common.Text.{Text, text_eq}
use service_reliability_watc.Common.Clock.{Time}
use service_reliability_watc.Domain.Types.{Endpoint}
use service_reliability_watc.Store.Types.{Repository}
use service_reliability_watc.Monitor.Types.{Service}
use service_reliability_watc.Monitor.Scheduler.{
  Worker, performing, Scheduler, launched, Step, acquires, releases,
}
use service_reliability_watc.Monitor.Scheduler.Start.{run_start}
use service_reliability_watc.Monitor.Perform.Concurrent.{
  Call, asking, checking, resolved, told, stored, Pool, first_call, Action, begins,
}

pub record Running (F R : Type 0) : Type 0 where
  pub scheduler : Scheduler F
  pub pool : Pool F R

module _ {F : Type 0} where
  -- The endpoint of a call.
  abbrev pub call_id : Call F → Text
  call_id (asking e now) = e.id
  call_id (checking e) = e.id
  call_id (resolved e r) = e.id
  call_id (told e r) = e.id
  call_id (stored e o) = e.id

  -- 1 for a call, or for a worker inside perform, of the endpoint.
  abbrev pub calls_for : Text → Call F → ℕ
  calls_for id c = if text_eq (call_id c) id then 1 else 0

  abbrev pub performs_for : Text → Worker F → ℕ
  performs_for id (performing e) = if text_eq e.id id then 1 else 0
  performs_for id _ = 0

  -- The endpoint with which a step enters or leaves perform.
  abbrev pub entered : {s t : Scheduler F} → Step s t → Option (Endpoint F)
  entered (acquires left right e h room) = some e
  entered _ = none

  abbrev pub left_with : {s t : Scheduler F} → Step s t → Option (Endpoint F)
  left_with (releases left right e n h q) = some e
  left_with _ = none

module _ {F R : Type 0} (fl : Float64 F) (repository : Repository F R) where
  abbrev pub is_begin : {p q : Pool F R} → Action fl repository p q → Bool
  is_begin (begins e now) = true
  is_begin _ = false

  -- `s.perform(ctx, endpoint)`, with its reading of the clock.
  abbrev pub with_call : Endpoint F → Time → Pool F R → Pool F R
  with_call e now p = record p {
    calls = p.calls ++ first_call p.service.options e now ∷ [];
    begun = p.begun + 1;
  }

  -- One action of the program: of Run or a worker outside perform, of a worker that enters perform, of a
  -- call, or of a worker whose call has ended.
  pub data Joint (j : Running F R) : Running F R → Type 0 where
    schedules :
        {t : Scheduler F} (a : Step j.scheduler t)
        → entered a ≡ none
        → left_with a ≡ none
        → Joint j (record j { scheduler = t })
    enters :
        {t : Scheduler F} (a : Step j.scheduler t) (e : Endpoint F) (now : Time)
        → entered a ≡ some e
        → Joint j (record { scheduler = t; pool = with_call e now j.pool })
    acts :
        {q : Pool F R} (a : Action fl repository j.pool q)
        → is_begin a ≡ false
        → Joint j (record j { pool = q })
    leaves :
        {t : Scheduler F} (a : Step j.scheduler t) (e : Endpoint F)
        → left_with a ≡ some e
        → sum_of (calls_for e.id) j.pool.calls < sum_of (performs_for e.id) j.scheduler.workers
        → Joint j (record j { scheduler = t })

  infixr 5 ◌next◌
  pub data Joints : Running F R → Running F R → Type 0 where
    not_yet : (j : Running F R) → Joints j j
    ◌next◌ : {i j k : Running F R} → Joint i j → Joints j k → Joints i k

  -- Run at the start of its loop, where UpsertEndpoints has succeeded.
  unfoldable pub started : Service F R → Time → Running F R
  unfolding run_start
  started s now =
      let service = (run_start repository s now).0 in
      record {
        scheduler = launched service now;
        pool = record { service = service; calls = []; begun = 0 };
      }
