-- ===== src/Monitor/Scheduler.antt =====
-- internal/monitor/service.go: Run and worker. The goroutines interleave: a step is one action of the
-- loop of Run, where each endpoint of a tick is an action of its own, or of a worker. A channel is the list of what it holds, oldest first. A queue of size 0
-- is taken as always full; in Go it hands a job to a worker that waits, and applyDefaults rules it
-- out. `perform` itself is Monitor/Perform.antt: here it lasts from `acquire` to `release`.
pub mod Start
pub mod Invariant
pub mod Runs
pub mod Kept
pub mod Tick
pub mod Drain
pub mod Shutdown
pub mod Known
pub mod Room
use service_reliability_watc.Common.{
  ℕ, zero, suc, ◌+◌, ◌≡◌, Bool, true, false, not, ◌&&◌, ◌||◌, Option, none, some, List, [], ◌∷◌,
  ◌++◌, if◌then◌else◌, length,
}
use service_reliability_watc.Common.Int.{ℤ, pos, ◌+ℤ◌, pos_part, ltb_ℤ}
use service_reliability_watc.Common.Text.{Text}
use service_reliability_watc.Common.Assoc.{Assoc, lookup, insert}
use service_reliability_watc.Common.Clock.{Time, Duration, zero_time, before, add}
use service_reliability_watc.Common.Result.{Result, ok, err}
use service_reliability_watc.Domain.Types.{Endpoint}
use service_reliability_watc.Store.Types.{Repository}
use service_reliability_watc.Monitor.Types.{Options, Service}

-- Where a worker stands: at `range jobs`, at the select on the semaphore, in perform, at the select on
-- `done`, or returned.
pub data Worker (F : Type 0) : Type 0 where
  idle : Worker F
  holding : Endpoint F → Worker F
  performing : Endpoint F → Worker F
  reporting : Endpoint F → Worker F
  returned : Worker F

-- The variables of Run; `offering` has the endpoints that the loop of the tick at `tick_at` has yet to
-- come to, and is empty outside of a tick. `stopped` says that Run has left its loop and closed `jobs`, `cancelled` that
-- the context is done; `dropped` counts the calls of QueueDropped.
pub record Scheduler (F : Type 0) : Type 0 where
  pub endpoints : List (Endpoint F)
  pub by_id : Assoc (Endpoint F)
  pub queue_size : ℤ
  pub concurrency_limit : ℤ
  pub done_size : ℤ
  pub jobs : List (Endpoint F)
  pub done : List Text
  pub semaphore : ℕ
  pub workers : List (Worker F)
  pub next : Assoc Time
  pub in_flight : Assoc Bool
  pub tick_at : Time
  pub offering : List (Endpoint F)
  pub dropped : ℕ
  pub cancelled : Bool
  pub stopped : Bool

-- A missing key of a map reads as the zero value.
abbrev pub flag_or_false : Option Bool → Bool
flag_or_false none = false
flag_or_false (some b) = b

abbrev pub time_or_zero : Option Time → Time
time_or_zero none = zero_time
time_or_zero (some t) = t

abbrev pub interval_or_zero : {F : Type 0} → Option (Endpoint F) → Duration
interval_or_zero none = pos 0
interval_or_zero (some e) = e.interval

module _ {F : Type 0} where
  abbrev pub is_in_flight : Scheduler F → Text → Bool
  is_in_flight s id = flag_or_false (lookup id s.in_flight)

  abbrev pub next_of : Scheduler F → Text → Time
  next_of s id = time_or_zero (lookup id s.next)

  -- What the tick passes over.
  abbrev pub is_waiting : Time → Scheduler F → Text → Bool
  is_waiting current s id = is_in_flight s id || before current (next_of s id)

  -- One round of the loop of a tick: the endpoint waits, is queued, or is dropped.
  unfoldable pub offer : Time → Scheduler F → Endpoint F → Scheduler F
  offer current s e =
      if is_waiting current s e.id
      then s
      else if ltb_ℤ (pos (length s.jobs)) s.queue_size
      then record s { jobs = s.jobs ++ e ∷ []; in_flight = insert e.id true s.in_flight }
      else record s { dropped = s.dropped + 1; next = insert e.id (add current e.interval) s.next }

  -- Whether that round finds the queue full, so that the select has no send to make.
  abbrev pub is_full : Scheduler F → Bool
  is_full s = not (ltb_ℤ (pos (length s.jobs)) s.queue_size)

  -- `case endpointID := <-done`, with the reading of the clock.
  unfoldable pub complete : Time → Text → List Text → Scheduler F → Scheduler F
  complete now id rest s = record s {
    done = rest;
    in_flight = insert id false s.in_flight;
    next = insert id (add now (interval_or_zero (lookup id s.by_id))) s.next;
  }

  -- The loop that fills `next`.
  due_at : Time → Assoc Time → List (Endpoint F) → Assoc Time
  due_at now m [] = m
  due_at now m (e ∷ es) = due_at now (insert e.id now m) es

  idle_workers : ℕ → List (Worker F)
  idle_workers zero = []
  idle_workers (suc n) = idle ∷ idle_workers n

  -- Run before its loop.
  unfoldable pub launched : {R : Type 0} → Service F R → Time → Scheduler F
  unfolding due_at idle_workers
  launched s now = record {
    endpoints = s.endpoints;
    by_id = s.by_id;
    queue_size = s.options.queue_size;
    concurrency_limit = s.options.concurrency_limit;
    done_size = pos (length s.endpoints) +ℤ s.options.workers;
    jobs = [];
    done = [];
    semaphore = 0;
    workers = idle_workers (pos_part s.options.workers);
    next = due_at now [] s.endpoints;
    in_flight = [];
    tick_at = now;
    offering = [];
    dropped = 0;
    cancelled = false;
    stopped = false;
  }

  -- One action. A worker is one of the list, between those before and those after it.
  pub data Step (s : Scheduler F) : Scheduler F → Type 0 where
    -- `case current := <-ticker.C`, with the whole loop still to come.
    ticks :
        (current : Time)
        → s.stopped ≡ false
        → s.offering ≡ []
        → Step s (record s { tick_at = current; offering = s.endpoints })
    -- One round of the loop. The select does not drop an endpoint once the context is done.
    rounds :
        (e : Endpoint F) (rest : List (Endpoint F))
        → s.stopped ≡ false
        → s.offering ≡ e ∷ rest
        → (not (is_waiting s.tick_at s e.id) && is_full s && s.cancelled) ≡ false
        → Step s (record (offer s.tick_at s e) { offering = rest })
    -- The context is done, and the select of the round takes that case.
    stops_in_tick :
        (e : Endpoint F) (rest : List (Endpoint F))
        → s.stopped ≡ false
        → s.offering ≡ e ∷ rest
        → is_waiting s.tick_at s e.id ≡ false
        → s.cancelled ≡ true
        → Step s (record s { stopped = true })
    completes :
        (now : Time) (id : Text) (rest : List Text)
        → s.stopped ≡ false
        → s.offering ≡ []
        → s.done ≡ id ∷ rest
        → Step s (complete now id rest s)
    stops :
        s.stopped ≡ false
        → s.offering ≡ []
        → s.cancelled ≡ true
        → Step s (record s { stopped = true })
    cancels : Step s (record s { cancelled = true })
    takes :
        (left right : List (Worker F)) (e : Endpoint F) (rest : List (Endpoint F))
        → s.workers ≡ left ++ idle ∷ right
        → s.jobs ≡ e ∷ rest
        → Step s (record s { jobs = rest; workers = left ++ holding e ∷ right })
    acquires :
        (left right : List (Worker F)) (e : Endpoint F)
        → s.workers ≡ left ++ holding e ∷ right
        → ltb_ℤ (pos s.semaphore) s.concurrency_limit ≡ true
        → Step s (record s { semaphore = s.semaphore + 1; workers = left ++ performing e ∷ right })
    -- The context is done before the semaphore has room.
    skips :
        (left right : List (Worker F)) (e : Endpoint F)
        → s.workers ≡ left ++ holding e ∷ right
        → s.cancelled ≡ true
        → Step s (record s { workers = left ++ reporting e ∷ right })
    -- perform has returned; Monitor/Running says when it has.
    releases :
        (left right : List (Worker F)) (e : Endpoint F) (n : ℕ)
        → s.workers ≡ left ++ performing e ∷ right
        → s.semaphore ≡ n + 1
        → Step s (record s { semaphore = n; workers = left ++ reporting e ∷ right })
    reports :
        (left right : List (Worker F)) (e : Endpoint F)
        → s.workers ≡ left ++ reporting e ∷ right
        → ltb_ℤ (pos (length s.done)) s.done_size ≡ true
        → Step s (record s { done = s.done ++ e.id ∷ []; workers = left ++ idle ∷ right })
    -- The context is done before `done` has room.
    gives_up :
        (left right : List (Worker F)) (e : Endpoint F)
        → s.workers ≡ left ++ reporting e ∷ right
        → s.cancelled ≡ true
        → Step s (record s { workers = left ++ returned ∷ right })
    -- `jobs` is closed and empty.
    returns :
        (left right : List (Worker F))
        → s.workers ≡ left ++ idle ∷ right
        → s.stopped ≡ true
        → s.jobs ≡ []
        → Step s (record s { workers = left ++ returned ∷ right })

  infixr 5 ◌then◌
  pub data Steps : Scheduler F → Scheduler F → Type 0 where
    here : (s : Scheduler F) → Steps s s
    ◌then◌ : {s t u : Scheduler F} → Step s t → Steps t u → Steps s u
