-- ===== src/Monitor/Scheduler/Runs.antt =====
-- internal/monitor/service.go: every run of Run and its workers, from its start.
use service_reliability_watc.Common.{
  ℕ, zero, suc, ◌≤◌, ◌≡◌, refl, true, ◌⊎◌, inl, inr, Bool-cases, ◌∙◌, length, count_p, arith,
}
use service_reliability_watc.Common.Int.{pos, pos_part, ◌≤ℤ◌}
use service_reliability_watc.Common.Text.{Text}
use service_reliability_watc.Common.Assoc.{lookup}
use service_reliability_watc.Common.Clock.{Time}
use service_reliability_watc.Domain.Types.{Endpoint}
use service_reliability_watc.Monitor.Types.{Service}
use service_reliability_watc.Monitor.Scheduler.{
  Scheduler, is_in_flight, offer, complete, idle_workers, launched, Step, ticks, rounds,
  stops_in_tick, completes, stops, cancels, takes, acquires, skips, releases, reports, gives_up,
  returns, Steps, here, ◌then◌,
}
use service_reliability_watc.Monitor.Scheduler.Kept.{Kept, Steps-Kept}
use service_reliability_watc.Monitor.Scheduler.Invariant.{
  flag, works_on, is_performing, places, Sound, Step-Sound,
}

idle-works_on :
    (F : Type 0) (id : Text) (n : ℕ) → count_p (works_on {F = F} id) (idle_workers n) ≡ 0
unfolding idle_workers
idle-works_on F id zero = refl
idle-works_on F id (suc n) = idle-works_on F id n

idle-is_performing : (F : Type 0) (n : ℕ) → count_p (is_performing {F = F}) (idle_workers n) ≡ 0
unfolding idle_workers
idle-is_performing F zero = refl
idle-is_performing F (suc n) = idle-is_performing F n

-- The settings of Run do not change.
abbrev pub SameSettings : {F : Type 0} → Scheduler F → Scheduler F → Type 0
SameSettings s t = (t.queue_size ≡ s.queue_size) × (t.concurrency_limit ≡ s.concurrency_limit)

module _ {F : Type 0} where
  offer-SameSettings :
      (current : Time) (s : Scheduler F) (e : Endpoint F) → SameSettings s (offer current s e)
  unfolding offer
  offer-SameSettings current s e = ground arith

  Step-SameSettings : (s t : Scheduler F) → Step s t → SameSettings s t
  unfolding complete
  Step-SameSettings s t (ticks current r o) = (refl, refl)
  Step-SameSettings s t (rounds e rest r o k) = offer-SameSettings s.tick_at s e
  Step-SameSettings s t (stops_in_tick e rest r o w c) = (refl, refl)
  Step-SameSettings s t (completes now id rest r o h) = (refl, refl)
  Step-SameSettings s t (stops r o c) = (refl, refl)
  Step-SameSettings s t cancels = (refl, refl)
  Step-SameSettings s t (takes left right e rest h q) = (refl, refl)
  Step-SameSettings s t (acquires left right e h room) = (refl, refl)
  Step-SameSettings s t (skips left right e h c) = (refl, refl)
  Step-SameSettings s t (releases left right e n h q) = (refl, refl)
  Step-SameSettings s t (reports left right e h room) = (refl, refl)
  Step-SameSettings s t (gives_up left right e h c) = (refl, refl)
  Step-SameSettings s t (returns left right h c q) = (refl, refl)

  pub Steps-Sound : (s t : Scheduler F) → Steps s t → Sound s → Sound t × SameSettings s t
  Steps-Sound s _ (here _) i = (i, (refl, refl))
  Steps-Sound s u (◌then◌ {t = t} a rest) i =
      let (j, same) = Steps-Sound t u rest (Step-Sound s t a i) in
      let (queue, limit) = same in
      let (queue', limit') = Step-SameSettings s t a in (j, (queue ∙ queue', limit ∙ limit'))

  pub launched-Sound :
      {R : Type 0} (v : Service F R) (now : Time)
      → pos 0 ≤ℤ v.options.queue_size
      → pos 0 ≤ℤ v.options.concurrency_limit
      → Sound (launched v now)
  unfolding launched
  launched-Sound v now q c = record {
    once = λ id. ground (arith, idle-works_on F id (pos_part v.options.workers));
    queued = q;
    counted = idle-is_performing F (pos_part v.options.workers);
    limited = c;
  }

-- At the start nothing is in flight.
pub launched-Kept : {F R : Type 0} (v : Service F R) (now : Time) → Kept (launched v now)
unfolding launched lookup
launched-Kept v now live id = ground arith

-- However the loop of Run and its workers interleave, with sizes that are not negative and with a
-- cancellation at any point: an endpoint is at most once among the queued jobs, the workers and the
-- reports of the `done` channel together, and not at all unless it is marked as in flight; until the
-- context is done, one that is marked as in flight is there exactly once. The queue holds at most
-- queueSize jobs, and at most concurrencyLimit workers are inside perform.
pub run-Sound :
    {F R : Type 0} (v : Service F R) (now : Time) (t : Scheduler F)
    → pos 0 ≤ℤ v.options.queue_size
    → pos 0 ≤ℤ v.options.concurrency_limit
    → Steps (launched v now) t
    → ((id : Text) → places t id ≤ flag (is_in_flight t id))
      × ((id : Text) → (t.cancelled ≡ true) ⊎ (places t id ≡ flag (is_in_flight t id)))
      × (pos (length t.jobs) ≤ℤ v.options.queue_size)
      × (pos (count_p is_performing t.workers) ≤ℤ v.options.concurrency_limit)
unfolding launched
run-Sound v now t q c steps =
    let (i, (queue, limit)) = Steps-Sound (launched v now) t steps (launched-Sound v now q c) in
    let kept = Steps-Kept (launched v now) t steps (launched-Kept v now) in
    (
      i.once,
      λ id. elim (Bool-cases t.cancelled) [
        | inl over ↦ inl over
        | inr live ↦ inr (omega (arith, i.once id, kept live id))
      ],
      ground (arith, i.queued, queue),
      ground (arith, i.limited, i.counted, limit),
    )
