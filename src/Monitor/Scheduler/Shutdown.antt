-- ===== src/Monitor/Scheduler/Shutdown.antt =====
-- internal/monitor/service.go: that Run returns once its context is done and it has left its loop.
use service_reliability_watc.Common.{◌≤◌, ◌≡◌, refl, sym, ◌∙◌, ◌⊎◌, true, [], All, arith}
use service_reliability_watc.Common.Int.{pos, ◌≤ℤ◌}
use service_reliability_watc.Common.Clock.{Time}
use service_reliability_watc.Monitor.Types.{Service}
use service_reliability_watc.Monitor.Scheduler.{
  Scheduler, complete, launched, Step, ticks, rounds, stops_in_tick, completes, stops, cancels,
  takes, acquires, skips, releases, reports, gives_up, returns, Steps, here, ◌then◌,
}
use service_reliability_watc.Monitor.Scheduler.Runs.{Steps-Sound, launched-Sound}
use service_reliability_watc.Monitor.Scheduler.Invariant.{offer_keeps}
use service_reliability_watc.Monitor.Scheduler.Drain.{
  work, all_moves, Steps-drains, IsReturned, CanMove, workers-CanMove,
}

module _ {F : Type 0} where
  -- Run leaves its loop only when the context is done.
  abbrev StopsForReason : Scheduler F → Type 0
  StopsForReason s = s.stopped ≡ true → s.cancelled ≡ true

  Step-StopsForReason : (s t : Scheduler F) → Step s t → StopsForReason s → StopsForReason t
  unfolding complete
  Step-StopsForReason s t (ticks current r o) k h = k h
  Step-StopsForReason s t (rounds e rest r o x) k h =
      let (stopped, cancelled) = offer_keeps s.tick_at s e in cancelled ∙ k (sym stopped ∙ h)
  Step-StopsForReason s t (stops_in_tick e rest r o w c) k h = c
  Step-StopsForReason s t (completes now id rest r o q) k h = k h
  Step-StopsForReason s t (stops r o c) k h = c
  Step-StopsForReason s t cancels k h = refl
  Step-StopsForReason s t (takes left right e rest w q) k h = k h
  Step-StopsForReason s t (acquires left right e w room) k h = k h
  Step-StopsForReason s t (skips left right e w c) k h = k h
  Step-StopsForReason s t (releases left right e n w q) k h = k h
  Step-StopsForReason s t (reports left right e w room) k h = k h
  Step-StopsForReason s t (gives_up left right e w c) k h = k h
  Step-StopsForReason s t (returns left right w c q) k h = k h

  Steps-StopsForReason : (s t : Scheduler F) → Steps s t → StopsForReason s → StopsForReason t
  Steps-StopsForReason s _ (here _) k = k
  Steps-StopsForReason s u (◌then◌ {t = t} a rest) k =
      Steps-StopsForReason t u rest (Step-StopsForReason s t a k)

-- Once Run has left its loop, with sizes that are not negative: of whatever follows, at most `work` steps
-- are moves of the workers, four for each queued job and at most four for each worker; and as long as a
-- worker has not returned, one of them can move, where a worker inside perform moves by coming out of
-- it. So the workers all return, provided that each call of perform does.
pub run-drains :
    {F R : Type 0} (v : Service F R) (now : Time) (t u : Scheduler F)
    → pos 0 ≤ℤ v.options.queue_size
    → pos 0 ≤ℤ v.options.concurrency_limit
    → Steps (launched v now) t
    → t.stopped ≡ true
    → (xs : Steps t u) → (all_moves xs ≤ work t) × (All IsReturned u.workers ⊎ CanMove u)
unfolding launched
run-drains v now t u q c before h xs =
    let (h', moved) = Steps-drains t u xs h in
    let sound = (Steps-Sound (launched v now) t before (launched-Sound v now q c)).0 in
    let sound' = (Steps-Sound t u xs sound).0 in
    let reason = Steps-StopsForReason (launched v now) t before (λ e. cc e) in
    (
      omega (arith, moved),
      workers-CanMove u [] u.workers sound' h' (Steps-StopsForReason t u xs reason h') refl,
    )
