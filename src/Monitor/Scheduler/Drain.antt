-- ===== src/Monitor/Scheduler/Drain.antt =====
-- internal/monitor/service.go: the end of Run, `close(jobs)` and `workers.Wait()`.
use service_reliability_watc.Common.{
  ℕ, zero, suc, ◌+◌, ◌*◌, ◌≤◌, ◌≡◌, ◌⊎◌, inl, inr, refl, sym, ap, ◌∙◌, true, List, [], ◌∷◌, ◌++◌,
  length, sum_of, sum_of-replace, All, count_p, count_p-append, arith,
}
use mathlib.Core.List.{append_assoc}
use service_reliability_watc.Domain.Types.{Endpoint}
use service_reliability_watc.Monitor.Scheduler.{
  Worker, idle, holding, performing, reporting, returned, Scheduler, Step, ticks, rounds,
  stops_in_tick, completes, stops, cancels, takes, acquires, skips, releases, reports, gives_up,
  returns, Steps, here, ◌then◌,
}
use service_reliability_watc.Monitor.Scheduler.Invariant.{is_performing, Sound}

module _ {F : Type 0} where
  -- How many steps a worker is away from its return, when nothing is left to take.
  abbrev pub steps_left : Worker F → ℕ
  steps_left idle = 1
  steps_left (holding e) = 4
  steps_left (performing e) = 3
  steps_left (reporting e) = 2
  steps_left returned = 0

  -- A bound on the steps until every worker has returned; each queued job takes four.
  abbrev pub work : Scheduler F → ℕ
  work s = 4 * length s.jobs + sum_of steps_left s.workers

  -- 1 for a step, and 0 for the event that the context is done.
  abbrev pub moves : {s t : Scheduler F} → Step s t → ℕ
  moves cancels = 0
  moves _ = 1

  abbrev pub all_moves : {s t : Scheduler F} → Steps s t → ℕ
  all_moves (here s) = 0
  all_moves (a then rest) = moves a + all_moves rest

  Step-drains :
      (s t : Scheduler F) (a : Step s t)
      → s.stopped ≡ true
      → (t.stopped ≡ true) × (moves a + work t ≤ work s)
  Step-drains s t (ticks current r o) h = absurd (cc (sym h ∙ r))
  Step-drains s t (rounds e rest r o k) h = absurd (cc (sym h ∙ r))
  Step-drains s t (stops_in_tick e rest r o w c) h = absurd (cc (sym h ∙ r))
  Step-drains s t (completes now id rest r o q) h = absurd (cc (sym h ∙ r))
  Step-drains s t (stops r o c) h = absurd (cc (sym h ∙ r))
  Step-drains s t cancels h = (h, omega arith)
  Step-drains s t (takes left right e rest w q) h = (
    h,
    omega (arith, ap length q, sum_of-replace steps_left s.workers left right idle (holding e) w),
  )
  Step-drains s t (acquires left right e w room) h = (
    h,
    omega (arith, sum_of-replace steps_left s.workers left right (holding e) (performing e) w),
  )
  Step-drains s t (skips left right e w c) h =
      (h, omega (arith, sum_of-replace steps_left s.workers left right (holding e) (reporting e) w))
  Step-drains s t (releases left right e n w q) h = (
    h,
    omega (arith, sum_of-replace steps_left s.workers left right (performing e) (reporting e) w),
  )
  Step-drains s t (reports left right e w room) h =
      (h, omega (arith, sum_of-replace steps_left s.workers left right (reporting e) idle w))
  Step-drains s t (gives_up left right e w c) h =
      (h, omega (arith, sum_of-replace steps_left s.workers left right (reporting e) returned w))
  Step-drains s t (returns left right w c q) h =
      (h, omega (arith, sum_of-replace steps_left s.workers left right idle returned w))

  pub Steps-drains :
      (s t : Scheduler F) (xs : Steps s t)
      → s.stopped ≡ true
      → (t.stopped ≡ true) × (all_moves xs + work t ≤ work s)
  Steps-drains s _ (here _) h = (h, omega arith)
  Steps-drains s u (◌then◌ {t = t} a rest) h =
      let (h', one) = Step-drains s t a h in
      let (h'', more) = Steps-drains t u rest h' in (h'', omega (arith, one, more))

  abbrev pub IsReturned : Worker F → Type 0
  IsReturned w = w ≡ returned

  -- Whether a worker goes on after the context is done.
  abbrev pub CanMove : Scheduler F → Type 0
  CanMove s = (t : Scheduler F) × (a : Step s t) × (moves a ≡ 1)

  performing_counted :
      (left right : List (Worker F)) (e : Endpoint F)
      → 1 ≤ count_p is_performing (left ++ performing e ∷ right)
  performing_counted left right e =
      ground (arith, count_p-append is_performing left (performing e ∷ right))

  worker-CanMove :
      (s : Scheduler F) (left right : List (Worker F)) (w : Worker F)
      → Sound s
      → s.stopped ≡ true
      → s.cancelled ≡ true
      → s.workers ≡ left ++ w ∷ right
      → IsReturned w ⊎ CanMove s
  worker-CanMove s left right idle i h c e = idle-moves s.jobs refl
    where
      idle-moves : (js : List (Endpoint F)) → s.jobs ≡ js → IsReturned idle ⊎ CanMove s
      idle-moves [] q = inr (_, returns left right e h q, refl)
      idle-moves (j ∷ js) q = inr (_, takes left right j js e q, refl)
  worker-CanMove s left right (holding j) i h c e = inr (_, skips left right j e c, refl)
  worker-CanMove s left right (performing j) i h c e = released s.semaphore refl
    where
      released : (n : ℕ) → s.semaphore ≡ n → IsReturned (performing j) ⊎ CanMove s
      released zero q =
          absurd (
            ground
              (arith, i.counted, ap (count_p is_performing) e, performing_counted left right j))
      released (suc n) q = inr (_, releases left right j n e (omega (arith, q)), refl)
  worker-CanMove s left right (reporting j) i h c e = inr (_, gives_up left right j e c, refl)
  worker-CanMove s left right returned i h c e = inl refl

  -- A worker that has not returned can move, wherever it is in the list.
  pub workers-CanMove :
      (s : Scheduler F) (left right : List (Worker F))
      → Sound s
      → s.stopped ≡ true
      → s.cancelled ≡ true
      → s.workers ≡ left ++ right
      → All IsReturned right ⊎ CanMove s
  workers-CanMove s left [] i h c e = inl tt
  workers-CanMove s left (w ∷ right) i h c e = elim (worker-CanMove s left right w i h c e) [
    | inr can ↦ inr can
    | inl done ↦
        elim (workers-CanMove s (left ++ w ∷ []) right i h c
          (e ∙ sym (append_assoc left (w ∷ []) right))) [
            | inl rest ↦ inl (done, rest)
            | inr can ↦ inr can
          ]
  ]
