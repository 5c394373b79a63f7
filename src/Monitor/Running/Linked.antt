-- ===== src/Monitor/Running/Linked.antt =====
-- internal/monitor/service.go: every call of perform belongs to a worker inside perform.
use service_reliability_watc.Common.{
  ℕ, ◌+◌, ◌≤◌, ◌<◌, subst, ◌≡◌, refl, ap, inl, inr, Bool, true, false, none, some, [], ◌∷◌, sum_of,
  sum_of-append, sum_of-replace, sum_of-remove, arith, Bool-cases,
}
use mathlib.Core.Option.{some-injective}
use service_reliability_watc.Common.Float.{Float64}
use service_reliability_watc.Common.Text.{Text, text_eq, text_eq_iff}
use service_reliability_watc.Common.Clock.{Time}
use service_reliability_watc.Domain.Types.{Endpoint}
use service_reliability_watc.Store.Types.{Repository}
use service_reliability_watc.Resilience.Circuit.{allow}
use service_reliability_watc.Monitor.Scheduler.Invariant.{flag}
use service_reliability_watc.Monitor.Perform.{settle}
use service_reliability_watc.Monitor.Types.{Options}
use service_reliability_watc.Monitor.Scheduler.{
  idle, holding, performing, reporting, returned, Scheduler, offer, complete, Step, ticks, rounds,
  stops_in_tick, completes, stops, cancels, takes, acquires, skips, releases, reports, gives_up,
  returns,
}
use service_reliability_watc.Monitor.Perform.Concurrent.{
  asking, checking, resolved, told, stored, Pool, first_call, asked_call, Action, begins, asks,
  settles, observes, records, ends, retried,
}
use service_reliability_watc.Monitor.Running.{
  Running, calls_for, performs_for, entered, left_with, is_begin, Joint, schedules, enters, acts,
  leaves, Joints, not_yet, ◌next◌,
}

module _ {F : Type 0} where
  abbrev pub performs : Scheduler F → Text → ℕ
  performs s id = sum_of (performs_for id) s.workers

  offer-workers :
      (current : Time) (s : Scheduler F) (e : Endpoint F) → (offer current s e).workers ≡ s.workers
  unfolding offer
  offer-workers current s e = ground arith

  -- The workers inside perform, before and after a step.
  Step-performs :
      (s t : Scheduler F) (a : Step s t) (id : Text)
      → entered a ≡ none
      → left_with a ≡ none
      → performs t id ≡ performs s id
  unfolding complete
  Step-performs s t (ticks current r o) id _ _ = refl
  Step-performs s t (rounds e rest r o k) id _ _ =
      ap (sum_of (performs_for id)) (offer-workers s.tick_at s e)
  Step-performs s t (stops_in_tick e rest r o w c) id _ _ = refl
  Step-performs s t (completes now x rest r o h) id _ _ = refl
  Step-performs s t (stops r o c) id _ _ = refl
  Step-performs s t cancels id _ _ = refl
  Step-performs s t (takes left right e rest h q) id _ _ =
      omega (arith, sum_of-replace (performs_for id) s.workers left right idle (holding e) h)
  Step-performs s t (acquires left right e h room) id x _ = cc x
  Step-performs s t (skips left right e h c) id _ _ =
      omega
        (arith, sum_of-replace (performs_for id) s.workers left right (holding e) (reporting e) h)
  Step-performs s t (releases left right e n h q) id _ x = cc x
  Step-performs s t (reports left right e h room) id _ _ =
      omega (arith, sum_of-replace (performs_for id) s.workers left right (reporting e) idle h)
  Step-performs s t (gives_up left right e h c) id _ _ =
      omega (arith, sum_of-replace (performs_for id) s.workers left right (reporting e) returned h)
  Step-performs s t (returns left right h c q) id _ _ =
      omega (arith, sum_of-replace (performs_for id) s.workers left right idle returned h)

  Step-entered :
      (s t : Scheduler F) (a : Step s t) (e : Endpoint F) (id : Text)
      → entered a ≡ some e
      → performs t id ≡ performs s id + flag (text_eq e.id id)
  Step-entered s t (acquires left right e' h room) e id x = omega (
    arith,
    sum_of-replace (performs_for id) s.workers left right (holding e') (performing e') h,
    ap (λ d. performs_for id (performing d)) (some-injective e' e x),
  )
  Step-entered s t _ e id x = cc x

  Step-left :
      (s t : Scheduler F) (a : Step s t) (e : Endpoint F) (id : Text)
      → left_with a ≡ some e
      → performs t id + flag (text_eq e.id id) ≡ performs s id
  Step-left s t (releases left right e' n h q) e id x = omega (
    arith,
    sum_of-replace (performs_for id) s.workers left right (performing e') (reporting e') h,
    ap (λ d. performs_for id (performing d)) (some-injective e' e x),
  )
  Step-left s t _ e id x = cc x

  first-calls_for :
      (o : Options) (e : Endpoint F) (now : Time) (id : Text)
      → calls_for id (first_call o e now) ≡ flag (text_eq e.id id)
  first-calls_for o e now id = elim (Bool-cases (o.maintenance e.id now)) [
    | inl during ↦ rw during refl
    | inr outside ↦ rw outside refl
  ]

  asked-calls_for :
      (e : Endpoint F) (now : Time) (allowed : Bool) (id : Text)
      → calls_for id (asked_call e now allowed) ≡ calls_for id (asking e now)
  asked-calls_for e now true id = refl
  asked-calls_for e now false id = refl

module _ {F R : Type 0} (fl : Float64 F) (repository : Repository F R) where
  abbrev pub calls_of : Pool F R → Text → ℕ
  calls_of p id = sum_of (calls_for id) p.calls

  -- An action of a call under way adds no call.
  Action-calls :
      (p q : Pool F R) (a : Action fl repository p q) (id : Text)
      → is_begin fl repository a ≡ false
      → calls_of q id ≤ calls_of p id
  Action-calls p q (begins e now) id x = cc x
  Action-calls p q (asks left right e now h) id _ =
      let call = asked_call e now (allow p.service.breaker e.id now).1 in
      omega (
        arith,
        sum_of-replace (calls_for id) p.calls left right (asking e now) call h,
        asked-calls_for e now (allow p.service.breaker e.id now).1 id,
      )
  Action-calls p q (settles left right e later world h) id _ = omega (
    arith,
    sum_of-replace (calls_for id) p.calls left right (checking e)
        (resolved e
          (settle p.service.breaker e.id later (retried fl repository p.service.options e world)).1)
        h,
  )
  Action-calls p q (observes left right e r h) id _ =
      omega (arith, sum_of-replace (calls_for id) p.calls left right (resolved e r) (told e r) h)
  Action-calls p q (records left right e r h) id _ = omega (
    arith,
    sum_of-replace (calls_for id) p.calls left right (told e r)
        (stored e (repository.record_result p.service.repo r p.service.options.alert_dedupe).1) h,
  )
  Action-calls p q (ends left right e outcome h) id _ =
      omega (arith, sum_of-remove (calls_for id) p.calls left right (stored e outcome) h)

  -- At most as many calls for an endpoint as workers inside perform with it.
  abbrev pub Linked : Running F R → Type 0
  Linked j = (id : Text) → calls_of j.pool id ≤ performs j.scheduler id

  Joint-Linked : (j k : Running F R) → Joint fl repository j k → Linked j → Linked k
  Joint-Linked j k (schedules {t = t} a x y) i id =
      omega (arith, i id, Step-performs j.scheduler t a id x y)
  Joint-Linked j k (enters {t = t} a e now x) i id = omega (
    arith,
    i id,
    Step-entered j.scheduler t a e id x,
    sum_of-append (calls_for id) j.pool.calls (first_call j.pool.service.options e now ∷ []),
    first-calls_for j.pool.service.options e now id,
  )
  Joint-Linked j k (acts {q = q} a x) i id = omega (arith, i id, Action-calls j.pool q a id x)
  Joint-Linked j k (leaves {t = t} a e x fewer) i id =
      let out = Step-left j.scheduler t a e id x in
      elim (Bool-cases (text_eq e.id id)) [
        | inl same ↦
            let at_id =
              subst (λ key. calls_of j.pool key < performs j.scheduler key)
                ((text_eq_iff e.id id).0 same) fewer in
            omega (arith, out, at_id, ap flag same)
        | inr other ↦ omega (arith, i id, out, ap flag other)
      ]

  pub Joints-Linked : (j k : Running F R) → Joints fl repository j k → Linked j → Linked k
  Joints-Linked j _ (not_yet _) i = i
  Joints-Linked i l (◌next◌ {j = j} a rest) h = Joints-Linked j l rest (Joint-Linked i j a h)
