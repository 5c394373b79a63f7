-- ===== src/Monitor/Scheduler/Kept.antt =====
-- internal/monitor/service.go: that an endpoint in flight is on its way, until the context is done.
use service_reliability_watc.Common.{
  length, ◌≤◌, ◌≡◌, sym, ◌∙◌, true, false, [], ◌∷◌, count_p-append, arith, Bool-cases, inl, inr,
}
use service_reliability_watc.Common.Int.{pos, ltb_ℤ}
use service_reliability_watc.Common.Text.{Text, text_eq, text_eq_iff}
use service_reliability_watc.Common.Clock.{Time}
use service_reliability_watc.Domain.Types.{Endpoint}
use service_reliability_watc.Monitor.Scheduler.{
  idle, holding, performing, reporting, returned, Scheduler, is_in_flight, is_waiting, offer,
  complete, Step, ticks, rounds, stops_in_tick, completes, stops, cancels, takes, acquires, skips,
  releases, reports, gives_up, returns, Steps, here, ◌then◌,
}
use service_reliability_watc.Monitor.Scheduler.Invariant.{
  flag, flag-insert, has_id, works_on, places, moved, offer_keeps,
}

module _ {F : Type 0} where
  abbrev pub Kept : Scheduler F → Type 0
  Kept s = s.cancelled ≡ false → (id : Text) → flag (is_in_flight s id) ≤ places s id

  pub offer-Kept :
      (current : Time) (s : Scheduler F) (e : Endpoint F) (id : Text)
      → flag (is_in_flight s id) ≤ places s id
      → flag (is_in_flight (offer current s e) id) ≤ places (offer current s e) id
  unfolding offer
  offer-Kept current s e id h = elim (Bool-cases (is_waiting current s e.id)) [
    | inl waits ↦ rw (waits, offer) h
    | inr due ↦ elim (Bool-cases (ltb_ℤ (pos (length s.jobs)) s.queue_size)) [
      | inl room ↦
          rw (due, room, offer, flag-insert e.id id true s.in_flight)
            (ground (
              arith,
              count_p-append (has_id id) s.jobs (e ∷ []),
              text_eq_iff id e.id,
              text_eq_iff e.id id,
            ))
      | inr full ↦ rw (due, full, offer) h
    ]
  ]

  Step-Kept : (s t : Scheduler F) → Step s t → Kept s → Kept t
  unfolding complete
  Step-Kept s t (ticks current r o) k live id = k live id
  Step-Kept s t (rounds e rest r o x) k live id =
      offer-Kept s.tick_at s e id (k (sym (offer_keeps s.tick_at s e).1 ∙ live) id)
  Step-Kept s t (stops_in_tick e rest r o w c) k live id = k live id
  Step-Kept s t (completes now done rest r o h) k live id =
      let was = k live id in
      rw (flag-insert done id false s.in_flight)
        (ground (arith, h, text_eq_iff id done, text_eq_iff done id))
  Step-Kept s t (stops r o c) k live id = k live id
  Step-Kept s t cancels k live id = cc live
  Step-Kept s t (takes left right e rest h q) k live id =
      ground (arith, k live id, q, moved (works_on id) s left right idle (holding e) h)
  Step-Kept s t (acquires left right e h room) k live id =
      ground (arith, k live id, moved (works_on id) s left right (holding e) (performing e) h)
  Step-Kept s t (skips left right e h c) k live id = cc (live, c)
  Step-Kept s t (releases left right e n h q) k live id =
      ground (arith, k live id, moved (works_on id) s left right (performing e) (reporting e) h)
  Step-Kept s t (reports left right e h room) k live id = ground (
    arith,
    k live id,
    count_p-append (text_eq id) s.done (e.id ∷ []),
    moved (works_on id) s left right (reporting e) idle h,
  )
  Step-Kept s t (gives_up left right e h c) k live id = cc (live, c)
  Step-Kept s t (returns left right h c q) k live id =
      ground (arith, k live id, moved (works_on id) s left right idle returned h)

  pub Steps-Kept : (s t : Scheduler F) → Steps s t → Kept s → Kept t
  Steps-Kept s _ (here _) k = k
  Steps-Kept s u (◌then◌ {t = t} a rest) k = Steps-Kept t u rest (Step-Kept s t a k)
