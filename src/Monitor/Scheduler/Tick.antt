-- ===== src/Monitor/Scheduler/Tick.antt =====
-- internal/monitor/service.go: what the round of a tick does to its endpoint.
use service_reliability_watc.Common.{
  ◌≤◌, ◌≡◌, ap, false, ◌⊎◌, true, List, ◌∷◌, length, arith, Bool-cases, inl, inr,
}
use service_reliability_watc.Common.Int.{pos, ltb_ℤ, ◌<ℤ◌, +ℤ_parts}
use service_reliability_watc.Common.Text.{text_eq_refl}
use service_reliability_watc.Common.Assoc.{lookup-insert}
use service_reliability_watc.Common.Clock.{Time, Duration, before, add}
use service_reliability_watc.Domain.Types.{Endpoint}
use service_reliability_watc.Monitor.Scheduler.{
  Scheduler, is_in_flight, next_of, is_waiting, offer, launched, Steps,
}
use service_reliability_watc.Monitor.Scheduler.Invariant.{flag, places}
use service_reliability_watc.Monitor.Scheduler.Kept.{offer-Kept, Steps-Kept}
use service_reliability_watc.Monitor.Scheduler.Runs.{launched-Kept}
use service_reliability_watc.Monitor.Types.{Service}

before-add : (t : Time) (d : Duration) → pos 0 <ℤ d → before t (add t d) ≡ true
unfolding add
before-add t d h = ground (arith, +ℤ_parts t d)

module _ {F : Type 0} where
  -- The endpoint that a round is about waits after it.
  offer-waits :
      (current : Time) (s : Scheduler F) (e : Endpoint F)
      → pos 0 <ℤ e.interval
      → is_waiting current (offer current s e) e.id ≡ true
  unfolding offer
  offer-waits current s e h = elim (Bool-cases (is_waiting current s e.id)) [
    | inl waits ↦ rw (waits, offer) waits
    | inr due ↦ elim (Bool-cases (ltb_ℤ (pos (length s.jobs)) s.queue_size)) [
      | inl room ↦
          rw (due, room, offer)
            (ground (arith, lookup-insert e.id e.id true s.in_flight, text_eq_refl e.id))
      | inr full ↦
          rw (due, full, offer)
            (ground (
              arith,
              lookup-insert e.id e.id (add current e.interval) s.next,
              text_eq_refl e.id,
              before-add current e.interval h,
            ))
    ]
  ]

-- Until the context is done, a tick loses no endpoint: as its round for an endpoint with a positive
-- interval is over, in any state that a run can reach, the endpoint is in flight and among the queued
-- jobs, the workers and the reports of the `done` channel, or its next check is due after the instant of
-- the tick.
pub round-loses_none :
    {F R : Type 0} (v : Service F R) (now : Time) (s : Scheduler F) (e : Endpoint F)
    (rest : List (Endpoint F))
    → Steps (launched v now) s
    → s.cancelled ≡ false
    → s.offering ≡ e ∷ rest
    → pos 0 <ℤ e.interval
    → ((is_in_flight (offer s.tick_at s e) e.id ≡ true) × (1 ≤ places (offer s.tick_at s e) e.id))
      ⊎ (before s.tick_at (next_of (offer s.tick_at s e) e.id) ≡ true)
round-loses_none v now s e rest steps live coming positive =
    let kept =
      offer-Kept s.tick_at s e e.id
        (Steps-Kept (launched v now) s steps (launched-Kept v now) live e.id) in
    elim (Bool-cases (is_in_flight (offer s.tick_at s e) e.id)) [
      | inl going ↦ inl (going, omega (arith, kept, ap flag going))
      | inr free ↦ inr (ground (arith, offer-waits s.tick_at s e positive, free))
    ]
