-- ===== src/Monitor/Scheduler/Invariant.antt =====
-- internal/monitor/service.go: what holds however the goroutines of Run interleave.
use service_reliability_watc.Common.{
  ℕ, ◌+◌, ◌≤◌, ◌≡◌, Bool, true, false, List, [], ◌∷◌, ◌++◌, if◌then◌else◌, length, length-append,
  count_p, count_p-append, arith, Bool-cases, inl, inr,
}
use service_reliability_watc.Common.Int.{pos, ltb_ℤ, ◌≤ℤ◌}
use service_reliability_watc.Common.Text.{Text, text_eq, text_eq_iff}
use service_reliability_watc.Common.Assoc.{Assoc, lookup, insert, lookup-insert}
use service_reliability_watc.Common.Clock.{Time}
use service_reliability_watc.Domain.Types.{Endpoint}
use service_reliability_watc.Monitor.Scheduler.{
  Worker, idle, holding, performing, reporting, returned, Scheduler, flag_or_false, is_in_flight,
  is_waiting, offer, complete, Step, ticks, rounds, stops_in_tick, completes, stops, cancels, takes,
  acquires, skips, releases, reports, gives_up, returns, ◌then◌,
}

abbrev pub flag : Bool → ℕ
flag b = if b then 1 else 0

pub flag-insert :
    (k j : Text) (b : Bool) (m : Assoc Bool)
    → flag (flag_or_false (lookup j (insert k b m)))
      ≡ (if text_eq k j then flag b else flag (flag_or_false (lookup j m)))
flag-insert k j b m = ground (arith, lookup-insert k j b m)

module _ {F : Type 0} where
  -- An endpoint with the id, as a job or in the hands of a worker.
  abbrev pub has_id : Text → Endpoint F → Bool
  has_id id e = text_eq id e.id

  abbrev pub works_on : Text → Worker F → Bool
  works_on id idle = false
  works_on id (holding e) = text_eq id e.id
  works_on id (performing e) = text_eq id e.id
  works_on id (reporting e) = text_eq id e.id
  works_on id returned = false

  abbrev pub is_performing : Worker F → Bool
  is_performing (performing e) = true
  is_performing _ = false

  -- In how many places of the pipeline the endpoint is.
  abbrev pub places : Scheduler F → Text → ℕ
  places s id =
      count_p (has_id id) s.jobs + count_p (works_on id) s.workers + count_p (text_eq id) s.done

  pub record Sound (s : Scheduler F) : Type 0 where
    pub once : (id : Text) → places s id ≤ flag (is_in_flight s id)
    pub queued : pos (length s.jobs) ≤ℤ s.queue_size
    pub counted : count_p is_performing s.workers ≡ s.semaphore
    pub limited : pos s.semaphore ≤ℤ s.concurrency_limit

  pub offer_keeps :
      (current : Time) (s : Scheduler F) (e : Endpoint F)
      → ((offer current s e).stopped ≡ s.stopped) × ((offer current s e).cancelled ≡ s.cancelled)
  unfolding offer
  offer_keeps current s e = ground arith

  offer-places :
      (current : Time) (s : Scheduler F) (e : Endpoint F) (id : Text)
      → places s id ≤ flag (is_in_flight s id)
      → places (offer current s e) id ≤ flag (is_in_flight (offer current s e) id)
  unfolding offer
  offer-places current s e id h = elim (Bool-cases (is_waiting current s e.id)) [
    | inl waits ↦ rw (waits, offer) h
    | inr due ↦ elim (Bool-cases (ltb_ℤ (pos (length s.jobs)) s.queue_size)) [
      | inl room ↦
          rw (due, room, offer, flag-insert e.id id true s.in_flight)
            (ground (
              arith,
              count_p-append (has_id id) s.jobs (e ∷ []),
              text_eq_iff id e.id,
              text_eq_iff e.id id,
            ))
      | inr full ↦ rw (due, full, offer) h
    ]
  ]

  offer-Sound :
      (current : Time) (s : Scheduler F) (e : Endpoint F) → Sound s → Sound (offer current s e)
  unfolding offer
  offer-Sound current s e i = record {
    once = λ id. offer-places current s e id (i.once id);
    queued = ground (arith, i.queued, length-append s.jobs (e ∷ []));
    counted = ground (arith, i.counted);
    limited = ground (arith, i.limited);
  }

  complete-Sound :
      (now : Time) (id : Text) (rest : List Text) (s : Scheduler F)
      → s.done ≡ id ∷ rest
      → Sound s
      → Sound (complete now id rest s)
  unfolding complete
  complete-Sound now id rest s h i = record {
    once = λ k.
        let was = i.once k in
        rw (flag-insert id k false s.in_flight)
          (ground (arith, h, text_eq_iff k id, text_eq_iff id k));
    queued = i.queued;
    counted = i.counted;
    limited = i.limited;
  }

  -- One worker moves on: every count of workers changes by that worker.
  pub moved :
      (p : Worker F → Bool) (s : Scheduler F) (left right : List (Worker F)) (a b : Worker F)
      → s.workers ≡ left ++ a ∷ right
      → count_p p (left ++ b ∷ right) + count_p p (a ∷ [])
        ≡ count_p p s.workers + count_p p (b ∷ [])
  moved p s left right a b h =
      rw h (ground (arith, count_p-append p left (a ∷ right), count_p-append p left (b ∷ right)))

  pub Step-Sound : (s t : Scheduler F) → Step s t → Sound s → Sound t
  Step-Sound s t (ticks current r o) i = record {
    once = i.once;
    queued = i.queued;
    counted = i.counted;
    limited = i.limited;
  }
  Step-Sound s t (rounds e rest r o k) i =
      let j = offer-Sound s.tick_at s e i in
      record { once = j.once; queued = j.queued; counted = j.counted; limited = j.limited }
  Step-Sound s t (stops_in_tick e rest r o w c) i = record {
    once = i.once;
    queued = i.queued;
    counted = i.counted;
    limited = i.limited;
  }
  Step-Sound s t (completes now id rest r o h) i = complete-Sound now id rest s h i
  Step-Sound s t (stops r o c) i = record {
    once = i.once;
    queued = i.queued;
    counted = i.counted;
    limited = i.limited;
  }
  Step-Sound s t cancels i = record {
    once = i.once;
    queued = i.queued;
    counted = i.counted;
    limited = i.limited;
  }
  Step-Sound s t (takes left right e rest h q) i = record {
    once = λ id. ground (arith, i.once id, q, moved (works_on id) s left right idle (holding e) h);
    queued = ground (arith, i.queued, q);
    counted = omega (arith, i.counted, moved is_performing s left right idle (holding e) h);
    limited = i.limited;
  }
  Step-Sound s t (acquires left right e h room) i = record {
    once = λ id.
        ground (arith, i.once id, moved (works_on id) s left right (holding e) (performing e) h);
    queued = i.queued;
    counted =
        omega (arith, i.counted, moved is_performing s left right (holding e) (performing e) h);
    limited = ground arith;
  }
  Step-Sound s t (skips left right e h c) i = record {
    once = λ id.
        ground (arith, i.once id, moved (works_on id) s left right (holding e) (reporting e) h);
    queued = i.queued;
    counted =
        omega (arith, i.counted, moved is_performing s left right (holding e) (reporting e) h);
    limited = i.limited;
  }
  Step-Sound s t (releases left right e n h q) i = record {
    once = λ id.
        ground (arith, i.once id, moved (works_on id) s left right (performing e) (reporting e) h);
    queued = i.queued;
    counted =
        omega
          (arith, i.counted, q, moved is_performing s left right (performing e) (reporting e) h);
    limited = ground (arith, i.limited, q);
  }
  Step-Sound s t (reports left right e h room) i = record {
    once = λ id. ground (
      arith,
      i.once id,
      count_p-append (text_eq id) s.done (e.id ∷ []),
      moved (works_on id) s left right (reporting e) idle h,
    );
    queued = i.queued;
    counted = omega (arith, i.counted, moved is_performing s left right (reporting e) idle h);
    limited = i.limited;
  }
  Step-Sound s t (gives_up left right e h c) i = record {
    once =
        λ id. ground (arith, i.once id, moved (works_on id) s left right (reporting e) returned h);
    queued = i.queued;
    counted = omega (arith, i.counted, moved is_performing s left right (reporting e) returned h);
    limited = i.limited;
  }
  Step-Sound s t (returns left right h c q) i = record {
    once = λ id. ground (arith, i.once id, moved (works_on id) s left right idle returned h);
    queued = i.queued;
    counted = omega (arith, i.counted, moved is_performing s left right idle returned h);
    limited = i.limited;
  }
