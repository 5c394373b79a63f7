-- ===== src/Monitor/Scheduler/Room.antt =====
-- internal/monitor/service.go: that the buffer of `done` has room for every worker.
use service_reliability_watc.Common.{
  ℕ, zero, suc, ◌≤◌, ◌≡◌, refl, sym, subst, ◌∙◌, Bool, true, false, List, [], ◌∷◌, ◌++◌, length,
  length-append, All, count_p, arith,
}
use service_reliability_watc.Common.Int.{pos, pos_part, ltb_ℤ, ◌≤ℤ◌, +ℤ_parts}
use service_reliability_watc.Common.Text.{Text, text_eq}
use service_reliability_watc.Common.Assoc.{lookup}
use service_reliability_watc.Common.Clock.{Time}
use service_reliability_watc.Domain.Types.{Endpoint}
use service_reliability_watc.Monitor.Types.{Service}
use service_reliability_watc.Monitor.Scheduler.{
  Worker, idle, holding, performing, reporting, returned, Scheduler, is_in_flight, offer, complete,
  launched, idle_workers, Step, ticks, rounds, stops_in_tick, completes, stops, cancels, takes,
  acquires, skips, releases, reports, gives_up, returns, Steps, here, ◌then◌,
}
use service_reliability_watc.Monitor.Scheduler.Invariant.{flag, Sound}
use service_reliability_watc.Monitor.Scheduler.Runs.{Steps-Sound, launched-Sound}
use service_reliability_watc.Monitor.Scheduler.Known.{
  times_in, length-le-occurrences, occurrences-le-length, counted-All, ids_of, OnlyKnown, All-known,
  offer-OnlyKnown, complete-OnlyKnown,
}

length-idle_workers : (F : Type 0) (n : ℕ) → length (idle_workers {F = F} n) ≡ n
unfolding idle_workers
length-idle_workers F zero = refl
length-idle_workers F (suc n) = omega (arith, length-idle_workers F n)

module _ {F : Type 0} where
  -- What Run does not change.
  record SameShape (s t : Scheduler F) : Type 0 where
    same_endpoints : t.endpoints ≡ s.endpoints
    same_done_size : t.done_size ≡ s.done_size
    same_workers : length t.workers ≡ length s.workers

  SameShape-refl : (s : Scheduler F) → SameShape s s
  SameShape-refl s = record { same_endpoints = refl; same_done_size = refl; same_workers = refl }

  SameShape-trans : (s t u : Scheduler F) → SameShape s t → SameShape t u → SameShape s u
  SameShape-trans s t u a b = record {
    same_endpoints = b.same_endpoints ∙ a.same_endpoints;
    same_done_size = b.same_done_size ∙ a.same_done_size;
    same_workers = b.same_workers ∙ a.same_workers;
  }

  offer-SameShape :
      (current : Time) (s : Scheduler F) (e : Endpoint F) → SameShape s (offer current s e)
  unfolding offer
  offer-SameShape current s e = record {
    same_endpoints = ground arith;
    same_done_size = ground arith;
    same_workers = ground arith;
  }

  replace-SameShape :
      (s t : Scheduler F) (left right : List (Worker F)) (a b : Worker F)
      → s.workers ≡ left ++ a ∷ right
      → t.workers ≡ left ++ b ∷ right
      → t.endpoints ≡ s.endpoints
      → t.done_size ≡ s.done_size
      → SameShape s t
  replace-SameShape s t left right a b h k e d = record {
    same_endpoints = e;
    same_done_size = d;
    same_workers =
        rw (h, k) (omega (arith, length-append left (a ∷ right), length-append left (b ∷ right)));
  }

  Step-SameShape : (s t : Scheduler F) → Step s t → SameShape s t
  unfolding complete
  Step-SameShape s t (ticks current r o) = record {
    same_endpoints = refl;
    same_done_size = refl;
    same_workers = refl;
  }
  Step-SameShape s t (rounds e rest r o k) =
      let same = offer-SameShape s.tick_at s e in
      record {
        same_endpoints = same.same_endpoints;
        same_done_size = same.same_done_size;
        same_workers = same.same_workers;
      }
  Step-SameShape s t (stops_in_tick e rest r o w c) = record {
    same_endpoints = refl;
    same_done_size = refl;
    same_workers = refl;
  }
  Step-SameShape s t (completes now id rest r o h) = record {
    same_endpoints = refl;
    same_done_size = refl;
    same_workers = refl;
  }
  Step-SameShape s t (stops r o c) = record {
    same_endpoints = refl;
    same_done_size = refl;
    same_workers = refl;
  }
  Step-SameShape s t cancels = record {
    same_endpoints = refl;
    same_done_size = refl;
    same_workers = refl;
  }
  Step-SameShape s t (takes left right e rest h q) =
      replace-SameShape s t left right idle (holding e) h refl refl refl
  Step-SameShape s t (acquires left right e h room) =
      replace-SameShape s t left right (holding e) (performing e) h refl refl refl
  Step-SameShape s t (skips left right e h c) =
      replace-SameShape s t left right (holding e) (reporting e) h refl refl refl
  Step-SameShape s t (releases left right e n h q) =
      replace-SameShape s t left right (performing e) (reporting e) h refl refl refl
  Step-SameShape s t (reports left right e h room) =
      replace-SameShape s t left right (reporting e) idle h refl refl refl
  Step-SameShape s t (gives_up left right e h c) =
      replace-SameShape s t left right (reporting e) returned h refl refl refl
  Step-SameShape s t (returns left right h c q) =
      replace-SameShape s t left right idle returned h refl refl refl

  -- Only the endpoints are in flight, or still to come in a tick.
  abbrev AllKnown : List Text → Scheduler F → Type 0
  AllKnown ids s = OnlyKnown ids s × All (λ e. 1 ≤ times_in e.id ids) s.offering

  Step-AllKnown :
      (s t : Scheduler F)
      → Step s t
      → AllKnown (ids_of s.endpoints) s
      → AllKnown (ids_of s.endpoints) t
  unfolding complete
  Step-AllKnown s t (ticks current r o) k = (k.0, All-known s.endpoints)
  Step-AllKnown s t (rounds e rest r o x) k =
      let known = subst (All (λ d. 1 ≤ times_in d.id (ids_of s.endpoints))) o k.1 in
      (offer-OnlyKnown (ids_of s.endpoints) s.tick_at s e known.0 k.0, known.1)
  Step-AllKnown s t (stops_in_tick e rest r o w c) k = k
  Step-AllKnown s t (completes now done rest r o h) k =
      (complete-OnlyKnown (ids_of s.endpoints) now done rest s k.0, k.1)
  Step-AllKnown s t (stops r o c) k = k
  Step-AllKnown s t cancels k = k
  Step-AllKnown s t (takes left right e rest h q) k = k
  Step-AllKnown s t (acquires left right e h room) k = k
  Step-AllKnown s t (skips left right e h c) k = k
  Step-AllKnown s t (releases left right e n h q) k = k
  Step-AllKnown s t (reports left right e h room) k = k
  Step-AllKnown s t (gives_up left right e h c) k = k
  Step-AllKnown s t (returns left right h c q) k = k

  Steps-AllKnown :
      (s t : Scheduler F)
      → Steps s t
      → AllKnown (ids_of s.endpoints) s
      → SameShape s t × AllKnown (ids_of s.endpoints) t
  Steps-AllKnown s _ (here _) k = (SameShape-refl s, k)
  Steps-AllKnown s u (◌then◌ {t = t} a rest) k =
      let one = Step-SameShape s t a in
      let known = subst (λ es. AllKnown (ids_of es) t) (sym one.same_endpoints) in
      let (more, last) = Steps-AllKnown t u rest (known (Step-AllKnown s t a k)) in
      (SameShape-trans s t u one more, subst (λ es. AllKnown (ids_of es) u) one.same_endpoints last)

  length-ids_of : (es : List (Endpoint F)) → length (ids_of es) ≡ length es
  length-ids_of [] = refl
  length-ids_of (e ∷ es) = omega (arith, length-ids_of es)

  -- `done` holds each endpoint at most once.
  done-is_short :
      (ids : List Text) (s : Scheduler F) → Sound s → OnlyKnown ids s → length s.done ≤ length ids
  done-is_short ids s i k =
      let few : (id : Text) → count_p (text_eq id) s.done ≤ flag (is_in_flight s id) =
        λ id. omega (arith, i.once id) in
      let known : (id : Text) → count_p (text_eq id) s.done ≤ times_in id ids =
        λ id. omega (arith, few id, k id) in
      let once : (id : Text) → count_p (text_eq id) s.done ≤ 1 =
        λ id. omega (arith, few id, flag-le-one (is_in_flight s id)) in
      omega (
        arith,
        length-le-occurrences ids s.done (counted-All ids s.done known),
        occurrences-le-length ids s.done once,
      )
    where
      flag-le-one : (b : Bool) → flag b ≤ 1
      flag-le-one true = omega arith
      flag-le-one false = omega arith

-- However the goroutines of Run interleave, with sizes that are not negative: a worker that wants to
-- report the end of a check finds room in the buffer of `done`, also when several endpoints have one
-- id, so that the loop of Run never keeps a worker waiting there.
pub run-has_room :
    {F R : Type 0} (v : Service F R) (now : Time) (t : Scheduler F) (left right : List (Worker F))
    (e : Endpoint F)
    → pos 0 ≤ℤ v.options.queue_size
    → pos 0 ≤ℤ v.options.concurrency_limit
    → Steps (launched v now) t
    → t.workers ≡ left ++ reporting e ∷ right
    → ltb_ℤ (pos (length t.done)) t.done_size ≡ true
unfolding launched lookup
run-has_room {F} v now t left right e q c steps h =
    let (sound, _) = Steps-Sound (launched v now) t steps (launched-Sound v now q c) in
    let (same, known) = Steps-AllKnown (launched v now) t steps (λ id. ground arith, tt) in
    let n = pos_part v.options.workers in
    let some_worker : 1 ≤ length t.workers =
      rw h (omega (arith, length-append left (reporting e ∷ right))) in
    rw same.same_done_size (
      ground (
        arith,
        done-is_short (ids_of v.endpoints) t sound known.0,
        length-ids_of v.endpoints,
        length-idle_workers F n,
        same.same_workers,
        some_worker,
        +ℤ_parts (pos (length v.endpoints)) v.options.workers,
      ))
