-- ===== src/Monitor/Running/Counts.antt =====
-- internal/monitor/service.go: the calls of perform, counted against the workers inside it.
use service_reliability_watc.Common.{
  ◌≤◌, ◌≡◌, refl, ap, inl, inr, true, List, [], ◌∷◌, ◌++◌, All, sum_of, sum_of-remove, length,
  count_p, count_p-append, arith, Bool-cases,
}
use service_reliability_watc.Common.Text.{Text, text_eq, text_eq_iff, text_eq_refl}
use service_reliability_watc.Domain.Types.{Endpoint}
use service_reliability_watc.Monitor.Scheduler.{
  Worker, idle, holding, performing, reporting, returned,
}
use service_reliability_watc.Monitor.Scheduler.Drain.{IsReturned}
use service_reliability_watc.Monitor.Scheduler.Invariant.{flag, works_on, is_performing}
use service_reliability_watc.Monitor.Perform.Concurrent.{Call}
use service_reliability_watc.Monitor.Running.{call_id, calls_for, performs_for}

module _ {F : Type 0} where
  pub returned-performs_for :
      (id : Text) (workers : List (Worker F))
      → All IsReturned workers
      → sum_of (performs_for id) workers ≡ 0
  returned-performs_for id [] h = refl
  returned-performs_for id (w ∷ ws) h =
      omega (arith, ap (performs_for id) h.0, returned-performs_for id ws h.1)

  pub no_calls :
      (calls : List (Call F)) → ((id : Text) → sum_of (calls_for id) calls ≡ 0) → calls ≡ []
  no_calls [] h = refl
  no_calls (c ∷ cs) h = absurd (ground (arith, h (call_id c), text_eq_refl (call_id c)))

  pub performs_for-works_on :
      (id : Text) (workers : List (Worker F))
      → sum_of (performs_for id) workers ≤ count_p (works_on id) workers
  performs_for-works_on id [] = omega arith
  performs_for-works_on id (idle ∷ ws) = ground (arith, performs_for-works_on id ws)
  performs_for-works_on id (holding e ∷ ws) = ground (arith, performs_for-works_on id ws)
  performs_for-works_on id (performing e ∷ ws) =
      ground (arith, performs_for-works_on id ws, text_eq_iff e.id id, text_eq_iff id e.id)
  performs_for-works_on id (reporting e ∷ ws) = ground (arith, performs_for-works_on id ws)
  performs_for-works_on id (returned ∷ ws) = ground (arith, performs_for-works_on id ws)

  -- One of the workers, inside perform with the endpoint.
  record Found (id : Text) (workers : List (Worker F)) : Type 0 where
    pub left : List (Worker F)
    pub right : List (Worker F)
    pub endpoint : Endpoint F
    pub there : workers ≡ left ++ performing endpoint ∷ right
    pub same : text_eq endpoint.id id ≡ true

  Found-later : (id : Text) (w : Worker F) (ws : List (Worker F)) → Found id ws → Found id (w ∷ ws)
  Found-later id w ws f = record {
    left = w ∷ f.left;
    right = f.right;
    endpoint = f.endpoint;
    there = ap (λ xs. w ∷ xs) f.there;
    same = f.same;
  }

  find_performing :
      (id : Text) (workers : List (Worker F))
      → 1 ≤ sum_of (performs_for id) workers
      → Found id workers
  find_performing id [] h = absurd (omega (arith, h))
  find_performing id (idle ∷ ws) h =
      Found-later id idle ws (find_performing id ws (omega (arith, h)))
  find_performing id (holding e ∷ ws) h =
      Found-later id (holding e) ws (find_performing id ws (omega (arith, h)))
  find_performing id (performing e ∷ ws) h = elim (Bool-cases (text_eq e.id id)) [
    | inl same ↦ record { left = []; right = ws; endpoint = e; there = refl; same = same }
    | inr other ↦
        Found-later id (performing e) ws (find_performing id ws (omega (arith, h, ap flag other)))
  ]
  find_performing id (reporting e ∷ ws) h =
      Found-later id (reporting e) ws (find_performing id ws (omega (arith, h)))
  find_performing id (returned ∷ ws) h =
      Found-later id returned ws (find_performing id ws (omega (arith, h)))

  -- Where no endpoint has more calls than workers inside perform, there are no more calls than such
  -- workers.
  pub length-calls :
      (calls : List (Call F)) (workers : List (Worker F))
      → ((id : Text) → sum_of (calls_for id) calls ≤ sum_of (performs_for id) workers)
      → length calls ≤ count_p is_performing workers
  length-calls [] workers h = omega arith
  length-calls (c ∷ cs) workers h =
      let f =
        find_performing (call_id c) workers
          (omega (arith, h (call_id c), ap flag (text_eq_refl (call_id c)))) in
      let same_id : f.endpoint.id ≡ call_id c = (text_eq_iff f.endpoint.id (call_id c)).0 f.same in
      let fewer = length-calls cs (f.left ++ f.right) (λ id. omega (
        arith,
        h id,
        sum_of-remove (performs_for id) workers f.left f.right (performing f.endpoint) f.there,
        ap (λ key. flag (text_eq key id)) same_id,
      )) in
      omega (
        arith,
        fewer,
        count_p-append is_performing f.left f.right,
        count_p-append is_performing f.left (performing f.endpoint ∷ f.right),
        ap (count_p is_performing) f.there,
      )
