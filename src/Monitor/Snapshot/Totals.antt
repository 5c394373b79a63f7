-- ===== src/Monitor/Snapshot/Totals.antt =====
-- internal/monitor/service.go: what the counts of a snapshot add up to.
use service_reliability_watc.Common.{
  ◌+◌, ◌≡◌, refl, subst, Bool, true, false, ◌||◌, none, some, List, [], ◌∷◌, ◌++◌, arith, length,
  count_p, count_p-append,
}
use service_reliability_watc.Common.Float.{Float64}
use service_reliability_watc.Common.Assoc.{Assoc}
use service_reliability_watc.Common.Clock.{Time}
use service_reliability_watc.Common.Result.{ok, ok-injective, >>=-eq-ok}
use service_reliability_watc.Domain.Types.{
  State, healthy, degraded, unavailable, maintenance, unknown, unset, state_eq, Endpoint,
  CheckResult, EndpointStatus, Aggregate, StatusSnapshot,
}
use service_reliability_watc.Store.Types.{Repository}
use service_reliability_watc.Monitor.Types.{Service}
use service_reliability_watc.Monitor.Snapshot.Statuses.{snapshot-built}
use service_reliability_watc.Monitor.Snapshot.{
  no_aggregate, add_by_state, add_state, endpoint_status, snapshot_loop, snapshot,
}

-- An endpoint whose latest result has the state.
abbrev pub is_in : {F : Type 0} → State → EndpointStatus F → Bool
is_in x s = elim s.last_result [ none ↦ false | some r ↦ state_eq r.state x ]

-- An endpoint with no result yet, or with one whose state is none of the four.
abbrev pub is_unknown : {F : Type 0} → EndpointStatus F → Bool
is_unknown s = elim s.last_result [
  | none ↦ true
  | some r ↦ state_eq r.state unknown || state_eq r.state unset
]

-- The counts of the statuses listed so far.
abbrev pub Counted : {F : Type 0} → List (EndpointStatus F) → Aggregate → Type 0
Counted ss a =
    (a.healthy_count ≡ count_p (is_in healthy) ss)
    × (a.degraded_count ≡ count_p (is_in degraded) ss)
    × (a.unavailable_count ≡ count_p (is_in unavailable) ss)
    × (a.maintenance_count ≡ count_p (is_in maintenance) ss)
    × (a.unknown_count ≡ count_p is_unknown ss)

add_state-Counted :
    {F : Type 0} (ss : List (EndpointStatus F)) (a : Aggregate) (s : EndpointStatus F)
    → Counted ss a
    → Counted (ss ++ s ∷ []) (add_state a s.last_result)
unfolding add_state add_by_state
add_state-Counted ss a s c = ground (
  arith,
  count_p-append (is_in healthy) ss (s ∷ []),
  count_p-append (is_in degraded) ss (s ∷ []),
  count_p-append (is_in unavailable) ss (s ∷ []),
  count_p-append (is_in maintenance) ss (s ∷ []),
  count_p-append is_unknown ss (s ∷ []),
)

module _ {F R : Type 0} (fl : Float64 F) (repository : Repository F R) (repo : R) (now : Time)
    (latest : Assoc CheckResult) where
  loop-Counted :
      (es : List (Endpoint F)) (ss : List (EndpointStatus F)) (a : Aggregate)
      (r : List (EndpointStatus F) × Aggregate)
      → snapshot_loop fl repository repo now latest ss a es ≡ ok r
      → Counted ss a
      → Counted r.0 r.1
  unfolding snapshot_loop
  loop-Counted [] ss a r h c = subst (λ x. Counted x.0 x.1) (ok-injective h) c
  loop-Counted (e ∷ es) ss a r h c =
      let (s, found, h') =
        >>=-eq-ok (endpoint_status fl repository repo now latest e)
          (λ s.
            snapshot_loop fl repository repo now latest (ss ++ s ∷ []) (add_state a s.last_result)
              es)
          h in
      loop-Counted es (ss ++ s ∷ []) (add_state a s.last_result) r h' (add_state-Counted ss a s c)

-- Every status is in one of the five counts.
counted_once :
    {F : Type 0} (ss : List (EndpointStatus F))
    → count_p (is_in healthy) ss
        + count_p (is_in degraded) ss
        + count_p (is_in unavailable) ss
        + count_p (is_in maintenance) ss
        + count_p is_unknown ss
      ≡ length ss
counted_once [] = refl
counted_once (s ∷ ss) = ground (arith, counted_once ss)

-- When Snapshot succeeds, its aggregate counts, for each of Healthy, Degraded, Unavailable and
-- Maintenance, the listed endpoints whose latest result has that state, and as unknown all the others;
-- the five counts add up to the total, which is the number of listed endpoints.
pub snapshot-totals :
    {F R : Type 0} (fl : Float64 F) (repository : Repository F R) (s : Service F R) (now : Time)
    (r : StatusSnapshot F) (latest : Assoc CheckResult)
    → repository.latest_results s.repo ≡ ok latest
    → snapshot fl repository s now ≡ ok r
    → Counted r.endpoints r.aggregate
      × (r.aggregate.total ≡ length r.endpoints)
      × (let a = r.aggregate in
          a.healthy_count + a.degraded_count + a.unavailable_count + a.maintenance_count
            + a.unknown_count
          ≡ a.total)
snapshot-totals fl repository s now r latest l h =
    let (built, loop, e) = snapshot-built fl repository s now r latest l h in
    let c : Counted built.0 built.1 =
      loop-Counted fl repository s.repo now latest s.endpoints [] no_aggregate built loop
        (refl, refl, refl, refl, refl) in
    rw e (c, refl, omega (arith, counted_once built.0, c.0, c.1, c.2, c.3, c.4))
