-- ===== src/Monitor/Snapshot/Statuses.antt =====
-- internal/monitor/service.go: the statuses of a snapshot, one by one.
use mathlib.Core.List.{append-nil, append_assoc, map-append}
use service_reliability_watc.Common.{
  ◌≡◌, sym, ap, ◌∙◌, List, [], ◌∷◌, ◌++◌, arith, length, length-map, All, All-append, map,
}
use service_reliability_watc.Common.Float.{Float64}
use service_reliability_watc.Common.Assoc.{Assoc, lookup}
use service_reliability_watc.Common.Clock.{Time}
use service_reliability_watc.Common.Result.{ok, ◌>>=◌, >>=-eq-ok}
use service_reliability_watc.Domain.Types.{
  Endpoint, CheckResult, EndpointStatus, Aggregate, StatusSnapshot,
}
use service_reliability_watc.Domain.Slo.{calculate_slo_counts}
use service_reliability_watc.Store.Types.{Repository}
use service_reliability_watc.Monitor.Types.{Service}
use service_reliability_watc.Monitor.Snapshot.{
  no_aggregate, finished, add_state, endpoint_status, snapshot_loop, snapshot,
}

-- A status shows the latest result of its endpoint, and as its uptime the availability.
abbrev pub IsStatusOf : {F : Type 0} → Assoc CheckResult → EndpointStatus F → Type 0
IsStatusOf latest s =
    (s.last_result ≡ lookup s.endpoint.id latest) × (s.uptime ≡ s.slo.availability)

module _ {F R : Type 0} (fl : Float64 F) (repository : Repository F R) (repo : R) (now : Time)
    (latest : Assoc CheckResult) where
  endpoint_status-IsStatusOf :
      (e : Endpoint F) (s : EndpointStatus F)
      → endpoint_status fl repository repo now latest e ≡ ok s
      → (s.endpoint ≡ e) × IsStatusOf latest s
  unfolding endpoint_status calculate_slo_counts
  endpoint_status-IsStatusOf e s h = ground arith

  -- The loop lists a status for each endpoint, in their order.
  loop-statuses :
      (es : List (Endpoint F)) (ss : List (EndpointStatus F)) (a : Aggregate)
      (r : List (EndpointStatus F) × Aggregate)
      → snapshot_loop fl repository repo now latest ss a es ≡ ok r
      → All (IsStatusOf latest) ss
      → (map (λ s. s.endpoint) r.0 ≡ map (λ s. s.endpoint) ss ++ es) × All (IsStatusOf latest) r.0
  unfolding snapshot_loop
  loop-statuses [] ss a r h k = ground (arith, append-nil (map (λ s. s.endpoint) ss))
  loop-statuses (e ∷ es) ss a r h k =
      let (s, found, h') =
        >>=-eq-ok (endpoint_status fl repository repo now latest e)
          (λ s.
            snapshot_loop fl repository repo now latest (ss ++ s ∷ []) (add_state a s.last_result)
              es)
          h in
      let (same, status) = endpoint_status-IsStatusOf e s found in
      let (order, all) =
        loop-statuses es (ss ++ s ∷ []) (add_state a s.last_result) r h'
          (All-append (IsStatusOf latest) ss (s ∷ []) k (status, tt)) in
      (order ∙ regroup ss s e es same, all)
    where
      regroup :
          (ss : List (EndpointStatus F)) (s : EndpointStatus F) (e : Endpoint F)
          (es : List (Endpoint F))
          → s.endpoint ≡ e
          → map (λ s. s.endpoint) (ss ++ s ∷ []) ++ es ≡ map (λ s. s.endpoint) ss ++ e ∷ es
      regroup ss s e es same = rw (map-append (λ s. s.endpoint) ss (s ∷ []), append_assoc, same)

-- A successful Snapshot is what its loop built.
pub snapshot-built :
    {F R : Type 0} (fl : Float64 F) (repository : Repository F R) (s : Service F R) (now : Time)
    (r : StatusSnapshot F) (latest : Assoc CheckResult)
    → repository.latest_results s.repo ≡ ok latest
    → snapshot fl repository s now ≡ ok r
    → (built : List (EndpointStatus F) × Aggregate) × (snapshot_loop fl repository s.repo now latest
          [] no_aggregate s.endpoints
        ≡ ok built)
      × (r ≡ finished now built)
unfolding snapshot
snapshot-built fl repository s now r latest l h =
    let loop = snapshot_loop fl repository s.repo now latest [] no_aggregate s.endpoints in
    let h' : (loop >>= λ built. ok (finished now built)) ≡ ok r = rw (l, snapshot) at h in
    let (built, e, q) = >>=-eq-ok loop (λ built. ok (finished now built)) h' in (built, e, cc)

-- When Snapshot succeeds it lists one status for each configured endpoint, in their order, and counts
-- them; each status shows the latest result of its endpoint, and an uptime that is its availability.
pub snapshot-statuses :
    {F R : Type 0} (fl : Float64 F) (repository : Repository F R) (s : Service F R) (now : Time)
    (r : StatusSnapshot F) (latest : Assoc CheckResult)
    → repository.latest_results s.repo ≡ ok latest
    → snapshot fl repository s now ≡ ok r
    → (map (λ x. x.endpoint) r.endpoints ≡ s.endpoints)
      × (r.aggregate.total ≡ length s.endpoints)
      × All (IsStatusOf latest) r.endpoints
snapshot-statuses fl repository s now r latest l h =
    let (built, loop, e) = snapshot-built fl repository s now r latest l h in
    let (order, all) =
      loop-statuses fl repository s.repo now latest s.endpoints [] no_aggregate built loop tt in
    rw e (order, sym (length-map (λ x. x.endpoint) built.0) ∙ ap length order, all)
