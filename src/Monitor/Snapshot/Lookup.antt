-- ===== src/Monitor/Snapshot/Lookup.antt =====
-- internal/monitor/service.go over internal/store/memory.go: Snapshot succeeds, and what Endpoint finds.
use service_reliability_watc.Common.{
  ◌≡◌, refl, ap, ◌∙◌, true, false, List, [], ◌∷◌, arith, Bool-cases, inl, inr, map, All,
}
use service_reliability_watc.Common.Float.{Float64}
use service_reliability_watc.Common.Text.{Text, codes, text_eq, text_eq_iff}
use service_reliability_watc.Common.Assoc.{Assoc, lookup}
use service_reliability_watc.Common.Clock.{Time}
use service_reliability_watc.Common.Result.{ok, err}
use service_reliability_watc.Domain.Types.{
  Endpoint, Alert, CheckResult, EndpointStatus, StatusSnapshot, Aggregate,
}
use service_reliability_watc.Store.Memory.{Memory, latest_results}
use service_reliability_watc.Store.Memory.Repository.{memory_repository}
use service_reliability_watc.Monitor.Types.{Service}
use service_reliability_watc.Monitor.Types.Index.{
  is_configured, IsIndexed, is_found-some, is_found-none,
}
use service_reliability_watc.Monitor.Snapshot.{
  snapshot, snapshot_loop, endpoint_status, find_status, no_aggregate, finished, endpoint,
}
use service_reliability_watc.Monitor.Snapshot.Statuses.{IsStatusOf, snapshot-statuses}

-- The search finds the first status of the id, if there is one.
find_status-found :
    {F : Type 0} (id : Text) (P : EndpointStatus F → Type 0) (ss : List (EndpointStatus F))
    → is_configured id (map (λ s. s.endpoint) ss) ≡ true
    → All P ss
    → (st : EndpointStatus F) × (find_status id ss ≡ ok st) × (st.endpoint.id ≡ id) × P st
unfolding find_status
find_status-found id P [] h a = cc
find_status-found id P (s ∷ ss) h a = elim (Bool-cases (text_eq s.endpoint.id id)) [
  | inl same ↦ (s, rw (same, find_status), (text_eq_iff s.endpoint.id id).0 same, a.0)
  | inr differs ↦
      let (st, e, i, p) = find_status-found id P ss (ground arith) a.1 in
      (st, rw (differs, find_status) e, i, p)
]

module _ {F : Type 0} (fl : Float64 F) (sort : List Alert → List Alert) where
  snapshot_loop-memory :
      (m : Memory F) (now : Time) (latest : Assoc CheckResult) (es : List (Endpoint F))
      (ss : List (EndpointStatus F)) (a : Aggregate)
      → (built : List (EndpointStatus F) × Aggregate) × (snapshot_loop fl
            (memory_repository F sort)
            m
            now
            latest
            ss
            a
            es
          ≡ ok built)
  unfolding snapshot_loop endpoint_status
  snapshot_loop-memory m now latest [] ss a = ((ss, a), refl)
  snapshot_loop-memory m now latest (e ∷ es) ss a = snapshot_loop-memory m now latest es _ _

  module _ (s : Service F (Memory F)) (now : Time) where
    -- Over the memory, Snapshot does not fail.
    pub snapshot-memory :
        (r : StatusSnapshot F) × (snapshot fl (memory_repository F sort) s now ≡ ok r)
    unfolding snapshot
    snapshot-memory =
        let latest = latest_results s.repo in
        let (built, e) = snapshot_loop-memory s.repo now latest s.endpoints [] no_aggregate in
        (finished now built, rw e)

    -- Endpoint gives a status of the id, with its latest result, where an endpoint has the id.
    pub endpoint-configured :
        (id : Text)
        → IsIndexed s
        → is_configured id s.endpoints ≡ true
        → (st : EndpointStatus F) × (endpoint fl (memory_repository F sort) s now id ≡ ok st)
          × (st.endpoint.id ≡ id)
          × (st.last_result ≡ lookup id (latest_results s.repo))
    unfolding endpoint
    endpoint-configured id i h =
        let (r, taken) = snapshot-memory in
        let (order, _, all) =
          snapshot-statuses fl (memory_repository F sort) s now r (latest_results s.repo) refl
            taken in
        let listed : is_configured id (map (λ x. x.endpoint) r.endpoints) ≡ true = rw order h in
        let (st, found, same, status) =
          find_status-found id (IsStatusOf (latest_results s.repo)) r.endpoints listed all in
        let (e, there) = is_found-some (lookup id s.by_id) (i id ∙ h) in
        (
          st,
          rw (there, taken, endpoint) found,
          same,
          status.0 ∙ ap (λ k. lookup k (latest_results s.repo)) same,
        )

    -- Where no endpoint has the id, Endpoint fails with the text for that.
    pub endpoint-not_configured :
        (id : Text)
        → IsIndexed s
        → is_configured id s.endpoints ≡ false
        → endpoint fl (memory_repository F sort) s now id ≡ err (codes "endpoint not found")
    unfolding endpoint
    endpoint-not_configured id i h = rw (is_found-none (lookup id s.by_id) (i id ∙ h), endpoint)
