-- ===== src/Monitor/Snapshot.antt =====
-- internal/monitor/service.go: Snapshot, Endpoint, addState and ratio.
pub mod Totals
pub mod Statuses
pub mod Lookup
use service_reliability_watc.Common.{
  ℕ, suc, ◌+◌, Bool, true, false, Option, none, some, List, [], ◌∷◌, ◌++◌, if◌then◌else◌, length,
}
use service_reliability_watc.Common.Int.{pos, leb_ℤ}
use service_reliability_watc.Common.Float.{Float64}
use service_reliability_watc.Common.Text.{Text, codes, text_eq}
use service_reliability_watc.Common.Assoc.{Assoc, lookup}
use service_reliability_watc.Common.Clock.{Time, add, negated}
use service_reliability_watc.Common.Result.{Result, ok, err, ◌>>=◌}
use service_reliability_watc.Domain.Types.{
  State, healthy, degraded, unavailable, maintenance, unknown, unset, Endpoint, CheckResult,
  EndpointStatus, Aggregate, StatusSnapshot,
}
use service_reliability_watc.Domain.Slo.{
  ratio, slo_window, slo_latency_target, calculate_slo_counts,
}
use service_reliability_watc.Store.Types.{Repository}
use service_reliability_watc.Monitor.Types.{Service}

abbrev pub no_aggregate : Aggregate
no_aggregate = record {
  total = 0;
  healthy_count = 0;
  degraded_count = 0;
  unavailable_count = 0;
  maintenance_count = 0;
  unknown_count = 0;
}

-- The switch of addState; the last clause is `default`.
add_by_state : State → Aggregate → Aggregate
add_by_state healthy a = record a { healthy_count = a.healthy_count + 1 }
add_by_state degraded a = record a { degraded_count = a.degraded_count + 1 }
add_by_state unavailable a = record a { unavailable_count = a.unavailable_count + 1 }
add_by_state maintenance a = record a { maintenance_count = a.maintenance_count + 1 }
add_by_state _ a = record a { unknown_count = a.unknown_count + 1 }

pub add_state : Aggregate → Option CheckResult → Aggregate
unfolding add_by_state
add_state a none = record a { unknown_count = a.unknown_count + 1 }
add_state a (some r) = add_by_state r.state a

-- The snapshot that the loop built, with `Total` set.
abbrev pub finished : {F : Type 0} → Time → List (EndpointStatus F) × Aggregate → StatusSnapshot F
finished now (statuses, a) = record {
  generated_at = now;
  aggregate = record a { total = length statuses };
  endpoints = statuses;
}

-- The loop of Service.Endpoint.
find_status : {F : Type 0} → Text → List (EndpointStatus F) → Result Text (EndpointStatus F)
find_status id [] = err (codes "endpoint not found")
find_status id (s ∷ rest) = if text_eq s.endpoint.id id then ok s else find_status id rest

module _ {F R : Type 0} (fl : Float64 F) (repository : Repository F R) where
  -- The status of one endpoint. The defaults of its window and latency target are those of
  -- CalculateSLO.
  pub endpoint_status : R → Time → Assoc CheckResult → Endpoint F → Result Text (EndpointStatus F)
  endpoint_status repo now latest e = do
    counts ←
        repository.counts_since repo e.id (add now (negated (slo_window e))) (slo_latency_target e)
    transitions ← repository.transitions repo e.id 10
    ok (record {
      endpoint = e;
      last_result = lookup e.id latest;
      uptime = ratio fl counts.good counts.eligible;
      slo = calculate_slo_counts fl e counts.eligible counts.good counts.latency_good;
      transitions = transitions;
    })

  -- The loop over the endpoints, with the snapshot so far.
  pub snapshot_loop :
      R
      → Time
      → Assoc CheckResult
      → List (EndpointStatus F)
      → Aggregate
      → List (Endpoint F)
      → Result Text (List (EndpointStatus F) × Aggregate)
  snapshot_loop repo now latest statuses a [] = ok (statuses, a)
  snapshot_loop repo now latest statuses a (e ∷ es) = do
    status ← endpoint_status repo now latest e
    snapshot_loop repo now latest (statuses ++ status ∷ []) (add_state a status.last_result) es

  unfoldable pub snapshot : Service F R → Time → Result Text (StatusSnapshot F)
  unfolding snapshot_loop endpoint_status add_state
  snapshot s now = do
    latest ← repository.latest_results s.repo
    built ← snapshot_loop s.repo now latest [] no_aggregate s.endpoints
    ok (finished now built)

  -- Service.Endpoint.
  unfoldable pub endpoint : Service F R → Time → Text → Result Text (EndpointStatus F)
  unfolding snapshot find_status
  endpoint s now id = elim (lookup id s.by_id) [
    | none ↦ err (codes "endpoint not found")
    | some e ↦ do built ← snapshot s now; find_status id built.endpoints
  ]
