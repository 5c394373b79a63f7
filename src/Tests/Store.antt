-- ===== src/Tests/Store.antt =====
-- internal/store/memory.go and internal/domain/types.go: a history with an outage.
use service_reliability_watc.Common.{ℕ, ◌*◌, ◌≡◌, refl, ◌↔◌, List, map, count_p}
use service_reliability_watc.Common.Int.{pos}
use service_reliability_watc.Common.Clock.{Duration, minute, hour, second, add, negated}
use service_reliability_watc.Domain.Types.{unavailable, unknown, CheckResult}
use service_reliability_watc.Domain.Slo.{
  slo_window, slo_latency_target, calculate_slo, calculate_slo_counts,
}
use service_reliability_watc.Domain.Slo.Equivalence.{
  is_eligible, is_good, is_fast, calculate_slo-eq-counts,
}
use service_reliability_watc.Store.Memory.{Memory, new_memory, results_of, counts_since}
use service_reliability_watc.Store.Memory.Frames.{previous}
use service_reliability_watc.Store.Memory.History.{
  record_all, transitions_of, change_of, changes, transitions_are_changes,
}
use service_reliability_watc.Store.Memory.Alerts.{
  IsSpaced, CallsForAlert, Raised, NotRaised, IsClear, record_each, alert_exactly_when,
  record_each-new-IsSpaced,
}
use service_reliability_watc.Store.Memory.Queries.{slo_from_counts}
use service_reliability_watc.Tests.Data.{thousandths, api, at, api_endpoint, result_in, history}

abbrev window : Duration
window = pos (15 * minute)

abbrev recordings : List (CheckResult × Duration)
recordings = map (λ r. (r, window)) history

abbrev stored : Memory ℕ
stored = record_all new_memory recordings

abbrev outage : CheckResult
outage = result_in api unavailable 2000

calculate_slo-eq-counts_example :
    let cutoff = add (at 200) (negated (pos hour)) in
    calculate_slo thousandths api_endpoint history (at 200)
    ≡ calculate_slo_counts thousandths api_endpoint
        (count_p (is_eligible cutoff) history)
        (count_p (is_good cutoff) history)
        (count_p (is_fast cutoff (pos second)) history)
unfolding slo_window slo_latency_target
calculate_slo-eq-counts_example =
    calculate_slo-eq-counts thousandths api_endpoint history (at 200) refl

transitions_are_changes_example :
    map change_of (transitions_of api stored.transitions) ≡ changes unknown (results_of stored api)
transitions_are_changes_example = transitions_are_changes ℕ recordings api

alert_exactly_when_example :
    (Raised stored outage window
      ↔ (CallsForAlert (previous stored outage) outage × IsClear stored outage window))
    × (NotRaised stored outage window
        ↔ (¬ (CallsForAlert (previous stored outage) outage × IsClear stored outage window)))
alert_exactly_when_example = alert_exactly_when stored outage window

record_each-new-IsSpaced_example :
    IsSpaced window (record_each (new_memory {F = ℕ}) window history).alerts
record_each-new-IsSpaced_example = record_each-new-IsSpaced ℕ window history

slo_from_counts_example :
    let c = counts_since stored api (add (at 200) (negated (pos hour))) (pos second) in
    calculate_slo_counts thousandths api_endpoint c.eligible c.good c.latency_good
    ≡ calculate_slo thousandths api_endpoint (results_of stored api) (at 200)
unfolding slo_window slo_latency_target
slo_from_counts_example = slo_from_counts thousandths stored api_endpoint (at 200) refl
