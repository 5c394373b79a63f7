-- ===== src/Tests/Telemetry.antt =====
-- internal/telemetry/metrics.go: the calls of a monitor.
use service_reliability_watc.Common.{ℕ, some, List, [], ◌∷◌}
use service_reliability_watc.Common.Text.{text_eq}
use service_reliability_watc.Domain.Types.{healthy, unavailable}
use service_reliability_watc.Monitor.Types.{Event, observed, alerted, queue_dropped}
use service_reliability_watc.Telemetry.{new_metrics, notify_all}
use service_reliability_watc.Telemetry.OneHot.{IsOneHot, state_gauge_lem}
use service_reliability_watc.Telemetry.Counters.{CountedFrom, counters_lem}
use service_reliability_watc.Tests.Data.{api, api_endpoint, result_in}

abbrev calls : List (Event ℕ)
calls =
    observed api_endpoint (result_in api healthy 0)
    ∷ queue_dropped
    ∷ observed api_endpoint (result_in api unavailable 30)
    ∷ alerted api unavailable
    ∷ []

state_gauge_lem_example : IsOneHot api (notify_all new_metrics calls) (some unavailable)
unfolding text_eq
state_gauge_lem_example = state_gauge_lem api calls (λ h. cc h, (tt, (λ h. cc h, (tt, tt))))

counters_lem_example : CountedFrom api unavailable new_metrics (notify_all new_metrics calls) calls
counters_lem_example = counters_lem api unavailable calls
