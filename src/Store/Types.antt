-- ===== src/Store/Types.antt =====
-- internal/store/store.go, and `alertable` and the dedupe key, which the implementations share.
use service_reliability_watc.Common.{ℕ, Bool, ◌||◌, ◌++◌, Option, List}
use service_reliability_watc.Common.Text.{Text, codes}
use service_reliability_watc.Common.Result.{Result}
use service_reliability_watc.Common.Assoc.{Assoc}
use service_reliability_watc.Common.Clock.{Time, Duration}
use service_reliability_watc.Domain.Types.{
  State, degraded, unavailable, state_eq, state_name, Transition, Alert, Endpoint, CheckResult,
}

pub record RecordOutcome : Type 0 where
  pub transition : Option Transition
  pub alert : Option Alert

-- int64 counters of stored results; see Domain/Slo.antt.
pub record Counts : Type 0 where
  pub eligible : ℕ
  pub good : ℕ
  pub latency_good : ℕ

abbrev pub alertable : State → Bool
alertable s = state_eq s degraded || state_eq s unavailable

-- `result.EndpointID + ":" + string(result.State)`.
unfoldable pub dedupe_key : Text → State → Text
dedupe_key endpoint_id s = endpoint_id ++ (codes ":" ++ state_name s)

-- `type Repository interface`, over the type `R` of the stored state: the methods that the monitor
-- and the web server call. A method that writes returns the state after it.
pub record Repository (F R : Type 0) : Type 0 where
  pub ping : R → Result Text (Unit {0})
  pub upsert_endpoints : R → List (Endpoint F) → R × Result Text (Unit {0})
  pub record_result : R → CheckResult → Duration → R × Result Text RecordOutcome
  pub latest_results : R → Result Text (Assoc CheckResult)
  pub counts_since : R → Text → Time → Duration → Result Text Counts
  pub transitions : R → Text → ℕ → Result Text (List Transition)
  pub alerts : R → ℕ → Result Text (List Alert)
