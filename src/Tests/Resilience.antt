-- ===== src/Tests/Resilience.antt =====
-- internal/resilience: a circuit that opens at two failures, and retries.
use service_reliability_watc.Common.{
  ℕ, ◌+◌, ◌*◌, ◌^◌, ◌≤◌, ◌<◌, ◌≡◌, refl, true, List, [], ◌∷◌, arith, min,
}
use service_reliability_watc.Common.Int.{pos, int64, ◌+ℤ◌}
use service_reliability_watc.Common.Text.{Text, text_eq}
use service_reliability_watc.Common.Assoc.{lookup, insert}
use service_reliability_watc.Common.Clock.{second, since}
use service_reliability_watc.Domain.Types.{healthy}
use service_reliability_watc.Resilience.Circuit.{
  CircuitBreaker, new_circuit_breaker, item, allow, failure,
}
use service_reliability_watc.Resilience.Circuit.Spec.{
  Call, allows, succeeds, fails, step, view, spec_step, step-spec_step,
}
use service_reliability_watc.Resilience.Circuit.Runs.{run}
use service_reliability_watc.Resilience.Circuit.Probe.{granted, single_probe}
use service_reliability_watc.Resilience.Circuit.Threshold.{streak, opens_at_threshold}
use service_reliability_watc.Resilience.Retry.{retry, backoff}
use service_reliability_watc.Resilience.Retry.Attempts.{Failed, Ends, retry_outcome}
use service_reliability_watc.Resilience.Retry.Backoff.{backoff_bounds}
use service_reliability_watc.Tests.Data.{thousandths, api, db, at, flaky}

abbrev fresh : CircuitBreaker
fresh = new_circuit_breaker (pos 2) (pos (30 * second))

abbrev failures : List (Text × Call)
failures = (api, fails (at 0)) ∷ (db, fails (at 1)) ∷ (api, fails (at 2)) ∷ []

-- The circuit of the API is open since second 2.
abbrev opened : CircuitBreaker
opened = run fresh failures

abbrev attempts : List (Text × Call)
attempts = (api, allows (at 41)) ∷ (db, succeeds) ∷ (api, allows (at 90)) ∷ []

step-spec_step_example :
    (let (b', answer) = step opened api (fails (at 5)) in (view b' api, answer))
    ≡ spec_step (pos 2) (pos (30 * second)) (view opened api) (fails (at 5))
unfolding run failure item lookup insert int64 ◌+ℤ◌ text_eq
step-spec_step_example = step-spec_step opened api (fails (at 5)) refl

single_probe_example :
    ((allow opened api (at 40)).1 ≡ true) × (granted api (allow opened api (at 40)).0 attempts ≡ 0)
unfolding run failure item lookup since insert int64 ◌+ℤ◌ text_eq
single_probe_example =
    single_probe opened api (at 2) (at 40) attempts refl refl (tt, (refl, (tt, tt)))

opens_at_threshold_example :
    (failure (run fresh ((api, fails (at 0)) ∷ (db, succeeds) ∷ [])) api (at 9)).1 ≡ true
unfolding streak text_eq
opens_at_threshold_example =
    opens_at_threshold (pos 2) (pos (30 * second)) api ((api, fails (at 0)) ∷ (db, succeeds) ∷ [])
      (at 9) (omega arith)

retry_outcome_example :
    (k : ℕ) × (k ≤ 2)
    × ((j : ℕ) → j < k → Failed thousandths (flaky api healthy 0) (pos second) (pos 0) j)
    × Ends thousandths
        (flaky api healthy 0)
        (pos second)
        (pos 0)
        2
        k
        (retry thousandths (flaky api healthy 0) (pos second) (pos 0) (pos 2))
retry_outcome_example = retry_outcome thousandths (flaky api healthy 0) (pos second) (pos 0) 2

backoff_bounds_example :
    (x : ℕ) × (backoff 3 (pos 200) (pos 5001) ≡ pos x)
    × (x ≤ 5001)
    × (min (200 * 2 ^ 3) 5001 ≤ x)
    × (x ≤ 200 * 2 ^ 3 + 1)
backoff_bounds_example = backoff_bounds 3 200 5001 (omega arith) (omega arith) (omega arith)
