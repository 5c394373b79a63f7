-- ===== src/Telemetry/Counters.antt =====
-- internal/telemetry/metrics.go: the counters against the calls that were made.
use service_reliability_watc.Common.{
  ℕ, ◌+◌, ◌≡◌, ◌∙◌, Bool, true, false, ◌&&◌, List, [], ◌∷◌, arith, if◌then◌else◌, count_p,
}
use service_reliability_watc.Common.Text.{Text, text_eq, text_eq_iff}
use service_reliability_watc.Domain.Types.{
  State, healthy, degraded, unavailable, maintenance, unknown, unset, state_eq, state_name,
}
use service_reliability_watc.Monitor.Types.{Event, observed, alerted, queue_dropped, storage_error}
use service_reliability_watc.Telemetry.Labels.{Vec, get, get-set, or_zero}
use service_reliability_watc.Telemetry.{
  Metrics, new_metrics, increment, observe, count_alert, notify, notify_all,
}

text_eq-state_name : (s t : State) → text_eq (state_name s) (state_name t) ≡ state_eq s t
unfolding state_name text_eq
text_eq-state_name healthy t = ground arith
text_eq-state_name degraded t = ground arith
text_eq-state_name unavailable t = ground arith
text_eq-state_name maintenance t = ground arith
text_eq-state_name unknown t = ground arith
text_eq-state_name unset t = ground arith

module _ {F : Type 0} where
  abbrev pub observes : Text → State → Event F → Bool
  observes id s (observed e r) = text_eq e.id id && state_eq r.state s
  observes id s _ = false

  abbrev pub alerts_of : Text → State → Event F → Bool
  alerts_of id s (alerted i t) = text_eq i id && state_eq t s
  alerts_of id s _ = false

  abbrev pub is_dropped : Event F → Bool
  is_dropped queue_dropped = true
  is_dropped _ = false

  abbrev pub is_storage_failure : Event F → Bool
  is_storage_failure storage_error = true
  is_storage_failure _ = false

increment-or_zero :
    (a b c d : Text) (v : Vec ℕ)
    → or_zero (get c d (increment a b v))
      ≡ or_zero (get c d v) + (if text_eq a c && text_eq b d then 1 else 0)
unfolding increment
increment-or_zero a b c d v =
    ground (arith, get-set a b c d (or_zero (get a b v) + 1) v, text_eq_iff a c, text_eq_iff b d)

-- What the counters of an endpoint and a state read.
pub record CountedFrom {F : Type 0} (id : Text) (s : State) (start m : Metrics)
    (xs : List (Event F)) : Type 0 where
  pub checks :
      or_zero (get id (state_name s) m.checks)
      ≡ or_zero (get id (state_name s) start.checks) + count_p (observes id s) xs
  pub alerts :
      or_zero (get id (state_name s) m.alerts)
      ≡ or_zero (get id (state_name s) start.alerts) + count_p (alerts_of id s) xs
  pub dropped : m.queue_dropped_count ≡ start.queue_dropped_count + count_p is_dropped xs
  pub failures : m.storage_errors ≡ start.storage_errors + count_p is_storage_failure xs

module _ {F : Type 0} (id : Text) (s : State) where
  notify-CountedFrom : (m : Metrics) (x : Event F) → CountedFrom id s m (notify m x) (x ∷ [])
  unfolding notify observe count_alert
  notify-CountedFrom m (observed e r) = record {
    checks =
        increment-or_zero e.id (state_name r.state) id (state_name s) m.checks
        ∙ ground (arith, text_eq-state_name r.state s);
    alerts = omega arith;
    dropped = omega arith;
    failures = omega arith;
  }
  notify-CountedFrom m (alerted i t) = record {
    checks = omega arith;
    alerts =
        increment-or_zero i (state_name t) id (state_name s) m.alerts
        ∙ ground (arith, text_eq-state_name t s);
    dropped = omega arith;
    failures = omega arith;
  }
  notify-CountedFrom m queue_dropped = record {
    checks = omega arith;
    alerts = omega arith;
    dropped = omega arith;
    failures = omega arith;
  }
  notify-CountedFrom m storage_error = record {
    checks = omega arith;
    alerts = omega arith;
    dropped = omega arith;
    failures = omega arith;
  }

  notify_all-CountedFrom :
      (m : Metrics) (xs : List (Event F)) → CountedFrom id s m (notify_all m xs) xs
  unfolding notify_all
  notify_all-CountedFrom m [] = record {
    checks = omega arith;
    alerts = omega arith;
    dropped = omega arith;
    failures = omega arith;
  }
  notify_all-CountedFrom m (x ∷ xs) =
      let one = notify-CountedFrom m x in
      let rest = notify_all-CountedFrom (notify m x) xs in
      record {
        checks = ground (arith, one.checks, rest.checks);
        alerts = ground (arith, one.alerts, rest.alerts);
        dropped = ground (arith, one.dropped, rest.dropped);
        failures = ground (arith, one.failures, rest.failures);
      }

  -- After any calls of the observer, the counter of an endpoint's checks with a state is the number
  -- of these observations, that of its alerts the number of these alerts, and the counters of dropped
  -- checks and of storage errors are the numbers of those calls.
  pub counters_lem :
      (xs : List (Event F)) → CountedFrom id s new_metrics (notify_all new_metrics xs) xs
  counters_lem xs = notify_all-CountedFrom new_metrics xs
