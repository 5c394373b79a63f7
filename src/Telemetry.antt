-- ===== src/Telemetry.antt =====
-- internal/telemetry/metrics.go: the metrics as the values that the calls leave in them. A vector is
-- the values by their labels; Inc adds 1, Set puts a value, Observe adds an observation. The
-- registration, the names and the buckets belong to the Prometheus client.
pub mod Labels
pub mod OneHot
pub mod Counters
use service_reliability_watc.Common.{
  ℕ, zero, suc, ◌+◌, Bool, true, false, Option, none, some, List, [], ◌∷◌, ◌++◌, if◌then◌else◌,
}
use service_reliability_watc.Common.Text.{Text}
use service_reliability_watc.Common.Assoc.{Assoc, lookup, insert}
use service_reliability_watc.Common.Clock.{Duration}
use service_reliability_watc.Domain.Types.{
  State, healthy, degraded, unavailable, maintenance, unknown, state_eq, state_name, Endpoint,
  CheckResult,
}
use service_reliability_watc.Monitor.Types.{Event, observed, alerted, queue_dropped, storage_error}
use service_reliability_watc.Telemetry.Labels.{Vec, no_values, get, set, or_zero}

pub record Metrics : Type 0 where
  pub checks : Vec ℕ
  pub latency : Vec (List Duration)
  pub state : Vec ℕ
  pub alerts : Vec ℕ
  pub circuit_open : Assoc ℕ
  pub queue_dropped_count : ℕ
  pub storage_errors : ℕ
  pub database_ready : ℕ

-- New.
abbrev pub new_metrics : Metrics
new_metrics = record {
  checks = no_values;
  latency = no_values;
  state = no_values;
  alerts = no_values;
  circuit_open = [];
  queue_dropped_count = 0;
  storage_errors = 0;
  database_ready = 0;
}

-- `WithLabelValues(…).Inc()`.
unfoldable pub increment : Text → Text → Vec ℕ → Vec ℕ
increment a b v = set a b (or_zero (get a b v) + 1) v

abbrev or_nil : Option (List Duration) → List Duration
or_nil none = []
or_nil (some ds) = ds

abbrev pub zero_or_one : Bool → ℕ
zero_or_one b = if b then 1 else 0

-- The loop over the states.
unfoldable pub set_states : Text → State → List State → Vec ℕ → Vec ℕ
set_states id current [] v = v
set_states id current (s ∷ ss) v =
    set_states id current ss (set id (state_name s) (zero_or_one (state_eq s current)) v)

abbrev pub gauge_states : List State
gauge_states = healthy ∷ degraded ∷ unavailable ∷ maintenance ∷ unknown ∷ []

-- Observe; the histogram keeps each latency, of which it takes the seconds.
unfoldable pub observe : {F : Type 0} → Metrics → Endpoint F → CheckResult → Metrics
observe m e r = record m {
  checks = increment e.id (state_name r.state) m.checks;
  latency = set e.id e.type (or_nil (get e.id e.type m.latency) ++ r.latency ∷ []) m.latency;
  state = set_states e.id r.state gauge_states m.state;
  circuit_open = insert e.id (zero_or_one r.circuit_breaker_open) m.circuit_open;
}

-- Alert, QueueDropped, StorageError and DatabaseReady.
unfoldable pub count_alert : Metrics → Text → State → Metrics
count_alert m id s = record m { alerts = increment id (state_name s) m.alerts }

abbrev pub count_dropped : Metrics → Metrics
count_dropped m = record m { queue_dropped_count = m.queue_dropped_count + 1 }

abbrev pub count_storage_error : Metrics → Metrics
count_storage_error m = record m { storage_errors = m.storage_errors + 1 }

abbrev pub set_database_ready : Metrics → Bool → Metrics
set_database_ready m ready = record m { database_ready = zero_or_one ready }

-- The metrics as the monitor's observer.
unfoldable pub notify : {F : Type 0} → Metrics → Event F → Metrics
notify m (observed e r) = observe m e r
notify m (alerted id s) = count_alert m id s
notify m queue_dropped = count_dropped m
notify m storage_error = count_storage_error m

unfoldable pub notify_all : {F : Type 0} → Metrics → List (Event F) → Metrics
notify_all m [] = m
notify_all m (x ∷ xs) = notify_all (notify m x) xs
