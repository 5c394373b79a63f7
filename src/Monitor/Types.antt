-- ===== src/Monitor/Types.antt =====
-- internal/monitor/service.go: Options, the observer's calls and the Service.
pub mod Index
use service_reliability_watc.Common.{Bool, List, [], ◌∷◌}
use service_reliability_watc.Common.Int.{ℤ}
use service_reliability_watc.Common.Text.{Text}
use service_reliability_watc.Common.Assoc.{Assoc, insert}
use service_reliability_watc.Common.Clock.{Time, Duration}
use service_reliability_watc.Domain.Types.{State, Endpoint, CheckResult}
use service_reliability_watc.Resilience.Circuit.{CircuitBreaker, new_circuit_breaker}

-- Without `Now`: the readings of the clock are arguments of the operations.
pub record Options : Type 0 where
  pub workers : ℤ
  pub concurrency_limit : ℤ
  pub queue_size : ℤ
  pub retry_base_delay : Duration
  pub retry_max_delay : Duration
  pub circuit_failures : ℤ
  pub circuit_cooldown : Duration
  pub alert_dedupe : Duration
  pub maintenance : Text → Time → Bool

-- A call of the Observer.
pub data Event (F : Type 0) : Type 0 where
  observed : Endpoint F → CheckResult → Event F
  alerted : Text → State → Event F
  queue_dropped : Event F
  storage_error : Event F

-- The repository's state and the calls of the observer so far belong to the service's state here.
pub record Service (F R : Type 0) : Type 0 where
  pub endpoints : List (Endpoint F)
  pub by_id : Assoc (Endpoint F)
  pub repo : R
  pub events : List (Event F)
  pub options : Options
  pub breaker : CircuitBreaker

module _ {F : Type 0} where
  index : Assoc (Endpoint F) → List (Endpoint F) → Assoc (Endpoint F)
  index m [] = m
  index m (e ∷ es) = index (insert e.id e m) es

-- New, with the two functions of the options given.
unfoldable pub new_service : {F R : Type 0} → List (Endpoint F) → R → Options → Service F R
unfolding index
new_service endpoints repo options = record {
  endpoints = endpoints;
  by_id = index [] endpoints;
  repo = repo;
  events = [];
  options = options;
  breaker = new_circuit_breaker options.circuit_failures options.circuit_cooldown;
}
