-- ===== src/Config/Windows.antt =====
-- internal/config/config.go: DomainEndpoints and InMaintenance; internal/monitor/service.go:
-- OptionsFromConfig.
pub mod Laws
use service_reliability_watc.Common.{
  Bool, true, false, not, ◌&&◌, ◌||◌, List, [], ◌∷◌, map, if◌then◌else◌,
}
use service_reliability_watc.Common.Text.{Text}
use service_reliability_watc.Common.Clock.{Time, before}
use service_reliability_watc.Domain.Types.{Endpoint}
use service_reliability_watc.Monitor.Types.{Options}
use service_reliability_watc.Config.Types.{EndpointConfig, MaintenanceWindow, Config}
use service_reliability_watc.Config.Validation.{contains}

domain_endpoint : {F : Type 0} → EndpointConfig F → Endpoint F
domain_endpoint e = record {
  id = e.id;
  name = e.name;
  type = e.type;
  address = e.address;
  method = e.method;
  expected_status = e.expected_status;
  expected_text = e.expected_text;
  headers = e.headers;
  timeout = e.timeout;
  interval = e.interval;
  retries = e.retries;
  latency_target = e.latency_target;
  tls_warn_before = e.tls_warn_before;
  slo = record {
    availability_target = e.slo.availability_target;
    latency_target = e.slo.latency_target;
    window = e.slo.window;
  };
}

unfoldable pub domain_endpoints : {F : Type 0} → Config F → List (Endpoint F)
unfolding domain_endpoint
domain_endpoints c = map domain_endpoint c.endpoints

abbrev pub is_empty : List Text → Bool
is_empty [] = true
is_empty (x ∷ xs) = false

-- The loop of InMaintenance.
in_any_window : List MaintenanceWindow → Text → Time → Bool
in_any_window [] id now = false
in_any_window (w ∷ ws) id now =
    let rest = in_any_window ws id now in
    if before now w.start || not (before now w.end)
    then rest
    else if is_empty w.endpoints || contains w.endpoints id
    then true
    else rest

unfoldable pub in_maintenance : {F : Type 0} → Config F → Text → Time → Bool
unfolding in_any_window contains
in_maintenance c id now = in_any_window c.maintenance id now

-- The clock of the options is not part of this model's options.
unfoldable pub options_from_config : {F : Type 0} → Config F → Options
unfolding in_maintenance
options_from_config c = record {
  workers = c.scheduler.workers;
  concurrency_limit = c.scheduler.concurrency_limit;
  queue_size = c.scheduler.queue_size;
  retry_base_delay = c.scheduler.retry_base_delay;
  retry_max_delay = c.scheduler.retry_max_delay;
  circuit_failures = c.scheduler.circuit_failures;
  circuit_cooldown = c.scheduler.circuit_cooldown;
  alert_dedupe = c.alerting.dedupe_window;
  maintenance = in_maintenance c;
}
