-- ===== src/Config/Defaults.antt =====
-- internal/config/config.go: applyDefaults. Each assignment through the pointer is a field of the
-- record that is built; those that read an earlier assignment name it.
pub mod Laws
use service_reliability_watc.Common.{◌&&◌, [], map, if◌then◌else◌, ◌*◌}
use service_reliability_watc.Common.Int.{ℤ, pos, eq_ℤ}
use service_reliability_watc.Common.Float.{Float64}
use service_reliability_watc.Common.Text.{Text, codes, text_eq}
use service_reliability_watc.Common.Clock.{Duration, millisecond, second, minute, hour}
use service_reliability_watc.Config.Types.{
  ServerConfig, DatabaseConfig, SchedulerConfig, AlertingConfig, SloSettings, EndpointConfig,
  Config,
}

-- `if x == 0 { x = d }`, and the same for the empty string.
abbrev pub or_default : ℤ → ℤ → ℤ
or_default x d = if eq_ℤ x (pos 0) then d else x

abbrev pub or_text : Text → Text → Text
or_text x d = if text_eq x [] then d else x

server_defaults : ServerConfig → ServerConfig
server_defaults s = record {
  address = or_text s.address (codes ":8080");
  shutdown_timeout = or_default s.shutdown_timeout (pos (10 * second));
}

database_defaults : DatabaseConfig → DatabaseConfig
database_defaults d = record d {
  connect_timeout = or_default d.connect_timeout (pos (10 * second));
  max_connections = or_default d.max_connections (pos 10);
}

scheduler_defaults : SchedulerConfig → SchedulerConfig
scheduler_defaults s =
    let workers = or_default s.workers (pos 4) in
    record {
      workers = workers;
      concurrency_limit = or_default s.concurrency_limit workers;
      queue_size = or_default s.queue_size (pos 100);
      retry_base_delay = or_default s.retry_base_delay (pos (200 * millisecond));
      retry_max_delay = or_default s.retry_max_delay (pos (5 * second));
      circuit_failures = or_default s.circuit_failures (pos 3);
      circuit_cooldown = or_default s.circuit_cooldown (pos (30 * second));
    }

alerting_defaults : AlertingConfig → AlertingConfig
alerting_defaults a = record { dedupe_window = or_default a.dedupe_window (pos (15 * minute)) }

module _ {F : Type 0} (fl : Float64 F) where
  endpoint_defaults : EndpointConfig F → EndpointConfig F
  endpoint_defaults e =
      let latency_target = or_default e.latency_target (pos (1 * second)) in
      record e {
        method = or_text e.method (codes "GET");
        expected_status =
            if eq_ℤ e.expected_status (pos 0) && text_eq e.type (codes "http")
            then pos 200
            else e.expected_status;
        timeout = or_default e.timeout (pos (5 * second));
        interval = or_default e.interval (pos (30 * second));
        latency_target = latency_target;
        tls_warn_before = or_default e.tls_warn_before (pos (30 * 24 * hour));
        slo = record {
          availability_target =
              if fl.eq e.slo.availability_target (fl.decimal 0 0)
              then fl.decimal 999 3
              else e.slo.availability_target;
          latency_target = or_default e.slo.latency_target latency_target;
          window = or_default e.slo.window (pos (30 * 24 * hour));
        };
      }

  unfoldable pub apply_defaults : Config F → Config F
  unfolding server_defaults database_defaults scheduler_defaults alerting_defaults endpoint_defaults
  apply_defaults c = record c {
    server = server_defaults c.server;
    database = database_defaults c.database;
    scheduler = scheduler_defaults c.scheduler;
    alerting = alerting_defaults c.alerting;
    endpoints = map endpoint_defaults c.endpoints;
  }
