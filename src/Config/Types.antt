-- ===== src/Config/Types.antt =====
-- internal/config/config.go: the types. The wrapper Duration, which only adds a YAML decoder to
-- time.Duration, is the Duration itself; int32 and int are integers.
use service_reliability_watc.Common.{List}
use service_reliability_watc.Common.Int.{ℤ}
use service_reliability_watc.Common.Text.{Text}
use service_reliability_watc.Common.Assoc.{Assoc}
use service_reliability_watc.Common.Clock.{Time, Duration}

pub record ServerConfig : Type 0 where
  pub address : Text
  pub shutdown_timeout : Duration

pub record DatabaseConfig : Type 0 where
  pub url : Text
  pub connect_timeout : Duration
  pub max_connections : ℤ

pub record SchedulerConfig : Type 0 where
  pub workers : ℤ
  pub concurrency_limit : ℤ
  pub queue_size : ℤ
  pub retry_base_delay : Duration
  pub retry_max_delay : Duration
  pub circuit_failures : ℤ
  pub circuit_cooldown : Duration

pub record AlertingConfig : Type 0 where
  pub dedupe_window : Duration

pub record SloSettings (F : Type 0) : Type 0 where
  pub availability_target : F
  pub latency_target : Duration
  pub window : Duration

pub record EndpointConfig (F : Type 0) : Type 0 where
  pub id : Text
  pub name : Text
  pub type : Text
  pub address : Text
  pub method : Text
  pub expected_status : ℤ
  pub expected_text : Text
  pub headers : Assoc Text
  pub timeout : Duration
  pub interval : Duration
  pub retries : ℤ
  pub latency_target : Duration
  pub tls_warn_before : Duration
  pub slo : SloSettings F

pub record MaintenanceWindow : Type 0 where
  pub name : Text
  pub start : Time
  pub end : Time
  pub endpoints : List Text

pub record Config (F : Type 0) : Type 0 where
  pub server : ServerConfig
  pub database : DatabaseConfig
  pub scheduler : SchedulerConfig
  pub alerting : AlertingConfig
  pub endpoints : List (EndpointConfig F)
  pub maintenance : List MaintenanceWindow
