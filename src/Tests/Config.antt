-- ===== src/Tests/Config.antt =====
-- internal/config/config.go: a configuration with two endpoints and a window.
use service_reliability_watc.Common.{ℕ, ◌≡◌, refl, ◌↔◌, some, [], ◌∷◌}
use service_reliability_watc.Common.Int.{pos}
use service_reliability_watc.Common.Text.{Text, codes, text_eq}
use service_reliability_watc.Common.Result.{ok}
use service_reliability_watc.Config.Types.{EndpointConfig, Config}
use service_reliability_watc.Config.Defaults.{apply_defaults}
use service_reliability_watc.Config.Validation.{Addresses, contains, validate_endpoint, validate}
use service_reliability_watc.Config.Validation.Endpoints.{IsValidEndpoint}
use service_reliability_watc.Config.Validation.Accepts.{validate_endpoint_iff}
use service_reliability_watc.Config.Validation.Sound.{IsValid, validate-IsValid}
use service_reliability_watc.Config.Load.{Source, load, load-IsValid}
use service_reliability_watc.Tests.Data.{thousandths, api, db, at}

-- Every http address has the host "api"; every other is split at "db".
abbrev net : Addresses
net = record {
  parse_url = λ t. some (record { scheme = codes "http"; host = api });
  split_host_port = λ t. some (db, codes "5432");
}

abbrev raw_endpoint : EndpointConfig ℕ
raw_endpoint = record {
  id = api;
  name = codes "API";
  type = codes "http";
  address = codes "http://api/health";
  method = [];
  expected_status = pos 0;
  expected_text = [];
  headers = [];
  timeout = pos 0;
  interval = pos 0;
  retries = pos 1;
  latency_target = pos 0;
  tls_warn_before = pos 0;
  slo = record { availability_target = 0; latency_target = pos 0; window = pos 0 };
}

-- The file as it is decoded, most of it left to the defaults.
abbrev raw : Config ℕ
raw = record {
  server = record { address = []; shutdown_timeout = pos 0 };
  database = record {
    url = codes "postgres://db/watchdog";
    connect_timeout = pos 0;
    max_connections = pos 0;
  };
  scheduler = record {
    workers = pos 0;
    concurrency_limit = pos 0;
    queue_size = pos 0;
    retry_base_delay = pos 0;
    retry_max_delay = pos 0;
    circuit_failures = pos 0;
    circuit_cooldown = pos 0;
  };
  alerting = record { dedupe_window = pos 0 };
  endpoints =
      raw_endpoint
      ∷ record raw_endpoint { id = db; type = codes "tcp"; address = codes "db:5432" }
      ∷ [];
  maintenance =
      record { name = codes "upgrade"; start = at 0; end = at 600; endpoints = db ∷ [] } ∷ [];
}

abbrev loaded : Config ℕ
loaded = apply_defaults thousandths raw

abbrev source : Source ℕ
source = record {
  read_file = λ path. ok (codes "server:");
  expand_env = λ text. text;
  decode = λ text. ok raw;
}

validate_endpoint_iff_example :
    (validate_endpoint thousandths net raw_endpoint ≡ ok tt)
    ↔ IsValidEndpoint thousandths net raw_endpoint
validate_endpoint_iff_example = validate_endpoint_iff thousandths net raw_endpoint

validate-IsValid_example : IsValid thousandths net loaded
unfolding apply_defaults validate validate_endpoint contains text_eq
validate-IsValid_example = validate-IsValid thousandths net loaded refl

load-IsValid_example :
    IsValid thousandths net loaded
    × ((text : Text) × (c : Config ℕ) × (source.read_file (codes "config.yaml") ≡ ok text)
        × (source.decode (source.expand_env text) ≡ ok c)
        × (loaded ≡ apply_defaults thousandths c))
unfolding load apply_defaults validate validate_endpoint contains text_eq
load-IsValid_example = load-IsValid thousandths net source (codes "config.yaml") loaded refl
