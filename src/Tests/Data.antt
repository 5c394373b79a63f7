-- ===== src/Tests/Data.antt =====
-- Inputs for the tests: floats in thousandths, two endpoints and their results.
use service_reliability_watc.Common.{
  ℕ, ◌+◌, ◌-◌, ◌*◌, ◌/◌, ◌^◌, List, [], ◌∷◌, if◌then◌else◌, ◌==◌, ltb, leb,
}
use service_reliability_watc.Common.Int.{pos, pos_part}
use service_reliability_watc.Common.Float.{Float64}
use service_reliability_watc.Common.Text.{Text, codes, text_eq}
use service_reliability_watc.Common.Clock.{Time, second, minute, hour}
use service_reliability_watc.Domain.Types.{
  State, healthy, degraded, unavailable, check_http, check_tcp, Endpoint, CheckResult, Alert,
}
use service_reliability_watc.Resilience.Retry.{World, elapsed, no_result}
use service_reliability_watc.Monitor.Types.{Options}
use service_reliability_watc.Monitor.Perform.{Visit}

abbrev pub thousandths : Float64 ℕ
thousandths = record {
  decimal = λ m k. m * 1000 / 10 ^ k;
  of_int = λ z. pos_part z * 1000;
  to_int = λ x. pos (x / 1000);
  plus = λ x y. x + y;
  minus = λ x y. x - y;
  times = λ x y. x * y / 1000;
  over = λ x y. if y == 0 then 0 else x * 1000 / y;
  maximum = λ x y. if leb x y then y else x;
  lt = λ x y. ltb x y;
  le = λ x y. leb x y;
  eq = λ x y. x == y;
}

abbrev pub api : Text
api = codes "api"

abbrev pub db : Text
db = codes "db"

abbrev pub start : ℕ
start = 63_900_000_000 * second

-- Seconds after the start.
abbrev pub at : ℕ → Time
at n = pos (start + n * second)

abbrev pub api_endpoint : Endpoint ℕ
api_endpoint = record {
  id = api;
  name = codes "API";
  type = check_http;
  address = codes "http://api/health";
  method = codes "GET";
  expected_status = pos 200;
  expected_text = [];
  headers = [];
  timeout = pos (5 * second);
  interval = pos (30 * second);
  retries = pos 1;
  latency_target = pos second;
  tls_warn_before = pos hour;
  slo = record { availability_target = 990; latency_target = pos second; window = pos hour };
}

abbrev pub db_endpoint : Endpoint ℕ
db_endpoint = record api_endpoint {
  id = db;
  name = codes "Database";
  type = check_tcp;
  address = codes "db:5432";
}

abbrev pub result_in : Text → State → ℕ → CheckResult
result_in id s n = record no_result {
  endpoint_id = id;
  checked_at = at n;
  state = s;
  latency = pos (second / 10);
}

-- An outage of the API and its recovery, with a result of the database in between.
abbrev pub history : List CheckResult
history =
    result_in api healthy 0
    ∷ result_in api unavailable 30
    ∷ result_in db healthy 40
    ∷ result_in api unavailable 60
    ∷ result_in api degraded 90
    ∷ result_in api healthy 120
    ∷ []

-- Checks that fail on the first attempt, and then find the endpoint in the state `s`.
abbrev pub flaky : Text → State → ℕ → World ℕ
flaky id s n = record {
  check = λ k. if k == 0 then result_in id unavailable n else result_in id s n;
  wait = λ k d. elapsed;
  random = λ k. 500;
}

abbrev pub visit : Text → State → ℕ → Visit ℕ
visit id s n = record { now = at n; later = at (n + 1); world = flaky id s n }

-- The database is in maintenance all the time.
abbrev pub options : Options
options = record {
  workers = pos 2;
  concurrency_limit = pos 2;
  queue_size = pos 10;
  retry_base_delay = pos second;
  retry_max_delay = pos (5 * second);
  circuit_failures = pos 2;
  circuit_cooldown = pos (30 * second);
  alert_dedupe = pos (15 * minute);
  maintenance = λ id now. text_eq id db;
}

abbrev pub visits : List (Endpoint ℕ × Visit ℕ)
visits =
    (api_endpoint, visit api healthy 0)
    ∷ (db_endpoint, visit db healthy 10)
    ∷ (api_endpoint, visit api unavailable 30)
    ∷ (api_endpoint, visit api unavailable 60)
    ∷ (api_endpoint, visit api healthy 70)
    ∷ []

abbrev pub unsorted : List Alert → List Alert
unsorted alerts = alerts
