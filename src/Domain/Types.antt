-- ===== src/Domain/Types.antt =====
-- internal/domain/types.go: the types. A struct with a float64 in it takes the type `F` of floats.
use service_reliability_watc.Common.{ℕ, ◌≡◌, ◌↔◌, Bool, true, false, Option, List, [], arith}
use service_reliability_watc.Common.Int.{ℤ}
use service_reliability_watc.Common.Text.{Text, codes}
use service_reliability_watc.Common.Assoc.{Assoc}
use service_reliability_watc.Common.Clock.{Time, Duration}

-- `type State string` with its five constants; `unset` is the empty string, the zero value that a
-- CheckResult has before a check fills it.
pub data State : Type 0 where
  healthy degraded unavailable maintenance unknown unset : State

-- `string(state)`.
unfoldable pub state_name : State → Text
state_name healthy = codes "Healthy"
state_name degraded = codes "Degraded"
state_name unavailable = codes "Unavailable"
state_name maintenance = codes "Maintenance"
state_name unknown = codes "Unknown"
state_name unset = []

-- `a == b` on states.
abbrev pub state_eq : State → State → Bool
state_eq healthy healthy = true
state_eq degraded degraded = true
state_eq unavailable unavailable = true
state_eq maintenance maintenance = true
state_eq unknown unknown = true
state_eq unset unset = true
state_eq _ _ = false

pub state_eq_iff : (a b : State) → (state_eq a b ≡ true) ↔ (a ≡ b)
state_eq_iff a b = ground arith

-- `type CheckType string`: any text, since a Config carries what the YAML says.
abbrev pub CheckType : Type 0
CheckType = Text

abbrev pub check_http : CheckType
check_http = codes "http"

abbrev pub check_tcp : CheckType
check_tcp = codes "tcp"

abbrev pub check_tls : CheckType
check_tls = codes "tls"

pub record SloConfig (F : Type 0) : Type 0 where
  pub availability_target : F
  pub latency_target : Duration
  pub window : Duration

pub record Endpoint (F : Type 0) : Type 0 where
  pub id : Text
  pub name : Text
  pub type : CheckType
  pub address : Text
  pub method : Text
  pub expected_status : ℤ
  pub expected_text : Text
  pub headers : Assoc Text
  pub timeout : Duration
  pub interval : Duration
  pub retries : ℤ
  pub latency_target : Duration
  pub tls_warn_before : Duration
  pub slo : SloConfig F

-- A pointer field that may be nil is an Option.
pub record CheckResult : Type 0 where
  pub id : ℤ
  pub endpoint_id : Text
  pub checked_at : Time
  pub state : State
  pub latency : Duration
  pub http_status : ℤ
  pub dns_resolved : Bool
  pub tls_valid : Option Bool
  pub tls_expires_at : Option Time
  pub certificate_days : Option ℤ
  pub attempt_count : ℤ
  pub circuit_breaker_open : Bool
  pub message : Text
  pub error : Text

pub record Transition : Type 0 where
  pub id : ℤ
  pub endpoint_id : Text
  pub from_state : State
  pub to_state : State
  pub changed_at : Time
  pub reason : Text

pub record Alert : Type 0 where
  pub id : ℤ
  pub endpoint_id : Text
  pub state : State
  pub dedupe_key : Text
  pub created_at : Time
  pub message : Text

pub record SloStatus (F : Type 0) : Type 0 where
  pub window : Duration
  pub availability_target : F
  pub availability : F
  pub latency_target : Duration
  pub latency_compliance : F
  pub error_budget_total : F
  pub error_budget_used : F
  pub error_budget_remain : F
  pub burn_rate : F
  pub sample_count : ℕ

pub record EndpointStatus (F : Type 0) : Type 0 where
  pub endpoint : Endpoint F
  pub last_result : Option CheckResult
  pub uptime : F
  pub slo : SloStatus F
  pub transitions : List Transition

pub record Aggregate : Type 0 where
  pub total : ℕ
  pub healthy_count : ℕ
  pub degraded_count : ℕ
  pub unavailable_count : ℕ
  pub maintenance_count : ℕ
  pub unknown_count : ℕ

pub record StatusSnapshot (F : Type 0) : Type 0 where
  pub generated_at : Time
  pub aggregate : Aggregate
  pub endpoints : List (EndpointStatus F)
