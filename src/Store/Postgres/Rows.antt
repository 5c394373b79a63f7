-- ===== src/Store/Postgres/Rows.antt =====
-- internal/store/postgres.go: the rows of the tables, and the queries on them.
use service_reliability_watc.Common.{
  Bool, true, false, ◌&&◌, ◌||◌, Option, none, some, List, [], ◌∷◌, if◌then◌else◌,
}
use service_reliability_watc.Common.Int.{ℤ, pos, ltb_ℤ, leb_ℤ, eq_ℤ}
use service_reliability_watc.Common.Float.{Float64}
use service_reliability_watc.Common.Text.{Text, text_eq}
use service_reliability_watc.Common.Clock.{Time}
use service_reliability_watc.Domain.Types.{State, CheckResult, Alert}

-- The columns that the program sets; NOW() fills the others.
pub record EndpointRow : Type 0 where
  pub name : Text
  pub check_type : Text
  pub address : Text

pub record ResultRow (F : Type 0) : Type 0 where
  pub id : ℤ
  pub endpoint_id : Text
  pub checked_at : Time
  pub state : State
  pub latency_ms : F
  pub http_status : Option ℤ
  pub dns_resolved : Bool
  pub tls_valid : Option Bool
  pub tls_expires_at : Option Time
  pub certificate_days : Option ℤ
  pub attempt_count : ℤ
  pub circuit_breaker_open : Bool
  pub message : Text
  pub error_message : Text

-- NULLIF(x, 0) and COALESCE(x, 0).
abbrev pub null_if_zero : ℤ → Option ℤ
null_if_zero z = if eq_ℤ z (pos 0) then none else some z

abbrev pub zero_if_null : Option ℤ → ℤ
zero_if_null none = pos 0
zero_if_null (some z) = z

abbrev pub on_time : (Time → Time) → Option Time → Option Time
on_time f none = none
on_time f (some t) = some (f t)

module _ {F : Type 0} (fl : Float64 F) where
  -- float64(time.Millisecond).
  abbrev pub milliseconds : F
  milliseconds = fl.of_int (pos 1_000_000)

  -- The values of the INSERT.
  unfoldable pub row_of : (Time → Time) → ℤ → CheckResult → ResultRow F
  row_of stored_time id r = record {
    id = id;
    endpoint_id = r.endpoint_id;
    checked_at = stored_time r.checked_at;
    state = r.state;
    latency_ms = fl.over (fl.of_int r.latency) milliseconds;
    http_status = null_if_zero r.http_status;
    dns_resolved = r.dns_resolved;
    tls_valid = r.tls_valid;
    tls_expires_at = on_time stored_time r.tls_expires_at;
    certificate_days = r.certificate_days;
    attempt_count = r.attempt_count;
    circuit_breaker_open = r.circuit_breaker_open;
    message = r.message;
    error_message = r.error;
  }

  -- scanResult.
  unfoldable pub scan_result : ResultRow F → CheckResult
  scan_result row = record {
    id = row.id;
    endpoint_id = row.endpoint_id;
    checked_at = row.checked_at;
    state = row.state;
    latency = fl.to_int (fl.times row.latency_ms milliseconds);
    http_status = zero_if_null row.http_status;
    dns_resolved = row.dns_resolved;
    tls_valid = row.tls_valid;
    tls_expires_at = row.tls_expires_at;
    certificate_days = row.certificate_days;
    attempt_count = row.attempt_count;
    circuit_breaker_open = row.circuit_breaker_open;
    message = row.message;
    error = row.error_message;
  }

module _ {F : Type 0} where
  -- `ORDER BY checked_at DESC, id DESC`: whether `a` comes before `b`.
  abbrev pub is_newer : ResultRow F → ResultRow F → Bool
  is_newer a b =
      ltb_ℤ b.checked_at a.checked_at || (eq_ℤ b.checked_at a.checked_at && ltb_ℤ b.id a.id)

  abbrev pub newer_of : ResultRow F → Option (ResultRow F) → ResultRow F
  newer_of a none = a
  newer_of a (some b) = if is_newer a b then a else b

  -- The first row of an endpoint in that order, `LIMIT 1`.
  unfoldable pub newest_of : Text → List (ResultRow F) → Option (ResultRow F)
  newest_of id [] = none
  newest_of id (r ∷ rs) =
      let rest = newest_of id rs in
      if text_eq r.endpoint_id id then some (newer_of r rest) else rest

-- `EXISTS (SELECT 1 FROM alerts WHERE dedupe_key = … AND created_at >= …)`.
unfoldable pub has_alert : Text → Time → List Alert → Bool
has_alert key cutoff [] = false
has_alert key cutoff (a ∷ rows) =
    let rest = has_alert key cutoff rows in
    if text_eq a.dedupe_key key && leb_ℤ cutoff a.created_at then true else rest
