-- ===== src/Checker.antt =====
-- internal/checker/checker.go: Check and the three kinds of checks. What the network and the standard
-- library answer in one check is a parameter; the texts of errors are the source's.
pub mod Answers
pub mod Tls
pub mod Versions
pub mod Addresses
pub mod Outcome
pub mod Healthy
pub mod Certificates
pub mod Secure
use service_reliability_watc.Common.{
  ℕ, suc, ◌+◌, ◌*◌, Bool, true, false, not, ◌&&◌, ◌||◌, Option, none, some, List, [], ◌∷◌, ◌++◌,
  reverse, if◌then◌else◌, length, ltb, ◌==◌,
}
use service_reliability_watc.Common.Int.{ℤ, pos, ltb_ℤ, eq_ℤ}
use service_reliability_watc.Common.Float.{Float64}
use service_reliability_watc.Common.Text.{Text, codes, text_eq}
use service_reliability_watc.Common.Clock.{Time, since}
use service_reliability_watc.Common.Result.{Result, ok, err, ◌>>=◌}
use service_reliability_watc.Domain.Types.{
  healthy, degraded, unavailable, unknown, state_eq, check_http, check_tcp, check_tls, Endpoint,
  CheckResult,
}
use service_reliability_watc.Resilience.Retry.{no_result}
use service_reliability_watc.Checker.Answers.{
  Network, Readings, Response, TlsState, contains_text, trim_brackets,
}
use service_reliability_watc.Checker.Tls.{apply_tls}
use service_reliability_watc.Checker.Versions.{clone_tls_config}

-- `c.failed(result, started, err)`, with its reading of the clock.
abbrev pub failed : CheckResult → Time → Time → Text → CheckResult
failed r started now e = record r {
  state = unavailable;
  error = e;
  message = e;
  latency = since now started;
}

abbrev pub max_response_body : ℕ
max_response_body = 1024 * 1024

-- The result before any check.
abbrev pub incomplete : Text → Time → CheckResult
incomplete id started = record no_result {
  endpoint_id = id;
  checked_at = started;
  state = unknown;
  message = codes "check did not complete";
}

module _ {F : Type 0} (fl : Float64 F) (net : Network F) where
  -- endpointHost.
  url_host : Text → Result Text Text
  url_host host = if text_eq host [] then err (codes "URL host is empty") else ok host

  plain_host : Text → Result Text Text
  plain_host host =
      if text_eq host []
      then err (codes "host is empty")
      else (elim (net.parse_ip host) [ some ip ↦ ok ip | none ↦ ok (trim_brackets host) ])

  pub endpoint_host : Endpoint F → Result Text Text
  endpoint_host e =
      if text_eq e.type check_http
      then net.parse_hostname e.address >>= url_host
      else net.split_host e.address >>= plain_host

  -- The end of checkHTTP: the body, the status and the text.
  inspect : Endpoint F → Readings → CheckResult → Response → CheckResult
  inspect e c r response = elim response.limited_body [
    | err x ↦ failed r r.checked_at c.failed_at (codes "read HTTP response: " ++ x)
    | ok body ↦
        if ltb max_response_body (length body)
        then failed r r.checked_at c.failed_at
            (codes "HTTP response exceeds 1 MiB inspection limit")
        else if not (eq_ℤ response.status e.expected_status)
        then failed r r.checked_at c.failed_at (
            codes "expected HTTP "
            ++ net.integer_text e.expected_status
            ++ codes ", received "
            ++ net.integer_text response.status)
        else if not (text_eq e.expected_text []) && not (contains_text e.expected_text body)
        then failed r r.checked_at c.failed_at (codes "expected response text was not found")
        else if not (state_eq r.state degraded)
        then record r { state = healthy; message = codes "HTTP check passed" }
        else r
  ]

  -- The part about TLS, for a response over TLS.
  with_tls : Endpoint F → Readings → CheckResult → Option TlsState → CheckResult
  with_tls e c r none = r
  with_tls e c r (some t) = apply_tls fl net r t e.tls_warn_before c.tls_now c.wall

  check_http_endpoint : Endpoint F → Readings → CheckResult → CheckResult
  check_http_endpoint e c r = elim (net.new_request e) [
    | err x ↦ failed r r.checked_at c.failed_at (codes "create HTTP request: " ++ x)
    | ok _ ↦ elim (net.do_request (clone_tls_config net.tls_config []) e) [
      | err x ↦ failed r r.checked_at c.failed_at (codes "HTTP request failed: " ++ x)
      | ok response ↦
          let r' = with_tls e c (record r { http_status = response.status }) response.tls in
          if state_eq r'.state unavailable then r' else inspect e c r' response
    ]
  ]

  check_tcp_endpoint : Endpoint F → Readings → CheckResult → CheckResult
  check_tcp_endpoint e c r = elim (net.dial_tcp e) [
    | err x ↦ failed r r.checked_at c.failed_at (codes "TCP connection failed: " ++ x)
    | ok _ ↦ record r { state = healthy; message = codes "TCP connection succeeded" }
  ]

  -- A tls.Dialer gives a tls.Conn, so the branch for another connection is not reached.
  check_tls_endpoint : Endpoint F → Text → Readings → CheckResult → CheckResult
  check_tls_endpoint e host c r = elim (net.dial_tls (clone_tls_config net.tls_config host) e) [
    | err x ↦
        failed (record r { tls_valid = some false }) r.checked_at c.failed_at
          (codes "TLS validation failed: " ++ x)
    | ok t ↦
        let r' = apply_tls fl net r t e.tls_warn_before c.tls_now c.wall in
        if state_eq r'.state unknown
        then record r' { state = healthy; message = codes "TLS handshake and validation succeeded" }
        else r'
  ]

  -- The end of Check: the latency, against its target.
  timed : Endpoint F → Readings → CheckResult → CheckResult
  timed e c r =
      let latency = since c.finished c.started in
      if (state_eq r.state healthy && ltb_ℤ (pos 0) e.latency_target)
        && ltb_ℤ e.latency_target latency
      then record r {
        latency = latency;
        state = degraded;
        message = codes "response exceeded latency target " ++ net.duration_text e.latency_target;
      }
      else record r { latency = latency }

  -- The switch on the type.
  by_type : Endpoint F → Text → Readings → CheckResult → CheckResult
  by_type e host c r =
      if text_eq e.type check_http
      then timed e c (check_http_endpoint e c r)
      else if text_eq e.type check_tcp
      then timed e c (check_tcp_endpoint e c r)
      else if text_eq e.type check_tls
      then timed e c (check_tls_endpoint e host c r)
      else failed r c.started c.failed_at (codes "unsupported check type " ++ net.quoted e.type)

  unfoldable pub check : Endpoint F → Readings → CheckResult
  unfolding endpoint_host url_host plain_host by_type timed check_http_endpoint check_tcp_endpoint
      check_tls_endpoint with_tls inspect apply_tls
  check e c =
      let r = incomplete e.id c.started in
      elim (endpoint_host e) [
        | err x ↦ failed r c.started c.failed_at (codes "resolve endpoint host: " ++ x)
        | ok host ↦ elim (net.lookup_host host) [
          | err x ↦ failed r c.started c.failed_at (codes "DNS resolution failed: " ++ x)
          | ok _ ↦ by_type e host c (record r { dns_resolved = true })
        ]
      ]
