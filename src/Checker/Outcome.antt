-- ===== src/Checker/Outcome.antt =====
-- internal/checker/checker.go: what every result of Check is like.
use service_reliability_watc.Common.{
  ◌≡◌, ◌≢◌, refl, ◌⊎◌, inl, inr, true, Option, none, some, [], arith, Bool-cases, if◌then◌else◌,
}
use service_reliability_watc.Common.Float.{Float64}
use service_reliability_watc.Common.Text.{Text, codes, text_eq}
use service_reliability_watc.Common.Clock.{Time, Duration}
use service_reliability_watc.Common.Result.{Result-cases}
use service_reliability_watc.Domain.Types.{
  healthy, degraded, unavailable, unknown, state_eq, check_http, check_tcp, check_tls, Endpoint,
  CheckResult,
}
use service_reliability_watc.Checker.Answers.{Network, Readings, Response, TlsState}
use service_reliability_watc.Checker.Versions.{clone_tls_config}
use service_reliability_watc.Checker.Tls.{apply_tls, with_expiry}
use service_reliability_watc.Checker.{
  incomplete, endpoint_host, inspect, with_tls, check_http_endpoint, check_tcp_endpoint,
  check_tls_endpoint, timed, by_type, check,
}

-- A finished result: Unavailable with an error, or Healthy or Degraded with none.
abbrev pub IsReport : Text → Time → CheckResult → Type 0
IsReport id started r =
    (r.endpoint_id ≡ id)
    × (r.checked_at ≡ started)
    × (((r.state ≡ unavailable) × (r.error ≢ []))
        ⊎ (((r.state ≡ healthy) ⊎ (r.state ≡ degraded)) × (r.error ≡ [])))

-- A result under way: no verdict yet, or a warning.
abbrev IsOpen : Text → Time → CheckResult → Type 0
IsOpen id started r =
    (r.endpoint_id ≡ id)
    × (r.checked_at ≡ started)
    × ((r.state ≡ unknown) ⊎ (r.state ≡ degraded))
    × (r.error ≡ [])

-- The result of applyTLS.
abbrev IsOpenOrReport : Text → Time → CheckResult → Type 0
IsOpenOrReport id started r =
    (r.endpoint_id ≡ id)
    × (r.checked_at ≡ started)
    × (((r.state ≡ unavailable) × (r.error ≢ []))
        ⊎ (((r.state ≡ unknown) ⊎ (r.state ≡ degraded)) × (r.error ≡ [])))

module _ {F : Type 0} (fl : Float64 F) (net : Network F) (e : Endpoint F) (c : Readings) (id : Text)
    (started : Time) where
  apply_tls-IsOpenOrReport :
      (r : CheckResult) (t : TlsState) (d : Duration)
      → IsOpen id started r
      → IsOpenOrReport id started (apply_tls fl net r t d c.tls_now c.wall)
  unfolding apply_tls with_expiry
  apply_tls-IsOpenOrReport r t d h = ground (arith, h.3)

  timed-IsReport :
      (r : CheckResult) → IsReport id started r → IsReport id started (timed fl net e c r)
  unfolding timed
  timed-IsReport r h = ground (arith, h.2)

  tcp-IsReport :
      (r : CheckResult)
      → IsOpen id started r
      → IsReport id started (check_tcp_endpoint fl net e c r)
  unfolding check_tcp_endpoint
  tcp-IsReport r h = ground (arith, h.3)

  inspect-IsReport :
      (r : CheckResult) (response : Response)
      → IsOpen id started r
      → IsReport id started (inspect fl net e c r response)
  unfolding inspect
  inspect-IsReport r response h = ground (arith, h.3)

  with_tls-IsOpenOrReport :
      (r : CheckResult) (o : Option TlsState)
      → IsOpen id started r
      → IsOpenOrReport id started (with_tls fl net e c r o)
  unfolding with_tls
  with_tls-IsOpenOrReport r none h = ground (arith, h.3)
  with_tls-IsOpenOrReport r (some t) h = apply_tls-IsOpenOrReport r t e.tls_warn_before h

  -- The rest of checkHTTP, once TLS has had its say.
  judged :
      (r : CheckResult) (response : Response)
      → IsOpenOrReport id started r
      → IsReport id started
          (if state_eq r.state unavailable then r else inspect fl net e c r response)
  judged r response h = elim (Bool-cases (state_eq r.state unavailable)) [
    | inl down ↦ rw down (ground (arith, h.2))
    | inr up ↦ rw up (inspect-IsReport r response (ground (arith, h.2)))
  ]

  http-IsReport :
      (r : CheckResult)
      → IsOpen id started r
      → IsReport id started (check_http_endpoint fl net e c r)
  unfolding check_http_endpoint
  http-IsReport r h = elim (Result-cases (net.new_request e)) [
    | inl (x, failure) ↦ rw (failure, check_http_endpoint) (ground (arith, h.3))
    | inr (u, made) ↦ elim (Result-cases (net.do_request (clone_tls_config net.tls_config []) e)) [
      | inl (x, failure) ↦ rw (made, failure, check_http_endpoint) (ground (arith, h.3))
      | inr (response, got) ↦
          rw (made, got, check_http_endpoint)
            (judged _ response
              (with_tls-IsOpenOrReport (record r { http_status = response.status }) response.tls h))
    ]
  ]

  handshake :
      (r : CheckResult)
      → IsOpenOrReport id started r
      → IsReport id started (
          if state_eq r.state unknown
          then record r {
            state = healthy;
            message = codes "TLS handshake and validation succeeded";
          }
          else r)
  handshake r h = ground (arith, h.2)

  tls-IsReport :
      (host : Text) (r : CheckResult)
      → IsOpen id started r
      → IsReport id started (check_tls_endpoint fl net e host c r)
  unfolding check_tls_endpoint
  tls-IsReport host r h =
      elim (Result-cases (net.dial_tls (clone_tls_config net.tls_config host) e)) [
        | inl (x, failure) ↦ rw (failure, check_tls_endpoint) (ground (arith, h.3))
        | inr (t, shaken) ↦
            rw (shaken, check_tls_endpoint)
              (handshake _ (apply_tls-IsOpenOrReport r t e.tls_warn_before h))
      ]

  by_type-IsReport :
      (host : Text) (r : CheckResult)
      → IsOpen id started r
      → IsReport id started (by_type fl net e host c r)
  unfolding by_type
  by_type-IsReport host r h = elim (Bool-cases (text_eq e.type check_http)) [
    | inl is_http ↦ rw (is_http, by_type) (timed-IsReport _ (http-IsReport r h))
    | inr no_http ↦ elim (Bool-cases (text_eq e.type check_tcp)) [
      | inl is_tcp ↦ rw (no_http, is_tcp, by_type) (timed-IsReport _ (tcp-IsReport r h))
      | inr no_tcp ↦ elim (Bool-cases (text_eq e.type check_tls)) [
        | inl is_tls ↦
            rw (no_http, no_tcp, is_tls, by_type) (timed-IsReport _ (tls-IsReport host r h))
        | inr no_tls ↦ rw (no_http, no_tcp, no_tls, by_type) (ground (arith, h.3))
      ]
    ]
  ]

-- Whatever the network answers and the clock reads, Check returns a result of its endpoint, from the
-- instant at which it began, that is Unavailable and carries the text of an error, or Healthy or
-- Degraded and carries none.
pub check-IsReport :
    {F : Type 0} (fl : Float64 F) (net : Network F) (e : Endpoint F) (c : Readings)
    → IsReport e.id c.started (check fl net e c)
unfolding check
check-IsReport fl net e c = elim (Result-cases (endpoint_host fl net e)) [
  | inl (x, failure) ↦ rw (failure, check) (refl, refl, inl (refl, λ h. cc h))
  | inr (host, named) ↦ elim (Result-cases (net.lookup_host host)) [
    | inl (x, failure) ↦ rw (named, failure, check) (refl, refl, inl (refl, λ h. cc h))
    | inr (u, resolved) ↦
        rw (named, resolved, check)
          (by_type-IsReport fl net e c e.id c.started host
            (record (incomplete e.id c.started) { dns_resolved = true })
            (refl, refl, inl refl, refl))
  ]
]
