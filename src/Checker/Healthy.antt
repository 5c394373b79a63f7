-- ===== src/Checker/Healthy.antt =====
-- internal/checker/checker.go: what a Healthy HTTP endpoint has shown.
use service_reliability_watc.Common.{
  ◌≤◌, ◌≡◌, ◌⊎◌, inl, inr, true, [], arith, Bool-cases, if◌then◌else◌, length,
}
use service_reliability_watc.Common.Int.{pos, ◌≤ℤ◌, eq_of_parts}
use service_reliability_watc.Common.Float.{Float64}
use service_reliability_watc.Common.Text.{Text, text_eq_iff}
use service_reliability_watc.Common.Clock.{since}
use service_reliability_watc.Common.Result.{ok, Result-cases}
use service_reliability_watc.Domain.Types.{
  healthy, unavailable, state_eq, state_eq_iff, check_http, Endpoint, CheckResult,
}
use service_reliability_watc.Checker.Answers.{Network, Readings, Response, contains_text}
use service_reliability_watc.Checker.Versions.{clone_tls_config}
use service_reliability_watc.Checker.{
  incomplete, max_response_body, endpoint_host, inspect, with_tls, check_http_endpoint, timed,
  by_type, check,
}

module _ {F : Type 0} (fl : Float64 F) (net : Network F) (e : Endpoint F) (c : Readings) where
  -- The response has the expected status, and a body within the limit that holds the expected text.
  abbrev pub Expected : Response → Type 0
  Expected response =
      (response.status ≡ e.expected_status)
      × ((body : Text) × (response.limited_body ≡ ok body)
          × (length body ≤ max_response_body)
          × ((e.expected_text ≡ []) ⊎ (contains_text e.expected_text body ≡ true)))

  inspect-healthy :
      (r : CheckResult) (response : Response)
      → (inspect fl net e c r response).state ≡ healthy
      → Expected response
  unfolding inspect
  inspect-healthy r response h = elim (Result-cases response.limited_body) [
    | inl (x, unread) ↦ absurd (ground arith)
    | inr (body, whole) ↦ (
      eq_of_parts response.status e.expected_status (ground arith),
      (body, whole, ground arith, ground (arith, text_eq_iff e.expected_text [])),
    )
  ]

  judged-healthy :
      (r : CheckResult) (response : Response)
      → (if state_eq r.state unavailable then r else inspect fl net e c r response).state ≡ healthy
      → Expected response
  judged-healthy r response h = elim (Bool-cases (state_eq r.state unavailable)) [
    | inl down ↦ absurd (ground (arith, state_eq_iff r.state unavailable))
    | inr up ↦ inspect-healthy r response (rw up at h)
  ]

  http-healthy :
      (r : CheckResult)
      → (check_http_endpoint fl net e c r).state ≡ healthy
      → (response : Response) × (net.do_request (clone_tls_config net.tls_config []) e
          ≡ ok response)
        × Expected response
  unfolding check_http_endpoint
  http-healthy r h = elim (Result-cases (net.new_request e)) [
    | inl (x, failure) ↦ absurd (cc (rw (failure, check_http_endpoint) at h))
    | inr (u, made) ↦ elim (Result-cases (net.do_request (clone_tls_config net.tls_config []) e)) [
      | inl (x, failure) ↦ absurd (cc (rw (made, failure, check_http_endpoint) at h))
      | inr (response, got) ↦ (
        response,
        got,
        judged-healthy
            (with_tls fl net e c (record r { http_status = response.status }) response.tls) response
            (rw (made, got, check_http_endpoint) at h),
      )
    ]
  ]

  timed-healthy :
      (r : CheckResult)
      → (timed fl net e c r).state ≡ healthy
      → (r.state ≡ healthy)
        × ((e.latency_target ≤ℤ pos 0) ⊎ (since c.finished c.started ≤ℤ e.latency_target))
  unfolding timed
  timed-healthy r h = ground (arith, state_eq_iff r.state healthy)

  by_type-healthy :
      (host : Text) (r : CheckResult)
      → e.type ≡ check_http
      → (by_type fl net e host c r).state ≡ healthy
      → (timed fl net e c (check_http_endpoint fl net e c r)).state ≡ healthy
  unfolding by_type
  by_type-healthy host r is_http h = rw ((text_eq_iff e.type check_http).1 is_http, by_type) at h

  -- When Check finds an HTTP endpoint Healthy, the request was answered with the expected status and
  -- a body of at most 1 MiB that holds the expected text, if one is asked for; and the check took at
  -- most the latency target, if that is positive.
  pub http_healthy :
      e.type ≡ check_http
      → (check fl net e c).state ≡ healthy
      → ((response : Response) × (net.do_request (clone_tls_config net.tls_config []) e
            ≡ ok response)
          × Expected response)
        × ((e.latency_target ≤ℤ pos 0) ⊎ (since c.finished c.started ≤ℤ e.latency_target))
  unfolding check
  http_healthy is_http h = elim (Result-cases (endpoint_host fl net e)) [
    | inl (x, failure) ↦ absurd (cc (rw (failure, check) at h))
    | inr (host, named) ↦ elim (Result-cases (net.lookup_host host)) [
      | inl (x, failure) ↦ absurd (cc (rw (named, failure, check) at h))
      | inr (u, resolved) ↦
          let r = record (incomplete e.id c.started) { dns_resolved = true } in
          let (fine, fast) =
            timed-healthy (check_http_endpoint fl net e c r)
              (by_type-healthy host r is_http (rw (named, resolved, check) at h)) in
          (http-healthy r fine, fast)
    ]
  ]
