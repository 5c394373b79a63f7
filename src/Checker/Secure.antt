-- ===== src/Checker/Secure.antt =====
-- internal/checker/checker.go: the tls.Config of the connections that Check makes.
use service_reliability_watc.Common.{◌≡◌, refl, inl, inr, []}
use service_reliability_watc.Common.Float.{Float64}
use service_reliability_watc.Common.Text.{Text}
use service_reliability_watc.Common.Result.{Result, ok, Result-cases}
use service_reliability_watc.Domain.Types.{Endpoint, CheckResult}
use service_reliability_watc.Checker.Answers.{Network, Readings, Response, TlsState, TlsConfig}
use service_reliability_watc.Checker.Versions.{
  clone_tls_config, AllowsOldVersions, IsSecure, clone-IsSecure,
}
use service_reliability_watc.Checker.Tls.{apply_tls, with_expiry}
use service_reliability_watc.Checker.{
  endpoint_host, check_http_endpoint, check_tls_endpoint, by_type, check, inspect, with_tls, timed,
  check_tcp_endpoint,
}

module _ {F : Type 0} (fl : Float64 F) (net : Network F)
    (request : TlsConfig → Endpoint F → Result Text Response)
    (dial : TlsConfig → Endpoint F → Result Text TlsState) where
  -- The network, with other answers over TLS.
  abbrev pub elsewhere : Network F
  elsewhere = record net { do_request = request; dial_tls = dial }

  http-elsewhere :
      (e : Endpoint F) (c : Readings) (r : CheckResult)
      → net.do_request (clone_tls_config net.tls_config []) e
        ≡ request (clone_tls_config net.tls_config []) e
      → check_http_endpoint fl net e c r ≡ check_http_endpoint fl elsewhere e c r
  unfolding check_http_endpoint inspect with_tls apply_tls with_expiry
  http-elsewhere e c r same = elim (Result-cases (net.new_request e)) [
    | inl (x, failure) ↦ rw (failure, check_http_endpoint) refl
    | inr (u, made) ↦ rw (made, check_http_endpoint, same) refl
  ]

  tls-elsewhere :
      (e : Endpoint F) (host : Text) (c : Readings) (r : CheckResult)
      → net.dial_tls (clone_tls_config net.tls_config host) e
        ≡ dial (clone_tls_config net.tls_config host) e
      → check_tls_endpoint fl net e host c r ≡ check_tls_endpoint fl elsewhere e host c r
  unfolding check_tls_endpoint apply_tls with_expiry
  tls-elsewhere e host c r same = rw (same, check_tls_endpoint) refl

  by_type-elsewhere :
      (e : Endpoint F) (host : Text) (c : Readings) (r : CheckResult)
      → net.do_request (clone_tls_config net.tls_config []) e
        ≡ request (clone_tls_config net.tls_config []) e
      → net.dial_tls (clone_tls_config net.tls_config host) e
        ≡ dial (clone_tls_config net.tls_config host) e
      → by_type fl net e host c r ≡ by_type fl elsewhere e host c r
  unfolding by_type timed check_tcp_endpoint
  by_type-elsewhere e host c r asked dialled =
      rw (http-elsewhere e c r asked, tls-elsewhere e host c r dialled) refl

  -- Where the TLSConfig of the checker does not itself allow a version before TLS 1.2: Check would
  -- return the same over a network that answers differently to any request whose tls.Config allows such
  -- a version, and to any TLS dial whose tls.Config allows one or is not for the host of the endpoint
  -- (unless that is empty). So it makes no such connection, or none that its result depends on.
  pub check-elsewhere :
      (e : Endpoint F) (c : Readings)
      → ¬ AllowsOldVersions net.tls_config
      → ((cfg : TlsConfig) → IsSecure [] cfg → net.do_request cfg e ≡ request cfg e)
      → ((cfg : TlsConfig) (host : Text)
          → endpoint_host fl net e ≡ ok host
          → IsSecure host cfg
          → net.dial_tls cfg e ≡ dial cfg e)
      → check fl net e c ≡ check fl elsewhere e c
  unfolding check
  check-elsewhere e c modern asked dialled = elim (Result-cases (endpoint_host fl net e)) [
    | inl (x, failure) ↦ rw (failure, check) refl
    | inr (host, named) ↦ elim (Result-cases (net.lookup_host host)) [
      | inl (x, failure) ↦ rw (named, failure, check) refl
      | inr (u, resolved) ↦
          rw (named, resolved, check)
            (by_type-elsewhere e host c _ (asked _ (clone-IsSecure net.tls_config [] modern))
              (dialled _ host named (clone-IsSecure net.tls_config host modern)))
    ]
  ]
