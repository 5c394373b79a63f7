-- ===== src/Tests/Checker.antt =====
-- internal/checker/checker.go: an HTTP endpoint that answers over TLS.
use service_reliability_watc.Common.{
  ltb, if◌then◌else◌, arith, ℕ, ◌+◌, ◌*◌, ◌/◌, ◌≡◌, ◌↔◌, ◌⊎◌, refl, none, some, [], ◌∷◌,
}
use service_reliability_watc.Common.Int.{pos, pos_part, ◌≤ℤ◌}
use service_reliability_watc.Common.Text.{Text, codes, text_eq}
use service_reliability_watc.Common.Clock.{since, second, hour, add}
use service_reliability_watc.Common.Result.{Result, ok, err}
use service_reliability_watc.Domain.Types.{unavailable, Endpoint}
use service_reliability_watc.Checker.{check, incomplete}
use service_reliability_watc.Checker.Answers.{
  Network, Readings, Response, TlsState, TlsConfig, contains_text, is_prefix,
}
use service_reliability_watc.Checker.Versions.{clone_tls_config, tls_1_2}
use service_reliability_watc.Checker.Tls.{apply_tls, with_expiry}
use service_reliability_watc.Checker.Outcome.{IsReport, check-IsReport}
use service_reliability_watc.Checker.Secure.{elsewhere, check-elsewhere}
use service_reliability_watc.Checker.Healthy.{Expected, http_healthy}
use service_reliability_watc.Checker.Certificates.{IsExpired, apply_tls-unavailable}
use service_reliability_watc.Tests.Data.{thousandths, api, at, start, api_endpoint}

abbrev certificate : TlsState
certificate = record { verified_chains = 1; not_after = pos (start + 1000 * hour) ∷ [] }

abbrev response : Response
response = record {
  status = pos 200;
  tls = some certificate;
  limited_body = ok (codes "service ready");
}

abbrev net : Network ℕ
net = record {
  parse_hostname = λ t. ok api;
  split_host = λ t. ok api;
  parse_ip = λ t. none;
  lookup_host = λ t. ok tt;
  new_request = λ e. ok tt;
  tls_config = none;
  do_request = λ cfg e. ok response;
  dial_tcp = λ e. err (codes "refused");
  dial_tls = λ cfg e. ok certificate;
  integer_text = λ n. [];
  duration_text = λ d. [];
  quoted = λ t. t;
  hours = λ d. pos_part d / hour * 1000;
}

abbrev readings : Readings
readings = record { started = at 0; tls_now = at 0; failed_at = at 1; finished = at 1; wall = at 0 }

abbrev ready : Endpoint ℕ
ready = record api_endpoint { expected_text = codes "ready" }

check-IsReport_example : IsReport api (at 0) (check thousandths net ready readings)
check-IsReport_example = check-IsReport thousandths net ready readings

http_healthy_example :
    ((r : Response) × (net.do_request (clone_tls_config none []) ready ≡ ok r)
      × Expected thousandths net ready readings r)
    × ((pos second ≤ℤ pos 0) ⊎ (since (at 1) (at 0) ≤ℤ pos second))
unfolding check with_expiry contains_text is_prefix text_eq since add
http_healthy_example = http_healthy thousandths net ready readings refl refl

apply_tls-unavailable_example :
    ((apply_tls thousandths net (incomplete api (at 0)) certificate (pos 0) (at 9) (at 9)).state
      ≡ unavailable)
    ↔ ((certificate.verified_chains ≡ 0)
        ⊎ (certificate.not_after ≡ [])
        ⊎ IsExpired certificate.not_after (at 9))
apply_tls-unavailable_example =
    apply_tls-unavailable thousandths net (incomplete api (at 0)) certificate (pos 0) (at 9) (at 9)
      (λ h. cc h)

-- The answers of `net`, but to a tls.Config that allows a version before TLS 1.2.
abbrev modern : {A : Type 0} → A → TlsConfig → Endpoint ℕ → Result Text A
modern a cfg e = if ltb cfg.min_version tls_1_2 then err (codes "too old") else ok a

check-elsewhere_example :
    check thousandths net ready readings
    ≡ check thousandths
        (elsewhere thousandths net (modern response) (modern certificate))
        ready
        readings
check-elsewhere_example =
    check-elsewhere thousandths net (modern response) (modern certificate) ready readings (λ h. h)
      (λ cfg secure. ground (arith, secure.0)) (λ cfg host named secure. ground (arith, secure.0))
