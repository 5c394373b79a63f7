-- ===== src/Checker/Certificates.antt =====
-- internal/checker/checker.go: when applyTLS rejects a connection.
use service_reliability_watc.Common.{◌≡◌, ◌≢◌, ◌↔◌, ◌⊎◌, List, [], ◌∷◌, arith}
use service_reliability_watc.Common.Int.{◌≤ℤ◌}
use service_reliability_watc.Common.Float.{Float64}
use service_reliability_watc.Common.Clock.{Time, Duration}
use service_reliability_watc.Domain.Types.{unavailable, CheckResult}
use service_reliability_watc.Checker.Answers.{Network, TlsState}
use service_reliability_watc.Checker.Tls.{with_expiry, apply_tls}

-- The peer's own certificate is expired.
abbrev pub IsExpired : List Time → Time → Type 0
IsExpired [] now = ⊥
IsExpired (expires ∷ rest) now = expires ≤ℤ now

module _ {F : Type 0} (fl : Float64 F) (net : Network F) where
  -- For a result that is not Unavailable, applyTLS makes it so exactly when no chain was verified, the
  -- peer sent no certificate, or its first one expires no later than now.
  pub apply_tls-unavailable :
      (r : CheckResult) (t : TlsState) (warn_before : Duration) (now wall : Time)
      → r.state ≢ unavailable
      → ((apply_tls fl net r t warn_before now wall).state ≡ unavailable)
        ↔ ((t.verified_chains ≡ 0) ⊎ (t.not_after ≡ []) ⊎ IsExpired t.not_after now)
  unfolding apply_tls with_expiry
  apply_tls-unavailable r t warn_before now wall h = (λ u. ground arith, λ u. ground arith)
