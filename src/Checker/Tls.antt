-- ===== src/Checker/Tls.antt =====
-- internal/checker/checker.go: applyTLS.
use service_reliability_watc.Common.{Bool, not, ◌&&◌, some, [], ◌∷◌, ◌++◌, if◌then◌else◌, ltb}
use service_reliability_watc.Common.Int.{ℤ, pos, ltb_ℤ}
use service_reliability_watc.Common.Float.{Float64}
use service_reliability_watc.Common.Text.{codes}
use service_reliability_watc.Common.Clock.{Time, Duration, is_zero, after, before, add, since}
use service_reliability_watc.Domain.Types.{unavailable, degraded, CheckResult}
use service_reliability_watc.Checker.Answers.{Network, TlsState}

-- No verified chain, or no certificate.
abbrev pub unverified : CheckResult → Bool → CheckResult
unverified r valid = record r {
  tls_valid = some valid;
  state = unavailable;
  error = codes "TLS certificate chain was not verified";
  message = codes "TLS validation failed";
}

module _ {F : Type 0} (fl : Float64 F) (net : Network F) where
  -- `int(d.Hours() / 24)`.
  abbrev pub days_in : Duration → ℤ
  days_in d = fl.to_int (fl.over (net.hours d) (fl.decimal 24 0))

  -- From the first certificate's expiry on. time.Until is read only where `now` is the zero time.
  unfoldable pub with_expiry : CheckResult → Bool → Time → Duration → Time → Time → CheckResult
  with_expiry r valid expires warn_before now wall =
      let days =
        if is_zero now then days_in (since expires wall) else days_in (since expires now) in
      let r' : CheckResult = record r {
        tls_valid = some valid;
        tls_expires_at = some expires;
        certificate_days = some days;
      } in
      if not (after expires now)
      then record r' {
        state = unavailable;
        error = codes "TLS certificate is expired";
        message = codes "TLS certificate is expired";
      }
      else if ltb_ℤ (pos 0) warn_before && before expires (add now warn_before)
      then record r' {
        state = degraded;
        message = codes "TLS certificate expires in " ++ net.integer_text days ++ codes " days";
      }
      else r'

  unfoldable pub apply_tls : CheckResult → TlsState → Duration → Time → Time → CheckResult
  unfolding with_expiry
  apply_tls r t warn_before now wall =
      let valid = ltb 0 t.verified_chains in
      elim t.not_after [
        | [] ↦ unverified r valid
        | expires ∷ _ ↦
            if not valid
            then unverified r valid
            else with_expiry r valid expires warn_before now wall
      ]
