-- ===== src/Domain/Slo/Equivalence.antt =====
-- internal/domain/types.go: the loop of CalculateSLO, described by counting.
use native.Mathlib.Nat.{zero-add}
use service_reliability_watc.Common.{
  ◌+◌, ◌≡◌, ◌∙◌, Bool, true, not, ◌&&◌, ◌||◌, List, [], ◌∷◌, arith, count_p,
}
use service_reliability_watc.Common.Int.{pos, ltb_ℤ, leb_ℤ}
use service_reliability_watc.Common.Float.{Float64}
use service_reliability_watc.Common.Clock.{Time, Duration, before, add, negated}
use service_reliability_watc.Domain.Types.{
  healthy, degraded, unavailable, maintenance, state_eq, Endpoint, CheckResult,
}
use service_reliability_watc.Domain.Slo.{
  Tally, no_tally, tally_result, tally_results, slo_window, slo_latency_target, calculate_slo,
  calculate_slo_counts,
}

-- The independent description: what makes a result count, as docs/slo.md has it.
abbrev pub is_eligible : Time → CheckResult → Bool
is_eligible cutoff r = not (before r.checked_at cutoff) && not (state_eq r.state maintenance)

abbrev pub is_good : Time → CheckResult → Bool
is_good cutoff r = is_eligible cutoff r && (state_eq r.state healthy || state_eq r.state degraded)

abbrev pub is_fast : Time → Duration → CheckResult → Bool
is_fast cutoff target r =
    is_eligible cutoff r && (not (state_eq r.state unavailable) && leb_ℤ r.latency target)

tally_results_lem :
    (target : Duration) (cutoff : Time) (t : Tally) (rs : List CheckResult)
    → ltb_ℤ (pos 0) target ≡ true
    → tally_results target cutoff t rs ≡ record {
      eligible = t.eligible + count_p (is_eligible cutoff) rs;
      good = t.good + count_p (is_good cutoff) rs;
      latency_good = t.latency_good + count_p (is_fast cutoff target) rs;
    }
unfolding tally_results tally_result
tally_results_lem target cutoff t [] h = ground arith
tally_results_lem target cutoff t (r ∷ rs) h =
    ground (arith, tally_results_lem target cutoff (tally_result target cutoff t r) rs)

tallied :
    (target : Duration) (cutoff : Time) (rs : List CheckResult)
    → ltb_ℤ (pos 0) target ≡ true
    → tally_results target cutoff no_tally rs ≡ record {
      eligible = count_p (is_eligible cutoff) rs;
      good = count_p (is_good cutoff) rs;
      latency_good = count_p (is_fast cutoff target) rs;
    }
tallied target cutoff rs h = tally_results_lem target cutoff no_tally rs h ∙ simp zero-add

-- With a positive latency target, CalculateSLO over a history is CalculateSLOCounts over the three
-- counts of the documented model.
pub calculate_slo-eq-counts :
    {F : Type 0} (fl : Float64 F) (e : Endpoint F) (results : List CheckResult) (now : Time)
    → ltb_ℤ (pos 0) (slo_latency_target e) ≡ true
    → let cutoff = add now (negated (slo_window e)) in
      calculate_slo fl e results now
      ≡ calculate_slo_counts fl e
          (count_p (is_eligible cutoff) results)
          (count_p (is_good cutoff) results)
          (count_p (is_fast cutoff (slo_latency_target e)) results)
unfolding calculate_slo calculate_slo_counts
calculate_slo-eq-counts fl e results now h =
    rw (tallied (slo_latency_target e) (add now (negated (slo_window e))) results h)
