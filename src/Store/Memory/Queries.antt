-- ===== src/Store/Memory/Queries.antt =====
-- internal/store/memory.go: what the read methods return.
use native.Mathlib.Nat.{zero-add}
use service_reliability_watc.Common.{
  ℕ, zero, suc, ◌+◌, ◌≡◌, refl, sym, ◌∙◌, Bool, true, ◌||◌, List, [], ◌∷◌, arith, reverse, keep,
  take, count_p,
}
use service_reliability_watc.Common.Int.{pos, ltb_ℤ}
use service_reliability_watc.Common.Float.{Float64}
use service_reliability_watc.Common.Text.{Text, text_eq}
use service_reliability_watc.Common.Clock.{Time, Duration, add, negated}
use service_reliability_watc.Domain.Types.{Endpoint, CheckResult, Transition}
use service_reliability_watc.Domain.Slo.{
  slo_window, slo_latency_target, calculate_slo, calculate_slo_counts,
}
use service_reliability_watc.Domain.Slo.Equivalence.{
  is_eligible, is_good, is_fast, calculate_slo-eq-counts,
}
use service_reliability_watc.Store.Types.{Counts}
use service_reliability_watc.Store.Memory.{
  Memory, results_of, count_result, count_results, newest_transitions, counts_since, transitions,
}

count_results_lem :
    (from : Time) (target : Duration) (c : Counts) (rs : List CheckResult)
    → count_results from target c rs ≡ record {
      eligible = c.eligible + count_p (is_eligible from) rs;
      good = c.good + count_p (is_good from) rs;
      latency_good = c.latency_good + count_p (is_fast from target) rs;
    }
unfolding count_results count_result
count_results_lem from target c [] = ground arith
count_results_lem from target c (r ∷ rs) =
    ground (arith, count_results_lem from target (count_result from target c r) rs)

-- CountsSince counts the stored results of the endpoint by the documented model: those from `from`
-- on that are not Maintenance, of these the Healthy and Degraded ones, and of these that are not
-- Unavailable the ones within the latency target.
pub counts_since_lem :
    {F : Type 0} (m : Memory F) (id : Text) (from : Time) (target : Duration)
    → counts_since m id from target ≡ record {
      eligible = count_p (is_eligible from) (results_of m id);
      good = count_p (is_good from) (results_of m id);
      latency_good = count_p (is_fast from target) (results_of m id);
    }
unfolding counts_since
counts_since_lem m id from target =
    count_results_lem from target _ (results_of m id) ∙ simp zero-add

-- The status computed from the repository's counts is CalculateSLO over the endpoint's whole
-- history, where the latency target in force is positive.
pub slo_from_counts :
    {F : Type 0} (fl : Float64 F) (m : Memory F) (e : Endpoint F) (now : Time)
    → ltb_ℤ (pos 0) (slo_latency_target e) ≡ true
    → let c = counts_since m e.id (add now (negated (slo_window e))) (slo_latency_target e) in
      calculate_slo_counts fl e c.eligible c.good c.latency_good
      ≡ calculate_slo fl e (results_of m e.id) now
slo_from_counts fl m e now h =
    rw (counts_since_lem m e.id (add now (negated (slo_window e))) (slo_latency_target e))
      (sym (calculate_slo-eq-counts fl e (results_of m e.id) now h))

-- Which transitions an endpoint id selects: all of them if it is empty.
abbrev pub selects : Text → Transition → Bool
selects id t = text_eq id [] || text_eq t.endpoint_id id

newest_transitions_lem :
    (id : Text) (n : ℕ) (ts : List Transition)
    → newest_transitions id n ts ≡ take n (keep (selects id) ts)
unfolding newest_transitions
newest_transitions_lem id zero [] = refl
newest_transitions_lem id (suc n) [] = refl
newest_transitions_lem id zero (t ∷ ts) = refl
newest_transitions_lem id (suc n) (t ∷ ts) =
    ground (arith, newest_transitions_lem id n ts, newest_transitions_lem id (suc n) ts)

-- Transitions returns the newest `limit` of the transitions that the id selects, newest first.
pub transitions_lem :
    {F : Type 0} (m : Memory F) (id : Text) (limit : ℕ)
    → transitions m id limit ≡ take limit (keep (selects id) (reverse m.transitions))
unfolding transitions
transitions_lem m id limit = newest_transitions_lem id limit (reverse m.transitions)
