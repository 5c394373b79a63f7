-- ===== src/Domain/Slo.antt =====
-- internal/domain/types.go: CalculateSLO, CalculateSLOCounts and ratio.
--
-- The int64 counters count the elements of a slice, whose length is an int, so they do not wrap and
-- are plain numbers.
pub mod Equivalence
use service_reliability_watc.Common.{
  ℕ, suc, ◌+◌, ◌*◌, Bool, true, false, not, ◌&&◌, ◌||◌, List, [], ◌∷◌, if◌then◌else◌, ltb, ◌==◌,
}
use service_reliability_watc.Common.Int.{ℤ, pos, ltb_ℤ, leb_ℤ}
use service_reliability_watc.Common.Float.{Float64}
use service_reliability_watc.Common.Clock.{Time, Duration, before, add, negated, hour}
use service_reliability_watc.Domain.Types.{
  State, healthy, degraded, unavailable, maintenance, state_eq, Endpoint, CheckResult, SloStatus,
}

-- `var eligible, good, latencyGood int64`.
pub record Tally : Type 0 where
  pub eligible : ℕ
  pub good : ℕ
  pub latency_good : ℕ

abbrev pub no_tally : Tally
no_tally = record { eligible = 0; good = 0; latency_good = 0 }

-- One round of the loop of CalculateSLO.
tally_result : Duration → Time → Tally → CheckResult → Tally
tally_result latency_target cutoff t r =
    if before r.checked_at cutoff || state_eq r.state maintenance then t else record {
      eligible = t.eligible + 1;
      good = if state_eq r.state healthy || state_eq r.state degraded then t.good + 1 else t.good;
      latency_good =
          if (ltb_ℤ (pos 0) latency_target && leb_ℤ r.latency latency_target)
            && not (state_eq r.state unavailable)
          then t.latency_good + 1
          else t.latency_good;
    }

tally_results : Duration → Time → Tally → List CheckResult → Tally
tally_results latency_target cutoff t [] = t
tally_results latency_target cutoff t (r ∷ rs) =
    tally_results latency_target cutoff (tally_result latency_target cutoff t r) rs

module _ {F : Type 0} (fl : Float64 F) where
  open fl use {decimal, of_int, minus, over, maximum, lt, le}

  unfoldable pub ratio : ℕ → ℕ → F
  ratio numerator denominator =
      if denominator == 0
      then decimal 0 0
      else over (of_int (pos numerator)) (of_int (pos denominator))

-- The three defaults that both functions apply.
unfoldable pub slo_window : {F : Type 0} → Endpoint F → Duration
slo_window e = if leb_ℤ e.slo.window (pos 0) then pos (30 * 24 * hour) else e.slo.window

unfoldable pub slo_latency_target : {F : Type 0} → Endpoint F → Duration
slo_latency_target e =
    if leb_ℤ e.slo.latency_target (pos 0) then e.latency_target else e.slo.latency_target

unfoldable pub slo_availability_target : {F : Type 0} → Float64 F → Endpoint F → F
slo_availability_target fl e =
    if fl.le e.slo.availability_target (fl.decimal 0 0)
    then fl.decimal 999 3
    else e.slo.availability_target

-- `burnRate`, `budgetUsed` and `budgetRemaining`.
record Budget (F : Type 0) : Type 0 where
  burn_rate : F
  used : F
  remaining : F

module _ {F : Type 0} (fl : Float64 F) where
  budget : ℕ → F → F → Budget F
  budget eligible allowed_bad actual_bad =
      if ltb 0 eligible && fl.lt (fl.decimal 0 0) allowed_bad
      then (let rate = fl.over actual_bad allowed_bad in
          record {
            burn_rate = rate;
            used = rate;
            remaining = fl.maximum (fl.decimal 0 0) (fl.minus (fl.decimal 1 0) rate);
          })
      else record { burn_rate = fl.decimal 0 0; used = fl.decimal 0 0; remaining = fl.decimal 1 0 }

  unfoldable pub calculate_slo : Endpoint F → List CheckResult → Time → SloStatus F
  unfolding tally_result tally_results ratio budget slo_window slo_latency_target
      slo_availability_target
  calculate_slo e results now =
      let window = slo_window e in
      let target = slo_availability_target fl e in
      let latency_target = slo_latency_target e in
      let cutoff = add now (negated window) in
      let t = tally_results latency_target cutoff no_tally results in
      let availability = ratio fl t.good t.eligible in
      let allowed_bad = fl.minus (fl.decimal 1 0) target in
      let b = budget t.eligible allowed_bad (fl.minus (fl.decimal 1 0) availability) in
      record {
        window = window;
        availability_target = target;
        availability = availability;
        latency_target = latency_target;
        latency_compliance = ratio fl t.latency_good t.eligible;
        error_budget_total = allowed_bad;
        error_budget_used = b.used;
        error_budget_remain = b.remaining;
        burn_rate = b.burn_rate;
        sample_count = t.eligible;
      }

  unfoldable pub calculate_slo_counts : Endpoint F → ℕ → ℕ → ℕ → SloStatus F
  unfolding ratio budget slo_window slo_latency_target slo_availability_target
  calculate_slo_counts e eligible good latency_good =
      let target = slo_availability_target fl e in
      let availability = ratio fl good eligible in
      let allowed_bad = fl.minus (fl.decimal 1 0) target in
      let b = budget eligible allowed_bad (fl.minus (fl.decimal 1 0) availability) in
      record {
        window = slo_window e;
        availability_target = target;
        availability = availability;
        latency_target = slo_latency_target e;
        latency_compliance = ratio fl latency_good eligible;
        error_budget_total = allowed_bad;
        error_budget_used = b.used;
        error_budget_remain = b.remaining;
        burn_rate = b.burn_rate;
        sample_count = eligible;
      }
