-- ===== src/Monitor/Perform/Report.antt =====
-- internal/monitor/service.go: what a series of checks leaves behind, over the repository in memory.
use native.Mathlib.Nat.{add-zero, zero-add}
use service_reliability_watc.Common.Text.{Text}
use service_reliability_watc.Common.{
  ℕ, suc, ◌+◌, ◌≡◌, refl, ap, ◌∙◌, Bool, true, false, Option, none, some, List, [], ◌∷◌, ◌++◌,
  arith, length, length-append, count_p, count_p-append,
}
use service_reliability_watc.Common.Float.{Float64}
use service_reliability_watc.Common.Assoc.{lookup}
use service_reliability_watc.Domain.Types.{Endpoint, CheckResult, Alert}
use service_reliability_watc.Resilience.Circuit.{item}
use service_reliability_watc.Store.Types.{Repository}
use service_reliability_watc.Store.Memory.{Memory, new_memory, results_of, record_result}
use service_reliability_watc.Store.Memory.Alerts.{IsSpaced, record_result-IsSpaced}
use service_reliability_watc.Store.Memory.Frames.{to_list, record_result-alerts}
use service_reliability_watc.Store.Memory.History.{IsConsistent, record_result-IsConsistent}
use service_reliability_watc.Store.Memory.Repository.{memory_repository}
use service_reliability_watc.Monitor.Types.{
  Options, Event, observed, alerted, storage_error, Service, new_service,
}
use service_reliability_watc.Monitor.Perform.{Visit, checked, report, perform, alert_events}
use service_reliability_watc.Monitor.Perform.Breaker.{IsSettled, checked-IsSettled}

module _ {F : Type 0} where
  abbrev pub is_observed : Event F → Bool
  is_observed (observed e r) = true
  is_observed _ = false

  abbrev pub is_alerted : Event F → Bool
  is_alerted (alerted id s) = true
  is_alerted _ = false

  abbrev pub is_storage_error : Event F → Bool
  is_storage_error storage_error = true
  is_storage_error _ = false

-- A series of checks, one after another.
unfoldable pub perform_all :
    {F R : Type 0}
    → Float64 F
    → Repository F R
    → Service F R
    → List (Endpoint F × Visit F)
    → Service F R
perform_all fl repository s [] = s
perform_all fl repository s ((e, v) ∷ rest) =
    perform_all fl repository (perform fl repository s e v) rest

-- What holds between two checks of a service over the memory, after `n` checks.
pub record Inv {F : Type 0} (n : ℕ) (s : Service F (Memory F)) : Type 0 where
  pub settled : IsSettled s.breaker
  pub consistent : IsConsistent s.repo
  pub spaced : IsSpaced s.options.alert_dedupe s.repo.alerts
  pub all_observed : count_p is_observed s.events ≡ n
  pub all_alerted : count_p is_alerted s.events ≡ length s.repo.alerts
  pub no_errors : count_p is_storage_error s.events ≡ 0

pub count-alert_events :
    (F : Type 0) (id : Text) (o : Option Alert)
    → (count_p is_alerted (alert_events {F = F} id o) ≡ length (to_list o))
      × (count_p is_observed (alert_events {F = F} id o) ≡ 0)
      × (count_p is_storage_error (alert_events {F = F} id o) ≡ 0)
count-alert_events F id none = (refl, refl, refl)
count-alert_events F id (some a) = (refl, refl, refl)

module _ {F : Type 0} (fl : Float64 F) (sort : List Alert → List Alert) (s : Service F (Memory F))
    (e : Endpoint F) (v : Visit F) where
  abbrev result : CheckResult
  result = (checked fl s.options s.breaker e v).1

  abbrev after : Service F (Memory F)
  after = perform fl (memory_repository F sort) s e v

  abbrev alert : Option Alert
  alert = (record_result s.repo result s.options.alert_dedupe).1.alert

  -- The events that one check adds.
  abbrev added : List (Event F)
  added = observed e result ∷ alert_events e.id alert

  events-added : after.events ≡ s.events ++ added
  unfolding perform report
  events-added = refl

  alerts-added : after.repo.alerts ≡ s.repo.alerts ++ to_list alert
  unfolding perform report
  alerts-added = record_result-alerts s.repo result s.options.alert_dedupe

  counts : (p : Event F → Bool) → count_p p after.events ≡ count_p p s.events + count_p p added
  counts p = ap (count_p p) events-added ∙ count_p-append p s.events added

  perform-Inv : {n : ℕ} → Inv n s → Inv (n + 1) after
  unfolding perform report
  perform-Inv inv =
      let (a, o, x) = count-alert_events F e.id alert in
      record {
        settled = checked-IsSettled fl s.options s.breaker e v inv.settled;
        consistent = record_result-IsConsistent s.repo result s.options.alert_dedupe inv.consistent;
        spaced = record_result-IsSpaced s.repo result s.options.alert_dedupe inv.spaced;
        all_observed = omega (arith, counts is_observed, o, inv.all_observed);
        all_alerted = omega (
          arith,
          counts is_alerted,
          a,
          inv.all_alerted,
          ap length alerts-added,
          length-append s.repo.alerts (to_list alert),
        );
        no_errors = omega (arith, counts is_storage_error, x, inv.no_errors);
      }

perform_all-Inv :
    {F : Type 0} (fl : Float64 F) (sort : List Alert → List Alert) (n : ℕ)
    (s : Service F (Memory F)) (visits : List (Endpoint F × Visit F))
    → Inv n s
    → Inv (n + length visits) (perform_all fl (memory_repository F sort) s visits)
unfolding perform_all
perform_all-Inv {F} fl sort n s [] inv = rw add-zero inv
perform_all-Inv {F} fl sort n s ((e, v) ∷ rest) inv =
    let k : n + suc (length rest) ≡ n + 1 + length rest = omega arith in
    rw k (
      perform_all-Inv fl sort (n + 1) (perform fl (memory_repository F sort) s e v) rest
        (perform-Inv fl sort s e v inv))

pub new-Inv :
    {F : Type 0} (endpoints : List (Endpoint F)) (options : Options)
    → Inv 0 (new_service endpoints (new_memory {F = F}) options)
unfolding new_service item lookup results_of
new-Inv endpoints options = record {
  settled = λ key t h. cc;
  consistent = λ key. refl;
  spaced = tt;
  all_observed = refl;
  all_alerted = refl;
  no_errors = refl;
}

-- A new service over an empty store in memory, after any series of checks of any endpoints, whatever
-- the clock reads and the checks return: it has made one observation for each check, it has told the
-- observer of as many alerts as the store holds, and it has met no storage error; the stored
-- transitions are the changes of state along the stored results, alerts of one dedupe key are never
-- closer than the dedupe window, and no circuit is left in its half-open probe.
pub perform_all-new-Inv :
    {F : Type 0} (fl : Float64 F) (sort : List Alert → List Alert) (endpoints : List (Endpoint F))
    (options : Options) (visits : List (Endpoint F × Visit F))
    → Inv (length visits) (
        perform_all fl
          (memory_repository F sort)
          (new_service endpoints (new_memory {F = F}) options)
          visits)
perform_all-new-Inv fl sort endpoints options visits = rw zero-add at (
    perform_all-Inv fl sort 0 (new_service endpoints new_memory options) visits
      (new-Inv endpoints options))
