-- ===== src/Monitor/Perform/Concurrent/Interleaved.antt =====
-- internal/monitor/service.go: what calls of perform leave behind,
-- however their actions interleave, over the repository in memory.
use service_reliability_watc.Common.{
  ℕ, ◌≡◌, refl, ap, inl, inr, Bool, List, [], ◌∷◌, length, length-append, count_p, count_p-append,
  sum_of, sum_of-append, sum_of-replace, sum_of-remove, arith,
}
use service_reliability_watc.Common.Float.{Float64}
use service_reliability_watc.Common.Text.{Text}
use service_reliability_watc.Common.Result.{Result, ok, err}
use service_reliability_watc.Domain.Types.{Endpoint, Alert}
use service_reliability_watc.Resilience.Circuit.{allow}
use service_reliability_watc.Store.Types.{RecordOutcome}
use service_reliability_watc.Store.Memory.{Memory, new_memory, record_result}
use service_reliability_watc.Store.Memory.Alerts.{record_result-IsSpaced}
use service_reliability_watc.Store.Memory.Frames.{to_list, record_result-alerts}
use service_reliability_watc.Store.Memory.History.{record_result-IsConsistent}
use service_reliability_watc.Store.Memory.Repository.{memory_repository}
use service_reliability_watc.Monitor.Types.{Options, Event, observed, new_service}
use service_reliability_watc.Monitor.Perform.{settle, stored_events}
use service_reliability_watc.Monitor.Perform.Report.{
  is_observed, is_alerted, is_storage_error, Inv, new-Inv, count-alert_events,
}
use service_reliability_watc.Monitor.Perform.Concurrent.{
  Call, asking, checking, resolved, told, stored, Pool, first_call, asked_call, retried, Action,
  begins, asks, settles, observes, records, ends, Actions, none_yet, ◌and◌,
}
use service_reliability_watc.Monitor.Perform.Concurrent.Invariant.{
  alerts_in, errors_in, checks, unobserved, untold, failing, Sound, first-is_quiet, asked-is_quiet,
  asks-IsHeld, settles-IsHeld, quiet-IsHeld,
}

count-stored_events :
    (F : Type 0) (id : Text) (o : Result Text RecordOutcome)
    → (count_p is_alerted (stored_events {F = F} id o) ≡ alerts_in o)
      × (count_p is_observed (stored_events {F = F} id o) ≡ 0)
      × (count_p is_storage_error (stored_events {F = F} id o) ≡ errors_in o)
count-stored_events F id (err e) = (refl, refl, refl)
count-stored_events F id (ok o) = count-alert_events F id o.alert

module _ {F : Type 0} (fl : Float64 F) (sort : List Alert → List Alert) where
  Action-Sound :
      (p q : Pool F (Memory F)) → Action fl (memory_repository F sort) p q → Sound p → Sound q
  Action-Sound p q (begins e now) i =
      let (u, a, x, c) = first-is_quiet p.service.options e now in
      let added =
        λ (f : Call F → ℕ). sum_of-append f p.calls (first_call p.service.options e now ∷ []) in
      record {
        held =
            quiet-IsHeld p.service.breaker p.calls _
              (λ key. omega (arith, added (checks key), c key)) i.held;
        consistent = i.consistent;
        spaced = i.spaced;
        all_observed = omega (arith, i.all_observed, added unobserved, u);
        all_alerted = omega (arith, i.all_alerted, added untold, a);
        no_errors = omega (arith, i.no_errors, added failing, x);
      }
  Action-Sound p q (asks left right e now h) i =
      let allowed = (allow p.service.breaker e.id now).1 in
      let (u, a, x) = asked-is_quiet e now allowed in
      let change = λ (f : Call F → ℕ).
        sum_of-replace f p.calls left right (asking e now) (asked_call e now allowed) h in
      record {
        held = asks-IsHeld p.service.breaker p.calls left right e now h i.held;
        consistent = i.consistent;
        spaced = i.spaced;
        all_observed = omega (arith, i.all_observed, change unobserved, u);
        all_alerted = omega (arith, i.all_alerted, change untold, a);
        no_errors = omega (arith, i.no_errors, change failing, x);
      }
  Action-Sound p q (settles left right e later world h) i =
      let r = retried fl (memory_repository F sort) p.service.options e world in
      let answer = settle p.service.breaker e.id later r in
      let change = λ (f : Call F → ℕ).
        sum_of-replace f p.calls left right (checking e) (resolved e answer.1) h in
      record {
        held = settles-IsHeld p.service.breaker p.calls left right e later r h i.held;
        consistent = i.consistent;
        spaced = i.spaced;
        all_observed = omega (arith, i.all_observed, change unobserved);
        all_alerted = omega (arith, i.all_alerted, change untold);
        no_errors = omega (arith, i.no_errors, change failing);
      }
  Action-Sound p q (observes left right e r h) i =
      let change =
        λ (f : Call F → ℕ). sum_of-replace f p.calls left right (resolved e r) (told e r) h in
      let count = λ (f : Event F → Bool). count_p-append f p.service.events (observed e r ∷ []) in
      record {
        held =
            quiet-IsHeld p.service.breaker p.calls _ (λ key. omega (arith, change (checks key)))
              i.held;
        consistent = i.consistent;
        spaced = i.spaced;
        all_observed = omega (arith, i.all_observed, change unobserved, count is_observed);
        all_alerted = omega (arith, i.all_alerted, change untold, count is_alerted);
        no_errors = omega (arith, i.no_errors, change failing, count is_storage_error);
      }
  Action-Sound p q (records left right e r h) i =
      let window = p.service.options.alert_dedupe in
      let outcome = (record_result p.service.repo r window).1 in
      let change = λ (f : Call F → ℕ).
        sum_of-replace f p.calls left right (told e r) (stored e (ok outcome)) h in
      record {
        held =
            quiet-IsHeld p.service.breaker p.calls _ (λ key. omega (arith, change (checks key)))
              i.held;
        consistent = record_result-IsConsistent p.service.repo r window i.consistent;
        spaced = record_result-IsSpaced p.service.repo r window i.spaced;
        all_observed = omega (arith, i.all_observed, change unobserved);
        all_alerted = omega (
          arith,
          i.all_alerted,
          change untold,
          ap length (record_result-alerts p.service.repo r window),
          length-append p.service.repo.alerts (to_list outcome.alert),
        );
        no_errors = omega (arith, i.no_errors, change failing);
      }
  Action-Sound p q (ends left right e outcome h) i =
      let change = λ (f : Call F → ℕ). sum_of-remove f p.calls left right (stored e outcome) h in
      let count =
        λ (f : Event F → Bool). count_p-append f p.service.events (stored_events e.id outcome) in
      let (a, o, x) = count-stored_events F e.id outcome in
      record {
        held =
            quiet-IsHeld p.service.breaker p.calls _ (λ key. omega (arith, change (checks key)))
              i.held;
        consistent = i.consistent;
        spaced = i.spaced;
        all_observed = omega (arith, i.all_observed, change unobserved, count is_observed, o);
        all_alerted = omega (arith, i.all_alerted, change untold, count is_alerted, a);
        no_errors = omega (arith, i.no_errors, change failing, count is_storage_error, x);
      }

  pub Actions-Sound :
      (p q : Pool F (Memory F)) → Actions fl (memory_repository F sort) p q → Sound p → Sound q
  Actions-Sound p _ (none_yet _) i = i
  Actions-Sound p r (◌and◌ {q = q} a rest) i = Actions-Sound q r rest (Action-Sound p q a i)

  -- Before the first call.
  abbrev pub fresh : List (Endpoint F) → Options → Pool F (Memory F)
  fresh endpoints options = record {
    service = new_service endpoints new_memory options;
    calls = [];
    begun = 0;
  }

  pub fresh-Sound :
      (endpoints : List (Endpoint F)) (options : Options) → Sound (fresh endpoints options)
  unfolding new_service
  fresh-Sound endpoints options =
      let new = new-Inv endpoints options in
      record {
        held = λ key. inl (new.settled key);
        consistent = new.consistent;
        spaced = tt;
        all_observed = refl;
        all_alerted = refl;
        no_errors = refl;
      }

  -- When all calls have ended.
  pub Sound-Inv : (p : Pool F (Memory F)) → Sound p → p.calls ≡ [] → Inv p.begun p.service
  Sound-Inv p i over = record {
    settled = λ key. elim (i.held key) [
      | inl settled ↦ settled
      | inr checked ↦ absurd (omega (arith, checked, ap (sum_of (checks key)) over))
    ];
    consistent = i.consistent;
    spaced = i.spaced;
    all_observed = omega (arith, i.all_observed, ap (sum_of unobserved) over);
    all_alerted = omega (arith, i.all_alerted, ap (sum_of untold) over);
    no_errors = omega (arith, i.no_errors);
  }

  -- However the actions of any calls of perform interleave on a new service over an empty store in
  -- memory, once all calls have ended: there is one observation for each call that began, the observer
  -- was told of as many alerts as the store holds, and of no storage error; the stored transitions are
  -- the changes of state along the stored results, alerts of one dedupe key are never closer than the
  -- dedupe window, and no circuit is left in its half-open probe.
  pub interleaved-Inv :
      (endpoints : List (Endpoint F)) (options : Options) (p : Pool F (Memory F))
      → Actions fl (memory_repository F sort) (fresh endpoints options) p
      → p.calls ≡ []
      → Inv p.begun p.service
  interleaved-Inv endpoints options p steps over =
      Sound-Inv p (Actions-Sound (fresh endpoints options) p steps (fresh-Sound endpoints options))
        over
