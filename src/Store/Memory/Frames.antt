-- ===== src/Store/Memory/Frames.antt =====
-- internal/store/memory.go: what each block of RecordResult writes, and what it leaves alone.
pub use service_reliability_watc.Store.Outcome.{wants_alert}
use mathlib.Core.List.{append-nil}
use service_reliability_watc.Common.{
  ◌≡◌, ap, ◌∙◌, Bool, not, Option, none, some, List, [], ◌∷◌, ◌++◌, arith, reverse,
}
use service_reliability_watc.Common.Clock.{Duration}
use service_reliability_watc.Domain.Types.{State, CheckResult, Alert}
use service_reliability_watc.Store.Types.{dedupe_key}
use service_reliability_watc.Store.Memory.{
  Memory, results_of, previous_state, duplicate, append_result, append_transition, append_alert,
  record_result,
}

abbrev pub is_fresh : List Alert → CheckResult → Duration → Bool
is_fresh alerts r window =
    not (duplicate (dedupe_key r.endpoint_id r.state) r.checked_at window (reverse alerts))

abbrev pub to_list {ℓ} : {A : Type ℓ} → Option A → List A
to_list none = []
to_list (some a) = a ∷ []

module _ {F : Type 0} (m : Memory F) (r : CheckResult) (window : Duration) (previous : State) where
  append_transition-frame :
      ((append_transition m previous r).0.results ≡ m.results)
      × ((append_transition m previous r).0.alerts ≡ m.alerts)
      × ((append_transition m previous r).0.endpoints ≡ m.endpoints)
  unfolding append_transition
  append_transition-frame = ground arith

  append_transition-appends :
      (append_transition m previous r).0.transitions
      ≡ m.transitions ++ to_list (append_transition m previous r).1
  unfolding append_transition
  append_transition-appends = ground (arith, append-nil m.transitions)

  append_alert-frame :
      ((append_alert m previous r window).0.results ≡ m.results)
      × ((append_alert m previous r window).0.transitions ≡ m.transitions)
      × ((append_alert m previous r window).0.endpoints ≡ m.endpoints)
  unfolding append_alert
  append_alert-frame = ground arith

  append_alert-appends :
      (append_alert m previous r window).0.alerts
      ≡ m.alerts ++ to_list (append_alert m previous r window).1
  unfolding append_alert
  append_alert-appends = ground (arith, append-nil m.alerts)

-- The state of the endpoint before the result.
abbrev pub previous : {F : Type 0} → Memory F → CheckResult → State
previous m r = previous_state (results_of m r.endpoint_id)

module _ {F : Type 0} (m : Memory F) (r : CheckResult) (window : Duration) where
  -- The store between the two blocks.
  abbrev between : Memory F
  between = (append_transition (append_result m r) (previous m r) r).0

  pub record_result-results : (record_result m r window).0.results ≡ (append_result m r).results
  unfolding record_result
  record_result-results =
      (append_alert-frame between r window (previous m r)).0
      ∙ (append_transition-frame (append_result m r) r window (previous m r)).0

  -- RecordResult returns the transition that it stores.
  pub record_result-transitions :
      (record_result m r window).0.transitions
      ≡ m.transitions ++ to_list (record_result m r window).1.transition
  unfolding record_result append_result
  record_result-transitions =
      (append_alert-frame between r window (previous m r)).1
      ∙ append_transition-appends (append_result m r) r window (previous m r)

  -- It returns the alert that it stores.
  pub record_result-alerts :
      (record_result m r window).0.alerts ≡ m.alerts ++ to_list (record_result m r window).1.alert
  unfolding record_result append_result
  record_result-alerts =
      append_alert-appends between r window (previous m r)
      ∙ ap (λ l. l ++ to_list (append_alert between (previous m r) r window).1)
          (append_transition-frame (append_result m r) r window (previous m r)).1
