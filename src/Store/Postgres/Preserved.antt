-- ===== src/Store/Postgres/Preserved.antt =====
-- internal/store/memory.go and internal/store/postgres.go: one call on both, when the two hold the same.
use mathlib.Core.List.{append-nil, map-append}
use service_reliability_watc.Common.{
  ◌≡◌, refl, sym, ap, ◌∙◌, subst, Bool, Bool-cases, inl, inr, Option, none, some, List, [], ◌∷◌,
  ◌++◌, arith, if◌then◌else◌, map, keep-append, last?, last?-snoc, on_some, All, All-append,
  All-map,
}
use service_reliability_watc.Common.Int.{pos, ◌<ℤ◌, +ℤ_parts}
use service_reliability_watc.Common.Float.{Float64}
use service_reliability_watc.Common.Text.{Text, text_eq, text_eq_iff}
use service_reliability_watc.Common.Clock.{Duration}
use service_reliability_watc.Common.Result.{ok}
use service_reliability_watc.Domain.Types.{State, CheckResult}
use service_reliability_watc.Store.Types.{RecordOutcome}
use service_reliability_watc.Store.Outcome.{
  without_ids, outcome_due, transition_without_id, alert_without_id,
}
use service_reliability_watc.Store.Memory.{
  Memory, results_of, record_result as memory_record_result,
}
use service_reliability_watc.Store.Memory.Frames.{
  to_list, record_result-transitions, record_result-alerts,
}
use service_reliability_watc.Store.Memory.Due.{without_ids-record_result}
use service_reliability_watc.Store.Memory.Latest.{record_result-IsFull}
use service_reliability_watc.Store.Memory.History.{results_of-record_result}
use service_reliability_watc.Store.Postgres.Rows.{row_of, newest_of}
use service_reliability_watc.Store.Postgres.{Database, Sql, no_faults, record_result}
use service_reliability_watc.Store.Postgres.Newest.{
  rows_of, Precedes, newest_of-snoc, newest_of-other,
}
use service_reliability_watc.Store.Postgres.Dedupe.{duplicate_is_has_alert}
use service_reliability_watc.Store.Postgres.Committed.{
  new_row, new_transition, new_alert, IsCommitted, record_result-IsCommitted,
}
use service_reliability_watc.Store.Postgres.Simulation.{
  row_without_id, memory_row, Simulates, IsAdmissible, previous_lem,
}
use service_reliability_watc.Store.Postgres.Outcomes.{
  without_ids-new, transition_row-new, alert_row-new,
}

All-both {ℓ κ μ} :
    {A : Type ℓ} (P : A → Type κ) (Q : A → Type μ) (xs : List A)
    → All P xs
    → All Q xs
    → All (λ x. P x × Q x) xs
All-both P Q [] h k = tt
All-both P Q (x ∷ xs) h k = ((h.0, k.0), All-both P Q xs h.1 k.1)

map-to_list {ℓ κ} :
    {A : Type ℓ} {B : Type κ} (f : A → B) (o : Option A) → map f (to_list o) ≡ to_list (on_some f o)
map-to_list f none = refl
map-to_list f (some a) = refl

-- Two lists that are the same under `f` and `g`, and one element more in each, or none.
append-same {ℓ κ μ} :
    {A : Type ℓ} {B : Type κ} {C : Type μ} (f : A → C) (g : B → C) (xs : List A) (ys : List B)
    (o : Option A) (p : Option B)
    → map f xs ≡ map g ys
    → on_some f o ≡ on_some g p
    → map f (xs ++ to_list o) ≡ map g (ys ++ to_list p)
append-same f g xs ys o p h k =
    map-append f xs (to_list o)
    ∙ ap (λ l. l ++ map f (to_list o)) h
    ∙ ap (λ l. map g ys ++ l) (map-to_list f o ∙ ap to_list k ∙ sym (map-to_list g p))
    ∙ sym (map-append g ys (to_list p))

module _ {F : Type 0} (fl : Float64 F) (sql : Sql) (m : Memory F) (db : Database F)
    (r : CheckResult) (window : Duration) (s : Simulates fl sql m db)
    (ok_here : IsAdmissible fl sql db r window) where
  abbrev returned : RecordOutcome
  returned = record {
    transition = new_transition fl sql db r window;
    alert = new_alert fl sql db r window;
  }

  -- The outcomes are the same, but for the ids.
  outcomes_agree : without_ids (memory_record_result m r window).1 ≡ without_ids returned
  outcomes_agree =
      without_ids-record_result m r window
      ∙ due_agrees (previous_lem fl sql m db r.endpoint_id s) (
          duplicate_is_has_alert _ r.checked_at window m.alerts db.tables.alerts s.alerts
            ok_here.is_window ok_here.off_edge)
      ∙ sym (without_ids-new fl sql db r window ok_here.exact_cutoff)
    where
      due_agrees :
          {p q : State} {b c : Bool} → p ≡ q → b ≡ c → outcome_due p b r ≡ outcome_due q c r
      due_agrees h k = cc

  module _ (after : Database F) (c : IsCommitted fl sql db r window after) where
    transitions_after :
        map transition_without_id (memory_record_result m r window).0.transitions
        ≡ map transition_without_id after.tables.transitions
    transitions_after =
        rw (record_result-transitions m r window, c.transitions)
          (append-same transition_without_id transition_without_id m.transitions
            db.tables.transitions _ _ s.transitions
            (ap (λ o. o.transition) outcomes_agree
              ∙ sym (transition_row-new fl sql db r window ok_here.exact)))

    alerts_after :
        map alert_without_id (memory_record_result m r window).0.alerts
        ≡ map alert_without_id after.tables.alerts
    alerts_after =
        rw (record_result-alerts m r window, c.alerts)
          (append-same alert_without_id alert_without_id m.alerts db.tables.alerts _ _ s.alerts (
            ap (λ o. o.alert) outcomes_agree
            ∙ sym (alert_row-new fl sql db r window ok_here.exact)))

    rows_of-after :
        (id : Text)
        → rows_of id after.tables.results
          ≡ rows_of id db.tables.results
            ++ to_list
                (if text_eq r.endpoint_id id then some (new_row fl sql db r window) else none)
    unfolding row_of
    rows_of-after id =
        rw
          (
            c.results,
            keep-append (λ x. text_eq x.endpoint_id id) db.tables.results
                (new_row fl sql db r window ∷ []),
          )
          (ground arith)

    results_of-after :
        (id : Text)
        → results_of (memory_record_result m r window).0 id
          ≡ results_of m id
            ++ to_list
                (if text_eq r.endpoint_id id then some (record r { id = m.next_id }) else none)
    results_of-after id =
        results_of-record_result m r window id
        ∙ ground (arith, append-nil (results_of m id), text_eq_iff r.endpoint_id id)

    rows_after :
        (id : Text)
        → map (memory_row fl sql) (results_of (memory_record_result m r window).0 id)
          ≡ map row_without_id (rows_of id after.tables.results)
    unfolding row_of
    rows_after id =
        rw (results_of-after id, rows_of-after id)
          (append-same (memory_row fl sql) row_without_id _ _ _ _ (s.rows id) (ground arith))

    Precedes-new :
        All (Precedes r.endpoint_id r.checked_at db.sequences.result_id) db.tables.results
    Precedes-new = All-both _ _ db.tables.results ok_here.in_order s.below

    own :
        newest_of r.endpoint_id (db.tables.results ++ new_row fl sql db r window ∷ [])
        ≡ some (new_row fl sql db r window)
    unfolding row_of
    own = newest_of-snoc (new_row fl sql db r window) db.tables.results (
        subst (λ t. All (Precedes r.endpoint_id t db.sequences.result_id) db.tables.results)
          (sym ok_here.exact) Precedes-new)

    newest_after :
        (id : Text) → newest_of id after.tables.results ≡ last? (rows_of id after.tables.results)
    unfolding row_of
    newest_after id = elim (Bool-cases (text_eq r.endpoint_id id)) [
      | inl same ↦
          rw
            (
              rows_of-after id,
              same,
              last?-snoc (rows_of id db.tables.results) (new_row fl sql db r window),
              c.results,
            )
            (subst
              (λ i.
                newest_of i (db.tables.results ++ new_row fl sql db r window ∷ [])
                ≡ some (new_row fl sql db r window))
              ((text_eq_iff r.endpoint_id id).0 same) own)
      | inr other ↦
          rw (rows_of-after id, other, append-nil (rows_of id db.tables.results), c.results)
            (newest_of-other (new_row fl sql db r window) id db.tables.results other ∙ s.newest id)
    ]

    below_after : All (λ x. x.id <ℤ after.sequences.result_id) after.tables.results
    unfolding row_of
    below_after =
        rw (c.results, c.next_result)
          (All-append _ db.tables.results (new_row fl sql db r window ∷ [])
            (All-map _ _ (λ x h. omega (arith, +ℤ_parts db.sequences.result_id (pos 1)))
              db.tables.results s.below)
            (omega (arith, +ℤ_parts db.sequences.result_id (pos 1)), tt))

    Simulates-after : Simulates fl sql (memory_record_result m r window).0 after
    Simulates-after = record {
      rows = rows_after;
      newest = newest_after;
      below = below_after;
      full = record_result-IsFull m r window s.full;
      transitions = transitions_after;
      alerts = alerts_after;
    }

  -- A call keeps what the two hold the same, and returns the same from both, but for the ids.
  pub record_result-Simulates :
      Simulates fl sql
        (memory_record_result m r window).0
        (record_result fl sql no_faults db r window).0
      × (o : RecordOutcome) × ((record_result fl sql no_faults db r window).1 ≡ ok o)
      × (without_ids (memory_record_result m r window).1 ≡ without_ids o)
  record_result-Simulates =
      let (e, c) = record_result-IsCommitted fl sql db r window ok_here.accepted in
      (Simulates-after _ c, returned, e, outcomes_agree)
