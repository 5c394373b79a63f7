-- ===== src/Store/Postgres/Outcomes.antt =====
-- internal/store/postgres.go: what RecordResult returns, but for the ids, and what it stores.
use service_reliability_watc.Common.{◌≡◌, on_some, arith}
use service_reliability_watc.Common.Float.{Float64}
use service_reliability_watc.Common.Clock.{Duration, add, negated}
use service_reliability_watc.Domain.Types.{CheckResult}
use service_reliability_watc.Store.Types.{dedupe_key}
use service_reliability_watc.Store.Outcome.{
  without_ids, outcome_due, transition_without_id, alert_without_id,
}
use service_reliability_watc.Store.Postgres.Rows.{has_alert}
use service_reliability_watc.Store.Postgres.{Database, Sql}
use service_reliability_watc.Store.Postgres.Committed.{
  transition_row, alert_row, previous_in, new_transition, new_alert,
}

module _ {F : Type 0} (fl : Float64 F) (sql : Sql) (db : Database F) (r : CheckResult)
    (window : Duration) where
  pub without_ids-new :
      sql.stored_time (add r.checked_at (negated window)) ≡ add r.checked_at (negated window)
      → without_ids (record {
        transition = new_transition fl sql db r window;
        alert = new_alert fl sql db r window;
      })
        ≡ outcome_due
            (previous_in fl sql db r window)
            (has_alert
              (dedupe_key r.endpoint_id r.state)
              (add r.checked_at (negated window))
              db.tables.alerts)
            r
  without_ids-new h = rw h (ground arith)

  pub transition_row-new :
      sql.stored_time r.checked_at ≡ r.checked_at
      → on_some transition_without_id
          (on_some (transition_row sql.stored_time) (new_transition fl sql db r window))
        ≡ on_some transition_without_id (new_transition fl sql db r window)
  transition_row-new h = ground (arith, h)

  pub alert_row-new :
      sql.stored_time r.checked_at ≡ r.checked_at
      → on_some alert_without_id
          (on_some (alert_row sql.stored_time) (new_alert fl sql db r window))
        ≡ on_some alert_without_id (new_alert fl sql db r window)
  alert_row-new h = ground (arith, h)
