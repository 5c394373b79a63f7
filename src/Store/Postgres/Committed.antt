-- ===== src/Store/Postgres/Committed.antt =====
-- internal/store/postgres.go: what RecordResult writes and returns when no statement fails.
use mathlib.Core.List.{append-nil}
use service_reliability_watc.Common.{
  on_some, ◌≡◌, Bool, true, not, ◌&&◌, ◌||◌, Option, none, some, [], ◌∷◌, ◌++◌, arith,
  if◌then◌else◌,
}
use service_reliability_watc.Common.Int.{pos, ◌+ℤ◌}
use service_reliability_watc.Common.Float.{Float64}
use service_reliability_watc.Common.Clock.{Time, Duration, add, negated}
use service_reliability_watc.Common.Result.{ok}
use service_reliability_watc.Domain.Types.{State, healthy, state_eq, CheckResult, Transition, Alert}
use service_reliability_watc.Store.Types.{alertable, dedupe_key}
use service_reliability_watc.Store.Memory.Frames.{to_list}
use service_reliability_watc.Store.Postgres.Rows.{ResultRow, row_of, newest_of, has_alert}
use service_reliability_watc.Store.Postgres.{
  Database, Sql, no_faults, state_or_unknown, accepts, insert_result, insert_transition,
  insert_alert, body, finish, record_result,
}

-- The row of a transition or of an alert.
abbrev pub transition_row : (Time → Time) → Transition → Transition
transition_row f t = record t { changed_at = f t.changed_at }

abbrev pub alert_row : (Time → Time) → Alert → Alert
alert_row f a = record a { created_at = f a.created_at }

module _ {F : Type 0} (fl : Float64 F) (sql : Sql) (db : Database F) (r : CheckResult)
    (window : Duration) where
  abbrev pub new_row : ResultRow F
  new_row = row_of fl sql.stored_time db.sequences.result_id r

  abbrev pub previous_in : State
  previous_in = state_or_unknown (newest_of r.endpoint_id db.tables.results)

  abbrev pub new_transition : Option Transition
  new_transition =
      if state_eq previous_in r.state
      then none
      else some (record {
        id = db.sequences.transition_id;
        endpoint_id = r.endpoint_id;
        from_state = previous_in;
        to_state = r.state;
        changed_at = r.checked_at;
        reason = r.message;
      })

  abbrev wanted : Bool
  wanted = alertable r.state || (not (state_eq previous_in r.state) && state_eq r.state healthy)

  abbrev found : Bool
  found =
      has_alert (dedupe_key r.endpoint_id r.state)
        (sql.stored_time (add r.checked_at (negated window))) db.tables.alerts

  abbrev pub new_alert : Option Alert
  new_alert =
      if wanted && not found
      then some (record {
        id = db.sequences.alert_id;
        endpoint_id = r.endpoint_id;
        state = r.state;
        dedupe_key = dedupe_key r.endpoint_id r.state;
        created_at = r.checked_at;
        message = r.message;
      })
      else none

  -- The result is stored, and with it the transition and the alert that are returned.
  pub record IsCommitted (after : Database F) : Type 0 where
    pub endpoints : after.tables.endpoints ≡ db.tables.endpoints
    pub results : after.tables.results ≡ db.tables.results ++ new_row ∷ []
    pub transitions :
        after.tables.transitions
        ≡ db.tables.transitions ++ to_list (on_some (transition_row sql.stored_time) new_transition)
    pub alerts :
        after.tables.alerts
        ≡ db.tables.alerts ++ to_list (on_some (alert_row sql.stored_time) new_alert)
    pub next_result : after.sequences.result_id ≡ db.sequences.result_id +ℤ pos 1
    pub next_transition : after.sequences.transition_id ≡ (
        if state_eq previous_in r.state
        then db.sequences.transition_id
        else db.sequences.transition_id +ℤ pos 1)

  -- Without a fault, and where the constraints hold, RecordResult commits.
  pub record_result-IsCommitted :
      accepts fl sql db.tables new_row ≡ true
      → ((record_result fl sql no_faults db r window).1
          ≡ ok (record { transition = new_transition; alert = new_alert }))
        × IsCommitted (record_result fl sql no_faults db r window).0
  unfolding record_result finish body insert_result insert_transition insert_alert
  record_result-IsCommitted h = (
    ground (arith, h),
    record {
      endpoints = ground (arith, h);
      results = ground (arith, h);
      transitions = ground (arith, h, append-nil db.tables.transitions);
      alerts = ground (arith, h, append-nil db.tables.alerts);
      next_result = ground (arith, h);
      next_transition = ground (arith, h);
    },
  )
