-- ===== src/Store/Outcome.antt =====
-- internal/store: what RecordResult returns, but for the ids, from the state before the result and
-- from whether there is a recent alert; memory.go and postgres.go are held against it.
use service_reliability_watc.Common.{
  Bool, not, ◌&&◌, ◌||◌, Option, none, some, on_some, if◌then◌else◌,
}
use service_reliability_watc.Common.Int.{pos}
use service_reliability_watc.Domain.Types.{State, healthy, state_eq, CheckResult, Transition, Alert}
use service_reliability_watc.Store.Types.{RecordOutcome, alertable, dedupe_key}

abbrev pub transition_without_id : Transition → Transition
transition_without_id t = record t { id = pos 0 }

abbrev pub alert_without_id : Alert → Alert
alert_without_id a = record a { id = pos 0 }

abbrev pub without_ids : RecordOutcome → RecordOutcome
without_ids o = record {
  transition = on_some transition_without_id o.transition;
  alert = on_some alert_without_id o.alert;
}

abbrev pub wants_alert : State → CheckResult → Bool
wants_alert before r =
    alertable r.state || (not (state_eq before r.state) && state_eq r.state healthy)

abbrev pub transition_due : State → CheckResult → Option Transition
transition_due before r =
    if state_eq before r.state
    then none
    else some (record {
      id = pos 0;
      endpoint_id = r.endpoint_id;
      from_state = before;
      to_state = r.state;
      changed_at = r.checked_at;
      reason = r.message;
    })

abbrev pub alert_due : State → Bool → CheckResult → Option Alert
alert_due before recent r =
    if wants_alert before r && not recent
    then some (record {
      id = pos 0;
      endpoint_id = r.endpoint_id;
      state = r.state;
      dedupe_key = dedupe_key r.endpoint_id r.state;
      created_at = r.checked_at;
      message = r.message;
    })
    else none

abbrev pub outcome_due : State → Bool → CheckResult → RecordOutcome
outcome_due before recent r = record {
  transition = transition_due before r;
  alert = alert_due before recent r;
}
