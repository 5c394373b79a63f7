-- ===== src/Store/Postgres.antt =====
-- internal/store/postgres.go and migrations/001_initial.sql: the repository in PostgreSQL. Each SQL
-- statement is a function on the tables, with the constraints of the migration; that the server or
-- the connection fails is a parameter, statement by statement. The advisory lock makes RecordResult
-- of one endpoint one step.
pub mod Rows
pub mod Atomic
pub mod Newest
pub mod Dedupe
pub mod Committed
pub mod Simulation
pub mod Outcomes
pub mod Preserved
pub mod Refinement
pub mod Queries
pub mod Latest
pub mod Order
pub mod Listing
pub mod Opening
use service_reliability_watc.Common.{
  ℕ, Bool, true, false, not, ◌&&◌, ◌||◌, Option, none, some, List, [], ◌∷◌, ◌++◌, if◌then◌else◌,
  map,
}
use service_reliability_watc.Common.Int.{ℤ, pos, ◌+ℤ◌, leb_ℤ}
use service_reliability_watc.Common.Float.{Float64}
use service_reliability_watc.Common.Text.{Text, codes, text_eq}
use service_reliability_watc.Common.Assoc.{Assoc, lookup, insert}
use service_reliability_watc.Common.Clock.{Time, Duration, add, negated}
use service_reliability_watc.Common.Result.{Result, ok, err, ◌>>=◌}
use service_reliability_watc.Domain.Types.{
  State, healthy, unknown, unset, state_eq, Endpoint, CheckResult, Transition, Alert,
}
use service_reliability_watc.Store.Types.{RecordOutcome, alertable, dedupe_key}
use service_reliability_watc.Store.Postgres.Rows.{
  ResultRow, EndpointRow, row_of, newest_of, has_alert,
}

-- The tables, in the order of insertion.
pub record Tables (F : Type 0) : Type 0 where
  pub endpoints : Assoc EndpointRow
  pub results : List (ResultRow F)
  pub transitions : List Transition
  pub alerts : List Alert

-- The next values of the BIGSERIAL sequences, which a rollback does not set back.
pub record Sequences : Type 0 where
  pub result_id : ℤ
  pub transition_id : ℤ
  pub alert_id : ℤ

pub record Database (F : Type 0) : Type 0 where
  pub tables : Tables F
  pub sequences : Sequences

-- How a commit ends: done; failed, with nothing kept; or done, with the reply lost.
pub data CommitEnd : Type 0 where
  committed : CommitEnd
  commit_failed : Text → CommitEnd
  reply_lost : Text → CommitEnd

-- Which statement of one transaction fails, with the text of its error; so does one with a value that
-- the driver cannot encode.
pub record Faults : Type 0 where
  pub begin : Option Text
  pub lock : Option Text
  pub read : Option Text
  pub insert_result : Option Text
  pub insert_transition : Option Text
  pub insert_alert : Option Text
  pub commit : CommitEnd

abbrev pub no_faults : Faults
no_faults = record {
  begin = none;
  lock = none;
  read = none;
  insert_result = none;
  insert_transition = none;
  insert_alert = none;
  commit = committed;
}

-- PostgreSQL's side: a time as TIMESTAMPTZ keeps it, and the text for a broken constraint.
pub record Sql : Type 0 where
  pub stored_time : Time → Time
  pub violation : Text

abbrev pub state_or_unknown : {F : Type 0} → Option (ResultRow F) → State
state_or_unknown none = unknown
state_or_unknown (some r) = r.state

abbrev pub is_present : {A : Type 0} → Option A → Bool
is_present none = false
is_present (some e) = true

-- A transaction under way: the tables as it sees them, and the sequences. A statement that fails
-- gives the sequences and the error.
abbrev pub Step : Type 0 → Type 0 → Type 0
Step F A = Sequences × Result Text (Tables F × A)

-- `if err != nil { return … }`, then the rest.
infixl 5 ◌then◌
abbrev pub ◌then◌ : {F A B : Type 0} → Step F A → (Sequences → Tables F → A → Step F B) → Step F B
(q, err e) then k = (q, err e)
(q, ok (t, a)) then k = k q t a

-- A statement that changes no table.
abbrev pub statement : {F : Type 0} → Text → Option Text → Sequences → Tables F → Step F (Unit {0})
statement what none q t = (q, ok (t, tt))
statement what (some e) q t = (q, err (what ++ e))

module _ {F : Type 0} (fl : Float64 F) (sql : Sql) where
  open sql use {stored_time, violation}

  -- NOT NULL holds of every value that is passed; the rest is REFERENCES and CHECK.
  unfoldable pub accepts : Tables F → ResultRow F → Bool
  accepts t r =
      is_present (lookup r.endpoint_id t.endpoints)
      && (not (state_eq r.state unset)
          && (fl.le (fl.decimal 0 0) r.latency_ms && leb_ℤ (pos 0) r.attempt_count))

  -- INSERT INTO check_results … RETURNING id.
  unfoldable pub insert_result :
      Option Text → Sequences → Tables F → CheckResult → Step F (Unit {0})
  insert_result (some e) q t r = (q, err (codes "insert check result: " ++ e))
  insert_result none q t r =
      let row = row_of fl stored_time q.result_id r in
      let q' = record q { result_id = q.result_id +ℤ pos 1 } in
      if accepts t row
      then (q', ok (record t { results = t.results ++ row ∷ [] }, tt))
      else (q', err (codes "insert check result: " ++ violation))

  -- The block `if previous != result.State`.
  unfoldable pub insert_transition :
      Option Text → Sequences → Tables F → State → CheckResult → Step F (Option Transition)
  insert_transition fault q t previous r =
      if state_eq previous r.state then (q, ok (t, none)) else (elim fault [
        | some e ↦ (q, err (codes "insert transition: " ++ e))
        | none ↦
            let transition : Transition = record {
              id = q.transition_id;
              endpoint_id = r.endpoint_id;
              from_state = previous;
              to_state = r.state;
              changed_at = r.checked_at;
              reason = r.message;
            } in
            let row = record transition { changed_at = stored_time r.checked_at } in
            (
              record q { transition_id = q.transition_id +ℤ pos 1 },
              ok (record t { transitions = t.transitions ++ row ∷ [] }, some transition),
            )
      ])

  -- The block that inserts an alert where none exists.
  unfoldable pub insert_alert :
      Option Text → Sequences → Tables F → State → CheckResult → Duration → Step F (Option Alert)
  insert_alert fault q t previous r window =
      let key = dedupe_key r.endpoint_id r.state in
      let cutoff = stored_time (add r.checked_at (negated window)) in
      let wanted =
        alertable r.state || (not (state_eq previous r.state) && state_eq r.state healthy) in
      if not wanted then (q, ok (t, none)) else (elim fault [
        | some e ↦ (q, err (codes "insert deduplicated alert: " ++ e))
        | none ↦
            let alert : Alert = record {
              id = q.alert_id;
              endpoint_id = r.endpoint_id;
              state = r.state;
              dedupe_key = key;
              created_at = r.checked_at;
              message = r.message;
            } in
            let row = record alert { created_at = stored_time r.checked_at } in
            if has_alert key cutoff t.alerts then (q, ok (t, none)) else (
              record q { alert_id = q.alert_id +ℤ pos 1 },
              ok (record t { alerts = t.alerts ++ row ∷ [] }, some alert),
            )
      ])

  -- The statements between Begin and Commit.
  unfoldable pub body :
      Faults → Sequences → Tables F → CheckResult → Duration → Step F RecordOutcome
  unfolding insert_result insert_transition insert_alert
  body f q t r window =
      let previous = state_or_unknown (newest_of r.endpoint_id t.results) in
      statement (codes "lock endpoint result stream: ") f.lock q t then λ q1 t1 u1.
      statement (codes "read previous state: ") f.read q1 t1 then λ q2 t2 u2.
      insert_result f.insert_result q2 t2 r then λ q3 t3 u3.
      insert_transition f.insert_transition q3 t3 previous r then λ q4 t4 transition.
      insert_alert f.insert_alert q4 t4 previous r window then λ q5 t5 alert.
      (q5, ok (t5, record { transition = transition; alert = alert }))

  -- Commit, or the deferred Rollback.
  unfoldable pub finish :
      Faults → Database F → Step F RecordOutcome → Database F × Result Text RecordOutcome
  finish f db (q, err e) = (record db { sequences = q }, err e)
  finish f db (q, ok (t, outcome)) = elim f.commit [
    | committed ↦ (record { tables = t; sequences = q }, ok outcome)
    | commit_failed e ↦
        (record db { sequences = q }, err (codes "commit result transaction: " ++ e))
    | reply_lost e ↦
        (record { tables = t; sequences = q }, err (codes "commit result transaction: " ++ e))
  ]

  -- RecordResult.
  unfoldable pub record_result :
      Faults → Database F → CheckResult → Duration → Database F × Result Text RecordOutcome
  unfolding body finish
  record_result f db r window = elim f.begin [
    | some e ↦ (db, err (codes "begin result transaction: " ++ e))
    | none ↦ finish f db (body f db.sequences db.tables r window)
  ]
