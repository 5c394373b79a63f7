-- ===== src/Store/Postgres/Simulation.antt =====
-- internal/store/memory.go and internal/store/postgres.go: when the two hold the same, and one call.
use service_reliability_watc.Common.{
  on_some, last?-map, ◌≡◌, refl, sym, ap, ◌∙◌, true, Option, none, some, map, last?, All,
}
use service_reliability_watc.Common.Int.{pos, ◌<ℤ◌, ◌≤ℤ◌}
use service_reliability_watc.Common.Float.{Float64}
use service_reliability_watc.Common.Text.{Text}
use service_reliability_watc.Common.Clock.{Duration, add, negated}
use service_reliability_watc.Domain.Types.{CheckResult}
use service_reliability_watc.Store.Types.{dedupe_key}
use service_reliability_watc.Store.Outcome.{transition_without_id, alert_without_id}
use service_reliability_watc.Store.Memory.{
  Memory, state_or_unknown as state_of, results_of, previous_state,
}
use service_reliability_watc.Store.Memory.Latest.{IsFull}
use service_reliability_watc.Store.Postgres.Rows.{ResultRow, row_of, newest_of}
use service_reliability_watc.Store.Postgres.{Database, Sql, state_or_unknown, accepts}
use service_reliability_watc.Store.Postgres.Newest.{rows_of}
use service_reliability_watc.Store.Postgres.Dedupe.{IsOffEdge, IsWindow}
use service_reliability_watc.Store.Postgres.Committed.{new_row}

abbrev pub row_without_id : {F : Type 0} → ResultRow F → ResultRow F
row_without_id r = record r { id = pos 0 }

module _ {F : Type 0} (fl : Float64 F) (sql : Sql) where
  -- What the table would hold of a result in memory.
  abbrev pub memory_row : CheckResult → ResultRow F
  memory_row r = row_of fl sql.stored_time (pos 0) r

  -- The two stores hold the same, but for the ids; and of each endpoint, the newest row is the last.
  pub record Simulates (m : Memory F) (db : Database F) : Type 0 where
    pub rows :
        (id : Text)
        → map memory_row (results_of m id) ≡ map row_without_id (rows_of id db.tables.results)
    pub newest : (id : Text) → newest_of id db.tables.results ≡ last? (rows_of id db.tables.results)
    pub below : All (λ x. x.id <ℤ db.sequences.result_id) db.tables.results
    pub full : IsFull m.results
    pub transitions :
        map transition_without_id m.transitions ≡ map transition_without_id db.tables.transitions
    pub alerts : map alert_without_id m.alerts ≡ map alert_without_id db.tables.alerts

  -- A call at which the two agree: the constraints hold, the endpoint's results come in the order of
  -- time, the times are kept exactly, and no alert of the key is exactly as old as the window.
  pub record IsAdmissible (db : Database F) (r : CheckResult) (window : Duration) : Type 0 where
    pub accepted : accepts fl sql db.tables (new_row fl sql db r window) ≡ true
    pub in_order :
        All (λ x. x.endpoint_id ≡ r.endpoint_id → x.checked_at ≤ℤ r.checked_at) db.tables.results
    pub exact : sql.stored_time r.checked_at ≡ r.checked_at
    pub exact_cutoff :
        sql.stored_time (add r.checked_at (negated window)) ≡ add r.checked_at (negated window)
    pub is_window : IsWindow window
    pub off_edge :
        All (IsOffEdge (dedupe_key r.endpoint_id r.state) r.checked_at window) db.tables.alerts

  state-memory_row : (o : Option CheckResult) → state_or_unknown (on_some memory_row o) ≡ state_of o
  unfolding row_of
  state-memory_row none = refl
  state-memory_row (some r) = refl

state-row_without_id :
    {F : Type 0} (o : Option (ResultRow F))
    → state_or_unknown (on_some row_without_id o) ≡ state_or_unknown o
state-row_without_id none = refl
state-row_without_id (some r) = refl

-- Both read the same state before the result.
pub previous_lem :
    {F : Type 0} (fl : Float64 F) (sql : Sql) (m : Memory F) (db : Database F) (id : Text)
    → Simulates fl sql m db
    → previous_state (results_of m id) ≡ state_or_unknown (newest_of id db.tables.results)
unfolding previous_state
previous_lem fl sql m db id s =
    sym (state-memory_row fl sql (last? (results_of m id)))
    ∙ ap state_or_unknown (
        sym (last?-map (memory_row fl sql) (results_of m id))
        ∙ ap last? (s.rows id)
        ∙ last?-map row_without_id (rows_of id db.tables.results))
    ∙ state-row_without_id (last? (rows_of id db.tables.results))
    ∙ ap state_or_unknown (sym (s.newest id))
