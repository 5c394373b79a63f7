-- ===== src/Store/Postgres/Queries.antt =====
-- internal/store/postgres.go: the queries and UpsertEndpoints, and Postgres as a Repository. That a
-- query fails, or the reading of one of its rows, is a parameter.
use service_reliability_watc.Common.{
  ℕ, ◌+◌, Bool, not, ◌&&◌, ◌||◌, Option, none, some, List, [], ◌∷◌, ◌++◌, keep, count_p, take, map,
  if◌then◌else◌,
}
use service_reliability_watc.Common.Int.{ltb_ℤ, leb_ℤ, eq_ℤ}
use service_reliability_watc.Common.Float.{Float64}
use service_reliability_watc.Common.Text.{Text, codes, text_eq}
use service_reliability_watc.Common.Assoc.{Assoc, insert}
use service_reliability_watc.Common.Clock.{Time, Duration}
use service_reliability_watc.Common.Result.{Result, ok, err, ◌>>=◌}
use service_reliability_watc.Domain.Types.{
  healthy, degraded, unavailable, maintenance, state_eq, check_http, check_tcp, check_tls, Endpoint,
  CheckResult, Transition, Alert,
}
use service_reliability_watc.Store.Types.{Counts, Repository}
use service_reliability_watc.Store.Postgres.Rows.{
  EndpointRow, ResultRow, scan_result, newest_of, milliseconds,
}
use service_reliability_watc.Store.Postgres.{Database, Faults, Sql, record_result}

-- The error of the query, of the reading of its k-th row, and of the end of its rows.
pub record Reading : Type 0 where
  pub query : Option Text
  pub scan : ℕ → Option Text
  pub rows_err : Option Text

-- `if err != nil { return nil, fmt.Errorf(what, err) }`
abbrev pub unless : {A : Type 0} → Text → Option Text → Result Text A → Result Text A
unless what none next = next
unless what (some e) next = err (what ++ e)

-- The loop over the rows from the k-th on.
unfoldable pub collect : {A : Type 0} → Text → Reading → ℕ → List A → Result Text (List A)
collect what reading k [] = unless [] reading.rows_err (ok [])
collect what reading k (x ∷ xs) =
    let rest = collect what reading (k + 1) xs in
    unless what (reading.scan k) (rest >>= λ ys. ok (x ∷ ys))

-- ORDER BY, by a test of whether the first comes before the second.
unfoldable pub insert_ordered : {A : Type 0} → (A → A → Bool) → A → List A → List A
insert_ordered comes_before x [] = x ∷ []
insert_ordered comes_before x (y ∷ ys) =
    let rest = insert_ordered comes_before x ys in if comes_before x y then x ∷ y ∷ ys else y ∷ rest

unfoldable pub order_by : {A : Type 0} → (A → A → Bool) → List A → List A
unfolding insert_ordered
order_by comes_before [] = []
order_by comes_before (x ∷ xs) = insert_ordered comes_before x (order_by comes_before xs)

-- `ORDER BY changed_at DESC, id DESC` and `ORDER BY created_at DESC, id DESC`.
abbrev pub is_later_transition : Transition → Transition → Bool
is_later_transition a b =
    ltb_ℤ b.changed_at a.changed_at || (eq_ℤ b.changed_at a.changed_at && ltb_ℤ b.id a.id)

abbrev pub is_later_alert : Alert → Alert → Bool
is_later_alert a b =
    ltb_ℤ b.created_at a.created_at || (eq_ℤ b.created_at a.created_at && ltb_ℤ b.id a.id)

module _ {F : Type 0} where
  -- DISTINCT ON (endpoint_id): each endpoint once.
  unfoldable pub distinct : List (ResultRow F) → List Text
  distinct [] = []
  distinct (r ∷ rows) =
      let rest = distinct rows in r.endpoint_id ∷ keep (λ id. not (text_eq id r.endpoint_id)) rest

  unfoldable pub newest_rows : List (ResultRow F) → List Text → List (ResultRow F)
  newest_rows rows [] = []
  newest_rows rows (id ∷ ids) =
      let rest = newest_rows rows ids in
      elim (newest_of id rows) [ none ↦ rest | some r ↦ r ∷ rest ]

-- `results[result.EndpointID] = result`, for each of them.
unfoldable pub by_endpoint : Assoc CheckResult → List CheckResult → Assoc CheckResult
by_endpoint m [] = m
by_endpoint m (r ∷ rs) = by_endpoint (insert r.endpoint_id r m) rs

module _ {F : Type 0} (fl : Float64 F) (sql : Sql) where
  -- LatestResults. A row that cannot be read is an error of scanResult.
  unfoldable pub latest_results : Reading → Database F → Result Text (Assoc CheckResult)
  latest_results reading db =
      let rows = newest_rows db.tables.results (distinct db.tables.results) in
      unless (codes "query latest results: ") reading.query (
        collect (codes "scan check result: ") reading 0 (map (scan_result fl) rows) >>= λ results.
        ok (by_endpoint [] results))

  -- The rows that CountsSince selects.
  abbrev selected : Text → Time → ResultRow F → Bool
  selected id from r = text_eq r.endpoint_id id && leb_ℤ (sql.stored_time from) r.checked_at

  -- CountsSince.
  unfoldable pub counts_since : Reading → Database F → Text → Time → Duration → Result Text Counts
  counts_since reading db id from latency_target =
      let rows = keep (selected id from) db.tables.results in
      let target = fl.over (fl.of_int latency_target) (milliseconds fl) in
      unless (codes "query SLO counts: ") reading.query (
        ok (record {
          eligible = count_p (λ r. not (state_eq r.state maintenance)) rows;
          good = count_p (λ r. state_eq r.state healthy || state_eq r.state degraded) rows;
          latency_good =
              count_p
                (λ r.
                  not (state_eq r.state maintenance)
                  && (not (state_eq r.state unavailable) && fl.le r.latency_ms target))
                rows;
        }))

  -- Transitions.
  unfoldable pub transitions : Reading → Database F → Text → ℕ → Result Text (List Transition)
  unfolding order_by
  transitions reading db id limit =
      let rows = keep (λ t. text_eq id [] || text_eq t.endpoint_id id) db.tables.transitions in
      unless (codes "query transitions: ") reading.query (
        collect (codes "scan transition: ") reading 0
          (take limit (order_by is_later_transition rows)))

  -- Alerts.
  unfoldable pub alerts : Reading → Database F → ℕ → Result Text (List Alert)
  unfolding order_by
  alerts reading db limit = unless (codes "query alerts: ") reading.query (
      collect (codes "scan alert: ") reading 0
        (take limit (order_by is_later_alert db.tables.alerts)))

  -- CHECK (check_type IN …).
  abbrev is_check_type : Text → Bool
  is_check_type t = text_eq t check_http || (text_eq t check_tcp || text_eq t check_tls)

  -- INSERT … ON CONFLICT DO UPDATE for each endpoint, the k-th on; the batch is one transaction.
  upsert_all :
      (ℕ → Option Text)
      → ℕ
      → Assoc EndpointRow
      → List (Endpoint F)
      → Result Text (Assoc EndpointRow)
  upsert_all fault k rows [] = ok rows
  upsert_all fault k rows (e ∷ es) =
      let row : EndpointRow = record { name = e.name; check_type = e.type; address = e.address } in
      let rest = upsert_all fault (k + 1) (insert e.id row rows) es in
      unless (codes "upsert endpoint: ") (fault k)
        (if is_check_type e.type then rest else err (codes "upsert endpoint: " ++ sql.violation))

  abbrev upserted :
      Database F → Result Text (Assoc EndpointRow) → Database F × Result Text (Unit {0})
  upserted db (err e) = (db, err e)
  upserted db (ok rows) = (record db { tables = record db.tables { endpoints = rows } }, ok tt)

  -- UpsertEndpoints.
  unfoldable pub upsert_endpoints :
      (ℕ → Option Text) → Database F → List (Endpoint F) → Database F × Result Text (Unit {0})
  unfolding upsert_all
  upsert_endpoints fault db es = upserted db (upsert_all fault 0 db.tables.endpoints es)

  -- The methods, at given failures.
  abbrev pub postgres_repository :
      Option Text → (ℕ → Option Text) → Faults → Reading → Repository F (Database F)
  postgres_repository ping upsert faults reading = record {
    ping = λ db. unless [] ping (ok tt);
    upsert_endpoints = upsert_endpoints upsert;
    record_result = record_result fl sql faults;
    latest_results = latest_results reading;
    counts_since = counts_since reading;
    transitions = transitions reading;
    alerts = alerts reading;
  }
