-- ===== src/Store/Postgres/Refinement.antt =====
-- internal/store/memory.go and internal/store/postgres.go: a series of calls on both, from the start.
use service_reliability_watc.Common.{
  ◌≡◌, refl, sym, ap, ◌∙◌, Option, none, some, List, [], ◌∷◌, last?, last?-map, on_some,
}
use service_reliability_watc.Common.Float.{Float64}
use service_reliability_watc.Common.Text.{Text}
use service_reliability_watc.Common.Assoc.{Assoc, lookup}
use service_reliability_watc.Common.Clock.{Duration}
use service_reliability_watc.Common.Result.{Result, ok}
use service_reliability_watc.Domain.Types.{CheckResult}
use service_reliability_watc.Store.Types.{RecordOutcome}
use service_reliability_watc.Store.Outcome.{without_ids}
use service_reliability_watc.Store.Memory.{
  Memory, new_memory, results_of, latest_results as memory_latest_results,
  record_result as memory_record_result,
}
use service_reliability_watc.Store.Postgres.Rows.{EndpointRow, ResultRow, scan_result, newest_of}
use service_reliability_watc.Store.Postgres.{Database, Sequences, Sql, no_faults, record_result}
use service_reliability_watc.Common.Int.{pos}
use service_reliability_watc.Store.Memory.Latest.{latest_results_lem}
use service_reliability_watc.Store.Postgres.Queries.{latest_results}
use service_reliability_watc.Store.Postgres.Latest.{no_failure, latest_results_newest}
use service_reliability_watc.Store.Postgres.Newest.{rows_of}
use service_reliability_watc.Store.Postgres.Simulation.{
  row_without_id, memory_row, Simulates, IsAdmissible,
}
use service_reliability_watc.Store.Postgres.Preserved.{record_result-Simulates}

-- The tables before the first result.
abbrev pub without_results : {F : Type 0} → Assoc EndpointRow → Sequences → Database F
without_results endpoints sequences = record {
  tables = record { endpoints = endpoints; results = []; transitions = []; alerts = [] };
  sequences = sequences;
}

module _ {F : Type 0} (fl : Float64 F) (sql : Sql) where
  -- Each call is admissible where it comes.
  abbrev pub AreAdmissible : Database F → List (CheckResult × Duration) → Type 0
  AreAdmissible db [] = Unit
  AreAdmissible db ((r, window) ∷ rest) =
      IsAdmissible fl sql db r window
      × AreAdmissible (record_result fl sql no_faults db r window).0 rest

  -- The outcomes are the same, but for the ids.
  abbrev pub SameOutcome : RecordOutcome → Result Text RecordOutcome → Type 0
  SameOutcome o x = (p : RecordOutcome) × (x ≡ ok p) × (without_ids o ≡ without_ids p)

  -- A result in memory as LatestResults would read it back from its row, but for the id.
  abbrev pub read_back : CheckResult → CheckResult
  read_back r = scan_result fl (memory_row fl sql r)

  abbrev pub result_without_id : CheckResult → CheckResult
  result_without_id r = record r { id = pos 0 }

  -- The latest results of the two are the same, as they are read back and but for the ids.
  abbrev pub SameLatest : Memory F → Database F → Type 0
  SameLatest m db =
      (rs : Assoc CheckResult) × (latest_results fl sql no_failure db ≡ ok rs)
      × ((id : Text)
          → on_some read_back (lookup id (memory_latest_results m))
            ≡ on_some result_without_id (lookup id rs))

  -- So it is after each call.
  abbrev pub Agree : Memory F → Database F → List (CheckResult × Duration) → Type 0
  Agree m db [] = Unit
  Agree m db ((r, window) ∷ rest) =
      let (m', o) = memory_record_result m r window in
      let (db', x) = record_result fl sql no_faults db r window in
      SameOutcome o x × SameLatest m' db' × Agree m' db' rest

  newest_agrees :
      (m : Memory F) (db : Database F) (id : Text)
      → Simulates fl sql m db
      → on_some (memory_row fl sql) (lookup id (memory_latest_results m))
        ≡ on_some row_without_id (newest_of id db.tables.results)
  newest_agrees m db id s =
      ap (on_some (memory_row fl sql)) (latest_results_lem m id s.full)
      ∙ sym (last?-map (memory_row fl sql) (results_of m id))
      ∙ ap last? (s.rows id)
      ∙ last?-map row_without_id (rows_of id db.tables.results)
      ∙ ap (on_some row_without_id) (sym (s.newest id))

  on_some-read_back :
      (o : Option CheckResult)
      → on_some read_back o ≡ on_some (scan_result fl) (on_some (memory_row fl sql) o)
  on_some-read_back none = refl
  on_some-read_back (some r) = refl

  on_some-scan_result :
      (o : Option (ResultRow F))
      → on_some (scan_result fl) (on_some row_without_id o)
        ≡ on_some result_without_id (on_some (scan_result fl) o)
  unfolding scan_result
  on_some-scan_result none = refl
  on_some-scan_result (some r) = refl

  latest_agrees : (m : Memory F) (db : Database F) → Simulates fl sql m db → SameLatest m db
  latest_agrees m db s =
      let (rs, e, newest) = latest_results_newest fl sql db in
      (
        rs,
        e,
        λ id.
            on_some-read_back (lookup id (memory_latest_results m))
            ∙ ap (on_some (scan_result fl)) (newest_agrees m db id s)
            ∙ on_some-scan_result (newest_of id db.tables.results)
            ∙ ap (on_some result_without_id) (sym (newest id)),
      )

  Simulates-Agree :
      (m : Memory F) (db : Database F) (xs : List (CheckResult × Duration))
      → Simulates fl sql m db
      → AreAdmissible db xs
      → Agree m db xs
  Simulates-Agree m db [] s h = tt
  Simulates-Agree m db ((r, window) ∷ rest) s h =
      let (s', o, e, same) = record_result-Simulates fl sql m db r window s h.0 in
      (
        (o, e, same),
        latest_agrees _ _ s',
        Simulates-Agree (memory_record_result m r window).0
            (record_result fl sql no_faults db r window).0 rest s' h.1,
      )

  pub new_memory-Simulates :
      (endpoints : Assoc EndpointRow) (sequences : Sequences)
      → Simulates fl sql new_memory (without_results endpoints sequences)
  unfolding results_of newest_of lookup
  new_memory-Simulates endpoints sequences = record {
    rows = λ id. refl;
    newest = λ id. refl;
    below = tt;
    full = tt;
    transitions = refl;
    alerts = refl;
  }

  -- The repository in PostgreSQL does what the one in memory does: on any series of calls of
  -- RecordResult from tables without results, of which none fails, the two return the same
  -- transitions and alerts, but for the ids, and after each call LatestResults of the two are the same
  -- for every endpoint, but for the ids and with the result in memory as it reads back from a row.
  -- Each call is taken to be admissible: the constraints of the tables hold of it, the endpoint's
  -- results come in the order of time, the database keeps the times exactly, the window is a Duration
  -- that is not negative, and no stored alert of the dedupe key is exactly as old as the window.
  pub record_result-Agree :
      (endpoints : Assoc EndpointRow) (sequences : Sequences) (xs : List (CheckResult × Duration))
      → AreAdmissible (without_results endpoints sequences) xs
      → Agree new_memory (without_results endpoints sequences) xs
  record_result-Agree endpoints sequences xs h =
      Simulates-Agree new_memory (without_results endpoints sequences) xs
        (new_memory-Simulates endpoints sequences) h
