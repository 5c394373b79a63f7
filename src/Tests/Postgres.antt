-- ===== src/Tests/Postgres.antt =====
-- internal/store/postgres.go: transactions on a database of one endpoint.
use service_reliability_watc.Common.{ℕ, ◌≡◌, refl, map, List, arith, [], ◌∷◌, ◌*◌}
use service_reliability_watc.Common.Int.{pos}
use service_reliability_watc.Common.Text.{codes, text_eq}
use service_reliability_watc.Common.Clock.{Duration, minute}
use service_reliability_watc.Domain.Types.{
  healthy, unavailable, state_name, CheckResult, Transition,
}
use service_reliability_watc.Store.Postgres.{
  Database, Faults, no_faults, Sql, reply_lost, record_result, finish, body, insert_result,
  insert_transition, insert_alert, accepts,
}
use service_reliability_watc.Common.Assoc.{lookup}
use service_reliability_watc.Store.Postgres.Rows.{newest_of, has_alert, row_of}
use service_reliability_watc.Store.Postgres.Atomic.{IsAllOrNothing, record_result-IsAllOrNothing}
use service_reliability_watc.Common.Clock.{add}
use service_reliability_watc.Store.Types.{dedupe_key}
use service_reliability_watc.Common.Result.{ok}
use service_reliability_watc.Store.Outcome.{transition_without_id}
use service_reliability_watc.Store.Memory.{new_memory, transitions as memory_transitions}
use service_reliability_watc.Store.Memory.History.{record_all}
use service_reliability_watc.Store.Postgres.Queries.{transitions}
use service_reliability_watc.Store.Postgres.Latest.{no_failure}
use service_reliability_watc.Store.Postgres.Listing.{AreLatest, recorded, transitions-agree}
use service_reliability_watc.Store.Postgres.Refinement.{
  AreAdmissible, Agree, without_results, record_result-Agree,
}
use service_reliability_watc.Tests.Data.{thousandths, api, result_in}

abbrev exact : Sql
exact = record { stored_time = λ t. t; violation = codes "check constraint" }

abbrev migrated : Database ℕ
migrated = record {
  tables = record {
    endpoints =
        (
          api,
          record { name = codes "API"; check_type = codes "http"; address = codes "http://api" },
        )
        ∷ [];
    results = [];
    transitions = [];
    alerts = [];
  };
  sequences = record { result_id = pos 1; transition_id = pos 1; alert_id = pos 1 };
}

abbrev window : Duration
window = pos (15 * minute)

abbrev lost : Faults
lost = record no_faults { commit = reply_lost (codes "eof") }

record_result-IsAllOrNothing_example :
    IsAllOrNothing thousandths exact lost migrated
      (result_in api unavailable 0)
      window
      (record_result thousandths exact lost migrated (result_in api unavailable 0) window).0
unfolding record_result finish body insert_result insert_transition insert_alert accepts newest_of
    has_alert row_of lookup text_eq
record_result-IsAllOrNothing_example =
    record_result-IsAllOrNothing thousandths exact lost migrated (result_in api unavailable 0)
      window (codes "commit result transaction: eof") refl

abbrev calls : List (CheckResult × Duration)
calls =
    (result_in api healthy 0, window)
    ∷ (result_in api unavailable 30, window)
    ∷ (result_in api unavailable 60, window)
    ∷ []

calls-AreAdmissible :
    AreAdmissible thousandths exact
      (without_results migrated.tables.endpoints migrated.sequences)
      calls
unfolding record_result finish body insert_result insert_transition insert_alert accepts newest_of
    has_alert row_of lookup text_eq add dedupe_key state_name
calls-AreAdmissible = (
  record {
    accepted = refl;
    in_order = tt;
    exact = refl;
    exact_cutoff = refl;
    is_window = (omega arith, omega arith);
    off_edge = tt;
  },
  (
    record {
      accepted = refl;
      in_order = (λ e. omega arith, tt);
      exact = refl;
      exact_cutoff = refl;
      is_window = (omega arith, omega arith);
      off_edge = (λ e h. ground arith, tt);
    },
    (
      record {
        accepted = refl;
        in_order = (λ e. omega arith, (λ e. omega arith, tt));
        exact = refl;
        exact_cutoff = refl;
        is_window = (omega arith, omega arith);
        off_edge = (λ e h. ground arith, (λ e h. ground arith, tt));
      },
      tt,
    ),
  ),
)

record_result-Agree_example :
    Agree thousandths exact new_memory
      (without_results migrated.tables.endpoints migrated.sequences)
      calls
record_result-Agree_example =
    record_result-Agree thousandths exact migrated.tables.endpoints migrated.sequences calls
      calls-AreAdmissible

calls-AreLatest :
    AreLatest thousandths exact (without_results migrated.tables.endpoints migrated.sequences) calls
unfolding record_result finish body insert_result insert_transition insert_alert accepts newest_of
    has_alert row_of lookup text_eq add dedupe_key state_name
calls-AreLatest = (tt, ((omega arith, tt), ((omega arith, (omega arith, tt)), tt)))

transitions-agree_example :
    let db =
      recorded thousandths exact
        (without_results migrated.tables.endpoints migrated.sequences)
        calls in
    (ts : List Transition) × (transitions thousandths exact no_failure db api 5 ≡ ok ts)
    × (map transition_without_id (memory_transitions (record_all (new_memory {F = ℕ}) calls) api 5)
        ≡ map transition_without_id ts)
transitions-agree_example =
    transitions-agree thousandths exact migrated.tables.endpoints migrated.sequences calls api 5
      calls-AreAdmissible calls-AreLatest
