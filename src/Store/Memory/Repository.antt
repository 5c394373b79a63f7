-- ===== src/Store/Memory/Repository.antt =====
-- internal/store/memory.go: Memory as a Repository, with Alerts. `sort.Slice` orders the alerts and
-- is not stable; the sorted copy comes from the parameter `sort`.
use service_reliability_watc.Common.{ℕ, List, take, if◌then◌else◌, ltb, length}
use service_reliability_watc.Common.Result.{ok}
use service_reliability_watc.Domain.Types.{Alert}
use service_reliability_watc.Store.Types.{Repository}
use service_reliability_watc.Store.Memory.{
  Memory, upsert_endpoints, record_result, latest_results, counts_since, transitions,
}

-- The parameter stands for `sort.Slice(items, …After…)`.
unfoldable pub alerts : {F : Type 0} → (List Alert → List Alert) → Memory F → ℕ → List Alert
alerts sort m limit =
    let items = sort m.alerts in if ltb limit (length items) then take limit items else items

abbrev pub memory_repository : (F : Type 0) → (List Alert → List Alert) → Repository F (Memory F)
memory_repository F sort = record {
  ping = λ m. ok tt;
  upsert_endpoints = λ m es. (upsert_endpoints m es, ok tt);
  record_result = λ m r window. let (m', outcome) = record_result m r window in (m', ok outcome);
  latest_results = λ m. ok (latest_results m);
  counts_since = λ m id from target. ok (counts_since m id from target);
  transitions = λ m id limit. ok (transitions m id limit);
  alerts = λ m limit. ok (alerts sort m limit);
}
