-- ===== src/Store/Memory.antt =====
-- internal/store/memory.go: the repository in memory. Each method holds the mutex throughout, so it
-- is one function on the state. Its errors are always nil.
pub mod Frames
pub mod Due
pub mod History
pub mod Alerts
pub mod Queries
pub mod Latest
pub mod Repository
use service_reliability_watc.Common.{
  ℕ, zero, suc, ◌+◌, Bool, true, false, not, ◌&&◌, ◌||◌, Option, none, some, List, [], ◌∷◌, ◌++◌,
  if◌then◌else◌, last?, reverse,
}
use service_reliability_watc.Common.Int.{ℤ, pos, ◌+ℤ◌, int64, leb_ℤ, ltb_ℤ}
use service_reliability_watc.Common.Text.{Text, text_eq}
use service_reliability_watc.Common.Assoc.{Assoc, lookup, insert}
use service_reliability_watc.Common.Clock.{Time, Duration, before, since}
use service_reliability_watc.Domain.Types.{
  State, healthy, degraded, unavailable, maintenance, unknown, state_eq, Endpoint, CheckResult,
  Transition, Alert,
}
use service_reliability_watc.Store.Types.{RecordOutcome, Counts, alertable, dedupe_key}

-- `m.results[id]` is `results_of`; `transitions` and `alerts` are in the order of insertion.
pub record Memory (F : Type 0) : Type 0 where
  pub endpoints : Assoc (Endpoint F)
  pub results : Assoc (List CheckResult)
  pub transitions : List Transition
  pub alerts : List Alert
  pub next_id : ℤ

module _ {F : Type 0} where
  -- NewMemory.
  abbrev pub new_memory : Memory F
  new_memory = record {
    endpoints = [];
    results = [];
    transitions = [];
    alerts = [];
    next_id = pos 1;
  }

  upsert_all : Assoc (Endpoint F) → List (Endpoint F) → Assoc (Endpoint F)
  upsert_all m [] = m
  upsert_all m (e ∷ es) = upsert_all (insert e.id e m) es

  unfoldable pub upsert_endpoints : Memory F → List (Endpoint F) → Memory F
  unfolding upsert_all
  upsert_endpoints m es = record m { endpoints = upsert_all m.endpoints es }

-- `m.next()`: the value, and the counter after it.
abbrev pub next : ℤ → ℤ × ℤ
next value = (value, int64 (value +ℤ pos 1))

-- A missing key reads as the empty slice.
abbrev pub results_or_nil : Option (List CheckResult) → List CheckResult
results_or_nil none = []
results_or_nil (some rs) = rs

unfoldable pub results_of : {F : Type 0} → Memory F → Text → List CheckResult
results_of m endpoint_id = results_or_nil (lookup endpoint_id m.results)

abbrev pub state_or_unknown : Option CheckResult → State
state_or_unknown none = unknown
state_or_unknown (some r) = r.state

-- The state before this result.
unfoldable pub previous_state : List CheckResult → State
previous_state items = state_or_unknown (last? items)

-- The loop over the alerts, handed over from the newest on.
unfoldable pub duplicate : Text → Time → Duration → List Alert → Bool
duplicate key checked_at window [] = false
duplicate key checked_at window (a ∷ older) =
    let rest = duplicate key checked_at window older in
    if text_eq a.dedupe_key key && ltb_ℤ (since checked_at a.created_at) window then true else rest

-- The loop of LatestResults, over a map in which each key stands once.
latest_of : Assoc (List CheckResult) → Assoc CheckResult
latest_of [] = []
latest_of ((id, results) ∷ rest) =
    let others = latest_of rest in
    elim (last? results) [ none ↦ others | some r ↦ (id, r) ∷ others ]

module _ {F : Type 0} where
  -- `m.results[result.EndpointID] = append(items, result)`, with the result's new id.
  pub append_result : Memory F → CheckResult → Memory F
  append_result m result =
      let (id, after) = next m.next_id in
      record m {
        results =
            insert result.endpoint_id
              (results_of m result.endpoint_id ++ (record result { id = id } ∷ [])) m.results;
        next_id = after;
      }

  -- The block `if previous != result.State`.
  pub append_transition : Memory F → State → CheckResult → Memory F × Option Transition
  append_transition m previous result =
      if state_eq previous result.state
      then (m, none)
      else (let (id, after) = next m.next_id in
          let transition : Transition = record {
            id = id;
            endpoint_id = result.endpoint_id;
            from_state = previous;
            to_state = result.state;
            changed_at = result.checked_at;
            reason = result.message;
          } in
          (
            record m { transitions = m.transitions ++ transition ∷ []; next_id = after },
            some transition,
          ))

  -- The block that records an alert, unless it is a duplicate.
  pub append_alert : Memory F → State → CheckResult → Duration → Memory F × Option Alert
  append_alert m previous result window =
      let key = dedupe_key result.endpoint_id result.state in
      let wanted =
        alertable result.state
        || (not (state_eq previous result.state) && state_eq result.state healthy) in
      if wanted && not (duplicate key result.checked_at window (reverse m.alerts))
      then (let (id, after) = next m.next_id in
          let alert : Alert = record {
            id = id;
            endpoint_id = result.endpoint_id;
            state = result.state;
            dedupe_key = key;
            created_at = result.checked_at;
            message = result.message;
          } in
          (record m { alerts = m.alerts ++ alert ∷ []; next_id = after }, some alert))
      else (m, none)

  unfoldable pub record_result : Memory F → CheckResult → Duration → Memory F × RecordOutcome
  unfolding append_result append_transition append_alert
  record_result m result window =
      let previous = previous_state (results_of m result.endpoint_id) in
      let (m', transition) = append_transition (append_result m result) previous result in
      let (m'', alert) = append_alert m' previous result window in
      (m'', record { transition = transition; alert = alert })

  unfoldable pub latest_results : Memory F → Assoc CheckResult
  unfolding latest_of
  latest_results m = latest_of m.results

-- One round of the loop of CountsSince.
count_result : Time → Duration → Counts → CheckResult → Counts
count_result from latency_target c r =
    if before r.checked_at from || state_eq r.state maintenance then c else record {
      eligible = c.eligible + 1;
      good = if state_eq r.state healthy || state_eq r.state degraded then c.good + 1 else c.good;
      latency_good =
          if not (state_eq r.state unavailable) && leb_ℤ r.latency latency_target
          then c.latency_good + 1
          else c.latency_good;
    }

count_results : Time → Duration → Counts → List CheckResult → Counts
count_results from latency_target c [] = c
count_results from latency_target c (r ∷ rs) =
    count_results from latency_target (count_result from latency_target c r) rs

-- The loop of Transitions, over the transitions from the newest on, with the room left.
newest_transitions : Text → ℕ → List Transition → List Transition
newest_transitions endpoint_id room [] = []
newest_transitions endpoint_id zero (t ∷ ts) = []
newest_transitions endpoint_id (suc room) (t ∷ ts) =
    if text_eq endpoint_id [] || text_eq t.endpoint_id endpoint_id
    then t ∷ newest_transitions endpoint_id room ts
    else newest_transitions endpoint_id (suc room) ts

module _ {F : Type 0} where
  unfoldable pub counts_since : Memory F → Text → Time → Duration → Counts
  unfolding count_result count_results
  counts_since m endpoint_id from latency_target =
      count_results from latency_target (record { eligible = 0; good = 0; latency_good = 0 })
        (results_of m endpoint_id)

  -- A negative limit is a panic of `make`; the callers pass 1 or more.
  unfoldable pub transitions : Memory F → Text → ℕ → List Transition
  unfolding newest_transitions
  transitions m endpoint_id limit = newest_transitions endpoint_id limit (reverse m.transitions)
