-- ===== src/Store/Postgres/Listing.antt =====
-- internal/store/memory.go and internal/store/postgres.go: Transitions of the two, where the results of
-- all endpoints come in the order of time.
use mathlib.Core.List.{append-nil}
use service_reliability_watc.Common.{
  ℕ, ◌≡◌, refl, sym, ap, ◌∙◌, Bool-cases, inl, inr, List, [], ◌∷◌, ◌++◌, All, All-append, All-map,
  map, map-take, map-reverse, reverse, take, keep, keep-map, keep-reverse, arith,
}
use service_reliability_watc.Common.Int.{pos, ◌+ℤ◌, ◌<ℤ◌, ◌≤ℤ◌, +ℤ_parts}
use service_reliability_watc.Common.Float.{Float64}
use service_reliability_watc.Common.Text.{Text, codes}
use service_reliability_watc.Common.Assoc.{Assoc}
use service_reliability_watc.Common.Clock.{Duration}
use service_reliability_watc.Common.Result.{ok}
use service_reliability_watc.Domain.Types.{state_eq, CheckResult, Transition}
use service_reliability_watc.Store.Outcome.{transition_without_id}
use service_reliability_watc.Store.Memory.{
  Memory, new_memory, transitions as memory_transitions, record_result as memory_record_result,
}
use service_reliability_watc.Store.Memory.History.{record_all}
use service_reliability_watc.Store.Memory.Queries.{selects, transitions_lem}
use service_reliability_watc.Store.Postgres.Rows.{EndpointRow}
use service_reliability_watc.Store.Postgres.{Database, Sequences, Sql, no_faults, record_result}
use service_reliability_watc.Store.Postgres.Committed.{
  previous_in, IsCommitted, record_result-IsCommitted,
}
use service_reliability_watc.Store.Postgres.Simulation.{Simulates}
use service_reliability_watc.Store.Postgres.Preserved.{record_result-Simulates}
use service_reliability_watc.Store.Postgres.Queries.{order_by, is_later_transition, transitions}
use service_reliability_watc.Store.Postgres.Latest.{no_failure, collect_all}
use service_reliability_watc.Store.Postgres.Order.{
  IsAscending, order_by-reverse, keep-IsAscending, snoc-IsAscending,
}
use service_reliability_watc.Store.Postgres.Refinement.{
  without_results, AreAdmissible, new_memory-Simulates,
}

module _ {F : Type 0} where
  -- The rows of the transitions come in the order of time and of their ids.
  pub record IsInOrder (db : Database F) : Type 0 where
    pub ascending : IsAscending is_later_transition db.tables.transitions
    pub below : All (λ t. t.id <ℤ db.sequences.transition_id) db.tables.transitions

  -- No transition that is stored is later than the result.
  abbrev pub IsLatest : Database F → CheckResult → Type 0
  IsLatest db r = All (λ t. t.changed_at ≤ℤ r.checked_at) db.tables.transitions

All-two {ℓ κ μ ν} :
    {A : Type ℓ} (P : A → Type κ) (Q : A → Type μ) (S : A → Type ν)
    → ((x : A) → P x → Q x → S x)
    → (xs : List A) → All P xs
    → All Q xs
    → All S xs
All-two P Q S f [] h k = tt
All-two P Q S f (x ∷ xs) h k = (f x h.0 k.0, All-two P Q S f xs h.1 k.1)

module _ {F : Type 0} (fl : Float64 F) (sql : Sql) where
  module _ (db after : Database F) (r : CheckResult) (window : Duration) where
    abbrev row : Transition
    row = record {
      id = db.sequences.transition_id;
      endpoint_id = r.endpoint_id;
      from_state = previous_in fl sql db r window;
      to_state = r.state;
      changed_at = r.checked_at;
      reason = r.message;
    }

    IsInOrder-after :
        IsInOrder db
        → IsLatest db r
        → sql.stored_time r.checked_at ≡ r.checked_at
        → IsCommitted fl sql db r window after
        → IsInOrder after
    IsInOrder-after o late exact c =
        elim (Bool-cases (state_eq (previous_in fl sql db r window) r.state)) [
          | inl same ↦
              let kept : after.tables.transitions ≡ db.tables.transitions =
                c.transitions ∙ rw same (append-nil db.tables.transitions) in
              let next : after.sequences.transition_id ≡ db.sequences.transition_id =
                c.next_transition ∙ rw same refl in
              record { ascending = rw kept o.ascending; below = rw (kept, next) o.below }
          | inr changed ↦
              let added : after.tables.transitions ≡ db.tables.transitions ++ row ∷ [] =
                c.transitions ∙ rw (changed, exact) refl in
              let next : after.sequences.transition_id ≡ db.sequences.transition_id +ℤ pos 1 =
                c.next_transition ∙ rw changed refl in
              record {
                ascending = rw added (
                    snoc-IsAscending is_later_transition db.tables.transitions row o.ascending (
                      All-two _ _ _ (λ t late low. ground (arith, late, low)) db.tables.transitions
                        late o.below));
                below =
                    rw (added, next)
                      (All-append _ db.tables.transitions (row ∷ [])
                        (All-map _ _
                          (λ t low. omega (arith, low, +ℤ_parts db.sequences.transition_id (pos 1)))
                          db.tables.transitions o.below)
                        (omega (arith, +ℤ_parts db.sequences.transition_id (pos 1)), tt));
              }
        ]

  -- Each call is the latest where it comes.
  abbrev pub AreLatest : Database F → List (CheckResult × Duration) → Type 0
  AreLatest db [] = Unit
  AreLatest db ((r, window) ∷ rest) =
      IsLatest db r × AreLatest (record_result fl sql no_faults db r window).0 rest

  -- The database after the calls.
  unfoldable pub recorded : Database F → List (CheckResult × Duration) → Database F
  recorded db [] = db
  recorded db ((r, window) ∷ rest) = recorded (record_result fl sql no_faults db r window).0 rest

  recorded-Simulates :
      (m : Memory F) (db : Database F) (xs : List (CheckResult × Duration))
      → Simulates fl sql m db
      → IsInOrder db
      → AreAdmissible fl sql db xs
      → AreLatest db xs
      → Simulates fl sql (record_all m xs) (recorded db xs) × IsInOrder (recorded db xs)
  unfolding recorded record_all
  recorded-Simulates m db [] s o h k = (s, o)
  recorded-Simulates m db ((r, window) ∷ rest) s o h k =
      let s' = (record_result-Simulates fl sql m db r window s h.0).0 in
      let c = (record_result-IsCommitted fl sql db r window h.0.accepted).1 in
      recorded-Simulates (memory_record_result m r window).0
        (record_result fl sql no_faults db r window).0 rest s'
        (IsInOrder-after db _ r window o k.0 h.0.exact c) h.1 k.1

  -- The rows that Transitions reads, newest first.
  listed :
      (db : Database F) (id : Text) (limit : ℕ)
      → IsInOrder db
      → transitions fl sql no_failure db id limit
        ≡ ok (take limit (keep (selects id) (reverse db.tables.transitions)))
  unfolding transitions
  listed db id limit o =
      let rows = keep (selects id) db.tables.transitions in
      let sorted =
        order_by-reverse is_later_transition rows
          (keep-IsAscending is_later_transition (selects id) db.tables.transitions o.ascending) in
      collect_all (codes "scan transition: ") 0 (take limit (order_by is_later_transition rows))
      ∙ ap (λ l. ok (take limit l)) (sorted ∙ sym (keep-reverse (selects id) db.tables.transitions))

  -- A list of transitions as Transitions gives it, without the ids.
  without_ids_of :
      (id : Text) (limit : ℕ) (ts : List Transition)
      → map transition_without_id (take limit (keep (selects id) (reverse ts)))
        ≡ take limit (keep (selects id) (reverse (map transition_without_id ts)))
  without_ids_of id limit ts =
      map-take transition_without_id limit (keep (selects id) (reverse ts))
      ∙ ap (take limit) (
          sym (keep-map transition_without_id (selects id) (λ t. refl) (reverse ts))
          ∙ ap (keep (selects id)) (map-reverse transition_without_id ts))

  -- Transitions of the two repositories agree: after any series of admissible calls of RecordResult
  -- from tables without results, none of which is earlier than a transition that is stored, it gives
  -- for every endpoint, or for all of them, and for every limit the same transitions in the same
  -- order, but for the ids.
  pub transitions-agree :
      (endpoints : Assoc EndpointRow) (sequences : Sequences) (xs : List (CheckResult × Duration))
      (id : Text) (limit : ℕ)
      → AreAdmissible fl sql (without_results endpoints sequences) xs
      → AreLatest (without_results endpoints sequences) xs
      → (ts : List Transition) × (transitions fl sql no_failure
            (recorded (without_results endpoints sequences) xs)
            id
            limit
          ≡ ok ts)
        × (map transition_without_id
              (memory_transitions (record_all (new_memory {F = F}) xs) id limit)
            ≡ map transition_without_id ts)
  transitions-agree endpoints sequences xs id limit h k =
      let db = without_results endpoints sequences in
      let (s, o) =
        recorded-Simulates new_memory db xs (new_memory-Simulates fl sql endpoints sequences)
          (record { ascending = tt; below = tt }) h k in
      let stored = (recorded db xs).tables.transitions in
      let kept = (record_all (new_memory {F = F}) xs).transitions in
      (
        take limit (keep (selects id) (reverse stored)),
        listed (recorded db xs) id limit o,
        ap (map transition_without_id) (transitions_lem (record_all new_memory xs) id limit)
            ∙ without_ids_of id limit kept
            ∙ ap (λ l. take limit (keep (selects id) (reverse l))) s.transitions
            ∙ sym (without_ids_of id limit stored),
      )
