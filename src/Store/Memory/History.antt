-- ===== src/Store/Memory/History.antt =====
-- internal/store/memory.go: the stored results and transitions, as functions of what was recorded.
use mathlib.Core.List.{append-nil, map-append}
use service_reliability_watc.Common.{
  ◌≡◌, refl, subst, ap, ◌∙◌, true, false, Option, none, some, List, [], ◌∷◌, ◌++◌, arith,
  if◌then◌else◌, Bool-cases, inl, inr, keep, keep-append, last?, map,
}
use service_reliability_watc.Common.Text.{Text, text_eq, text_eq_iff, text_eq_refl}
use service_reliability_watc.Common.Assoc.{lookup, lookup-insert}
use service_reliability_watc.Common.Clock.{Time, Duration}
use service_reliability_watc.Domain.Types.{State, unknown, state_eq, CheckResult, Transition}
use service_reliability_watc.Store.Memory.Frames.{
  to_list, previous, record_result-results, record_result-transitions,
}
use service_reliability_watc.Store.Memory.{
  Memory, new_memory, append_result, results_of, results_or_nil, previous_state, append_transition,
  record_result,
}

-- Recording a result appends it, with the id that it was given, to the results of its endpoint, and
-- leaves those of every other endpoint alone.
pub results_of-record_result :
    {F : Type 0} (m : Memory F) (r : CheckResult) (window : Duration) (key : Text)
    → results_of (record_result m r window).0 key ≡ (
        if text_eq r.endpoint_id key
        then results_of m r.endpoint_id ++ record r { id = m.next_id } ∷ []
        else results_of m key)
unfolding results_of append_result
results_of-record_result m r window key =
    ap (λ rs. results_or_nil (lookup key rs)) (record_result-results m r window)
    ∙ rw
        (lookup-insert r.endpoint_id key
          (results_of m r.endpoint_id ++ record r { id = m.next_id } ∷ []) m.results)
        (ground arith)

-- The transitions of one endpoint, oldest first.
abbrev pub transitions_of : Text → List Transition → List Transition
transitions_of key = keep (λ t. text_eq t.endpoint_id key)

-- A change of state, without the id of its row.
pub record Change : Type 0 where
  pub from_state : State
  pub to_state : State
  pub changed_at : Time
  pub reason : Text

abbrev pub change_of : Transition → Change
change_of t = record {
  from_state = t.from_state;
  to_state = t.to_state;
  changed_at = t.changed_at;
  reason = t.reason;
}

abbrev change_to : State → CheckResult → Change
change_to s r = record {
  from_state = s;
  to_state = r.state;
  changed_at = r.checked_at;
  reason = r.message;
}

-- The changes along a history that begins in a state.
abbrev pub changes : State → List CheckResult → List Change
changes s [] = []
changes s (r ∷ rs) = elim (state_eq s r.state) [
  | true ↦ changes r.state rs
  | false ↦ change_to s r ∷ changes r.state rs
]

-- The change of one result, if it is one.
abbrev change? : State → CheckResult → List Change
change? s r = elim (state_eq s r.state) [ true ↦ [] | false ↦ change_to s r ∷ [] ]

abbrev final : State → List CheckResult → State
final s [] = s
final s (r ∷ rs) = final r.state rs

abbrev state_or : State → Option CheckResult → State
state_or s none = s
state_or s (some r) = r.state

final-last? : (s : State) (rs : List CheckResult) → final s rs ≡ state_or s (last? rs)
final-last? s [] = refl
final-last? s (r ∷ rs) = final-last? r.state rs ∙ ground arith

changes-snoc :
    (s : State) (rs : List CheckResult) (r : CheckResult)
    → changes s (rs ++ r ∷ []) ≡ changes s rs ++ change? (final s rs) r
changes-snoc s [] r = refl
changes-snoc s (x ∷ rs) r = ground (arith, changes-snoc x.state rs r)

-- The new transition, in the words of `changes`.
module _ {F : Type 0} (m : Memory F) (r : CheckResult) (window : Duration) where
  outcome_change :
      map change_of (to_list (record_result m r window).1.transition) ≡ change? (previous m r) r
  unfolding record_result append_transition
  outcome_change = ground arith

  outcome_endpoint :
      (key : Text)
      → transitions_of key (to_list (record_result m r window).1.transition) ≡ (
          if text_eq r.endpoint_id key then to_list (record_result m r window).1.transition else [])
  unfolding record_result append_transition
  outcome_endpoint key = ground arith

-- The transitions of every endpoint are the changes of state along its results, from Unknown on.
abbrev pub IsConsistent : {F : Type 0} → Memory F → Type 0
IsConsistent m =
    (key : Text)
    → map change_of (transitions_of key m.transitions) ≡ changes unknown (results_of m key)

previous-final :
    {F : Type 0} (m : Memory F) (r : CheckResult)
    → previous m r ≡ final unknown (results_of m r.endpoint_id)
unfolding previous_state
previous-final m r = ground (arith, final-last? unknown (results_of m r.endpoint_id))

module _ {F : Type 0} (m : Memory F) (r : CheckResult) (window : Duration) where
  abbrev t : List Transition
  t = to_list (record_result m r window).1.transition

  split :
      (key : Text)
      → map change_of (transitions_of key (record_result m r window).0.transitions)
        ≡ map change_of (transitions_of key m.transitions) ++ map change_of (transitions_of key t)
  split key =
      rw
        (
          record_result-transitions m r window,
          keep-append (λ x. text_eq x.endpoint_id key) m.transitions t,
        )
        (map-append _ _ _)

  consistent-own :
      IsConsistent m
      → map change_of (transitions_of r.endpoint_id (record_result m r window).0.transitions)
        ≡ changes unknown (results_of (record_result m r window).0 r.endpoint_id)
  consistent-own c =
      split r.endpoint_id
      ∙ rw (
        outcome_endpoint m r window r.endpoint_id,
        results_of-record_result m r window r.endpoint_id,
        text_eq_refl r.endpoint_id,
        outcome_change m r window ∙ ap (λ p. change? p r) (previous-final m r),
        c r.endpoint_id,
        changes-snoc unknown (results_of m r.endpoint_id) (record r { id = m.next_id }),
      )

  consistent-other :
      (key : Text)
      → text_eq r.endpoint_id key ≡ false
      → IsConsistent m
      → map change_of (transitions_of key (record_result m r window).0.transitions)
        ≡ changes unknown (results_of (record_result m r window).0 key)
  consistent-other key h c =
      split key
      ∙ rw
          (
            outcome_endpoint m r window key,
            h,
            append-nil,
            results_of-record_result m r window key,
            h,
          )
          (c key)

-- RecordResult keeps the transitions in step with the results, for every endpoint.
pub record_result-IsConsistent :
    {F : Type 0} (m : Memory F) (r : CheckResult) (window : Duration)
    → IsConsistent m
    → IsConsistent (record_result m r window).0
record_result-IsConsistent m r window c key = elim (Bool-cases (text_eq r.endpoint_id key)) [
  | inl same ↦
      subst
        (λ k.
          map change_of (transitions_of k (record_result m r window).0.transitions)
          ≡ changes unknown (results_of (record_result m r window).0 k))
        ((text_eq_iff r.endpoint_id key).0 same) (consistent-own m r window c)
  | inr differs ↦ consistent-other m r window key differs c
]

-- Any sequence of recordings.
unfoldable pub record_all : {F : Type 0} → Memory F → List (CheckResult × Duration) → Memory F
record_all m [] = m
record_all m ((r, window) ∷ rest) = record_all (record_result m r window).0 rest

record_all-IsConsistent :
    {F : Type 0} (m : Memory F) (rs : List (CheckResult × Duration))
    → IsConsistent m
    → IsConsistent (record_all m rs)
unfolding record_all
record_all-IsConsistent m [] c = c
record_all-IsConsistent m ((r, window) ∷ rs) c =
    record_all-IsConsistent (record_result m r window).0 rs
      (record_result-IsConsistent m r window c)

-- In a store that began empty, the transitions of an endpoint are exactly the changes of state along
-- its stored results, the first from Unknown, in order and with the time and message of the result
-- that brought each.
pub transitions_are_changes :
    (F : Type 0) (rs : List (CheckResult × Duration)) (key : Text)
    → let m = record_all (new_memory {F = F}) rs in
      map change_of (transitions_of key m.transitions) ≡ changes unknown (results_of m key)
unfolding results_of lookup
transitions_are_changes F rs key = record_all-IsConsistent (new_memory {F = F}) rs (λ k. refl) key
