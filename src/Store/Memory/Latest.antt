-- ===== src/Store/Memory/Latest.antt =====
-- internal/store/memory.go: LatestResults after any recordings.
use service_reliability_watc.Common.{
  ◌≡◌, refl, sym, ap, ◌∙◌, Bool, true, false, some, List, [], ◌∷◌, arith, if◌then◌else◌, All, last?,
  last?-snoc, Bool-cases, inl, inr,
}
use service_reliability_watc.Common.Text.{Text, text_eq}
use service_reliability_watc.Common.Assoc.{Assoc, lookup, insert}
use service_reliability_watc.Common.Clock.{Duration}
use service_reliability_watc.Domain.Types.{CheckResult}
use service_reliability_watc.Store.Memory.{
  Memory, new_memory, results_of, results_or_nil, append_result, latest_of, latest_results,
  record_result,
}
use service_reliability_watc.Store.Memory.Frames.{record_result-results}
use service_reliability_watc.Store.Memory.History.{results_of-record_result, record_all}

-- No key of the map holds an empty slice.
abbrev pub IsFull : Assoc (List CheckResult) → Type 0
IsFull m = All (λ e. (r : CheckResult) × (last? e.1 ≡ some r)) m

insert-IsFull :
    (k : Text) (rs : List CheckResult) (r : CheckResult) (m : Assoc (List CheckResult))
    → last? rs ≡ some r
    → IsFull m
    → IsFull (insert k rs m)
unfolding insert
insert-IsFull k rs r [] e f = ((r, e), tt)
insert-IsFull k rs r ((j, v) ∷ m) e f = elim (Bool-cases (text_eq j k)) [
  | inl same ↦ rw (same, insert) ((r, e), f.1)
  | inr differs ↦ rw (differs, insert) (f.0, insert-IsFull k rs r m e f.1)
]

latest_of-cons :
    (j : Text) (v : List CheckResult) (m : Assoc (List CheckResult)) (r : CheckResult)
    → last? v ≡ some r
    → latest_of ((j, v) ∷ m) ≡ (j, r) ∷ latest_of m
unfolding latest_of
latest_of-cons j v m r e = rw (e, latest_of)

lookup-cons :
    (k j : Text) (v : List CheckResult) (m : Assoc (List CheckResult)) (r : CheckResult)
    → last? v ≡ some r
    → lookup k (latest_of m) ≡ last? (results_or_nil (lookup k m))
    → lookup k ((j, r) ∷ latest_of m) ≡ last? (results_or_nil (lookup k ((j, v) ∷ m)))
unfolding lookup
lookup-cons k j v m r e ih = ground arith

lookup-latest_of :
    (k : Text) (m : Assoc (List CheckResult))
    → IsFull m
    → lookup k (latest_of m) ≡ last? (results_or_nil (lookup k m))
unfolding lookup latest_of
lookup-latest_of k [] f = refl
lookup-latest_of k ((j, v) ∷ m) f =
    ap (lookup k) (latest_of-cons j v m f.0.0 f.0.1)
    ∙ lookup-cons k j v m f.0.0 f.0.1 (lookup-latest_of k m f.1)

pub record_result-IsFull :
    {F : Type 0} (m : Memory F) (r : CheckResult) (window : Duration)
    → IsFull m.results
    → IsFull (record_result m r window).0.results
unfolding append_result
record_result-IsFull m r window f = rw (record_result-results m r window) (
    insert-IsFull r.endpoint_id _ (record r { id = m.next_id }) m.results
      (last?-snoc (results_of m r.endpoint_id) (record r { id = m.next_id })) f)

record_all-IsFull :
    {F : Type 0} (m : Memory F) (rs : List (CheckResult × Duration))
    → IsFull m.results
    → IsFull (record_all m rs).results
unfolding record_all
record_all-IsFull m [] f = f
record_all-IsFull m ((r, window) ∷ rs) f =
    record_all-IsFull (record_result m r window).0 rs (record_result-IsFull m r window f)

pub latest_results_lem :
    {F : Type 0} (m : Memory F) (key : Text)
    → IsFull m.results
    → lookup key (latest_results m) ≡ last? (results_of m key)
unfolding latest_results results_of
latest_results_lem m key f = lookup-latest_of key m.results f

-- In a store that began empty, recording a result makes it, with the id that it was given, the
-- latest of its endpoint, and leaves the latest result of every other endpoint as it was.
latest-record_result :
    (F : Type 0) (rs : List (CheckResult × Duration)) (r : CheckResult) (window : Duration)
    (key : Text)
    → let m = record_all (new_memory {F = F}) rs in
      lookup key (latest_results (record_result m r window).0) ≡ (
        if text_eq r.endpoint_id key
        then some (record r { id = m.next_id })
        else lookup key (latest_results m))
latest-record_result F rs r window key = after (text_eq r.endpoint_id key) refl
  where
    m : Memory F
    m = record_all (new_memory {F = F}) rs

    full : IsFull m.results
    full = record_all-IsFull (new_memory {F = F}) rs tt

    now :
        lookup key (latest_results (record_result m r window).0)
        ≡ last? (results_of (record_result m r window).0 key)
    now = latest_results_lem (record_result m r window).0 key (record_result-IsFull m r window full)

    after :
        (b : Bool)
        → text_eq r.endpoint_id key ≡ b
        → lookup key (latest_results (record_result m r window).0)
          ≡ (if b then some (record r { id = m.next_id }) else lookup key (latest_results m))
    after true e =
        now
        ∙ rw (results_of-record_result m r window key, e)
            (last?-snoc (results_of m r.endpoint_id) (record r { id = m.next_id }))
    after false e =
        now ∙ rw (results_of-record_result m r window key, e) (sym (latest_results_lem m key full))
