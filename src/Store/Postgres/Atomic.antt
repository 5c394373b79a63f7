-- ===== src/Store/Postgres/Atomic.antt =====
-- internal/store/postgres.go: what a failed RecordResult leaves behind.
use service_reliability_watc.Common.{
  ◌≡◌, refl, ◌⊎◌, inl, inr, Option, none, some, arith, if◌then◌else◌, Option-cases,
}
use service_reliability_watc.Common.Float.{Float64}
use service_reliability_watc.Common.Text.{Text, codes}
use service_reliability_watc.Common.Clock.{Duration}
use service_reliability_watc.Common.Result.{ok, err}
use service_reliability_watc.Domain.Types.{State, CheckResult}
use service_reliability_watc.Store.Types.{RecordOutcome}
use service_reliability_watc.Store.Postgres.{
  Tables, Sequences, Database, CommitEnd, committed, commit_failed, reply_lost, Faults, no_faults,
  Sql, Step, ◌then◌, statement, insert_result, insert_transition, insert_alert, body, finish,
  record_result,
}

-- Where the first goes through, the second does, with the same end.
abbrev Follows : {F A : Type 0} → Step F A → Step F A → Type 0
Follows {F} {A} s s' = (q : Sequences) (x : Tables F × A) → s ≡ (q, ok x) → s' ≡ (q, ok x)

then-Follows :
    {F A B : Type 0} (s s' : Step F A) (k k' : Sequences → Tables F → A → Step F B)
    → Follows s s'
    → ((q : Sequences) (t : Tables F) (a : A) → Follows (k q t a) (k' q t a))
    → Follows (s then k) (s' then k')
then-Follows (q, err e) s' k k' h g p x r = cc r
then-Follows (q, ok (t, a)) s' k k' h g p x r = rw (h q (t, a) refl) (g q t a p x r)

module _ {F : Type 0} (fl : Float64 F) (sql : Sql) where
  statement-Follows :
      (what : Text) (o : Option Text) (q : Sequences) (t : Tables F)
      → Follows (statement what o q t) (statement what none q t)
  statement-Follows what none q t p x r = r
  statement-Follows what (some e) q t p x r = cc r

  insert_result-Follows :
      (o : Option Text) (q : Sequences) (t : Tables F) (r : CheckResult)
      → Follows (insert_result fl sql o q t r) (insert_result fl sql none q t r)
  unfolding insert_result
  insert_result-Follows none q t r p x h = h
  insert_result-Follows (some e) q t r p x h = cc h

  insert_transition-Follows :
      (o : Option Text) (q : Sequences) (t : Tables F) (s : State) (r : CheckResult)
      → Follows (insert_transition fl sql o q t s r) (insert_transition fl sql none q t s r)
  unfolding insert_transition
  insert_transition-Follows none q t s r p x h = h
  insert_transition-Follows (some e) q t s r p x h = ground arith

  insert_alert-Follows :
      (o : Option Text) (q : Sequences) (t : Tables F) (s : State) (r : CheckResult) (w : Duration)
      → Follows (insert_alert fl sql o q t s r w) (insert_alert fl sql none q t s r w)
  unfolding insert_alert
  insert_alert-Follows none q t s r w p x h = h
  insert_alert-Follows (some e) q t s r w p x h = ground arith

  body-Follows :
      (f : Faults) (q : Sequences) (t : Tables F) (r : CheckResult) (w : Duration)
      → Follows (body fl sql f q t r w) (body fl sql no_faults q t r w)
  unfolding body
  body-Follows f q t r w =
      then-Follows _ _ _ _ (statement-Follows (codes "lock endpoint result stream: ") f.lock q t)
        λ q1 t1 u1.
          then-Follows _ _ _ _ (statement-Follows (codes "read previous state: ") f.read q1 t1)
            λ q2 t2 u2.
              then-Follows _ _ _ _ (insert_result-Follows f.insert_result q2 t2 r) λ q3 t3 u3.
                then-Follows _ _ _ _ (insert_transition-Follows f.insert_transition q3 t3 _ r)
                  λ q4 t4 a.
                    then-Follows _ _ _ _ (insert_alert-Follows f.insert_alert q4 t4 _ r w)
                      λ q5 t5 b p x h. h

  -- The tables after an error: as before, or with the reply to the commit lost and everything kept.
  abbrev pub IsAllOrNothing : Faults → Database F → CheckResult → Duration → Database F → Type 0
  IsAllOrNothing f db r w after =
      (after.tables ≡ db.tables)
      ⊎ ((e : Text) × (f.commit ≡ reply_lost e)
          × (after.tables ≡ (record_result fl sql no_faults db r w).0.tables))

  finish-error :
      (f : Faults) (db : Database F) (r : CheckResult) (w : Duration) (s : Step F RecordOutcome)
      (e : Text)
      → body fl sql f db.sequences db.tables r w ≡ s
      → (finish fl sql f db s).1 ≡ err e
      → IsAllOrNothing f db r w (finish fl sql f db s).0
  unfolding finish record_result
  finish-error f db r w (q, err x) e b h = inl refl
  finish-error f db r w (q, ok (t, o)) e b h = elim (CommitEnd-cases f.commit) [
    | inl done ↦ absurd (cc (rw (done, finish) at h))
    | inr (inl (x, failed)) ↦ rw (failed, finish) (inl refl)
    | inr (inr (x, lost)) ↦
        rw (lost, finish)
          (inr (x, refl, rw (body-Follows f db.sequences db.tables r w q (t, o) b, finish)))
  ]
    where
      CommitEnd-cases :
          (c : CommitEnd)
          → (c ≡ committed)
            ⊎ ((x : Text) × (c ≡ commit_failed x))
            ⊎ ((x : Text) × (c ≡ reply_lost x))
      CommitEnd-cases committed = inl refl
      CommitEnd-cases (commit_failed x) = inr (inl (x, refl))
      CommitEnd-cases (reply_lost x) = inr (inr (x, refl))

  -- RecordResult is all or nothing: when it returns an error, whichever statement failed or whichever
  -- constraint was broken, the tables are as they were before; or else the reply to the commit was
  -- lost, and they are as after a call without a fault.
  pub record_result-IsAllOrNothing :
      (f : Faults) (db : Database F) (r : CheckResult) (w : Duration) (e : Text)
      → (record_result fl sql f db r w).1 ≡ err e
      → IsAllOrNothing f db r w (record_result fl sql f db r w).0
  unfolding record_result
  record_result-IsAllOrNothing f db r w e h = elim (Option-cases f.begin) [
    | inl begun ↦
        rw (begun, record_result)
          (finish-error f db r w (body fl sql f db.sequences db.tables r w) e refl
            (rw (begun, record_result) at h))
    | inr (x, refused) ↦ rw (refused, record_result) (inl refl)
  ]
