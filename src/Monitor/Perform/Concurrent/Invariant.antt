-- ===== src/Monitor/Perform/Concurrent/Invariant.antt =====
-- internal/monitor/service.go: what holds of calls of perform, at any
-- moment, over the repository in memory.
use service_reliability_watc.Common.{
  ℕ, ◌+◌, ◌≤◌, ◌≡◌, refl, sym, subst, ap, ◌∙◌, ◌⊎◌, inl, inr, Bool, true, false, List, ◌∷◌, ◌++◌,
  if◌then◌else◌, length, count_p, sum_of, sum_of-replace, arith, Bool-cases,
}
use service_reliability_watc.Common.Text.{Text, text_eq, text_eq_iff}
use service_reliability_watc.Common.Clock.{Time}
use service_reliability_watc.Common.Result.{Result, ok, err}
use service_reliability_watc.Domain.Types.{Endpoint, CheckResult}
use service_reliability_watc.Resilience.Circuit.{CircuitBreaker, allow}
use service_reliability_watc.Resilience.Circuit.Spec.{view, allows}
use service_reliability_watc.Resilience.Circuit.Runs.{view-step_other}
use service_reliability_watc.Store.Types.{RecordOutcome}
use service_reliability_watc.Store.Memory.{Memory}
use service_reliability_watc.Store.Memory.Alerts.{IsSpaced}
use service_reliability_watc.Store.Memory.Frames.{to_list}
use service_reliability_watc.Store.Memory.History.{IsConsistent}
use service_reliability_watc.Monitor.Types.{Options}
use service_reliability_watc.Monitor.Perform.{settle}
use service_reliability_watc.Monitor.Perform.Breaker.{
  IsSettledAt, settle-own, settle-other, refused-IsSettledAt,
}
use service_reliability_watc.Monitor.Perform.Report.{is_observed, is_alerted, is_storage_error}
use service_reliability_watc.Monitor.Perform.Concurrent.{
  Call, asking, checking, resolved, told, stored, Pool, first_call, asked_call,
}

abbrev pub alerts_in : Result Text RecordOutcome → ℕ
alerts_in (err e) = 0
alerts_in (ok o) = length (to_list o.alert)

abbrev pub errors_in : Result Text RecordOutcome → ℕ
errors_in (err e) = 1
errors_in (ok o) = 0

-- A breaker that looks the same at the key.
same-IsSettledAt :
    (b b' : CircuitBreaker) (key : Text)
    → view b' key ≡ view b key
    → IsSettledAt b key
    → IsSettledAt b' key
same-IsSettledAt b b' key same s t h = s t (sym (ap (λ x. x.phase) same) ∙ h)

-- For each call: whether it holds the key's probe, has not been observed, and how many alerts and
-- storage errors it has not yet told of.
module _ {F : Type 0} where
  abbrev pub checks : Text → Call F → ℕ
  checks key (checking e) = if text_eq e.id key then 1 else 0
  checks key _ = 0

  abbrev pub unobserved : Call F → ℕ
  unobserved (asking e now) = 1
  unobserved (checking e) = 1
  unobserved (resolved e r) = 1
  unobserved (told e r) = 0
  unobserved (stored e o) = 0

  abbrev pub untold : Call F → ℕ
  untold (stored e o) = alerts_in o
  untold _ = 0

  abbrev pub failing : Call F → ℕ
  failing (stored e o) = errors_in o
  failing _ = 0

  -- No probe of the key is under way, but for that of a call that checks it.
  abbrev pub IsHeld : CircuitBreaker → List (Call F) → Text → Type 0
  IsHeld b calls key = IsSettledAt b key ⊎ (1 ≤ sum_of (checks key) calls)

  -- What holds at any moment.
  pub record Sound (p : Pool F (Memory F)) : Type 0 where
    pub held : (key : Text) → IsHeld p.service.breaker p.calls key
    pub consistent : IsConsistent p.service.repo
    pub spaced : IsSpaced p.service.options.alert_dedupe p.service.repo.alerts
    pub all_observed : count_p is_observed p.service.events + sum_of unobserved p.calls ≡ p.begun
    pub all_alerted :
        count_p is_alerted p.service.events + sum_of untold p.calls ≡ length p.service.repo.alerts
    pub no_errors : count_p is_storage_error p.service.events + sum_of failing p.calls ≡ 0

  pub first-is_quiet :
      (o : Options) (e : Endpoint F) (now : Time)
      → (unobserved (first_call o e now) ≡ 1)
        × (untold (first_call o e now) ≡ 0)
        × (failing (first_call o e now) ≡ 0)
        × ((key : Text) → checks key (first_call o e now) ≡ 0)
  first-is_quiet o e now = elim (Bool-cases (o.maintenance e.id now)) [
    | inl during ↦ rw during (refl, refl, refl, λ key. refl)
    | inr outside ↦ rw outside (refl, refl, refl, λ key. refl)
  ]

  pub asked-is_quiet :
      (e : Endpoint F) (now : Time) (allowed : Bool)
      → (unobserved (asked_call e now allowed) ≡ 1)
        × (untold (asked_call e now allowed) ≡ 0)
        × (failing (asked_call e now allowed) ≡ 0)
  asked-is_quiet e now true = (refl, refl, refl)
  asked-is_quiet e now false = (refl, refl, refl)

  pub asks-IsHeld :
      (b : CircuitBreaker) (calls left right : List (Call F)) (e : Endpoint F) (now : Time)
      → calls ≡ left ++ asking e now ∷ right
      → ((key : Text) → IsHeld b calls key)
      → (key : Text)
      → IsHeld (allow b e.id now).0 (left ++ asked_call e now (allow b e.id now).1 ∷ right) key
  asks-IsHeld b calls left right e now h held key =
      let change =
        λ (c : Call F). sum_of-replace (checks key) calls left right (asking e now) c h in
      elim (Bool-cases (allow b e.id now).1) [
        | inl through ↦ elim (Bool-cases (text_eq e.id key)) [
          | inl same ↦ rw through (inr (ground (arith, change (checking e), same)))
          | inr other ↦ rw through (elim (held key) [
            | inl settled ↦
                inl
                  (same-IsSettledAt b _ key (view-step_other b e.id key (allows now) other) settled)
            | inr checked ↦ inr (ground (arith, change (checking e), checked))
          ])
        ]
        | inr barred ↦ rw barred (elim (held key) [
          | inl settled ↦ inl (refused barred settled)
          | inr checked ↦ inr (omega (arith, change (asked_call e now false), checked))
        ])
      ]
    where
      refused :
          (allow b e.id now).1 ≡ false → IsSettledAt b key → IsSettledAt (allow b e.id now).0 key
      refused barred settled = elim (Bool-cases (text_eq e.id key)) [
        | inl same ↦
            let k = (text_eq_iff e.id key).0 same in
            subst (IsSettledAt (allow b e.id now).0) k
              (refused-IsSettledAt b e.id now (subst (IsSettledAt b) (sym k) settled) barred)
        | inr other ↦
            same-IsSettledAt b _ key (view-step_other b e.id key (allows now) other) settled
      ]

  pub settles-IsHeld :
      (b : CircuitBreaker) (calls left right : List (Call F)) (e : Endpoint F) (later : Time)
      (r : CheckResult)
      → calls ≡ left ++ checking e ∷ right
      → ((key : Text) → IsHeld b calls key)
      → (key : Text)
      → IsHeld (settle b e.id later r).0 (left ++ resolved e (settle b e.id later r).1 ∷ right) key
  settles-IsHeld b calls left right e later r h held key = elim (Bool-cases (text_eq e.id key)) [
    | inl same ↦ inl (
        subst (IsSettledAt (settle b e.id later r).0) ((text_eq_iff e.id key).0 same)
          (settle-own b e.id later r))
    | inr other ↦ elim (held key) [
      | inl settled ↦ inl (same-IsSettledAt b _ key (settle-other b e.id key later r other) settled)
      | inr checked ↦ inr (
          ground (
            arith,
            sum_of-replace (checks key) calls left right (checking e)
                (resolved e (settle b e.id later r).1) h,
            checked,
            other,
          ))
    ]
  ]

  -- Calls that hold no key do not matter.
  pub quiet-IsHeld :
      (b : CircuitBreaker) (calls calls' : List (Call F))
      → ((key : Text) → sum_of (checks key) calls' ≡ sum_of (checks key) calls)
      → ((key : Text) → IsHeld b calls key)
      → (key : Text) → IsHeld b calls' key
  quiet-IsHeld b calls calls' same held key = elim (held key) [
    | inl settled ↦ inl settled
    | inr checked ↦ inr (omega (arith, same key, checked))
  ]
