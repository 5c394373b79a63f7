-- ===== src/Monitor/Perform/Breaker.antt =====
-- internal/monitor/service.go: how perform uses the circuit breaker.
use service_reliability_watc.Common.{
  ◌≡◌, ◌≢◌, refl, sym, subst, ap, ◌∙◌, true, false, not, arith, if◌then◌else◌, Bool-cases, inl, inr,
}
use service_reliability_watc.Common.Int.{ℤ, pos, ltb_ℤ, leb_ℤ, int64, ◌+ℤ◌}
use service_reliability_watc.Common.Float.{Float64}
use service_reliability_watc.Common.Text.{Text, text_eq, text_eq_iff}
use service_reliability_watc.Common.Clock.{Time, since}
use service_reliability_watc.Domain.Types.{unavailable, state_eq, Endpoint, CheckResult}
use service_reliability_watc.Resilience.Circuit.{CircuitBreaker, allow, success, failure, is_open}
use service_reliability_watc.Resilience.Circuit.Spec.{
  Phase, closed, open_since, probing, view, allows, succeeds, fails, step-spec_step,
  half_open-failure, is_open_lem, spec_allow,
}
use service_reliability_watc.Resilience.Circuit.Runs.{view-step_other, threshold-step}
use service_reliability_watc.Resilience.Circuit.Threshold.{failure-answer}
use service_reliability_watc.Resilience.Circuit.Probe.{allow-spec}
use service_reliability_watc.Resilience.Retry.{retry}
use service_reliability_watc.Monitor.Types.{Options}
use service_reliability_watc.Monitor.Perform.{Visit, skipped_result, settle, checked}

-- No probe of this key is under way.
abbrev pub IsSettledAt : CircuitBreaker → Text → Type 0
IsSettledAt b key = (t : Time) → (view b key).phase ≢ probing t

-- No probe is under way for any key.
abbrev pub IsSettled : CircuitBreaker → Type 0
IsSettled b = (key : Text) → IsSettledAt b key

success-IsSettledAt : (b : CircuitBreaker) (key : Text) → IsSettledAt (success b key) key
success-IsSettledAt b key t h = cc (ap (λ r. r.0.phase) (step-spec_step b key succeeds tt))

failure-IsSettledAt :
    (b : CircuitBreaker) (key : Text) (now : Time) → IsSettledAt (failure b key now).0 key
failure-IsSettledAt b key now t h = ground (arith, half_open-failure b key now)

refused-phase :
    (d : ℤ) (p : Phase) (now t : Time)
    → p ≢ probing t
    → (spec_allow d p now).1 ≡ false
    → (spec_allow d p now).0 ≢ probing t
refused-phase d closed now t h r e = cc
refused-phase d (open_since u) now t h r e = ground arith
refused-phase d (probing u) now t h r e = h e

pub refused-IsSettledAt :
    (b : CircuitBreaker) (key : Text) (now : Time)
    → IsSettledAt b key
    → (allow b key now).1 ≡ false
    → IsSettledAt (allow b key now).0 key
refused-IsSettledAt b key now s r t h =
    let (phase, answer) = allow-spec b key now in
    refused-phase b.cooldown (view b key).phase now t (s t) (sym answer ∙ r) (sym phase ∙ h)

pub settle-own :
    (b : CircuitBreaker) (key : Text) (later : Time) (r : CheckResult)
    → IsSettledAt (settle b key later r).0 key
unfolding settle
settle-own b key later r = elim (Bool-cases (state_eq r.state unavailable)) [
  | inl down ↦ rw (down, settle) (failure-IsSettledAt b key later)
  | inr up ↦ rw (up, settle) (success-IsSettledAt b key)
]

pub settle-other :
    (b : CircuitBreaker) (k key : Text) (later : Time) (r : CheckResult)
    → text_eq k key ≡ false
    → view (settle b k later r).0 key ≡ view b key
unfolding settle
settle-other b k key later r d =
    ground (arith, view-step_other b k key (fails later) d, view-step_other b k key succeeds d)

module _ {F : Type 0} (fl : Float64 F) (options : Options) (b : CircuitBreaker) (e : Endpoint F)
    (v : Visit F) where
  checked-own : IsSettledAt b e.id → IsSettledAt (checked fl options b e v).0 e.id
  unfolding checked
  checked-own s = elim (Bool-cases (options.maintenance e.id v.now)) [
    | inl during ↦ rw (during, checked) s
    | inr outside ↦ elim (Bool-cases (allow b e.id v.now).1) [
      | inl let_through ↦ rw (outside, let_through, checked) (settle-own _ e.id v.later _)
      | inr refused ↦ rw (outside, refused, checked) (refused-IsSettledAt b e.id v.now s refused)
    ]
  ]

  checked-other :
      (key : Text) → text_eq e.id key ≡ false → view (checked fl options b e v).0 key ≡ view b key
  unfolding checked
  checked-other key d = ground (
    arith,
    view-step_other b e.id key (allows v.now) d,
    settle-other (allow b e.id v.now).0 e.id key v.later
        (retry fl v.world options.retry_base_delay options.retry_max_delay e.retries) d,
  )

  -- perform leaves no probe under way: whatever the maintenance windows and the checks say, if no
  -- circuit was in its half-open probe before, none is after.
  pub checked-IsSettled : IsSettled b → IsSettled (checked fl options b e v).0
  checked-IsSettled s key = elim (Bool-cases (text_eq e.id key)) [
    | inl same ↦
        subst (IsSettledAt (checked fl options b e v).0) ((text_eq_iff e.id key).0 same)
          (checked-own (s e.id))
    | inr differs ↦ λ t h. s key t (sym (ap (λ x. x.phase) (checked-other key differs)) ∙ h)
  ]

open_phase :
    (d : ℤ) (p : Phase) (now : Time)
    → ((t : Time) → p ≢ probing t)
    → (spec_allow d p now).1
      ≡ not (elim p [
        | closed ↦ false
        | open_since t ↦ ltb_ℤ (since now t) d
        | probing t ↦ ltb_ℤ (since now t) d
      ])
open_phase d closed now s = refl
open_phase d (open_since t) now s = ground arith
open_phase d (probing t) now s = absurd (s t refl)

-- With no probe under way, Allow refuses exactly while IsOpen holds.
allow-is_open :
    (b : CircuitBreaker) (key : Text) (now : Time)
    → IsSettledAt b key
    → (allow b key now).1 ≡ not (is_open b key now)
allow-is_open b key now s =
    rw (is_open_lem b key now)
      ((allow-spec b key now).1 ∙ open_phase b.cooldown (view b key).phase now s)

same_phase :
    (d : ℤ) (p : Phase) (now : Time) → (spec_allow d p now).1 ≡ false → (spec_allow d p now).0 ≡ p
same_phase d closed now r = cc
same_phase d (open_since t) now r = ground arith
same_phase d (probing t) now r = refl

-- A refusal changes no view.
refused-view :
    (b : CircuitBreaker) (k key : Text) (now : Time)
    → (allow b k now).1 ≡ false
    → view (allow b k now).0 key ≡ view b key
refused-view b k key now r = elim (Bool-cases (text_eq k key)) [
  | inr differs ↦ view-step_other b k key (allows now) differs
  | inl same ↦
      subst (λ j. view (allow b k now).0 j ≡ view b j) ((text_eq_iff k key).0 same)
        (ap (λ x. x.0) (step-spec_step b k (allows now) tt)
          ∙ ap (λ p. record (view b k) { phase = p })
              (same_phase b.cooldown (view b k).phase now (sym (allow-spec b k now).1 ∙ r)))
]

-- What settling a check answers, after the Allow that let it through.
settle-answer :
    (b : CircuitBreaker) (key : Text) (now later : Time) (r : CheckResult)
    → (settle (allow b key now).0 key later r).1 ≡ (
        if state_eq r.state unavailable
        then record r {
          circuit_breaker_open = leb_ℤ b.threshold (int64 ((view b key).failures +ℤ pos 1));
        }
        else r)
unfolding settle
settle-answer b key now later r = elim (Bool-cases (state_eq r.state unavailable)) [
  | inr up ↦ rw (up, settle)
  | inl down ↦
      let failures : (view (allow b key now).0 key).failures ≡ (view b key).failures =
        ap (λ x. x.0.failures) (step-spec_step b key (allows now) tt) in
      rw (
        down,
        settle,
        failure-answer (allow b key now).0 key later,
        threshold-step b key (allows now),
        failures,
      )
]

module _ {F : Type 0} (fl : Float64 F) (options : Options) (b : CircuitBreaker) (e : Endpoint F)
    (v : Visit F) where
  abbrev pub retried : CheckResult
  retried = retry fl v.world options.retry_base_delay options.retry_max_delay e.retries

  -- Outside maintenance, with no probe under way and the endpoint's circuit open, perform makes no
  -- check: the result is the one that says so, and the view of every circuit stays as it is.
  pub skips_while_open :
      options.maintenance e.id v.now ≡ false
      → IsSettled b
      → is_open b e.id v.now ≡ true
      → let (b', result) = checked fl options b e v in
        (result ≡ skipped_result e.id v.now) × ((key : Text) → view b' key ≡ view b key)
  unfolding checked
  skips_while_open outside s h =
      let refused : (allow b e.id v.now).1 ≡ false = rw (allow-is_open b e.id v.now (s e.id), h) in
      (
        rw (outside, refused, checked),
        λ key. rw (outside, refused, checked) (refused-view b e.id key v.now refused),
      )

  -- Outside maintenance, with no probe under way and the endpoint's circuit not open, perform makes
  -- the check: the result is that of its retries, an Unavailable one with the flag that tells whether
  -- this failure, counted on top of those before, reaches the threshold.
  pub checks_while_not_open :
      options.maintenance e.id v.now ≡ false
      → IsSettled b
      → is_open b e.id v.now ≡ false
      → (checked fl options b e v).1 ≡ (
          if state_eq retried.state unavailable
          then record retried {
            circuit_breaker_open = leb_ℤ b.threshold (int64 ((view b e.id).failures +ℤ pos 1));
          }
          else retried)
  unfolding checked settle
  checks_while_not_open outside s h =
      let granted : (allow b e.id v.now).1 ≡ true = rw (allow-is_open b e.id v.now (s e.id), h) in
      rw (outside, granted, checked) (settle-answer b e.id v.now v.later retried)
