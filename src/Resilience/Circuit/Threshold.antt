-- ===== src/Resilience/Circuit/Threshold.antt =====
-- internal/resilience/circuit.go: the failure count, and when it opens a circuit.
use service_reliability_watc.Common.{
  ℕ, ◌+◌, ◌<◌, ◌≤◌, ◌≡◌, refl, sym, ap, subst, false, List, [], ◌∷◌, arith, if◌then◌else◌, inl, inr,
  Bool-cases, length, ◌∙◌,
}
use service_reliability_watc.Common.Int.{ℤ, pos, ◌+ℤ◌, int64, int64_id, int_laws, leb_ℤ, two63}
use service_reliability_watc.Common.Text.{Text, text_eq, text_eq_iff, text_eq_refl}
use service_reliability_watc.Common.Assoc.{lookup}
use service_reliability_watc.Common.Clock.{Time, Duration}
use service_reliability_watc.Resilience.Circuit.{item, CircuitBreaker, new_circuit_breaker, failure}
use service_reliability_watc.Resilience.Circuit.Runs.{run, view-step_other, threshold-step}
use service_reliability_watc.Resilience.Circuit.Spec.{
  view, Call, allows, succeeds, fails, step, step-spec_step, failures-failure,
}

-- The failures of a key since its last Success.
unfoldable pub streak : Text → ℕ → List (Text × Call) → ℕ
streak key n [] = n
streak key n ((k, allows now) ∷ cs) = streak key n cs
streak key n ((k, succeeds) ∷ cs) = streak key (if text_eq k key then 0 else n) cs
streak key n ((k, fails now) ∷ cs) = streak key (if text_eq k key then n + 1 else n) cs

bump : (n : ℕ) → n + 1 < two63 → int64 (pos n +ℤ pos 1) ≡ pos (n + 1)
bump n h =
    let e : pos n +ℤ pos 1 ≡ pos (n + 1) = omega int_laws in
    rw e (int64_id (pos (n + 1)) (omega arith))

-- The failures that the view of `key` has after a call of `k`.
abbrev CountsOn : CircuitBreaker → Text → Text → ℕ → Call → Type 0
CountsOn b k key n c = (view (step b k c).0 key).failures ≡ pos (streak key n ((k, c) ∷ []))

counts-other :
    (b : CircuitBreaker) (k key : Text) (n : ℕ) (c : Call)
    → (view b key).failures ≡ pos n
    → text_eq k key ≡ false
    → CountsOn b k key n c
unfolding streak
counts-other b k key n (allows now) h d =
    ap (λ s. s.failures) (view-step_other b k key (allows now) d) ∙ h
counts-other b k key n succeeds h d =
    rw d (ap (λ s. s.failures) (view-step_other b k key succeeds d) ∙ h)
counts-other b k key n (fails now) h d =
    rw d (ap (λ s. s.failures) (view-step_other b k key (fails now) d) ∙ h)

counts-own :
    (b : CircuitBreaker) (key : Text) (n : ℕ) (c : Call)
    → (view b key).failures ≡ pos n
    → n + 1 < two63
    → CountsOn b key key n c
unfolding streak
counts-own b key n (allows now) h small =
    ap (λ r. r.0.failures) (step-spec_step b key (allows now) tt) ∙ h
counts-own b key n succeeds h small =
    rw (text_eq_refl key) (ap (λ r. r.0.failures) (step-spec_step b key succeeds tt))
counts-own b key n (fails now) h small =
    rw (text_eq_refl key) (failures-failure b key now ∙ rw h (bump n small))

counts-step :
    (b : CircuitBreaker) (k key : Text) (n : ℕ) (c : Call)
    → (view b key).failures ≡ pos n
    → n + 1 < two63
    → CountsOn b k key n c
counts-step b k key n c h small = elim (Bool-cases (text_eq k key)) [
  | inr differs ↦ counts-other b k key n c h differs
  | inl same ↦
      subst (λ j. CountsOn b j key n c) (sym ((text_eq_iff k key).0 same))
        (counts-own b key n c h small)
]

streak-cons :
    (key k : Text) (n : ℕ) (c : Call) (cs : List (Text × Call))
    → streak key n ((k, c) ∷ cs) ≡ streak key (streak key n ((k, c) ∷ [])) cs
unfolding streak
streak-cons key k n (allows now) cs = refl
streak-cons key k n succeeds cs = refl
streak-cons key k n (fails now) cs = refl

streak-le : (key k : Text) (n : ℕ) (c : Call) → streak key n ((k, c) ∷ []) ≤ n + 1
unfolding streak
streak-le key k n (allows now) = omega arith
streak-le key k n succeeds = ground arith
streak-le key k n (fails now) = ground arith

streak-le-length : (key : Text) (n : ℕ) (cs : List (Text × Call)) → streak key n cs ≤ n + length cs
streak-le-length key n [] = unfold streak in omega arith
streak-le-length key n ((k, c) ∷ cs) =
    rw (streak-cons key k n c cs)
      (omega (arith, streak-le key k n c, streak-le-length key (streak key n ((k, c) ∷ [])) cs))

failures-run :
    (key : Text) (n : ℕ) (b : CircuitBreaker) (cs : List (Text × Call))
    → (view b key).failures ≡ pos n
    → n + length cs < two63
    → (view (run b cs) key).failures ≡ pos (streak key n cs)
unfolding run
failures-run key n b [] h small = unfold streak in h
failures-run key n b ((k, c) ∷ cs) h small = rw (streak-cons key k n c cs) (
    failures-run key (streak key n ((k, c) ∷ [])) (step b k c).0 cs
      (counts-step b k key n c h (omega arith)) (omega (arith, streak-le key k n c)))

pub failure-answer :
    (b : CircuitBreaker) (key : Text) (now : Time)
    → (failure b key now).1 ≡ leb_ℤ b.threshold (int64 ((view b key).failures +ℤ pos 1))
unfolding failure
failure-answer b key now = ground arith

run-threshold : (b : CircuitBreaker) (cs : List (Text × Call)) → (run b cs).threshold ≡ b.threshold
unfolding run
run-threshold b [] = refl
run-threshold b ((k, c) ∷ cs) = run-threshold (step b k c).0 cs ∙ threshold-step b k c

-- After any calls of a new breaker, fewer than 2 ^ 63 - 1 of them, Failure reports an open circuit
-- exactly when the failures of its key since that key's last Success, this one included, reach the
-- threshold.
pub opens_at_threshold :
    (threshold : ℤ) (cooldown : Duration) (key : Text) (cs : List (Text × Call)) (now : Time)
    → length cs + 1 < two63
    → (failure (run (new_circuit_breaker threshold cooldown) cs) key now).1
      ≡ leb_ℤ threshold (pos (streak key 0 cs + 1))
opens_at_threshold threshold cooldown key cs now small = rw (
  failure-answer (run b cs) key now,
  failures-run key 0 b cs (unfold item lookup in refl) (omega arith),
  run-threshold b cs,
  bump (streak key 0 cs) (omega (arith, streak-le-length key 0 cs)),
)
  where
    b : CircuitBreaker
    b = new_circuit_breaker threshold cooldown
