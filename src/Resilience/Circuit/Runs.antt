-- ===== src/Resilience/Circuit/Runs.antt =====
-- internal/resilience/circuit.go: sequences of calls on any keys.
use service_reliability_watc.Common.{◌≡◌, refl, false, List, [], ◌∷◌, arith, ◌≢◌}
use service_reliability_watc.Common.Text.{Text, text_eq, text_eq_iff}
use service_reliability_watc.Resilience.Circuit.{CircuitBreaker, allow, success, failure}
use service_reliability_watc.Resilience.Circuit.Spec.{
  view, Call, allows, succeeds, fails, step, step_frame,
}

unfoldable pub run : CircuitBreaker → List (Text × Call) → CircuitBreaker
run b [] = b
run b ((k, c) ∷ cs) = run (step b k c).0 cs

other_key : {k key : Text} → text_eq k key ≡ false → k ≢ key
other_key {k} {key} h e = ground (arith, text_eq_iff k key)

pub view-step_other :
    (b : CircuitBreaker) (k key : Text) (c : Call)
    → text_eq k key ≡ false
    → view (step b k c).0 key ≡ view b key
view-step_other b k key c h = (step_frame b k key c (other_key h)).0

-- On its own key, Allow is the machine's.
pub threshold-step :
    (b : CircuitBreaker) (k : Text) (c : Call) → (step b k c).0.threshold ≡ b.threshold
unfolding allow failure success
threshold-step b k (allows now) = ground arith
threshold-step b k succeeds = refl
threshold-step b k (fails now) = ground arith

pub cooldown-step :
    (b : CircuitBreaker) (k : Text) (c : Call) → (step b k c).0.cooldown ≡ b.cooldown
unfolding allow failure success
cooldown-step b k (allows now) = ground arith
cooldown-step b k succeeds = refl
cooldown-step b k (fails now) = ground arith
