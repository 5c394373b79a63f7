-- ===== src/Resilience/Circuit.antt =====
-- internal/resilience/circuit.go: a circuit breaker per endpoint. Each method holds the mutex
-- throughout, so it is one function on the state. `items` holds pointers that never leave the
-- breaker: a write through one is an `insert` at its key.
pub mod Spec
pub mod Runs
pub mod Probe
pub mod Threshold
use service_reliability_watc.Common.{
  Bool, true, false, not, ◌&&◌, ◌||◌, Option, none, some, [], if◌then◌else◌,
}
use service_reliability_watc.Common.Int.{ℤ, pos, ◌+ℤ◌, int64, leb_ℤ, ltb_ℤ}
use service_reliability_watc.Common.Text.{Text}
use service_reliability_watc.Common.Assoc.{Assoc, lookup, insert, delete}
use service_reliability_watc.Common.Clock.{Time, Duration, zero_time, is_zero, since}

pub record Circuit : Type 0 where
  pub failures : ℤ
  pub opened_at : Time
  pub half_open : Bool

pub record CircuitBreaker : Type 0 where
  pub threshold : ℤ
  pub cooldown : Duration
  pub items : Assoc Circuit

-- NewCircuitBreaker.
abbrev pub new_circuit_breaker : ℤ → Duration → CircuitBreaker
new_circuit_breaker threshold cooldown = record {
  threshold = threshold;
  cooldown = cooldown;
  items = [];
}

-- `&circuit{}`.
abbrev pub new_circuit : Circuit
new_circuit = record { failures = pos 0; opened_at = zero_time; half_open = false }

abbrev pub circuit_or_new : Option Circuit → Circuit
circuit_or_new none = new_circuit
circuit_or_new (some c) = c

-- `b.item(key)` gets or creates; `put` is a write through the pointer that it returns.
unfoldable pub item : CircuitBreaker → Text → Circuit
item b key = circuit_or_new (lookup key b.items)

abbrev pub put : CircuitBreaker → Text → Circuit → CircuitBreaker
put b key c = record b { items = insert key c b.items }

unfoldable pub allow : CircuitBreaker → Text → Time → CircuitBreaker × Bool
allow b key now =
    let c = item b key in
    if is_zero c.opened_at
    then (put b key c, true)
    else if ltb_ℤ (since now c.opened_at) b.cooldown || c.half_open
    then (put b key c, false)
    else (put b key (record c { half_open = true }), true)

unfoldable pub success : CircuitBreaker → Text → CircuitBreaker
success b key = record b { items = delete key b.items }

unfoldable pub failure : CircuitBreaker → Text → Time → CircuitBreaker × Bool
failure b key now =
    let c = item b key in
    let failures = int64 (c.failures +ℤ pos 1) in
    if leb_ℤ b.threshold failures
    then (put b key (record { failures = failures; opened_at = now; half_open = false }), true)
    else (
      put b key (record { failures = failures; opened_at = c.opened_at; half_open = false }),
      false,
    )

unfoldable pub is_open : CircuitBreaker → Text → Time → Bool
is_open b key now = elim (lookup key b.items) [
  | none ↦ false
  | some c ↦ not (is_zero c.opened_at) && ltb_ℤ (since now c.opened_at) b.cooldown
]
