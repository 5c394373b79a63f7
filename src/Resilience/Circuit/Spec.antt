-- ===== src/Resilience/Circuit/Spec.antt =====
-- internal/resilience/circuit.go against a state machine for each key.
use service_reliability_watc.Common.{◌≡◌, refl, Bool, true, false, arith, if◌then◌else◌, ◌≢◌}
use service_reliability_watc.Common.Int.{ℤ, pos, ◌+ℤ◌, int64, leb_ℤ, ltb_ℤ}
use service_reliability_watc.Common.Text.{Text, text_eq, text_eq_iff, text_eq_refl}
use service_reliability_watc.Common.Assoc.{lookup-insert, lookup-delete}
use service_reliability_watc.Common.Clock.{Time, Duration, is_zero, since}
use service_reliability_watc.Resilience.Circuit.{
  Circuit, CircuitBreaker, new_circuit, item, put, allow, success, failure, is_open,
}

-- What a key's circuit is doing.
pub data Phase : Type 0 where
  closed : Phase
  open_since : Time → Phase
  probing : Time → Phase

-- The abstract circuit: the failures in a row, and the phase.
pub record Spec : Type 0 where
  pub failures : ℤ
  pub phase : Phase

abbrev pub phase_of : Circuit → Phase
phase_of c =
    if is_zero c.opened_at
    then closed
    else if c.half_open
    then probing c.opened_at
    else open_since c.opened_at

abbrev pub view : CircuitBreaker → Text → Spec
view b key = let c = item b key in record { failures = c.failures; phase = phase_of c }

-- A call of the breaker, on some key.
pub data Call : Type 0 where
  allows : Time → Call
  succeeds : Call
  fails : Time → Call

-- The answer of Success, which returns nothing, is taken as true.
abbrev pub step : CircuitBreaker → Text → Call → CircuitBreaker × Bool
step b key (allows now) = allow b key now
step b key succeeds = (success b key, true)
step b key (fails now) = failure b key now

-- The machine: a closed circuit lets checks through, an open one waits for the cooldown and then
-- lets one probe through, and a probing one lets nothing through.
abbrev pub spec_allow : Duration → Phase → Time → Phase × Bool
spec_allow cooldown closed now = (closed, true)
spec_allow cooldown (open_since t) now =
    if ltb_ℤ (since now t) cooldown then (open_since t, false) else (probing t, true)
spec_allow cooldown (probing t) now = (probing t, false)

-- A failure that does not reach the threshold leaves an open circuit open.
abbrev pub settled : Phase → Phase
settled closed = closed
settled (open_since t) = open_since t
settled (probing t) = open_since t

abbrev pub spec_step : ℤ → Duration → Spec → Call → Spec × Bool
spec_step threshold cooldown s (allows now) =
    let (p, answer) = spec_allow cooldown s.phase now in (record s { phase = p }, answer)
spec_step threshold cooldown s succeeds = (record { failures = pos 0; phase = closed }, true)
spec_step threshold cooldown s (fails now) =
    let n = int64 (s.failures +ℤ pos 1) in
    if leb_ℤ threshold n
    then (record { failures = n; phase = open_since now }, true)
    else (record { failures = n; phase = settled s.phase }, false)

-- The clock never reads the zero time.
abbrev pub IsReading : Call → Type 0
IsReading (allows now) = Unit
IsReading succeeds = Unit
IsReading (fails now) = is_zero now ≡ false

item-put : (b : CircuitBreaker) (key : Text) (c : Circuit) → item (put b key c) key ≡ c
unfolding item
item-put b key c = rw (lookup-insert key key c b.items, text_eq_refl key)

item-put_other :
    (b : CircuitBreaker) (key other : Text) (c : Circuit)
    → text_eq key other ≡ false
    → item (put b key c) other ≡ item b other
unfolding item
item-put_other b key other c h = rw (lookup-insert key other c b.items, h)

item-success : (b : CircuitBreaker) (key : Text) → item (success b key) key ≡ new_circuit
unfolding item success
item-success b key = rw (lookup-delete key key b.items, text_eq_refl key)

item-success_other :
    (b : CircuitBreaker) (key other : Text)
    → text_eq key other ≡ false
    → item (success b key) other ≡ item b other
unfolding item success
item-success_other b key other h = rw (lookup-delete key other b.items, h)

-- Every call on a key, but for a Failure at the zero time, takes that key's view through one step of
-- the machine, with its answer.
pub step-spec_step :
    (b : CircuitBreaker) (key : Text) (c : Call)
    → IsReading c
    → (let (b', answer) = step b key c in (view b' key, answer))
      ≡ spec_step b.threshold b.cooldown (view b key) c
unfolding allow failure
step-spec_step b key (allows now) h =
    ground (
      arith,
      item-put b key (item b key),
      item-put b key (record (item b key) { half_open = true }),
    )
step-spec_step b key succeeds h = ground (arith, item-success b key)
step-spec_step b key (fails now) h =
    let n = int64 ((item b key).failures +ℤ pos 1) in
    ground (
      arith,
      item-put b key (record { failures = n; opened_at = now; half_open = false }),
      item-put b key
          (record { failures = n; opened_at = (item b key).opened_at; half_open = false }),
    )

-- Failure counts one more failure, whatever the clock reads.
pub failures-failure :
    (b : CircuitBreaker) (key : Text) (now : Time)
    → (view (failure b key now).0 key).failures ≡ int64 ((view b key).failures +ℤ pos 1)
unfolding failure
failures-failure b key now =
    let n = int64 ((item b key).failures +ℤ pos 1) in
    ground (
      arith,
      item-put b key (record { failures = n; opened_at = now; half_open = false }),
      item-put b key
          (record { failures = n; opened_at = (item b key).opened_at; half_open = false }),
    )

-- Failure ends a probe, whatever the clock reads.
pub half_open-failure :
    (b : CircuitBreaker) (key : Text) (now : Time)
    → (item (failure b key now).0 key).half_open ≡ false
unfolding failure
half_open-failure b key now =
    let n = int64 ((item b key).failures +ℤ pos 1) in
    ground (
      arith,
      item-put b key (record { failures = n; opened_at = now; half_open = false }),
      item-put b key
          (record { failures = n; opened_at = (item b key).opened_at; half_open = false }),
    )

-- What a call on `key` leaves alone.
abbrev Untouched : CircuitBreaker → Text → CircuitBreaker → Type 0
Untouched b other b' =
    (item b' other ≡ item b other) × (b'.threshold ≡ b.threshold) × (b'.cooldown ≡ b.cooldown)

step-Untouched :
    (b : CircuitBreaker) (key other : Text) (c : Call)
    → text_eq key other ≡ false
    → Untouched b other (step b key c).0
unfolding allow failure success
step-Untouched b key other (allows now) h = ground (
  arith,
  item-put_other b key other (item b key) h,
  item-put_other b key other (record (item b key) { half_open = true }) h,
)
step-Untouched b key other succeeds h = (item-success_other b key other h, refl, refl)
step-Untouched b key other (fails now) h =
    let n = int64 ((item b key).failures +ℤ pos 1) in
    ground (
      arith,
      item-put_other b key other (record { failures = n; opened_at = now; half_open = false }) h,
      item-put_other b key other
          (record { failures = n; opened_at = (item b key).opened_at; half_open = false }) h,
    )

-- A call on one key leaves the view of every other key, and the settings, as they were.
pub step_frame :
    (b : CircuitBreaker) (key other : Text) (c : Call)
    → key ≢ other
    → let b' = (step b key c).0 in
      (view b' other ≡ view b other) × (b'.threshold ≡ b.threshold) × (b'.cooldown ≡ b.cooldown)
step_frame b key other c h =
    let (same, t, d) = step-Untouched b key other c (ground (arith, text_eq_iff key other)) in
    (rw same, t, d)

-- IsOpen answers whether the phase is open or probing and the cooldown has not passed.
pub is_open_lem :
    (b : CircuitBreaker) (key : Text) (now : Time)
    → is_open b key now ≡ (elim (view b key).phase [
      | closed ↦ false
      | open_since t ↦ ltb_ℤ (since now t) b.cooldown
      | probing t ↦ ltb_ℤ (since now t) b.cooldown
    ])
unfolding is_open item
is_open_lem b key now = ground arith
