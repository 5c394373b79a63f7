-- ===== src/Resilience/Retry.antt =====
-- internal/resilience/retry.go: Retry and retryDelay.
--
-- The world answers attempt by attempt: what `check(ctx)` returns, how the `select` on the timer and
-- the context ends, and the random number of the jitter. Each attempt asks each of them at most
-- once, so an answer depends on the number of the attempt (and the wait, on the delay).
pub mod Attempts
pub mod Backoff
use service_reliability_watc.Common.{
  ℕ, zero, suc, ◌+◌, ◌*◌, Bool, true, false, not, ◌&&◌, ◌||◌, ◌++◌, [], if◌then◌else◌, ◌==◌,
}
use service_reliability_watc.Common.Int.{
  ℤ, pos, negsuc, ◌+ℤ◌, int64, leb_ℤ, ltb_ℤ, half, pos_part, neg_part, sub_ℕ,
}
use service_reliability_watc.Common.Text.{Text, codes}
use service_reliability_watc.Common.Float.{Float64}
use service_reliability_watc.Common.Clock.{Duration, zero_time}
use service_reliability_watc.Domain.Types.{State, unset, unavailable, state_eq, CheckResult}
use mathlib.Core.Option.{none}

-- How the select ends: the timer fires, or the context is done, with the text of `ctx.Err()`.
pub data Wait : Type 0 where
  elapsed : Wait
  cancelled : Text → Wait

pub record World (F : Type 0) : Type 0 where
  pub check : ℕ → CheckResult
  pub wait : ℕ → Duration → Wait
  pub random : ℕ → F

-- `delay *= 2`.
abbrev pub doubled : Duration → Duration
doubled (pos n) = int64 (pos (2 * n))
doubled (negsuc n) = int64 (negsuc (2 * n + 1))

-- `for range attempt`, with its break.
backoff_loop : ℕ → Duration → Duration → Duration
backoff_loop zero max_delay delay = delay
backoff_loop (suc rounds) max_delay delay =
    let rest = backoff_loop rounds max_delay (doubled delay) in
    if leb_ℤ (half max_delay) delay && ltb_ℤ (pos 0) max_delay then max_delay else rest

-- retryDelay up to the jitter.
unfoldable pub backoff : ℕ → Duration → Duration → Duration
unfolding backoff_loop
backoff attempt base_delay max_delay =
    let delay = backoff_loop attempt max_delay base_delay in
    if ltb_ℤ (pos 0) max_delay && ltb_ℤ max_delay delay then max_delay else delay

module _ {F : Type 0} (fl : Float64 F) where
  open fl use {decimal, of_int, to_int, plus, times}

  -- The last two lines of retryDelay.
  unfoldable pub jittered : F → Duration → Duration
  jittered random delay =
      to_int (times (of_int delay) (plus (decimal 8 1) (times random (decimal 4 1))))

  unfoldable pub retry_delay : F → ℕ → Duration → Duration → Duration
  retry_delay random attempt base_delay max_delay =
      if leb_ℤ base_delay (pos 0)
      then pos 0
      else jittered random (backoff attempt base_delay max_delay)

-- `var result domain.CheckResult`.
abbrev pub no_result : CheckResult
no_result = record {
  id = pos 0;
  endpoint_id = [];
  checked_at = zero_time;
  state = unset;
  latency = pos 0;
  http_status = pos 0;
  dns_resolved = false;
  tls_valid = none;
  tls_expires_at = none;
  certificate_days = none;
  attempt_count = pos 0;
  circuit_breaker_open = false;
  message = [];
  error = [];
}

abbrev pub counted : CheckResult → ℕ → CheckResult
counted r attempt = record r { attempt_count = pos (attempt + 1) }

-- The result of a wait that the context ends.
abbrev pub abandoned : CheckResult → Text → CheckResult
abandoned r e = record r { error = e; message = codes "retry cancelled: " ++ e }

module _ {F : Type 0} (fl : Float64 F) (w : World F) (base_delay max_delay : Duration) where
  open w use {check, wait, random}

  -- `for attempt := …; attempt <= retries; attempt++`, with `rounds` rounds left. The first
  -- argument is `retries`, the last the `result` so far.
  retry_loop : ℕ → ℕ → ℕ → CheckResult → CheckResult
  retry_loop retries zero attempt result = result
  retry_loop retries (suc rounds) attempt result =
      let now = counted (check attempt) attempt in
      let rest = retry_loop retries rounds (attempt + 1) now in
      if not (state_eq now.state unavailable) || attempt == retries
      then now
      else elim (wait attempt (retry_delay fl (random attempt) attempt base_delay max_delay)) [
        | cancelled e ↦ abandoned now e
        | elapsed ↦ rest
      ]

  -- With a negative `retries` the loop does not run at all.
  unfoldable pub retry : ℤ → CheckResult
  unfolding retry_loop
  retry (pos retries) = retry_loop retries (retries + 1) 0 no_result
  retry (negsuc n) = no_result
