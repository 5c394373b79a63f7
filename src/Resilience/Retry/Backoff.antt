-- ===== src/Resilience/Retry/Backoff.antt =====
-- internal/resilience/retry.go: the delay before the jitter, against base * 2 ^ attempt and the cap.
use native.Mathlib.Nat.{pow-suc}
use service_reliability_watc.Common.{
  ℕ, zero, suc, ◌+◌, ◌*◌, ◌/◌, ◌^◌, ◌≤◌, ◌<◌, ◌≡◌, refl, ap, inl, inr, true, false, arith, min,
  Bool-cases, leb, ltb,
}
use service_reliability_watc.Common.Int.{ℤ, pos, int64_id, two63, ltb_ℤ}
use service_reliability_watc.Resilience.Retry.{doubled, backoff_loop, backoff}

double_power : (d r : ℕ) → d * 2 ^ suc r ≡ 2 * d * 2 ^ r
double_power d r = rw pow-suc (omega arith)

power_pos : (d r : ℕ) → d ≤ d * 2 ^ r
power_pos d zero = omega arith
power_pos d (suc r) = omega (arith, double_power d r, power_pos (2 * d) r)

doubled-pos : (d : ℕ) → 2 * d < two63 → doubled (pos d) ≡ pos (2 * d)
doubled-pos d h = int64_id (pos (2 * d)) (omega arith)

-- A delay that stands for `n` doublings of `d` under the cap `m`.
record IsCapped (m n d x : ℕ) : Type 0 where
  enough : min (d * 2 ^ n) m ≤ x
  close : x ≤ d * 2 ^ n + 1
  capped : d ≤ m → x ≤ m

reached : (m d : ℕ) → leb (m / 2) d ≡ true → m ≤ 2 * d + 1
reached m d h = ground arith

loop-IsCapped :
    (m n d : ℕ)
    → 0 < m
    → m < two63
    → (x : ℕ) × (backoff_loop n (pos m) (pos d) ≡ pos x) × IsCapped m n d x
unfolding backoff_loop
loop-IsCapped m zero d h k =
    (d, refl, record { enough = omega arith; close = omega arith; capped = λ p. p })
loop-IsCapped m (suc n) d h k = elim (Bool-cases (leb (m / 2) d)) [
  | inl high ↦ (
    m,
    ground arith,
    record {
      enough = omega arith;
      close = omega (arith, reached m d high, double_power d n, power_pos (2 * d) n);
      capped = λ p. omega arith;
    },
  )
  | inr low ↦
      let (x, e, c) = loop-IsCapped m n (2 * d) h k in
      (
        x,
        ground (arith, doubled-pos d, e),
        record {
          enough = omega (arith, c.enough, double_power d n);
          close = omega (arith, c.close, double_power d n);
          capped = λ p. c.capped (ground arith);
        },
      )
]

-- With a positive base delay and cap, the delay of attempt `n` before the jitter never exceeds the
-- cap, is at least the smaller of base * 2 ^ n and the cap, and is at most one nanosecond above
-- base * 2 ^ n; nothing overflows on the way.
pub backoff_bounds :
    (n base cap : ℕ)
    → 0 < base
    → 0 < cap
    → cap < two63
    → (x : ℕ) × (backoff n (pos base) (pos cap) ≡ pos x)
      × (x ≤ cap)
      × (min (base * 2 ^ n) cap ≤ x)
      × (x ≤ base * 2 ^ n + 1)
unfolding backoff
backoff_bounds n base cap hb hc small = elim (Bool-cases (ltb cap l.0)) [
  | inl over ↦ (cap, ground (arith, l.1), omega arith, omega arith, ground (arith, l.2.close))
  | inr fits ↦ (l.0, ground (arith, l.1), ground arith, l.2.enough, l.2.close)
]
  where
    l : (x : ℕ) × (backoff_loop n (pos cap) (pos base) ≡ pos x) × IsCapped cap n base x
    l = loop-IsCapped cap n base hc small

loop_uncapped :
    (n d : ℕ) (cap : ℤ)
    → ltb_ℤ (pos 0) cap ≡ false
    → d * 2 ^ n < two63
    → backoff_loop n cap (pos d) ≡ pos (d * 2 ^ n)
unfolding backoff_loop
loop_uncapped zero d cap h small = ap pos (omega arith)
loop_uncapped (suc n) d cap h small =
    ground
      (arith, doubled-pos d, double_power d n, power_pos (2 * d) n, loop_uncapped n (2 * d) cap h)

-- A cap that is not positive is no cap: the delay is base * 2 ^ n, as long as that is an int64.
backoff_uncapped :
    (n base : ℕ) (cap : ℤ)
    → ltb_ℤ (pos 0) cap ≡ false
    → base * 2 ^ n < two63
    → backoff n (pos base) cap ≡ pos (base * 2 ^ n)
unfolding backoff
backoff_uncapped n base cap h small = rw (h, loop_uncapped n base cap h small)
