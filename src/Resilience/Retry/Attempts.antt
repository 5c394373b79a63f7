-- ===== src/Resilience/Retry/Attempts.antt =====
-- internal/resilience/retry.go: how many attempts Retry makes, and which result it returns.
use native.Mathlib.Numerals.{add-one}
use service_reliability_watc.Common.{
  ℕ, zero, suc, ◌+◌, ◌≤◌, ◌<◌, ◌≡◌, refl, subst, ap, ◌≢◌, ◌⊎◌, inl, inr, true, arith, Bool-cases,
  ◌==◌, ==_iff,
}
use service_reliability_watc.Common.Int.{pos}
use service_reliability_watc.Common.Text.{Text}
use service_reliability_watc.Common.Float.{Float64}
use service_reliability_watc.Common.Clock.{Duration}
use service_reliability_watc.Domain.Types.{unavailable, state_eq, state_eq_iff, CheckResult}
use service_reliability_watc.Resilience.Retry.{
  Wait, elapsed, cancelled, World, retry_delay, no_result, counted, abandoned, retry_loop, retry,
}

module _ {F : Type 0} (fl : Float64 F) (w : World F) (base_delay max_delay : Duration) where
  open w use {check, wait, random}

  -- What the select of an attempt sees.
  abbrev pub waited : ℕ → Wait
  waited k = wait k (retry_delay fl (random k) k base_delay max_delay)

  -- The end of a run of attempts from `k` on.
  pub data Ends (retries : ℕ) (k : ℕ) (r : CheckResult) : Type 0 where
    -- The check did not find the endpoint unavailable.
    settles : (check k).state ≢ unavailable → r ≡ counted (check k) k → Ends retries k r
    -- No attempt is left.
    exhausts :
        (check k).state ≡ unavailable → k ≡ retries → r ≡ counted (check k) k → Ends retries k r
    -- The context was done during the wait.
    gives_up :
        (e : Text)
        → (check k).state ≡ unavailable
        → k < retries
        → waited k ≡ cancelled e
        → r ≡ abandoned (counted (check k) k) e
        → Ends retries k r

  -- Attempt `j` was made, failed, and was followed by a full wait.
  abbrev pub Failed : ℕ → Type 0
  Failed j = ((check j).state ≡ unavailable) × (waited j ≡ elapsed)

  -- The attempts from `a` on, up to the one that ends the run.
  abbrev Outcome : ℕ → ℕ → CheckResult → Type 0
  Outcome retries a r =
      (k : ℕ) × (a ≤ k) × (k ≤ retries) × ((j : ℕ) → a ≤ j → j < k → Failed j) × Ends retries k r

  here : (retries k : ℕ) (r : CheckResult) → k ≤ retries → Ends retries k r → Outcome retries k r
  here retries k r h e = (k, omega arith, h, λ j p q. absurd (omega arith), e)

  later :
      (retries a : ℕ) (r : CheckResult) → Failed a → Outcome retries (a + 1) r → Outcome retries a r
  later retries a r f (k, lo, hi, before, e) = (k, omega arith, hi, λ j p q. earlier j p q, e)
    where
      earlier : (j : ℕ) → a ≤ j → j < k → Failed j
      earlier j p q = elim (Bool-cases (a == j)) [
        | inl same ↦ subst Failed ((==_iff a j).0 same) f
        | inr differs ↦ before j (ground arith) q
      ]

  Wait-cases : (x : Wait) → (x ≡ elapsed) ⊎ ((e : Text) × (x ≡ cancelled e))
  Wait-cases elapsed = inl refl
  Wait-cases (cancelled e) = inr (e, refl)

  abbrev loop : ℕ → ℕ → ℕ → CheckResult → CheckResult
  loop = retry_loop fl w base_delay max_delay

  -- One round: it ends the run, or the rest of the loop does.
  round-Outcome :
      (retries rounds a : ℕ) (r : CheckResult)
      → a ≤ retries
      → (a ≢ retries → Outcome retries (a + 1) (loop retries rounds (a + 1) (counted (check a) a)))
      → Outcome retries a (loop retries (suc rounds) a r)
  unfolding retry_loop
  round-Outcome retries rounds a r h rest =
      elim (Bool-cases (state_eq (check a).state unavailable)) [
        | inr fine ↦ here retries a _ h (
            settles (ground (arith, state_eq_iff (check a).state unavailable))
              (rw (fine, retry_loop)))
        | inl failed ↦ elim (Bool-cases (a == retries)) [
          | inl last ↦
              here retries a _ h
                (exhausts (down failed) ((==_iff a retries).0 last) (rw (last, failed, retry_loop)))
          | inr more ↦ elim (Wait-cases (waited a)) [
            | inr (e, q) ↦
                here retries a _ h
                  (gives_up e (down failed) (ground arith) q (rw (more, failed, q, retry_loop)))
            | inl q ↦
                rw (more, failed, q, retry_loop)
                  (later retries a _ (down failed, q) (rest (ground arith)))
          ]
        ]
      ]
    where
      down : state_eq (check a).state unavailable ≡ true → (check a).state ≡ unavailable
      down = (state_eq_iff (check a).state unavailable).0

  loop-Outcome :
      (retries rounds a : ℕ) (r : CheckResult)
      → a + rounds ≡ retries
      → Outcome retries a (loop retries (suc rounds) a r)
  loop-Outcome retries zero a r h =
      round-Outcome retries zero a r (omega arith) (λ p. absurd (omega arith))
  loop-Outcome retries (suc rounds) a r h =
      round-Outcome retries (suc rounds) a r (omega arith)
        (λ p. loop-Outcome retries rounds (a + 1) (counted (check a) a) (omega arith))

  -- With `retries` not negative, Retry returns after some attempt `k`, at most the last one. Every
  -- attempt before it found the endpoint unavailable and was followed by a full wait, and attempt `k`
  -- settled the matter, was the last, or was followed by a wait that the context ended.
  pub retry_outcome :
      (retries : ℕ)
      → (k : ℕ) × (k ≤ retries)
        × ((j : ℕ) → j < k → Failed j)
        × Ends retries k (retry fl w base_delay max_delay (pos retries))
  unfolding retry
  retry_outcome retries =
      let (k, _, hi, before, e) = loop-Outcome retries retries 0 no_result (omega arith) in
      (k, hi, λ j q. before j (omega arith) q, rw add-one e)

  -- With `retries` not negative, Retry's result counts at least one attempt, and at most one more than
  -- `retries`.
  retry-attempt_count :
      (retries : ℕ)
      → (n : ℕ) × ((retry fl w base_delay max_delay (pos retries)).attempt_count ≡ pos n)
        × (0 < n)
        × (n ≤ retries + 1)
  retry-attempt_count retries =
      let (k, hi, _, e) = retry_outcome retries in
      (k + 1, counted_by k _ e, omega arith, omega arith)
    where
      counted_by : (k : ℕ) (r : CheckResult) → Ends retries k r → r.attempt_count ≡ pos (k + 1)
      counted_by k r (settles _ e) = ap (λ x. x.attempt_count) e
      counted_by k r (exhausts _ _ e) = ap (λ x. x.attempt_count) e
      counted_by k r (gives_up _ _ _ _ e) = ap (λ x. x.attempt_count) e
