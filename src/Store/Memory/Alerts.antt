-- ===== src/Store/Memory/Alerts.antt =====
-- internal/store/memory.go: which alerts RecordResult stores, and how far apart they are.
use mathlib.Core.List.{append-nil, reverse-reverse}
use service_reliability_watc.Common.{
  All-reverse, ◌≡◌, ◌≢◌, refl, subst, ◌↔◌, true, false, Option, none, some, List, [], ◌∷◌, ◌++◌,
  arith, reverse, All, All-append, Option-cases, ◌∙◌, ap, inl, inr, ◌⊎◌,
}
use service_reliability_watc.Common.Int.{ltb_ℤ}
use service_reliability_watc.Common.Text.{Text, text_eq_iff}
use service_reliability_watc.Common.Clock.{Time, Duration, since}
use service_reliability_watc.Domain.Types.{
  State, healthy, degraded, unavailable, CheckResult, Alert,
}
use service_reliability_watc.Store.Types.{dedupe_key}
use service_reliability_watc.Store.Memory.{
  Memory, new_memory, duplicate, append_alert, append_transition, append_result, record_result,
}
use service_reliability_watc.Store.Memory.Frames.{
  to_list, previous, wants_alert, is_fresh, record_result-alerts,
}

-- An alert with this key at this time does not come within the window after `a`.
abbrev pub Clears : Text → Time → Duration → Alert → Type 0
Clears key at window a = a.dedupe_key ≡ key → ltb_ℤ (since at a.created_at) window ≡ false

-- The loop finds a duplicate exactly when some alert is in the way.
duplicate-Clears :
    (key : Text) (at : Time) (window : Duration) (alerts : List Alert)
    → duplicate key at window alerts ≡ false
    → All (Clears key at window) alerts
unfolding duplicate
duplicate-Clears key at window [] h = tt
duplicate-Clears key at window (a ∷ older) h = (
  λ e. ground (arith, text_eq_iff a.dedupe_key key),
  duplicate-Clears key at window older (ground arith),
)

Clears-duplicate :
    (key : Text) (at : Time) (window : Duration) (alerts : List Alert)
    → All (Clears key at window) alerts
    → duplicate key at window alerts ≡ false
unfolding duplicate
Clears-duplicate key at window [] h = refl
Clears-duplicate key at window (a ∷ older) h =
    ground (arith, text_eq_iff a.dedupe_key key, h.0, Clears-duplicate key at window older h.1)

All-unreverse {ℓ κ} : {A : Type ℓ} (P : A → Type κ) (xs : List A) → All P (reverse xs) → All P xs
All-unreverse P xs h = subst (All P) (reverse-reverse xs) (All-reverse P (reverse xs) h)

-- Of two alerts with one key, the later does not come within the window after the earlier.
abbrev pub IsSpaced : Duration → List Alert → Type 0
IsSpaced window [] = Unit
IsSpaced window (a ∷ later) =
    All (λ b. Clears b.dedupe_key b.created_at window a) later × IsSpaced window later

IsSpaced-snoc :
    (window : Duration) (alerts : List Alert) (b : Alert)
    → IsSpaced window alerts
    → All (Clears b.dedupe_key b.created_at window) alerts
    → IsSpaced window (alerts ++ b ∷ [])
IsSpaced-snoc window [] b s c = (tt, tt)
IsSpaced-snoc window (a ∷ later) b s c =
    (All-append _ later (b ∷ []) s.0 (c.0, tt), IsSpaced-snoc window later b s.1 c.1)

module _ {F : Type 0} (m : Memory F) (r : CheckResult) (window : Duration) where
  -- The alert that a result asks for, but for its id.
  abbrev pub IsAlertFor : Alert → Type 0
  IsAlertFor a =
      (a.endpoint_id ≡ r.endpoint_id)
      × (a.state ≡ r.state)
      × (a.dedupe_key ≡ dedupe_key r.endpoint_id r.state)
      × (a.created_at ≡ r.checked_at)
      × (a.message ≡ r.message)

  stored-IsAlertFor : All IsAlertFor (to_list (record_result m r window).1.alert)
  unfolding record_result append_alert
  stored-IsAlertFor = ground arith

  outcome-some :
      (a : Alert)
      → (record_result m r window).1.alert ≡ some a
      → (wants_alert (previous m r) r ≡ true) × (is_fresh m.alerts r window ≡ true)
  unfolding record_result append_alert append_transition append_result
  outcome-some a h = ground arith

  outcome-none :
      (record_result m r window).1.alert ≡ none
      → (wants_alert (previous m r) r ≡ false) ⊎ (is_fresh m.alerts r window ≡ false)
  unfolding record_result append_alert append_transition append_result
  outcome-none h = ground arith

-- What calls for an alert: an outage, a degradation, or a recovery.
abbrev pub CallsForAlert : State → CheckResult → Type 0
CallsForAlert before r =
    (r.state ≡ degraded) ⊎ (r.state ≡ unavailable) ⊎ ((before ≢ healthy) × (r.state ≡ healthy))

wants_alert_iff : (s : State) (r : CheckResult) → (wants_alert s r ≡ true) ↔ CallsForAlert s r
wants_alert_iff s r = (λ h. ground arith, λ h. ground arith)

module _ {F : Type 0} (m : Memory F) (r : CheckResult) (window : Duration) where
  -- No stored alert of the same endpoint and state is closer than the window.
  abbrev pub IsClear : Type 0
  IsClear = All (Clears (dedupe_key r.endpoint_id r.state) r.checked_at window) m.alerts

  fresh-IsClear : is_fresh m.alerts r window ≡ true → IsClear
  fresh-IsClear h =
      All-unreverse _ m.alerts (duplicate-Clears _ _ window (reverse m.alerts) (ground arith))

  IsClear-fresh : IsClear → is_fresh m.alerts r window ≡ true
  IsClear-fresh h = rw (Clears-duplicate _ _ window (reverse m.alerts) (All-reverse _ m.alerts h))

  -- What RecordResult does about an alert: it returns one and stores it after the others, or returns
  -- none and leaves the alerts as they are.
  abbrev pub Raised : Type 0
  Raised =
      (a : Alert) × ((record_result m r window).1.alert ≡ some a)
      × ((record_result m r window).0.alerts ≡ m.alerts ++ a ∷ [])
      × IsAlertFor m r window a

  abbrev pub NotRaised : Type 0
  NotRaised =
      ((record_result m r window).1.alert ≡ none) × ((record_result m r window).0.alerts ≡ m.alerts)

  outcome-IsAlertFor :
      (a : Alert) → (record_result m r window).1.alert ≡ some a → IsAlertFor m r window a
  outcome-IsAlertFor a e =
      let h : All (IsAlertFor m r window) (to_list (some a)) =
        subst (λ o. All (IsAlertFor m r window) (to_list o)) e (stored-IsAlertFor m r window) in
      h.0

  raised-if : CallsForAlert (previous m r) r → IsClear → Raised
  raised-if called clear = elim (Option-cases (record_result m r window).1.alert) [
    | inr (a, e) ↦ (
      a,
      e,
      record_result-alerts m r window ∙ ap (λ o. m.alerts ++ to_list o) e,
      outcome-IsAlertFor a e,
    )
    | inl e ↦
        let wanted = (wants_alert_iff (previous m r) r).1 called in
        let fresh = IsClear-fresh clear in absurd (ground (arith, outcome-none m r window e))
  ]

  raised_only_if :
      (a : Alert)
      → (record_result m r window).1.alert ≡ some a
      → CallsForAlert (previous m r) r × IsClear
  raised_only_if a e =
      let (wanted, fresh) = outcome-some m r window a e in
      ((wants_alert_iff (previous m r) r).0 wanted, fresh-IsClear fresh)

  -- RecordResult returns an alert for the result and stores it after the others exactly where the result
  -- calls for one and no stored alert of the same dedupe key was created later than the window before
  -- the result, be it after the result itself; otherwise it returns none and leaves the alerts as they
  -- are.
  pub alert_exactly_when :
      (Raised ↔ (CallsForAlert (previous m r) r × IsClear))
      × (NotRaised ↔ (¬ (CallsForAlert (previous m r) r × IsClear)))
  alert_exactly_when = (
    (λ (a, e, kept, fields). raised_only_if a e, λ (called, clear). raised-if called clear),
    (
      λ (e, kept) (called, clear).
          let (a, e', kept', fields) = raised-if called clear in cc (e, e'),
      λ h. elim (Option-cases (record_result m r window).1.alert) [
        | inr (a, e) ↦ absurd (h (raised_only_if a e))
        | inl e ↦ (
          e,
          record_result-alerts m r window ∙ ap (λ o. m.alerts ++ to_list o) e ∙ append-nil m.alerts,
        )
      ],
    ),
  )

  IsSpaced-after :
      (o : Option Alert)
      → ((a : Alert) → o ≡ some a → IsClear × IsAlertFor m r window a)
      → IsSpaced window m.alerts
      → IsSpaced window (m.alerts ++ to_list o)
  IsSpaced-after none h s = rw (append-nil m.alerts) s
  IsSpaced-after (some a) h s =
      let (clear, fields) = h a refl in
      IsSpaced-snoc window m.alerts a s (rw (fields.2, fields.3) clear)

  pub record_result-IsSpaced :
      IsSpaced window m.alerts → IsSpaced window (record_result m r window).0.alerts
  record_result-IsSpaced s = rw (record_result-alerts m r window) (
      IsSpaced-after (record_result m r window).1.alert
        (λ a e. (fresh-IsClear (outcome-some m r window a e).1, outcome-IsAlertFor a e)) s)

-- Any sequence of results, recorded with one window.
unfoldable pub record_each : {F : Type 0} → Memory F → Duration → List CheckResult → Memory F
record_each m window [] = m
record_each m window (r ∷ rs) = record_each (record_result m r window).0 window rs

record_each-IsSpaced :
    {F : Type 0} (m : Memory F) (window : Duration) (rs : List CheckResult)
    → IsSpaced window m.alerts
    → IsSpaced window (record_each m window rs).alerts
unfolding record_each
record_each-IsSpaced m window [] s = s
record_each-IsSpaced m window (r ∷ rs) s =
    record_each-IsSpaced (record_result m r window).0 window rs
      (record_result-IsSpaced m r window s)

-- Whatever results are recorded with a dedupe window, and whatever their times, of two stored alerts
-- with one dedupe key the later is never less than the window after the earlier.
pub record_each-new-IsSpaced :
    (F : Type 0) (window : Duration) (rs : List CheckResult)
    → IsSpaced window (record_each (new_memory {F = F}) window rs).alerts
record_each-new-IsSpaced F window rs = record_each-IsSpaced (new_memory {F = F}) window rs tt
