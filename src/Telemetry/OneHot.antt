-- ===== src/Telemetry/OneHot.antt =====
-- internal/telemetry/metrics.go: the gauge of an endpoint's state, which its help text calls one-hot.
use service_reliability_watc.Common.{
  ℕ, ◌≡◌, ◌≢◌, refl, ap, All, true, false, Bool-cases, inl, inr, ◌∙◌, Option, none, some, List, [],
  ◌∷◌, arith, if◌then◌else◌,
}
use service_reliability_watc.Common.Text.{Text, text_eq}
use service_reliability_watc.Common.Assoc.{lookup}
use service_reliability_watc.Domain.Types.{
  State, healthy, degraded, unavailable, maintenance, unknown, unset, state_eq, state_name,
}
use service_reliability_watc.Monitor.Types.{Event, observed, alerted, queue_dropped, storage_error}
use service_reliability_watc.Telemetry.Labels.{Vec, get, get-set}
use service_reliability_watc.Telemetry.{
  Metrics, new_metrics, zero_or_one, set_states, gauge_states, observe, count_alert, notify,
  notify_all,
}

-- The state of the newest observation of the endpoint.
abbrev pub newest : {F : Type 0} → Text → Option State → List (Event F) → Option State
newest id s [] = s
newest id s (observed e r ∷ xs) = newest id (if text_eq e.id id then some r.state else s) xs
newest id s (alerted i t ∷ xs) = newest id s xs
newest id s (queue_dropped ∷ xs) = newest id s xs
newest id s (storage_error ∷ xs) = newest id s xs

-- What the gauge of a state shows for it.
abbrev pub shown : State → Option State → Option ℕ
shown s none = none
shown s (some current) = some (zero_or_one (state_eq s current))

get-set_states :
    (id key : Text) (current s : State) (v : Vec ℕ)
    → s ≢ unset
    → get key (state_name s) (set_states id current gauge_states v) ≡ (
        if text_eq id key
        then some (zero_or_one (state_eq s current))
        else get key (state_name s) v)
unfolding set_states state_name text_eq
get-set_states id key current healthy v h = simp get-set (ground arith)
get-set_states id key current degraded v h = simp get-set (ground arith)
get-set_states id key current unavailable v h = simp get-set (ground arith)
get-set_states id key current maintenance v h = simp get-set (ground arith)
get-set_states id key current unknown v h = simp get-set (ground arith)
get-set_states id key current unset v h = absurd (h refl)

module _ {F : Type 0} (id : Text) (s : State) (h : s ≢ unset) where
  notify-gauge :
      (m : Metrics) (o : Option State) (x : Event F)
      → get id (state_name s) m.state ≡ shown s o
      → get id (state_name s) (notify m x).state ≡ shown s (newest id o (x ∷ []))
  unfolding notify observe count_alert
  notify-gauge m o (observed e r) k = get-set_states e.id id r.state s m.state h ∙ ground (arith, k)
  notify-gauge m o (alerted i t) k = k
  notify-gauge m o queue_dropped k = k
  notify-gauge m o storage_error k = k

  newest-cons :
      (o : Option State) (x : Event F) (xs : List (Event F))
      → newest id o (x ∷ xs) ≡ newest id (newest id o (x ∷ [])) xs
  newest-cons o (observed e r) xs = refl
  newest-cons o (alerted i t) xs = refl
  newest-cons o queue_dropped xs = refl
  newest-cons o storage_error xs = refl

  notify_all-gauge :
      (m : Metrics) (o : Option State) (xs : List (Event F))
      → get id (state_name s) m.state ≡ shown s o
      → get id (state_name s) (notify_all m xs).state ≡ shown s (newest id o xs)
  unfolding notify_all
  notify_all-gauge m o [] k = k
  notify_all-gauge m o (x ∷ xs) k =
      rw (newest-cons o x xs)
        (notify_all-gauge (notify m x) (newest id o (x ∷ [])) xs (notify-gauge m o x k))

  state_gauge :
      (xs : List (Event F))
      → get id (state_name s) (notify_all new_metrics xs).state ≡ shown s (newest id none xs)
  unfolding get lookup
  state_gauge xs = notify_all-gauge new_metrics none xs refl

-- Every observed result has a state, which is not the empty text.
abbrev pub HasState : {F : Type 0} → Event F → Type 0
HasState (observed e r) = r.state ≢ unset
HasState (alerted i t) = Unit
HasState queue_dropped = Unit
HasState storage_error = Unit

-- The gauges of an endpoint that was last observed in the state, if any.
abbrev pub IsOneHot : Text → Metrics → Option State → Type 0
IsOneHot id m none = (s : State) → s ≢ unset → get id (state_name s) m.state ≡ none
IsOneHot id m (some current) =
    (current ≢ unset)
    × (get id (state_name current) m.state ≡ some 1)
    × ((s : State) → s ≢ unset → s ≢ current → get id (state_name s) m.state ≡ some 0)

abbrev IsSetIfAny : Option State → Type 0
IsSetIfAny none = Unit
IsSetIfAny (some s) = s ≢ unset

newest-IsSetIfAny :
    {F : Type 0} (id : Text) (o : Option State) (xs : List (Event F))
    → All HasState xs
    → IsSetIfAny o
    → IsSetIfAny (newest id o xs)
newest-IsSetIfAny id o [] h k = k
newest-IsSetIfAny id o (observed e r ∷ xs) h k = elim (Bool-cases (text_eq e.id id)) [
  | inl own ↦ rw own (newest-IsSetIfAny id (some r.state) xs h.1 h.0)
  | inr other ↦ rw other (newest-IsSetIfAny id o xs h.1 k)
]
newest-IsSetIfAny id o (alerted i t ∷ xs) h k = newest-IsSetIfAny id o xs h.1 k
newest-IsSetIfAny id o (queue_dropped ∷ xs) h k = newest-IsSetIfAny id o xs h.1 k
newest-IsSetIfAny id o (storage_error ∷ xs) h k = newest-IsSetIfAny id o xs h.1 k

state_eq_refl : (s : State) → state_eq s s ≡ true
state_eq_refl s = ground arith

state_eq-other : (s current : State) → s ≢ current → state_eq s current ≡ false
state_eq-other s current h = ground arith

shown-IsOneHot :
    (id : Text) (m : Metrics) (o : Option State)
    → IsSetIfAny o
    → ((s : State) → s ≢ unset → get id (state_name s) m.state ≡ shown s o)
    → IsOneHot id m o
shown-IsOneHot id m none k h = h
shown-IsOneHot id m (some current) k h = (
  k,
  h current k ∙ ap (λ b. some (zero_or_one b)) (state_eq_refl current),
  λ s set other. h s set ∙ ap (λ b. some (zero_or_one b)) (state_eq-other s current other),
)

-- After any calls of the observer in which every observed result has a state other than the empty text,
-- the five state gauges of an endpoint are one-hot: that of the state observed last for it shows 1 and
-- the other four show 0; before its first observation it has none of them.
pub state_gauge_lem :
    {F : Type 0} (id : Text) (xs : List (Event F))
    → All HasState xs
    → IsOneHot id (notify_all new_metrics xs) (newest id none xs)
state_gauge_lem id xs h =
    shown-IsOneHot id (notify_all new_metrics xs) (newest id none xs)
      (newest-IsSetIfAny id none xs h tt) (λ s set. state_gauge id s set xs)
