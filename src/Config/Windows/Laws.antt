-- ===== src/Config/Windows/Laws.antt =====
-- internal/config/config.go: when InMaintenance holds.
use service_reliability_watc.Common.{◌≡◌, refl, ◌↔◌, ◌⊎◌, true, List, [], ◌∷◌, arith}
use service_reliability_watc.Common.Int.{◌≤ℤ◌, ◌<ℤ◌}
use service_reliability_watc.Common.Text.{Text, text_eq_iff}
use service_reliability_watc.Common.Clock.{Time}
use service_reliability_watc.Config.Types.{MaintenanceWindow, Config}
use service_reliability_watc.Config.Validation.{contains}
use service_reliability_watc.Config.Windows.{in_any_window, is_empty, in_maintenance}

-- One of the ids.
abbrev pub Among : Text → List Text → Type 0
Among id [] = ⊥
Among id (x ∷ xs) = (x ≡ id) ⊎ Among id xs

contains_iff : (xs : List Text) (id : Text) → (contains xs id ≡ true) ↔ Among id xs
unfolding contains
contains_iff [] id = (λ h. cc, λ h. absurd h)
contains_iff (x ∷ xs) id = (
  λ h. ground (arith, text_eq_iff x id, contains_iff xs id),
  λ h. ground (arith, text_eq_iff x id, contains_iff xs id),
)

-- A window covers an endpoint at an instant from its start up to, and not at, its end; one that names
-- no endpoint covers them all.
abbrev pub Covers : Text → Time → MaintenanceWindow → Type 0
Covers id now w = (w.start ≤ℤ now) × (now <ℤ w.end) × ((w.endpoints ≡ []) ⊎ Among id w.endpoints)

abbrev pub CoveredBy : Text → Time → List MaintenanceWindow → Type 0
CoveredBy id now [] = ⊥
CoveredBy id now (w ∷ ws) = Covers id now w ⊎ CoveredBy id now ws

is_empty_iff : (xs : List Text) → (is_empty xs ≡ true) ↔ (xs ≡ [])
is_empty_iff [] = (λ h. refl, λ h. refl)
is_empty_iff (x ∷ xs) = (λ h. cc, λ h. cc)

in_any_window_iff :
    (ws : List MaintenanceWindow) (id : Text) (now : Time)
    → (in_any_window ws id now ≡ true) ↔ CoveredBy id now ws
unfolding in_any_window
in_any_window_iff [] id now = (λ h. cc, λ h. absurd h)
in_any_window_iff (w ∷ ws) id now = (
  λ h.
      ground
        (arith, is_empty_iff w.endpoints, contains_iff w.endpoints id, in_any_window_iff ws id now),
  λ h.
      ground
        (arith, is_empty_iff w.endpoints, contains_iff w.endpoints id, in_any_window_iff ws id now),
)

-- InMaintenance holds exactly when some window covers the endpoint now.
pub in_maintenance_iff :
    {F : Type 0} (c : Config F) (id : Text) (now : Time)
    → (in_maintenance c id now ≡ true) ↔ CoveredBy id now c.maintenance
unfolding in_maintenance
in_maintenance_iff c id now = in_any_window_iff c.maintenance id now
