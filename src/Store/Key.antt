-- ===== src/Store/Key.antt =====
-- internal/store/memory.go and postgres.go: the dedupe key of an alert, endpoint id ":" state.
use mathlib.Core.List.{reverse-append, reverse-reverse}
use service_reliability_watc.Common.{◌≡◌, sym, ◌↔◌, ap, ◌∙◌, ◌++◌, reverse, arith}
use service_reliability_watc.Common.Text.{Text, codes}
use service_reliability_watc.Domain.Types.{State, healthy, state_name}
use service_reliability_watc.Store.Types.{dedupe_key}

-- The key read backwards begins with the state's name and a colon.
tagged : State → Text → Text
tagged s rest = reverse (codes ":" ++ state_name s) ++ rest

reverse-dedupe_key : (id : Text) (s : State) → reverse (dedupe_key id s) ≡ tagged s (reverse id)
unfolding dedupe_key tagged
reverse-dedupe_key id s = reverse-append id _

tagged-state : (s t : State) (x y : Text) → tagged s x ≡ tagged t y → s ≡ t
unfolding tagged state_name
tagged-state s t x y h = ground arith

tagged-rest : (s : State) (x y : Text) → tagged s x ≡ tagged s y → x ≡ y
unfolding tagged state_name
tagged-rest healthy x y h = cc
tagged-rest _ x y h = cc

-- Two alerts share a dedupe key exactly when they are of one endpoint and one state, also where an
-- endpoint's id holds a colon.
pub dedupe_key-injective :
    (id id' : Text) (s s' : State) → (dedupe_key id s ≡ dedupe_key id' s') ↔ ((id ≡ id') × (s ≡ s'))
dedupe_key-injective id id' s s' = (λ h. (same_id h, same_state h), λ e. cc (e.0, e.1))
  where
    backwards :
        dedupe_key id s ≡ dedupe_key id' s' → tagged s (reverse id) ≡ tagged s' (reverse id')
    backwards h = sym (reverse-dedupe_key id s) ∙ ap reverse h ∙ reverse-dedupe_key id' s'

    same_state : dedupe_key id s ≡ dedupe_key id' s' → s ≡ s'
    same_state h = tagged-state s s' _ _ (backwards h)

    same_reverse : dedupe_key id s ≡ dedupe_key id' s' → reverse id ≡ reverse id'
    same_reverse h =
        tagged-rest s _ _ (backwards h ∙ ap (λ u. tagged u (reverse id')) (sym (same_state h)))

    same_id : dedupe_key id s ≡ dedupe_key id' s' → id ≡ id'
    same_id h = sym (reverse-reverse id) ∙ ap reverse (same_reverse h) ∙ reverse-reverse id'
