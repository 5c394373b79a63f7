-- ===== src/Store/Postgres/Dedupe.antt =====
-- internal/store/postgres.go and internal/store/memory.go: the two tests for a recent alert.
use service_reliability_watc.Common.{
  ◌+◌, ◌≡◌, ◌≢◌, refl, sym, ap, ◌∙◌, ◌||◌, List, [], ◌∷◌, ◌++◌, arith, map, reverse, All,
}
use mathlib.Core.List.{reverse-cons}
use service_reliability_watc.Common.Int.{
  pos, ltb_ℤ, leb_ℤ, ◌≤ℤ◌, ◌+ℤ◌, saturate, max_int64, pos_part, neg_part, eq_of_parts, -ℤ_parts,
  +ℤ_parts,
}
use service_reliability_watc.Common.Text.{Text, text_eq_iff}
use service_reliability_watc.Common.Clock.{Time, Duration, add, since, negated}
use service_reliability_watc.Domain.Types.{Alert}
use service_reliability_watc.Store.Outcome.{alert_without_id}
use service_reliability_watc.Store.Memory.{duplicate}
use service_reliability_watc.Store.Postgres.Rows.{has_alert}

-- An alert with this key is not exactly as old as the window.
abbrev pub IsOffEdge : Text → Time → Duration → Alert → Type 0
IsOffEdge key at window a = a.dedupe_key ≡ key → at ≢ add a.created_at window

-- A duration that is a window.
abbrev pub IsWindow : Duration → Type 0
IsWindow window = (pos 0 ≤ℤ window) × (window ≤ℤ max_int64)

duplicate-append :
    (key : Text) (at : Time) (window : Duration) (xs ys : List Alert)
    → duplicate key at window (xs ++ ys)
      ≡ (duplicate key at window xs || duplicate key at window ys)
unfolding duplicate
duplicate-append key at window [] ys = refl
duplicate-append key at window (a ∷ xs) ys = ground (arith, duplicate-append key at window xs ys)

duplicate-reverse :
    (key : Text) (at : Time) (window : Duration) (xs : List Alert)
    → duplicate key at window (reverse xs) ≡ duplicate key at window xs
unfolding duplicate
duplicate-reverse key at window [] = refl
duplicate-reverse key at window (a ∷ xs) =
    rw (reverse-cons a xs, duplicate-append key at window (reverse xs) (a ∷ []))
      (ground (arith, duplicate-reverse key at window xs))

-- Less than the window ago, and not before the cutoff.
recent_iff :
    (at created : Time) (window : Duration)
    → IsWindow window
    → at ≢ add created window
    → ltb_ℤ (since at created) window ≡ leb_ℤ (add at (negated window)) created
unfolding since saturate add
recent_iff at created window w h =
    let edge = created +ℤ window in
    let differ : pos_part at + neg_part edge ≢ pos_part edge + neg_part at =
      λ e. h (eq_of_parts at edge e) in
    ground
      (arith, -ℤ_parts at created, +ℤ_parts at (negated window), +ℤ_parts created window, differ)

duplicate-has_alert :
    (key : Text) (at : Time) (window : Duration) (xs : List Alert)
    → IsWindow window
    → All (IsOffEdge key at window) xs
    → duplicate key at window xs ≡ has_alert key (add at (negated window)) xs
unfolding duplicate has_alert
duplicate-has_alert key at window [] w h = refl
duplicate-has_alert key at window (a ∷ xs) w h = ground (
  arith,
  h.0,
  recent_iff at a.created_at window w,
  text_eq_iff a.dedupe_key key,
  duplicate-has_alert key at window xs w h.1,
)

-- The loop reads no ids.
pub duplicate-without_ids :
    (key : Text) (at : Time) (window : Duration) (xs : List Alert)
    → duplicate key at window (map alert_without_id xs) ≡ duplicate key at window xs
unfolding duplicate
duplicate-without_ids key at window [] = refl
duplicate-without_ids key at window (a ∷ xs) =
    ground (arith, duplicate-without_ids key at window xs)

-- Away from the edge of the window, the loop over the slice and the query on the same alerts agree.
pub duplicate_is_has_alert :
    (key : Text) (at : Time) (window : Duration) (xs ys : List Alert)
    → map alert_without_id xs ≡ map alert_without_id ys
    → IsWindow window
    → All (IsOffEdge key at window) ys
    → duplicate key at window (reverse xs) ≡ has_alert key (add at (negated window)) ys
duplicate_is_has_alert key at window xs ys same w h =
    duplicate-reverse key at window xs
    ∙ sym (duplicate-without_ids key at window xs)
    ∙ ap (duplicate key at window) same
    ∙ duplicate-without_ids key at window ys
    ∙ duplicate-has_alert key at window ys w h
