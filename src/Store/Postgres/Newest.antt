-- ===== src/Store/Postgres/Newest.antt =====
-- internal/store/postgres.go: the newest row, where the rows come in the order of time.
use service_reliability_watc.Common.{◌≡◌, false, some, List, [], ◌∷◌, ◌++◌, arith, keep, All}
use service_reliability_watc.Common.Int.{ℤ, ◌<ℤ◌, ◌≤ℤ◌}
use service_reliability_watc.Common.Text.{Text, text_eq, text_eq_iff}
use service_reliability_watc.Common.Clock.{Time}
use service_reliability_watc.Store.Postgres.Rows.{ResultRow, newest_of}

module _ {F : Type 0} where
  abbrev pub rows_of : Text → List (ResultRow F) → List (ResultRow F)
  rows_of id = keep (λ r. text_eq r.endpoint_id id)

  -- A row of the endpoint is neither later than `at` nor has it an id from `next` on.
  abbrev pub Precedes : Text → Time → ℤ → ResultRow F → Type 0
  Precedes id at next r = (r.endpoint_id ≡ id → r.checked_at ≤ℤ at) × (r.id <ℤ next)

  -- A row that comes after all others of its endpoint is the newest.
  pub newest_of-snoc :
      (r : ResultRow F) (rows : List (ResultRow F))
      → All (Precedes r.endpoint_id r.checked_at r.id) rows
      → newest_of r.endpoint_id (rows ++ r ∷ []) ≡ some r
  unfolding newest_of
  newest_of-snoc r [] h = ground (arith, text_eq_iff r.endpoint_id r.endpoint_id)
  newest_of-snoc r (x ∷ rows) h =
      rw (newest_of-snoc r rows h.1)
        (ground (arith, h.0.0, h.0.1, text_eq_iff x.endpoint_id r.endpoint_id))

  -- It leaves the other endpoints alone.
  pub newest_of-other :
      (r : ResultRow F) (id : Text) (rows : List (ResultRow F))
      → text_eq r.endpoint_id id ≡ false
      → newest_of id (rows ++ r ∷ []) ≡ newest_of id rows
  unfolding newest_of
  newest_of-other r id [] h = ground arith
  newest_of-other r id (x ∷ rows) h = ground (arith, newest_of-other r id rows h)
