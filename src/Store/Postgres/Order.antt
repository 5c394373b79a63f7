-- ===== src/Store/Postgres/Order.antt =====
-- internal/store/postgres.go: ORDER BY … DESC on rows that come in ascending order.
use mathlib.Core.List.{reverse-cons}
use service_reliability_watc.Common.{
  ◌≡◌, refl, Bool, false, Bool-cases, inl, inr, List, [], ◌∷◌, ◌++◌, reverse, keep, keep-in,
  keep-out, All, All-append, All-keep, All-reverse,
}
use service_reliability_watc.Store.Postgres.Queries.{insert_ordered, order_by}

module _ {A : Type 0} (before : A → A → Bool) where
  -- No element comes, by `before`, ahead of a later one.
  abbrev pub IsAscending : List A → Type 0
  IsAscending [] = Unit
  IsAscending (x ∷ xs) = All (λ y. before x y ≡ false) xs × IsAscending xs

  insert_ordered-last :
      (x : A) (ys : List A)
      → All (λ y. before x y ≡ false) ys
      → insert_ordered before x ys ≡ ys ++ x ∷ []
  unfolding insert_ordered
  insert_ordered-last x [] h = refl
  insert_ordered-last x (y ∷ ys) h = rw (h.0, insert_ordered, insert_ordered-last x ys h.1) refl

  -- Then the order by `before` is the reverse order.
  pub order_by-reverse : (xs : List A) → IsAscending xs → order_by before xs ≡ reverse xs
  unfolding order_by
  order_by-reverse [] h = refl
  order_by-reverse (x ∷ xs) h =
      rw (order_by-reverse xs h.1, reverse-cons x xs)
        (insert_ordered-last x (reverse xs) (All-reverse _ xs h.0))

  pub keep-IsAscending : (p : A → Bool) (xs : List A) → IsAscending xs → IsAscending (keep p xs)
  keep-IsAscending p [] h = tt
  keep-IsAscending p (x ∷ xs) h = elim (Bool-cases (p x)) [
    | inl kept ↦ rw (keep-in p x xs kept) (All-keep _ p xs h.0, keep-IsAscending p xs h.1)
    | inr gone ↦ rw (keep-out p x xs gone) (keep-IsAscending p xs h.1)
  ]

  pub snoc-IsAscending :
      (xs : List A) (x : A)
      → IsAscending xs
      → All (λ y. before y x ≡ false) xs
      → IsAscending (xs ++ x ∷ [])
  snoc-IsAscending [] x h k = (tt, tt)
  snoc-IsAscending (y ∷ xs) x h k =
      (All-append _ xs (x ∷ []) h.0 (k.0, tt), snoc-IsAscending xs x h.1 k.1)
