-- ===== src/Store/Postgres/Latest.antt =====
-- internal/store/postgres.go: LatestResults gives, for each endpoint, its newest row.
use service_reliability_watc.Common.{
  ℕ, ◌+◌, ◌≡◌, refl, sym, ap, ◌∙◌, Bool, true, false, not, ◌||◌, Bool-cases, Option-cases, inl, inr,
  Option, none, some, on_some, List, [], ◌∷◌, arith, if◌then◌else◌, keep, map,
}
use service_reliability_watc.Common.Float.{Float64}
use service_reliability_watc.Common.Text.{Text, codes, text_eq, text_eq_iff}
use service_reliability_watc.Common.Assoc.{Assoc, lookup, insert, lookup-insert}
use service_reliability_watc.Common.Result.{ok}
use service_reliability_watc.Domain.Types.{CheckResult}
use service_reliability_watc.Store.Postgres.Rows.{ResultRow, scan_result, newest_of}
use service_reliability_watc.Store.Postgres.{Database, Sql}
use service_reliability_watc.Store.Postgres.Queries.{
  Reading, collect, distinct, newest_rows, by_endpoint, latest_results,
}

abbrev pub no_failure : Reading
no_failure = record { query = none; scan = λ k. none; rows_err = none }

pub collect_all :
    {A : Type 0} (what : Text) (k : ℕ) (xs : List A) → collect what no_failure k xs ≡ ok xs
unfolding collect
collect_all what k [] = refl
collect_all what k (x ∷ xs) = rw (collect_all what (k + 1) xs) refl

abbrev is_in : Text → List Text → Bool
is_in id [] = false
is_in id (i ∷ ids) = let rest = is_in id ids in text_eq i id || rest

is_in-keep :
    (id x : Text) (ids : List Text)
    → text_eq x id ≡ false
    → is_in id (keep (λ i. not (text_eq i x)) ids) ≡ is_in id ids
is_in-keep id x [] h = refl
is_in-keep id x (i ∷ ids) h =
    ground (arith, is_in-keep id x ids, text_eq_iff i x, text_eq_iff i id, text_eq_iff x id)

-- The value that is `some` for an endpoint in the list, or else the second.
abbrev in_or : {A : Type 0} → Bool → Option A → Option A → Option A
in_or false o p = p
in_or true none p = p
in_or true (some a) p = some a

in_or-none : {A : Type 0} (b : Bool) (p : Option A) → in_or b none p ≡ p
in_or-none false p = refl
in_or-none true p = refl

in_or-some : {A : Type 0} (b : Bool) (a : A) → in_or b (some a) (some a) ≡ some a
in_or-some false a = refl
in_or-some true a = refl

in_or-else : {A : Type 0} (o : Option A) → in_or true o none ≡ o
in_or-else none = refl
in_or-else (some a) = refl

module _ {F : Type 0} where
  newest_of-distinct :
      (id : Text) (rows : List (ResultRow F))
      → is_in id (distinct rows) ≡ false
      → newest_of id rows ≡ none
  unfolding distinct newest_of
  newest_of-distinct id [] h = refl
  newest_of-distinct id (r ∷ rows) h =
      ground (arith, newest_of-distinct id rows, is_in-keep id r.endpoint_id (distinct rows))

  newest_of-endpoint :
      (id : Text) (rows : List (ResultRow F)) (r : ResultRow F)
      → newest_of id rows ≡ some r
      → r.endpoint_id ≡ id
  unfolding newest_of
  newest_of-endpoint id [] r h = cc h
  newest_of-endpoint id (x ∷ rows) r h = elim (Option-cases (newest_of id rows)) [
    | inl e ↦ ground (arith, e, h, text_eq_iff x.endpoint_id id)
    | inr (y, e) ↦
        ground (arith, e, h, text_eq_iff x.endpoint_id id, newest_of-endpoint id rows y e)
  ]

  module _ (fl : Float64 F) (id : Text) (rows : List (ResultRow F)) where
    abbrev newest_result : Option CheckResult
    newest_result = on_some (scan_result fl) (newest_of id rows)

    same_key :
        (i : Text) (o : Option (ResultRow F))
        → newest_of i rows ≡ o
        → text_eq i id ≡ true
        → newest_result ≡ on_some (scan_result fl) o
    same_key i o e h =
        ap (λ k. on_some (scan_result fl) (newest_of k rows)) (sym ((text_eq_iff i id).0 h))
        ∙ ap (on_some (scan_result fl)) e

    lookup-by_endpoint :
        (m : Assoc CheckResult) (ids : List Text)
        → lookup id (by_endpoint m (map (scan_result fl) (newest_rows rows ids)))
          ≡ in_or (is_in id ids) newest_result (lookup id m)
    unfolding newest_rows by_endpoint scan_result
    lookup-by_endpoint m [] = refl
    lookup-by_endpoint m (i ∷ ids) = elim (Option-cases (newest_of i rows)) [
      | inl e ↦
          rw (e, newest_rows) (lookup-by_endpoint m ids ∙ missing i (is_in id ids) (lookup id m) e)
      | inr (r, e) ↦
          rw (e, newest_rows, by_endpoint)
            (lookup-by_endpoint (insert r.endpoint_id (scan_result fl r) m) ids
              ∙ rw (lookup-insert r.endpoint_id id (scan_result fl r) m)
                  (present i (is_in id ids) (lookup id m) r e))
    ]
      where
        missing :
            (i : Text) (b : Bool) (p : Option CheckResult)
            → newest_of i rows ≡ none
            → in_or b newest_result p ≡ in_or (text_eq i id || b) newest_result p
        missing i b p e = elim (Bool-cases (text_eq i id)) [
          | inl h ↦ rw (h, same_key i none e h) (in_or-none b p)
          | inr h ↦ rw h refl
        ]

        own :
            (i : Text) (b : Bool) (p : Option CheckResult) (r : ResultRow F)
            → newest_of i rows ≡ some r
            → in_or b newest_result (if text_eq i id then some (scan_result fl r) else p)
              ≡ in_or (text_eq i id || b) newest_result p
        own i b p r e = elim (Bool-cases (text_eq i id)) [
          | inl h ↦ rw (h, same_key i (some r) e h) (in_or-some b (scan_result fl r))
          | inr h ↦ rw h refl
        ]

        present :
            (i : Text) (b : Bool) (p : Option CheckResult) (r : ResultRow F)
            → newest_of i rows ≡ some r
            → in_or b newest_result
                (if text_eq r.endpoint_id id then some (scan_result fl r) else p)
              ≡ in_or (text_eq i id || b) newest_result p
        present i b p r e =
            ap (λ j. in_or b newest_result (if text_eq j id then some (scan_result fl r) else p))
              (newest_of-endpoint i rows r e)
            ∙ own i b p r e

-- LatestResults, where nothing fails, gives every endpoint's newest row.
pub latest_results_newest :
    {F : Type 0} (fl : Float64 F) (sql : Sql) (db : Database F)
    → (rs : Assoc CheckResult) × (latest_results fl sql no_failure db ≡ ok rs)
      × ((id : Text) → lookup id rs ≡ on_some (scan_result fl) (newest_of id db.tables.results))
unfolding latest_results scan_result newest_of lookup
latest_results_newest fl sql db =
    let rows = db.tables.results in
    (
      by_endpoint [] (map (scan_result fl) (newest_rows rows (distinct rows))),
      rw
          (collect_all (codes "scan check result: ") 0
            (map (scan_result fl) (newest_rows rows (distinct rows))))
          refl,
      λ id. lookup-by_endpoint fl id rows [] (distinct rows) ∙ absent fl id rows,
    )
  where
    absent :
        {F : Type 0} (fl : Float64 F) (id : Text) (rows : List (ResultRow F))
        → in_or (is_in id (distinct rows)) (on_some (scan_result fl) (newest_of id rows)) none
          ≡ on_some (scan_result fl) (newest_of id rows)
    absent fl id rows = elim (Bool-cases (is_in id (distinct rows))) [
      | inl h ↦ rw h (in_or-else (on_some (scan_result fl) (newest_of id rows)))
      | inr h ↦ rw (h, newest_of-distinct id rows h) refl
    ]
