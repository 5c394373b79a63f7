-- ===== src/Monitor/Scheduler/Known.antt =====
-- internal/monitor/service.go: that only the endpoints of the service are ever in flight.
use service_reliability_watc.Common.{
  ℕ, ◌+◌, ◌≤◌, ◌≡◌, refl, sym, true, false, List, [], ◌∷◌, ◌++◌, length, All, All-map, count_p,
  if◌then◌else◌, arith, Bool-cases, inl, inr,
}
use service_reliability_watc.Common.Int.{pos, ltb_ℤ}
use service_reliability_watc.Common.Text.{Text, text_eq, text_eq_iff, text_eq_refl}
use service_reliability_watc.Common.Clock.{Time}
use service_reliability_watc.Domain.Types.{Endpoint}
use service_reliability_watc.Monitor.Scheduler.{
  Scheduler, is_in_flight, is_waiting, offer, complete, ◌then◌,
}
use service_reliability_watc.Monitor.Scheduler.Invariant.{flag, flag-insert}

-- Counting the texts `xs` one by one or key by key.
abbrev pub occurrences : List Text → List Text → ℕ
occurrences [] xs = 0
occurrences (i ∷ ids) xs = count_p (text_eq i) xs + occurrences ids xs

abbrev pub times_in : Text → List Text → ℕ
times_in x [] = 0
times_in x (i ∷ ids) = (if text_eq i x then 1 else 0) + times_in x ids

occurrences-cons :
    (ids : List Text) (x : Text) (xs : List Text)
    → occurrences ids (x ∷ xs) ≡ times_in x ids + occurrences ids xs
occurrences-cons [] x xs = refl
occurrences-cons (i ∷ ids) x xs = ground (arith, occurrences-cons ids x xs)

occurrences-nil : (ids : List Text) → occurrences ids [] ≡ 0
occurrences-nil [] = refl
occurrences-nil (i ∷ ids) = omega (arith, occurrences-nil ids)

-- Texts that are all among the keys are at most as many as are counted by the keys.
pub length-le-occurrences :
    (ids xs : List Text) → All (λ x. 1 ≤ times_in x ids) xs → length xs ≤ occurrences ids xs
length-le-occurrences ids [] h = omega arith
length-le-occurrences ids (x ∷ xs) h =
    omega (arith, h.0, occurrences-cons ids x xs, length-le-occurrences ids xs h.1)

pub occurrences-le-length :
    (ids xs : List Text)
    → ((i : Text) → count_p (text_eq i) xs ≤ 1)
    → occurrences ids xs ≤ length ids
occurrences-le-length [] xs h = omega arith
occurrences-le-length (i ∷ ids) xs h = omega (arith, h i, occurrences-le-length ids xs h)

pub All-left {ℓ κ} : {A : Type ℓ} (P : A → Type κ) (xs ys : List A) → All P (xs ++ ys) → All P xs
All-left P [] ys h = tt
All-left P (x ∷ xs) ys h = (h.0, All-left P xs ys h.1)

-- What is counted at most as often as among the keys is among the keys.
pub counted-All :
    (ids xs : List Text)
    → ((i : Text) → count_p (text_eq i) xs ≤ times_in i ids)
    → All (λ x. 1 ≤ times_in x ids) xs
counted-All ids [] h = tt
counted-All ids (x ∷ xs) h =
    (ground (arith, h x, text_eq_refl x), counted-All ids xs (λ i. ground (arith, h i)))

module _ {F : Type 0} where
  abbrev pub ids_of : List (Endpoint F) → List Text
  ids_of [] = []
  ids_of (e ∷ es) = e.id ∷ ids_of es

  -- What is in flight is one of the endpoints.
  abbrev pub OnlyKnown : List Text → Scheduler F → Type 0
  OnlyKnown ids s = (id : Text) → flag (is_in_flight s id) ≤ times_in id ids

  -- Each of the endpoints is one of them.
  pub All-known : (es : List (Endpoint F)) → All (λ e. 1 ≤ times_in e.id (ids_of es)) es
  All-known [] = tt
  All-known (e ∷ es) =
      (ground (arith, text_eq_refl e.id), All-map _ _ (λ x h. ground (arith, h)) es (All-known es))

  pub offer-OnlyKnown :
      (ids : List Text) (current : Time) (s : Scheduler F) (e : Endpoint F)
      → 1 ≤ times_in e.id ids
      → OnlyKnown ids s
      → OnlyKnown ids (offer current s e)
  unfolding offer
  offer-OnlyKnown ids current s e known k id = elim (Bool-cases (is_waiting current s e.id)) [
    | inl waits ↦ rw (waits, offer) (k id)
    | inr due ↦ elim (Bool-cases (ltb_ℤ (pos (length s.jobs)) s.queue_size)) [
      | inl room ↦ elim (Bool-cases (text_eq e.id id)) [
        | inl same ↦
            rw
              (
                due,
                room,
                offer,
                flag-insert e.id id true s.in_flight,
                same,
                sym ((text_eq_iff e.id id).0 same),
              )
              (omega (arith, known))
        | inr other ↦ rw (due, room, offer, flag-insert e.id id true s.in_flight, other) (k id)
      ]
      | inr full ↦ rw (due, full, offer) (k id)
    ]
  ]

  pub complete-OnlyKnown :
      (ids : List Text) (now : Time) (id : Text) (rest : List Text) (s : Scheduler F)
      → OnlyKnown ids s
      → OnlyKnown ids (complete now id rest s)
  unfolding complete
  complete-OnlyKnown ids now id rest s k i =
      rw (flag-insert id i false s.in_flight) (ground (arith, k i))
