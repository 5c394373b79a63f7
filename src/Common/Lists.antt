-- ===== src/Common/Lists.antt =====
-- Lists measured by native numbers, the last element, and predicates on lists by recursion.
use Prim.Native.Nat.{ℕ, zero, suc, ◌+◌, ◌≤◌}
use mathlib.Core.Path.{◌≡◌, refl, sym, ap, ◌∙◌}
use mathlib.Core.Bool.{Bool, true, false}
use mathlib.Core.List.{List, [], ◌∷◌, ◌++◌, map, reverse, reverse-cons, append-nil, map-append}
use mathlib.Core.Option.{Option, none, some}
use mathlib.Core.Logic.{inl, inr}
use native.Mathlib.Omega.{arith}
use service_reliability_watc.Common.Tests.{Bool-cases}

module _ {ℓ} {A : Type ℓ} where
  abbrev pub length : List A → ℕ
  length [] = 0
  length (x ∷ xs) = suc (length xs)

  pub length-append : (xs ys : List A) → length (xs ++ ys) ≡ length xs + length ys
  length-append [] ys = omega arith
  length-append (x ∷ xs) ys = omega (arith, length-append xs ys)

  abbrev pub take : ℕ → List A → List A
  take zero xs = []
  take (suc n) [] = []
  take (suc n) (x ∷ xs) = x ∷ take n xs

  -- The sum of a number for each element.
  abbrev pub sum_of : (A → ℕ) → List A → ℕ
  sum_of f [] = 0
  sum_of f (x ∷ xs) = f x + sum_of f xs

  pub sum_of-append : (f : A → ℕ) (xs ys : List A) → sum_of f (xs ++ ys) ≡ sum_of f xs + sum_of f ys
  sum_of-append f [] ys = omega arith
  sum_of-append f (x ∷ xs) ys = omega (arith, sum_of-append f xs ys)

  -- One element in the middle becomes another, or goes.
  pub sum_of-replace :
      (f : A → ℕ) (whole left right : List A) (a b : A)
      → whole ≡ left ++ a ∷ right
      → sum_of f (left ++ b ∷ right) + f a ≡ sum_of f whole + f b
  sum_of-replace f whole left right a b h =
      rw h (omega (arith, sum_of-append f left (a ∷ right), sum_of-append f left (b ∷ right)))

  pub sum_of-remove :
      (f : A → ℕ) (whole left right : List A) (a : A)
      → whole ≡ left ++ a ∷ right
      → sum_of f (left ++ right) + f a ≡ sum_of f whole
  sum_of-remove f whole left right a h =
      rw h (omega (arith, sum_of-append f left (a ∷ right), sum_of-append f left right))

  -- The elements that pass a Boolean test.
  abbrev pub keep : (A → Bool) → List A → List A
  keep p [] = []
  keep p (x ∷ xs) = elim (p x) [ true ↦ x ∷ keep p xs | false ↦ keep p xs ]

  pub keep-in : (p : A → Bool) (x : A) (xs : List A) → p x ≡ true → keep p (x ∷ xs) ≡ x ∷ keep p xs
  keep-in p x xs h = rw (h, keep) refl

  pub keep-out : (p : A → Bool) (x : A) (xs : List A) → p x ≡ false → keep p (x ∷ xs) ≡ keep p xs
  keep-out p x xs h = rw (h, keep) refl

  pub keep-append : (p : A → Bool) (xs ys : List A) → keep p (xs ++ ys) ≡ keep p xs ++ keep p ys
  keep-append p [] ys = refl
  keep-append p (x ∷ xs) ys = ground (arith, keep-append p xs ys)

  -- How many elements pass a Boolean test.
  abbrev pub count_p : (A → Bool) → List A → ℕ
  count_p p [] = 0
  count_p p (x ∷ xs) = elim (p x) [ true ↦ suc (count_p p xs) | false ↦ count_p p xs ]

  pub count_p-append :
      (p : A → Bool) (xs ys : List A) → count_p p (xs ++ ys) ≡ count_p p xs + count_p p ys
  count_p-append p [] ys = omega arith
  count_p-append p (x ∷ xs) ys = ground (arith, count_p-append p xs ys)

  -- `items[len(items)-1]`, where the slice has an element.
  abbrev pub last? : List A → Option A
  last? [] = none
  last? (x ∷ xs) = elim (last? xs) [ none ↦ some x | some y ↦ some y ]

  pub last?-snoc : (xs : List A) (x : A) → last? (xs ++ x ∷ []) ≡ some x
  last?-snoc [] x = refl
  last?-snoc (y ∷ xs) x = ground (arith, last?-snoc xs x)

  abbrev pub All {κ} : (A → Type κ) → List A → Type κ
  All P [] = Unit
  All P (x ∷ xs) = P x × All P xs

  pub All-append {κ} : (P : A → Type κ) (xs ys : List A) → All P xs → All P ys → All P (xs ++ ys)
  All-append P [] ys h k = k
  All-append P (x ∷ xs) ys h k = (h.0, All-append P xs ys h.1 k)

  pub All-map {κ μ} :
      (P : A → Type κ) (Q : A → Type μ)
      → ((x : A) → P x → Q x)
      → (xs : List A) → All P xs
      → All Q xs
  All-map P Q f [] h = tt
  All-map P Q f (x ∷ xs) h = (f x h.0, All-map P Q f xs h.1)

  pub All-keep {κ} : (P : A → Type κ) (p : A → Bool) (xs : List A) → All P xs → All P (keep p xs)
  All-keep P p [] h = tt
  All-keep P p (x ∷ xs) h = elim (Bool-cases (p x)) [
    | inl kept ↦ rw (keep-in p x xs kept) (h.0, All-keep P p xs h.1)
    | inr gone ↦ rw (keep-out p x xs gone) (All-keep P p xs h.1)
  ]

  pub All-reverse {κ} : (P : A → Type κ) (xs : List A) → All P xs → All P (reverse xs)
  All-reverse P [] h = tt
  All-reverse P (x ∷ xs) h =
      rw (reverse-cons x xs) (All-append P (reverse xs) (x ∷ []) (All-reverse P xs h.1) (h.0, tt))

  pub keep-reverse : (p : A → Bool) (xs : List A) → keep p (reverse xs) ≡ reverse (keep p xs)
  keep-reverse p [] = refl
  keep-reverse p (x ∷ xs) =
      rw (reverse-cons x xs, keep-append p (reverse xs) (x ∷ []), keep-reverse p xs) (last (p x))
    where
      last :
          (b : Bool)
          → reverse (keep p xs) ++ elim b [ true ↦ x ∷ [] | false ↦ [] ]
            ≡ reverse (elim b [ true ↦ x ∷ keep p xs | false ↦ keep p xs ])
      last true = sym (reverse-cons x (keep p xs))
      last false = append-nil (reverse (keep p xs))

  pub length-take-le : (n : ℕ) (xs : List A) → length (take n xs) ≤ n
  length-take-le zero xs = omega arith
  length-take-le (suc n) [] = omega arith
  length-take-le (suc n) (x ∷ xs) = omega (arith, length-take-le n xs)

pub length-map {ℓ κ} :
    {A : Type ℓ} {B : Type κ} (f : A → B) (xs : List A) → length (map f xs) ≡ length xs
length-map f [] = refl
length-map f (x ∷ xs) = ap suc (length-map f xs)

abbrev pub on_some {ℓ κ} : {A : Type ℓ} {B : Type κ} → (A → B) → Option A → Option B
on_some f none = none
on_some f (some a) = some (f a)

pub last?-map {ℓ κ} :
    {A : Type ℓ} {B : Type κ} (f : A → B) (xs : List A) → last? (map f xs) ≡ on_some f (last? xs)
last?-map f [] = refl
last?-map f (x ∷ xs) = rw (last?-map f xs) (last (last? xs))
  where
    last :
        (o : Option _)
        → elim (on_some f o) [ none ↦ some (f x) | some y ↦ some y ]
          ≡ on_some f (elim o [ none ↦ some x | some y ↦ some y ])
    last none = refl
    last (some y) = refl

pub map-take {ℓ κ} :
    {A : Type ℓ} {B : Type κ} (f : A → B) (n : ℕ) (xs : List A)
    → map f (take n xs) ≡ take n (map f xs)
map-take f zero xs = refl
map-take f (suc n) [] = refl
map-take f (suc n) (x ∷ xs) = ap (λ ys. f x ∷ ys) (map-take f n xs)

pub map-reverse {ℓ κ} :
    {A : Type ℓ} {B : Type κ} (f : A → B) (xs : List A) → map f (reverse xs) ≡ reverse (map f xs)
map-reverse f [] = refl
map-reverse f (x ∷ xs) = rw (
  reverse-cons x xs,
  reverse-cons (f x) (map f xs),
  map-append f (reverse xs) (x ∷ []),
  map-reverse f xs,
)

-- A test that does not see `f`.
pub keep-map {ℓ} :
    {A : Type ℓ} (f : A → A) (p : A → Bool)
    → ((x : A) → p (f x) ≡ p x)
    → (xs : List A) → keep p (map f xs) ≡ map f (keep p xs)
keep-map f p h [] = refl
keep-map f p h (x ∷ xs) = elim (Bool-cases (p x)) [
  | inl kept ↦
      rw (keep-in p (f x) (map f xs) (h x ∙ kept), keep-in p x xs kept)
        (ap (λ ys. f x ∷ ys) (keep-map f p h xs))
  | inr gone ↦
      rw (keep-out p (f x) (map f xs) (h x ∙ gone), keep-out p x xs gone) (keep-map f p h xs)
]
