-- ===== src/Common/Result.antt =====
-- Go's pair of a value and an error: the error, where it is not nil, or else the value.
use mathlib.Core.Path.{◌≡◌, refl}
use mathlib.Core.Logic.{◌↔◌, ◌⊎◌, inl, inr}

pub data Result {ℓ} (E A : Type ℓ) : Type ℓ where
  err : E → Result E A
  ok : A → Result E A

-- `if err != nil { return err }`, then the rest; the second form is for an operation that returns
-- no value.
infixl 5 ◌>>=◌ ◌>>◌
abbrev pub ◌>>=◌ {ℓ} : {E A B : Type ℓ} → Result E A → (A → Result E B) → Result E B
err e >>= next = err e
ok value >>= next = next value

abbrev pub ◌>>◌ : {E B : Type 0} → Result E (Unit {0}) → Result E B → Result E B
first >> second = first >>= λ _. second

module _ {ℓ} {E A : Type ℓ} where
  pub ok-injective : {x y : A} → ◌≡◌ {A = Result E A} (ok x) (ok y) → x ≡ y
  ok-injective same = cc

  -- What succeeds went through both parts.
  pub >>=-eq-ok :
      {B : Type ℓ} (m : Result E A) (next : A → Result E B) {last : B}
      → (m >>= next) ≡ ok last
      → (value : A) × (m ≡ ok value) × (next value ≡ ok last)
  >>=-eq-ok (err e) next h = cc
  >>=-eq-ok (ok value) next h = (value, refl, h)

pub >>-eq-ok :
    {E A : Type 0} (m : Result E (Unit {0})) (second : Result E A) (a : A)
    → ((m >> second) ≡ ok a) ↔ ((m ≡ ok tt) × (second ≡ ok a))
>>-eq-ok (err e) second a = (λ h. cc, λ h. cc (h.0))
>>-eq-ok (ok tt) second a = (λ h. (refl, h), λ h. h.1)

pub Result-cases {ℓ} :
    {E A : Type ℓ} (m : Result E A) → ((e : E) × (m ≡ err e)) ⊎ ((value : A) × (m ≡ ok value))
Result-cases (err e) = inl (e, refl)
Result-cases (ok value) = inr (value, refl)
