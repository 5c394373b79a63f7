-- ===== src/Web/Limit/Decimal.antt =====
-- internal/web/server.go: parseLimit on a number that is written in decimal.
use mathlib.Core.List.{reverse-cons}
use service_reliability_watc.Common.{
  ℕ, zero, suc, ◌+◌, ◌-◌, ◌*◌, ◌/◌, ◌%◌, ◌<◌, ◌≡◌, refl, ◌∙◌, true, some, [], ◌∷◌, ◌++◌, reverse,
  if◌then◌else◌, ltb, ◌==◌, min, arith, Bool-cases, inl, inr, length, length-append, ◌≢◌, ap,
}
use service_reliability_watc.Common.Int.{pos, two63}
use service_reliability_watc.Common.Text.{Text}
use service_reliability_watc.Web.Limit.{is_digit, number, atoi, parse_limit}

-- The digits of `n` from the last one on, at most `rounds` of them.
unfoldable pub digits_from_last : ℕ → ℕ → Text
digits_from_last zero n = []
digits_from_last (suc rounds) n =
    let rest = digits_from_last rounds (n / 10) in (b'0' + n % 10) ∷ (if ltb n 10 then [] else rest)

-- `n` in decimal; it has at most n + 1 digits.
unfoldable pub decimal : ℕ → Text
decimal n = reverse (digits_from_last (suc n) n)

number-append :
    (n : ℕ) (s : Text) (c : ℕ) (k : ℕ)
    → number n s ≡ some k
    → is_digit c ≡ true
    → number n (s ++ c ∷ []) ≡ some (10 * k + (c - b'0'))
unfolding number is_digit
number-append n [] c k h d = ground arith
number-append n (x ∷ s) c k h d = ground (arith, number-append (10 * n + (x - b'0')) s c k)

number-digits :
    (rounds n : ℕ) → n < rounds → number 0 (reverse (digits_from_last rounds n)) ≡ some n
unfolding digits_from_last number is_digit
number-digits zero n h = absurd (omega arith)
number-digits (suc rounds) n h = elim (Bool-cases (ltb n 10)) [
  | inl small ↦ rw (small, digits_from_last) (ground arith)
  | inr large ↦
      rw (large, digits_from_last, reverse-cons (b'0' + n % 10) (digits_from_last rounds (n / 10)))
        (number-append 0 (reverse (digits_from_last rounds (n / 10))) (b'0' + n % 10) (n / 10)
            (number-digits rounds (n / 10) (ground arith)) (ground arith)
          ∙ ap some (omega arith))
]

-- What begins as a number begins with no sign.
atoi-number : (t : Text) (k : ℕ) → number 0 t ≡ some k → t ≢ [] → k < two63 → atoi t ≡ some (pos k)
unfolding atoi number is_digit
atoi-number [] k h e small = absurd (e refl)
atoi-number (c ∷ t) k h e small = ground arith

decimal_not_empty : (n : ℕ) → decimal n ≢ []
unfolding decimal digits_from_last
decimal_not_empty n h = ground (
  arith,
  reverse-cons (b'0' + n % 10) (if ltb n 10 then [] else digits_from_last n (n / 10)),
  ap length h,
  length-append (reverse (if ltb n 10 then [] else digits_from_last n (n / 10)))
      ((b'0' + n % 10) ∷ []),
)

-- Atoi reads back every int that is written in decimal.
atoi-decimal : (n : ℕ) → n < two63 → atoi (decimal n) ≡ some (pos n)
unfolding decimal
atoi-decimal n small =
    atoi-number (decimal n) n (number-digits (suc n) n (omega arith)) (decimal_not_empty n) small

-- A limit below 2 ^ 63 that is written in decimal is taken as it is, but for 0, which is the fallback,
-- and for a number above 500, which is 500.
pub parse_limit-decimal :
    (n fallback : ℕ)
    → n < two63
    → parse_limit (decimal n) fallback ≡ (if n == 0 then fallback else min n 500)
unfolding parse_limit
parse_limit-decimal n fallback small = rw (atoi-decimal n small) (ground arith)
