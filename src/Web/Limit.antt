-- ===== src/Web/Limit.antt =====
-- internal/web/server.go: parseLimit, with strconv.Atoi.
pub mod Decimal
use service_reliability_watc.Common.{
  ℕ, zero, suc, ◌+◌, ◌-◌, ◌*◌, Bool, true, false, ◌&&◌, ◌||◌, Option, none, some, List, [], ◌∷◌,
  if◌then◌else◌, leb, ltb, ◌==◌, min,
}
use service_reliability_watc.Common.Int.{ℤ, pos, neg, pos_part, ltb_ℤ, leb_ℤ, min_int64, max_int64}
use service_reliability_watc.Common.Text.{Text}

is_digit : ℕ → Bool
is_digit c = leb b'0' c && leb c b'9'

-- The value of digits, after those that gave `n`.
unfoldable pub number : ℕ → Text → Option ℕ
unfolding is_digit
number n [] = some n
number n (c ∷ t) = let rest = number (10 * n + (c - b'0')) t in if is_digit c then rest else none

-- A number has at least one digit.
abbrev digits : Text → Option ℕ
digits [] = none
digits (c ∷ t) = number 0 (c ∷ t)

-- Atoi fails outside the range of an int.
abbrev in_range : ℤ → Option ℤ
in_range z = if leb_ℤ min_int64 z && leb_ℤ z max_int64 then some z else none

abbrev signed : (ℕ → ℤ) → Option ℕ → Option ℤ
signed sign none = none
signed sign (some n) = in_range (sign n)

unfoldable pub atoi : Text → Option ℤ
atoi [] = none
atoi (c ∷ t) =
    if c == b'-'
    then signed neg (digits t)
    else if c == b'+'
    then signed pos (digits t)
    else signed pos (digits (c ∷ t))

abbrev limit_of : ℕ → Option ℤ → ℕ
limit_of fallback none = fallback
limit_of fallback (some value) = if ltb_ℤ value (pos 1) then fallback else min (pos_part value) 500

-- The argument is the value of the query's "limit", which is empty where there is none.
unfoldable pub parse_limit : Text → ℕ → ℕ
parse_limit text fallback = limit_of fallback (atoi text)
