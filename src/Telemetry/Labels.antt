-- ===== src/Telemetry/Labels.antt =====
-- internal/telemetry/metrics.go: a vector of values by two labels.
use service_reliability_watc.Common.{ℕ, ◌≡◌, ◌&&◌, Option, none, some, [], arith, if◌then◌else◌}
use service_reliability_watc.Common.Text.{Text, text_eq, text_eq_iff}
use service_reliability_watc.Common.Assoc.{Assoc, lookup, insert, lookup-insert}

abbrev pub Vec : Type 0 → Type 0
Vec V = Assoc (Assoc V)

abbrev pub no_values : {V : Type 0} → Vec V
no_values = []

abbrev or_empty : {V : Type 0} → Option (Assoc V) → Assoc V
or_empty none = []
or_empty (some m) = m

unfoldable pub get : {V : Type 0} → Text → Text → Vec V → Option V
get a b v = lookup b (or_empty (lookup a v))

unfoldable pub set : {V : Type 0} → Text → Text → V → Vec V → Vec V
set a b x v = insert a (insert b x (or_empty (lookup a v))) v

-- A counter that was never used reads as 0.
abbrev pub or_zero : Option ℕ → ℕ
or_zero none = 0
or_zero (some n) = n

pub get-set :
    {V : Type 0} (a b c d : Text) (x : V) (v : Vec V)
    → get c d (set a b x v) ≡ (if text_eq a c && text_eq b d then some x else get c d v)
unfolding get set
get-set a b c d x v = ground (
  arith,
  lookup-insert a c (insert b x (or_empty (lookup a v))) v,
  lookup-insert b d x (or_empty (lookup a v)),
  text_eq_iff a c,
)
