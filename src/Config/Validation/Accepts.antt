-- ===== src/Config/Validation/Accepts.antt =====
-- internal/config/config.go: EndpointConfig.Validate, check by check.
use service_reliability_watc.Common.{◌≡◌, ◌≢◌, ◌↔◌, ◌⊎◌, Bool, false, not, ◌||◌, [], ◌∷◌, arith}
use service_reliability_watc.Common.Int.{ℤ, pos, ◌≤ℤ◌, ◌<ℤ◌, ltb_ℤ, leb_ℤ}
use service_reliability_watc.Common.Float.{Float64}
use service_reliability_watc.Common.Text.{Text, codes, text_eq, text_eq_iff}
use service_reliability_watc.Common.Result.{ok, >>-eq-ok}
use service_reliability_watc.Config.Types.{EndpointConfig}
use service_reliability_watc.Config.Validation.{Addresses, contains, reject_iff, validate_endpoint}
use service_reliability_watc.Config.Validation.Endpoints.{IsValidEndpoint, check_address_iff}

names_iff :
    (a b c : Text)
    → ((text_eq a [] || text_eq b [] || text_eq c []) ≡ false) ↔ ((a ≢ []) × (b ≢ []) × (c ≢ []))
names_iff a b c = (
  λ h. (
    ground (arith, text_eq_iff a []),
    ground (arith, text_eq_iff b []),
    ground (arith, text_eq_iff c []),
  ),
  λ h. ground (arith, text_eq_iff a [], text_eq_iff b [], text_eq_iff c []),
)

types_iff :
    (t : Text)
    → (not (contains (codes "http" ∷ codes "tcp" ∷ codes "tls" ∷ []) t) ≡ false)
      ↔ ((t ≡ codes "http") ⊎ (t ≡ codes "tcp") ⊎ (t ≡ codes "tls"))
unfolding contains
types_iff t = (
  λ h. ground (
    arith,
    text_eq_iff (codes "http") t,
    text_eq_iff (codes "tcp") t,
    text_eq_iff (codes "tls") t,
  ),
  λ h. ground (
    arith,
    text_eq_iff (codes "http") t,
    text_eq_iff (codes "tcp") t,
    text_eq_iff (codes "tls") t,
  ),
)

times_iff :
    (a b : ℤ) → ((leb_ℤ a (pos 0) || leb_ℤ b (pos 0)) ≡ false) ↔ ((pos 0 <ℤ a) × (pos 0 <ℤ b))
times_iff a b = (λ h. ground arith, λ h. ground arith)

retries_iff :
    (r : ℤ) → ((ltb_ℤ r (pos 0) || ltb_ℤ (pos 10) r) ≡ false) ↔ ((pos 0 ≤ℤ r) × (r ≤ℤ pos 10))
retries_iff r = (λ h. ground arith, λ h. ground arith)

either_iff : (a b : Bool) → ((a || b) ≡ false) ↔ ((a ≡ false) × (b ≡ false))
either_iff a b = (λ h. ground arith, λ h. ground arith)

-- EndpointConfig.Validate returns nil exactly for the valid endpoints: id, name and address are not
-- empty, the type is http, tcp or tls, timeout and interval are positive, retries are 0 to 10, the
-- availability target is neither at most 0 nor at least 1, and the address fits the type.
pub validate_endpoint_iff :
    {F : Type 0} (fl : Float64 F) (net : Addresses) (e : EndpointConfig F)
    → (validate_endpoint fl net e ≡ ok tt) ↔ IsValidEndpoint fl net e
unfolding validate_endpoint
validate_endpoint_iff fl net e = (forth, back)
  where
    forth : validate_endpoint fl net e ≡ ok tt → IsValidEndpoint fl net e
    forth h =
        let (n, h1) = (>>-eq-ok _ _ tt).0 h in
        let (t, h2) = (>>-eq-ok _ _ tt).0 h1 in
        let (d, h3) = (>>-eq-ok _ _ tt).0 h2 in
        let (r, h4) = (>>-eq-ok _ _ tt).0 h3 in
        let (a, h5) = (>>-eq-ok _ _ tt).0 h4 in
        record {
          named = (names_iff e.id e.name e.address).0 ((reject_iff _ _).0 n);
          typed = (types_iff e.type).0 ((reject_iff _ _).0 t);
          timed = (times_iff e.timeout e.interval).0 ((reject_iff _ _).0 d);
          retried = (retries_iff e.retries).0 ((reject_iff _ _).0 r);
          targeted = (either_iff _ _).0 ((reject_iff _ _).0 a);
          addressed = (check_address_iff fl net e.type e.address).0 h5;
        }

    back : IsValidEndpoint fl net e → validate_endpoint fl net e ≡ ok tt
    back v = rw (
      (names_iff e.id e.name e.address).1 v.named,
      (types_iff e.type).1 v.typed,
      (times_iff e.timeout e.interval).1 v.timed,
      (retries_iff e.retries).1 v.retried,
      (either_iff _ _).1 v.targeted,
      (check_address_iff fl net e.type e.address).1 v.addressed,
    )
