-- ===== src/Config/Validation/Endpoints.antt =====
-- internal/config/config.go: what EndpointConfig.Validate accepts.
use service_reliability_watc.Common.{
  ◌≡◌, ◌≢◌, refl, ◌↔◌, ◌⊎◌, inl, inr, true, false, not, Option, none, some, [], arith, Bool-cases,
}
use service_reliability_watc.Common.Int.{pos, ◌≤ℤ◌, ◌<ℤ◌}
use service_reliability_watc.Common.Float.{Float64}
use service_reliability_watc.Common.Text.{Text, codes, text_eq, text_eq_iff}
use service_reliability_watc.Common.Result.{ok}
use service_reliability_watc.Config.Types.{EndpointConfig}
use service_reliability_watc.Config.Validation.{
  Url, Addresses, reject, contains, is_absolute, is_some, bad_url, bad_host_port, check_address,
}

abbrev http : Text
http = codes "http"

-- An absolute http or https URL.
abbrev pub IsAbsolute : Option Url → Type 0
IsAbsolute o =
    (u : Url) × (o ≡ some u)
    × ((u.scheme ≡ codes "http") ⊎ (u.scheme ≡ codes "https"))
    × (u.host ≢ [])

is_absolute_iff : (o : Option Url) → (is_absolute o ≡ true) ↔ IsAbsolute o
unfolding is_absolute contains
is_absolute_iff none = (λ h. cc, λ (u, e, _, _). cc)
is_absolute_iff (some u) = (forth, back)
  where
    forth : is_absolute (some u) ≡ true → IsAbsolute (some u)
    forth h = (
      u,
      refl,
      ground (
        arith,
        text_eq_iff (codes "http") u.scheme,
        text_eq_iff (codes "https") u.scheme,
        text_eq_iff u.host [],
      ),
      ground (arith, text_eq_iff u.host []),
    )

    back : IsAbsolute (some u) → is_absolute (some u) ≡ true
    back (w, e, s, h) = absolute w (ground arith) s h
      where
        absolute :
            (w : Url)
            → u ≡ w
            → (w.scheme ≡ codes "http") ⊎ (w.scheme ≡ codes "https")
            → w.host ≢ []
            → is_absolute (some u) ≡ true
        absolute w e s h = ground (
          arith,
          text_eq_iff (codes "http") u.scheme,
          text_eq_iff (codes "https") u.scheme,
          text_eq_iff u.host [],
        )

is_some_iff : (o : Option (Text × Text)) → (is_some o ≡ true) ↔ ((p : Text × Text) × (o ≡ some p))
unfolding is_some
is_some_iff none = (λ h. cc, λ (p, e). cc)
is_some_iff (some p) = (λ h. (p, refl), λ e. refl)

module _ {F : Type 0} (fl : Float64 F) (net : Addresses) where
  -- The address fits the type.
  abbrev pub IsAddress : Text → Text → Type 0
  IsAddress type address =
      ((type ≡ codes "http") × IsAbsolute (net.parse_url address))
      ⊎ ((type ≢ codes "http") × ((p : Text × Text) × (net.split_host_port address ≡ some p)))

  pub record IsValidEndpoint (e : EndpointConfig F) : Type 0 where
    pub named : (e.id ≢ []) × (e.name ≢ []) × (e.address ≢ [])
    pub typed : (e.type ≡ codes "http") ⊎ (e.type ≡ codes "tcp") ⊎ (e.type ≡ codes "tls")
    pub timed : (pos 0 <ℤ e.timeout) × (pos 0 <ℤ e.interval)
    pub retried : (pos 0 ≤ℤ e.retries) × (e.retries ≤ℤ pos 10)
    pub targeted :
        (fl.le e.slo.availability_target (fl.decimal 0 0) ≡ false)
        × (fl.le (fl.decimal 1 0) e.slo.availability_target ≡ false)
    pub addressed : IsAddress e.type e.address

  pub check_address_iff :
      (type address : Text) → (check_address fl net type address ≡ ok tt) ↔ IsAddress type address
  unfolding check_address
  check_address_iff type address = elim (Bool-cases (text_eq type http)) [
    | inl is_http ↦
        rw (is_http, check_address)
          (
            λ h. inl (
              (text_eq_iff type http).0 is_http,
              (is_absolute_iff (net.parse_url address)).0 (ground arith),
            ),
            λ a. absolute ((text_eq_iff type http).0 is_http) a,
          )
    | inr no_http ↦
        rw (no_http, check_address)
          (
            λ h. inr (other no_http, (is_some_iff (net.split_host_port address)).0 (ground arith)),
            λ a. split (other no_http) a,
          )
  ]
    where
      other : text_eq type http ≡ false → type ≢ http
      other d e = ground (arith, text_eq_iff type http)

      absolute :
          type ≡ http
          → IsAddress type address
          → reject (not (is_absolute (net.parse_url address))) bad_url ≡ ok tt
      absolute e (inl (_, a)) = rw ((is_absolute_iff (net.parse_url address)).1 a)
      absolute e (inr (d, _)) = absurd (d e)

      split :
          type ≢ http
          → IsAddress type address
          → reject (not (is_some (net.split_host_port address))) bad_host_port ≡ ok tt
      split d (inl (e, _)) = absurd (d e)
      split d (inr (_, p)) = rw ((is_some_iff (net.split_host_port address)).1 p)
