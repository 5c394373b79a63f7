-- ===== src/Config/Validation.antt =====
-- internal/config/config.go: the two Validate methods. An error is a value that names the failed
-- check with what its message shows. url.Parse and net.SplitHostPort are a parameter.
pub mod Endpoints
pub mod Accepts
pub mod Sound
use service_reliability_watc.Common.{
  ℕ, suc, ◌+◌, ◌≡◌, refl, ◌↔◌, Bool, true, false, not, ◌&&◌, ◌||◌, Option, none, some, List, [],
  ◌∷◌, if◌then◌else◌,
}
use service_reliability_watc.Common.Int.{ℤ, pos, ltb_ℤ, leb_ℤ}
use service_reliability_watc.Common.Float.{Float64}
use service_reliability_watc.Common.Text.{Text, codes, text_eq}
use service_reliability_watc.Common.Clock.{after}
use service_reliability_watc.Common.Result.{Result, ok, err, ◌>>=◌, ◌>>◌}
use service_reliability_watc.Config.Types.{EndpointConfig, MaintenanceWindow, Config}

-- What a parsed URL shows, and the two functions; `none` is an error.
pub record Url : Type 0 where
  pub scheme : Text
  pub host : Text

pub record Addresses : Type 0 where
  pub parse_url : Text → Option Url
  pub split_host_port : Text → Option (Text × Text)

pub data EndpointError : Type 0 where
  missing_names bad_times bad_retries bad_availability bad_url bad_host_port : EndpointError
  bad_type : Text → EndpointError

pub data ConfigError : Type 0 where
  no_database_url bad_workers no_endpoints : ConfigError
  bad_endpoint : ℕ → EndpointError → ConfigError
  duplicate_endpoint : Text → ConfigError
  bad_window : ℕ → ConfigError
  unknown_endpoint : Text → Text → ConfigError

-- slices.Contains.
unfoldable pub contains : List Text → Text → Bool
contains [] x = false
contains (y ∷ ys) x = text_eq y x || contains ys x

-- `if c { return e }`.
abbrev pub reject : {E : Type 0} → Bool → E → Result E (Unit {0})
reject true e = err e
reject false e = ok tt

pub reject_iff : {E : Type 0} (b : Bool) (e : E) → (reject b e ≡ ok tt) ↔ (b ≡ false)
reject_iff true e = (λ h. cc, λ h. cc)
reject_iff false e = (λ h. refl, λ h. refl)

is_absolute : Option Url → Bool
is_absolute none = false
is_absolute (some u) =
    contains (codes "http" ∷ codes "https" ∷ []) u.scheme && not (text_eq u.host [])

is_some : Option (Text × Text) → Bool
is_some none = false
is_some (some p) = true

module _ {F : Type 0} (fl : Float64 F) (net : Addresses) where
  -- The last check: by type, of the address.
  pub check_address : Text → Text → Result EndpointError (Unit {0})
  check_address type address =
      if text_eq type (codes "http")
      then reject (not (is_absolute (net.parse_url address))) bad_url
      else reject (not (is_some (net.split_host_port address))) bad_host_port

  unfoldable pub validate_endpoint : EndpointConfig F → Result EndpointError (Unit {0})
  unfolding contains is_absolute is_some check_address
  validate_endpoint e = do
    reject (text_eq e.id [] || text_eq e.name [] || text_eq e.address []) missing_names
    reject (not (contains (codes "http" ∷ codes "tcp" ∷ codes "tls" ∷ []) e.type)) (bad_type e.type)
    reject (leb_ℤ e.timeout (pos 0) || leb_ℤ e.interval (pos 0)) bad_times
    reject (ltb_ℤ e.retries (pos 0) || ltb_ℤ (pos 10) e.retries) bad_retries
    reject
        (fl.le e.slo.availability_target (fl.decimal 0 0)
          || fl.le (fl.decimal 1 0) e.slo.availability_target)
        bad_availability
    check_address e.type e.address

  -- The loop over the endpoints, with the index and the keys of `seen`; it gives the keys at its end.
  check_endpoints : ℕ → List Text → List (EndpointConfig F) → Result ConfigError (List Text)
  check_endpoints index seen [] = ok seen
  check_endpoints index seen (e ∷ es) =
      let rest = check_endpoints (index + 1) (e.id ∷ seen) es in
      elim (validate_endpoint e) [
        | err x ↦ err (bad_endpoint index x)
        | ok _ ↦ if contains seen e.id then err (duplicate_endpoint e.id) else rest
      ]

-- The inner loop over the ids of a window.
check_references : Text → List Text → List Text → Result ConfigError (Unit {0})
check_references name seen [] = ok tt
check_references name seen (id ∷ ids) =
    let rest = check_references name seen ids in
    if contains seen id then rest else err (unknown_endpoint name id)

-- The loop over the windows.
check_windows : ℕ → List Text → List MaintenanceWindow → Result ConfigError (Unit {0})
check_windows index seen [] = ok tt
check_windows index seen (w ∷ ws) = do
  reject (text_eq w.name [] || not (after w.end w.start)) (bad_window index)
  check_references w.name seen w.endpoints
  check_windows (index + 1) seen ws

abbrev is_empty : {F : Type 0} → List (EndpointConfig F) → Bool
is_empty [] = true
is_empty (e ∷ es) = false

unfoldable pub validate :
    {F : Type 0} → Float64 F → Addresses → Config F → Result ConfigError (Unit {0})
unfolding check_endpoints check_references check_windows
validate fl net c = do
  reject (text_eq c.database.url []) no_database_url
  reject (ltb_ℤ c.scheduler.workers (pos 1) || ltb_ℤ c.scheduler.concurrency_limit (pos 1))
      bad_workers
  reject (is_empty c.endpoints) no_endpoints
  seen ← check_endpoints fl net 0 [] c.endpoints
  check_windows 0 seen c.maintenance
