-- ===== src/Checker/Addresses.antt =====
-- internal/checker/checker.go: SafeAddress and statusText. url.Parse, the URL's String,
-- http.StatusText and strconv.Itoa are parameters.
use service_reliability_watc.Common.{◌≡◌, true, refl, Option, none, [], ◌++◌, if◌then◌else◌}
use service_reliability_watc.Common.Int.{ℤ}
use service_reliability_watc.Common.Text.{Text, codes, text_eq}
use service_reliability_watc.Common.Result.{Result, ok, err}
use service_reliability_watc.Domain.Types.{check_http, Endpoint}

-- A url.URL: the parts that SafeAddress clears, and what is left of it.
pub record Url (U : Type 0) : Type 0 where
  pub user : Option Text
  pub raw_query : Text
  pub fragment : Text
  pub rest : U

pub record Urls (U : Type 0) : Type 0 where
  pub parse : Text → Result Text (Url U)
  pub print : Url U → Text

-- `text` where it is not empty.
status_text : (ℤ → Text) → (ℤ → Text) → ℤ → Text
status_text itoa named code =
    let text = named code in if text_eq text [] then itoa code else itoa code ++ codes " " ++ text

abbrev cleared : {U : Type 0} → Url U → Url U
cleared u = record u { user = none; raw_query = []; fragment = [] }

module _ {F U : Type 0} (urls : Urls U) where
  unfoldable pub safe_address : Endpoint F → Text
  safe_address e =
      if text_eq e.type check_http
      then (elim (urls.parse e.address) [ err x ↦ e.address | ok u ↦ urls.print (cleared u) ])
      else e.address

  -- Two HTTP endpoints whose URLs differ at most in the user, the query and the fragment, have the same
  -- safe address: it shows none of the three.
  pub safe_address_hides :
      (d e : Endpoint F) (u v : Url U)
      → text_eq d.type check_http ≡ true
      → text_eq e.type check_http ≡ true
      → urls.parse d.address ≡ ok u
      → urls.parse e.address ≡ ok v
      → u.rest ≡ v.rest
      → safe_address d ≡ safe_address e
  unfolding safe_address
  safe_address_hides d e u v dh eh dp ep same = rw (dh, eh, dp, ep, safe_address, same) refl
