-- ===== src/Web/Failures.antt =====
-- internal/web/server.go: what a response tells of an error.
use service_reliability_watc.Common.{ℕ, ◌≡◌, refl, ap, Bool, false, some, arith}
use service_reliability_watc.Common.Text.{Text, codes, text_eq}
use service_reliability_watc.Common.Result.{Result, ok, err}
use service_reliability_watc.Domain.Types.{EndpointStatus}
use service_reliability_watc.Web.{
  StatusService, Response, Request, Route, status_page, live, ready, status_api, transitions_api,
  alerts_api, metrics, not_allowed, endpoint_api, route, dispatch, answer, serve, add_headers,
  ready_response, endpoint_response,
}

-- An error that is neither a cancellation nor the one of an unknown endpoint.
abbrev pub IsInternal : (Text → Bool) → Text → Type 0
IsInternal is_cancelled e =
    (is_cancelled e ≡ false) × (text_eq e (codes "endpoint not found") ≡ false)

-- Two results that are the same, but for the text of an error of the kind `P`.
abbrev pub SameBut : {A : Type 0} → (Text → Type 0) → Result Text A → Result Text A → Type 0
SameBut P (ok a) (ok b) = a ≡ b
SameBut P (err e) (err e') = P e × P e'
SameBut P (ok a) (err e) = ⊥
SameBut P (err e) (ok a) = ⊥

abbrev pub AnyText : Text → Type 0
AnyText e = Unit

module _ {F : Type 0} (is_cancelled : Text → Bool) where
  -- Two services that answer alike, but for the texts of their internal errors.
  pub record Alike (s t : StatusService F) : Type 0 where
    pub snapshot : SameBut AnyText s.snapshot t.snapshot
    pub endpoint : (id : Text) → SameBut (IsInternal is_cancelled) (s.endpoint id) (t.endpoint id)
    pub transitions :
        (id : Text) (n : ℕ) → SameBut AnyText (s.transitions id n) (t.transitions id n)
    pub alerts : (n : ℕ) → SameBut AnyText (s.alerts n) (t.alerts n)

  answer-SameBut :
      {A : Type 0} (write : A → Response F) (x y : Result Text A)
      → SameBut AnyText x y
      → answer write x ≡ answer write y
  answer-SameBut write (ok a) (ok b) h = cc
  answer-SameBut write (err e) (err e') h = refl
  answer-SameBut write (ok a) (err e) h = absurd h
  answer-SameBut write (err e) (ok b) h = absurd h

  endpoint_response-SameBut :
      (x y : Result Text (EndpointStatus F))
      → SameBut (IsInternal is_cancelled) x y
      → endpoint_response is_cancelled x ≡ endpoint_response is_cancelled y
  unfolding endpoint_response
  endpoint_response-SameBut (ok a) (ok b) h = cc
  endpoint_response-SameBut (err e) (err e') h = ground (arith, h.0, h.1)
  endpoint_response-SameBut (ok a) (err e) h = absurd h
  endpoint_response-SameBut (err e) (ok b) h = absurd h

  ready_response-SameBut :
      (x y : Result Text (Unit {0}))
      → SameBut AnyText x y
      → ready_response {F = F} x ≡ ready_response y
  unfolding ready_response
  ready_response-SameBut (ok a) (ok b) h = refl
  ready_response-SameBut (err e) (err e') h = refl
  ready_response-SameBut (ok a) (err e) h = absurd h
  ready_response-SameBut (err e) (ok b) h = absurd h

  dispatch-Alike :
      (s t : StatusService F) (p q : Result Text (Unit {0})) (k : Route) (r : Request)
      → Alike s t
      → SameBut AnyText p q
      → dispatch is_cancelled s p k r ≡ dispatch is_cancelled t q k r
  unfolding dispatch
  dispatch-Alike s t p q status_page r a h = answer-SameBut _ _ _ a.snapshot
  dispatch-Alike s t p q live r a h = refl
  dispatch-Alike s t p q ready r a h = ap some (ready_response-SameBut p q h)
  dispatch-Alike s t p q status_api r a h = answer-SameBut _ _ _ a.snapshot
  dispatch-Alike s t p q transitions_api r a h = answer-SameBut _ _ _ (a.transitions _ _)
  dispatch-Alike s t p q alerts_api r a h = answer-SameBut _ _ _ (a.alerts _)
  dispatch-Alike s t p q metrics r a h = refl
  dispatch-Alike s t p q not_allowed r a h = refl
  dispatch-Alike s t p q (endpoint_api id) r a h =
      endpoint_response-SameBut (s.endpoint id) (t.endpoint id) (a.endpoint id)

  -- No response shows the text of an internal error: two services and pings that answer alike but
  -- for these texts give the same response to every request.
  pub serve-Alike :
      (s t : StatusService F) (p q : Result Text (Unit {0})) (r : Request)
      → Alike s t
      → SameBut AnyText p q
      → serve is_cancelled s p r ≡ serve is_cancelled t q r
  unfolding serve
  serve-Alike s t p q r a h = ap add_headers (dispatch-Alike s t p q (route r) r a h)
