-- ===== src/Web/Headers.antt =====
-- internal/web/server.go: the security headers of every response.
use service_reliability_watc.Common.{
  ◌≡◌, refl, subst, Bool-cases, inl, inr, Bool, Option, none, some, [], All,
}
use service_reliability_watc.Common.Text.{Text, codes, text_eq}
use service_reliability_watc.Common.Assoc.{Assoc, lookup, insert}
use service_reliability_watc.Common.Result.{Result, ok, err}
use service_reliability_watc.Domain.Types.{StatusSnapshot, EndpointStatus}
use service_reliability_watc.Web.{
  StatusService, Response, Request, Route, status_page, live, ready, status_api, transitions_api,
  alerts_api, metrics, not_allowed, endpoint_api, route, dispatch, answer, security_headers,
  set_all, serve, add_headers, write_json, rendered, internal_error, not_found, live_response,
  ready_response, endpoint_response, not_allowed_response, metrics_response,
}

-- The security headers are there, with their values.
abbrev pub IsSecured : Assoc Text → Type 0
IsSecured headers = All (λ h. lookup h.0 headers ≡ some h.1) security_headers

-- Every response that a handler writes is secured once its headers are added.
abbrev IsFit : {F : Type 0} → Option (Response F) → Type 0
IsFit none = Unit
IsFit (some a) = IsSecured (set_all a.headers security_headers)

module _ {F : Type 0} where
  rendered-IsFit : (x : StatusSnapshot F) → IsFit (some (rendered x))
  unfolding rendered set_all insert lookup text_eq
  rendered-IsFit x = (refl, (refl, (refl, tt)))

  answer-IsFit :
      {A : Type 0} (write : A → Response F) (x : Result Text A)
      → ((a : A) → IsFit (some (write a)))
      → IsFit (answer write x)
  unfolding internal_error write_json set_all insert lookup text_eq
  answer-IsFit write (err e) h = (refl, (refl, (refl, tt)))
  answer-IsFit write (ok a) h = h a

  endpoint_response-IsFit :
      (is_cancelled : Text → Bool) (x : Result Text (EndpointStatus F))
      → IsFit (endpoint_response is_cancelled x)
  unfolding endpoint_response not_found internal_error write_json set_all insert lookup text_eq
  endpoint_response-IsFit is_cancelled (ok e) = (refl, (refl, (refl, tt)))
  endpoint_response-IsFit is_cancelled (err e) = elim (Bool-cases (is_cancelled e)) [
    | inl gone ↦ rw (gone, endpoint_response) tt
    | inr there ↦ elim (Bool-cases (text_eq e (codes "endpoint not found"))) [
      | inl unknown ↦ rw (there, unknown, endpoint_response) ((refl, (refl, (refl, tt))))
      | inr other ↦ rw (there, other, endpoint_response) ((refl, (refl, (refl, tt))))
    ]
  ]

ready_response-IsFit :
    (F : Type 0) (ping : Result Text (Unit {0})) → IsFit (some (ready_response {F = F} ping))
unfolding ready_response write_json set_all insert lookup text_eq
ready_response-IsFit F (err e) = (refl, (refl, (refl, tt)))
ready_response-IsFit F (ok u) = (refl, (refl, (refl, tt)))

module _ {F : Type 0} (is_cancelled : Text → Bool) (service : StatusService F)
    (ping : Result Text (Unit {0})) where
  dispatch-IsFit : (t : Route) (r : Request) → IsFit (dispatch is_cancelled service ping t r)
  unfolding dispatch live_response not_allowed_response metrics_response write_json set_all insert
      lookup text_eq
  dispatch-IsFit status_page r = answer-IsFit _ service.snapshot rendered-IsFit
  dispatch-IsFit live r = (refl, (refl, (refl, tt)))
  dispatch-IsFit ready r = ready_response-IsFit F ping
  dispatch-IsFit status_api r = answer-IsFit _ service.snapshot (λ x. (refl, (refl, (refl, tt))))
  dispatch-IsFit transitions_api r = answer-IsFit _ _ (λ x. (refl, (refl, (refl, tt))))
  dispatch-IsFit alerts_api r = answer-IsFit _ _ (λ x. (refl, (refl, (refl, tt))))
  dispatch-IsFit metrics r = (refl, (refl, (refl, tt)))
  dispatch-IsFit not_allowed r = (refl, (refl, (refl, tt)))
  dispatch-IsFit (endpoint_api id) r = endpoint_response-IsFit is_cancelled (service.endpoint id)

  added :
      (x : Option (Response F)) (a : Response F)
      → IsFit x
      → add_headers x ≡ some a
      → IsSecured a.headers
  unfolding add_headers
  added none a h e = cc
  added (some b) a h e = subst (λ c. IsSecured (headers_of c)) e h
    where
      headers_of : Option (Response F) → Assoc Text
      headers_of none = []
      headers_of (some c) = c.headers

  -- Whatever the request asks for, also by another method or on an error, every response that is
  -- written carries the three security headers with their values: no handler replaces one.
  pub serve-IsSecured :
      (r : Request) (a : Response F)
      → serve is_cancelled service ping r ≡ some a
      → IsSecured a.headers
  unfolding serve
  serve-IsSecured r a e =
      added (dispatch is_cancelled service ping (route r) r) a (dispatch-IsFit (route r) r) e
