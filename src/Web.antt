-- ===== src/Web.antt =====
-- internal/web/server.go: the routes and the handlers. A handler gives the response that it writes, or
-- none, where net/http answers 200 with an empty body. The logger is left out, and requestLog, which only logs, with it. The template and the metrics
-- handler are third-party code: the response says which of them writes its body, and on what.
pub mod Limit
pub mod Routes
pub mod Headers
pub mod Failures
pub mod Memory
pub mod Sizes
unfoldable pub use service_reliability_watc.Web.Routes.{query_get, route}
pub use service_reliability_watc.Web.Routes.{
  Request, Route, status_page, live, ready, status_api, transitions_api, alerts_api, metrics,
  not_allowed, endpoint_api,
}
use service_reliability_watc.Common.{
  ℕ, Bool, true, false, Option, none, some, List, [], ◌∷◌, ◌++◌, if◌then◌else◌,
}
use service_reliability_watc.Common.Text.{Text, codes, text_eq}
use service_reliability_watc.Common.Assoc.{Assoc, lookup, insert}
use service_reliability_watc.Common.Result.{Result, ok, err}
use service_reliability_watc.Domain.Types.{Transition, Alert, EndpointStatus, StatusSnapshot}
use service_reliability_watc.Web.Limit.{parse_limit}

pub record StatusService (F : Type 0) : Type 0 where
  pub snapshot : Result Text (StatusSnapshot F)
  pub endpoint : Text → Result Text (EndpointStatus F)
  pub transitions : Text → ℕ → Result Text (List Transition)
  pub alerts : ℕ → Result Text (List Alert)

-- What a body is encoded from: for JSON, the value; the page, from the snapshot; the registry's text.
pub data Body (F : Type 0) : Type 0 where
  fields : Assoc Text → Body F
  snapshot_json : StatusSnapshot F → Body F
  endpoint_json : EndpointStatus F → Body F
  transitions_json : List Transition → Body F
  alerts_json : List Alert → Body F
  page : StatusSnapshot F → Body F
  metrics_text : Body F
  plain_text : Text → Body F

pub record Response (F : Type 0) : Type 0 where
  pub status : ℕ
  pub headers : Assoc Text
  pub body : Body F

module _ {F : Type 0} where
  unfoldable pub write_json : ℕ → Body F → Response F
  write_json status value = record {
    status = status;
    headers = (codes "Content-Type", codes "application/json") ∷ [];
    body = value;
  }

  abbrev field : Text → Text → Body F
  field key value = fields ((key, value) ∷ [])

  unfoldable pub internal_error : Response F
  unfolding write_json
  internal_error = write_json 500 (field (codes "error") (codes "internal server error"))

  not_found : Response F
  unfolding write_json
  not_found = write_json 404 (field (codes "error") (codes "endpoint not found"))

  -- `if err != nil { s.internalError(writer, err); return }`, then the answer.
  abbrev answer : {A : Type 0} → (A → Response F) → Result Text A → Option (Response F)
  answer write (err e) = some internal_error
  answer write (ok value) = some (write value)

  -- The response of statusPage; an error of the template is only logged.
  rendered : StatusSnapshot F → Response F
  rendered s = record {
    status = 200;
    headers = (codes "Content-Type", codes "text/html; charset=utf-8") ∷ [];
    body = page s;
  }

  live_response : Response F
  unfolding write_json
  live_response = write_json 200 (field (codes "status") (codes "alive"))

  ready_response : Result Text (Unit {0}) → Response F
  unfolding write_json
  ready_response (err e) = write_json 503 (
      fields
        ((codes "status", codes "not ready") ∷ (codes "reason", codes "database unavailable") ∷ []))
  ready_response (ok u) = write_json 200 (field (codes "status") (codes "ready"))

  -- endpointAPI; the test stands for errors.Is(err, context.Canceled).
  endpoint_response : (Text → Bool) → Result Text (EndpointStatus F) → Option (Response F)
  unfolding write_json
  endpoint_response is_cancelled (ok e) = some (write_json 200 (endpoint_json e))
  endpoint_response is_cancelled (err e) =
      if is_cancelled e
      then none
      else if text_eq e (codes "endpoint not found")
      then some not_found
      else some internal_error

  not_allowed_response : Response F
  not_allowed_response = record {
    status = 405;
    headers =
        (codes "Allow", codes "GET, HEAD")
        ∷ (codes "Content-Type", codes "text/plain; charset=utf-8")
        ∷ (codes "X-Content-Type-Options", codes "nosniff")
        ∷ [];
    body = plain_text (codes "Method Not Allowed");
  }

  metrics_response : Response F
  metrics_response = record { status = 200; headers = []; body = metrics_text }

-- The headers that securityHeaders sets before it calls the next handler.
abbrev pub security_headers : Assoc Text
security_headers =
    (codes "X-Content-Type-Options", codes "nosniff")
    ∷ (codes "Referrer-Policy", codes "no-referrer")
    ∷ (codes "Content-Security-Policy", codes "default-src 'self'; style-src 'unsafe-inline'")
    ∷ []

-- `Header().Set`, for each of the headers in turn.
unfoldable pub set_all : Assoc Text → Assoc Text → Assoc Text
set_all [] m = m
set_all ((key, value) ∷ rest) m = set_all rest (insert key value m)

unfoldable pub add_headers : {F : Type 0} → Option (Response F) → Option (Response F)
unfolding set_all
add_headers none = none
add_headers (some a) = some (record a { headers = set_all a.headers security_headers })

module _ {F : Type 0} (is_cancelled : Text → Bool) (service : StatusService F)
    (ping : Result Text (Unit {0})) where
  unfoldable pub dispatch : Route → Request → Option (Response F)
  unfolding internal_error not_found rendered write_json live_response ready_response
      endpoint_response not_allowed_response metrics_response
  dispatch status_page r = answer rendered service.snapshot
  dispatch live r = some live_response
  dispatch ready r = some (ready_response ping)
  dispatch status_api r = answer (λ s. write_json 200 (snapshot_json s)) service.snapshot
  dispatch (endpoint_api id) r = endpoint_response is_cancelled (service.endpoint id)
  dispatch transitions_api r =
      answer (λ items. write_json 200 (transitions_json items))
        (service.transitions (query_get r (codes "endpoint"))
          (parse_limit (query_get r (codes "limit")) 100))
  dispatch alerts_api r =
      answer (λ items. write_json 200 (alerts_json items))
        (service.alerts (parse_limit (query_get r (codes "limit")) 100))
  dispatch metrics r = some metrics_response
  dispatch not_allowed r = some not_allowed_response

  -- Handler.
  unfoldable pub serve : Request → Option (Response F)
  unfolding dispatch add_headers
  serve r = add_headers (dispatch (route r) r)
