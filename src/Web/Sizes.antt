-- ===== src/Web/Sizes.antt =====
-- internal/web/server.go over internal/store/memory.go: how long the lists of transitions and of
-- alerts are that the server answers with.
use service_reliability_watc.Common.{
  length-take-le, ℕ, ◌≤◌, ◌≡◌, refl, subst, Bool, Option, none, some, List, arith, length,
  Bool-cases, inl, inr,
}
use service_reliability_watc.Common.Float.{Float64}
use service_reliability_watc.Common.Text.{Text, codes, text_eq}
use service_reliability_watc.Common.Clock.{Time}
use service_reliability_watc.Common.Result.{Result, ok, err}
use service_reliability_watc.Domain.Types.{Alert, EndpointStatus}
use service_reliability_watc.Store.Memory.{Memory, transitions}
use service_reliability_watc.Store.Memory.Queries.{transitions_lem}
use service_reliability_watc.Store.Memory.Repository.{memory_repository, alerts}
use service_reliability_watc.Monitor.Types.{Service}
use service_reliability_watc.Web.{
  StatusService, Body, transitions_json, alerts_json, Response, Request, Route, status_page, live,
  ready, status_api, transitions_api, alerts_api, metrics, not_allowed, endpoint_api, route,
  dispatch, answer, serve, add_headers, query_get, write_json, rendered, internal_error, not_found,
  live_response, ready_response, endpoint_response, not_allowed_response, metrics_response,
}
use service_reliability_watc.Web.Limit.{parse_limit}
use service_reliability_watc.Web.Memory.{status_service}

-- How long the list is that a body consists of; a snapshot and a status of an endpoint are no lists.
abbrev pub listed : {F : Type 0} → Body F → ℕ
listed (transitions_json items) = length items
listed (alerts_json items) = length items
listed _ = 0

-- A limit that parseLimit gives is never above 500, nor 0.
parse_limit_bounds : (text : Text) → (1 ≤ parse_limit text 100) × (parse_limit text 100 ≤ 500)
unfolding parse_limit
parse_limit_bounds text = (ground arith, ground arith)

abbrev IsShort : {F : Type 0} → Option (Response F) → Type 0
IsShort none = Unit
IsShort (some a) = listed a.body ≤ 500

module _ {F : Type 0} where
  answer-IsShort :
      {A : Type 0} (write : A → Response F) (x : Result Text A)
      → ((a : A) → x ≡ ok a → listed (write a).body ≤ 500)
      → IsShort (answer write x)
  unfolding internal_error write_json
  answer-IsShort write (err e) h = omega arith
  answer-IsShort write (ok a) h = h a refl

  endpoint_response-IsShort :
      (is_cancelled : Text → Bool) (x : Result Text (EndpointStatus F))
      → IsShort (endpoint_response is_cancelled x)
  unfolding endpoint_response not_found internal_error write_json
  endpoint_response-IsShort is_cancelled (ok e) = omega arith
  endpoint_response-IsShort is_cancelled (err e) = elim (Bool-cases (is_cancelled e)) [
    | inl gone ↦ rw (gone, endpoint_response) tt
    | inr there ↦ elim (Bool-cases (text_eq e (codes "endpoint not found"))) [
      | inl unknown ↦ rw (there, unknown, endpoint_response) (omega arith)
      | inr other ↦ rw (there, other, endpoint_response) (omega arith)
    ]
  ]

ready_response-IsShort :
    (F : Type 0) (ping : Result Text (Unit {0})) → IsShort (some (ready_response {F = F} ping))
unfolding ready_response write_json
ready_response-IsShort F (err e) = omega arith
ready_response-IsShort F (ok u) = omega arith

added :
    {F : Type 0} (x : Option (Response F)) (a : Response F)
    → IsShort x
    → add_headers x ≡ some a
    → listed a.body ≤ 500
unfolding add_headers
added none a h e = cc
added (some b) a h e = subst IsShort e h

module _ {F : Type 0} (fl : Float64 F) (sort : List Alert → List Alert) (is_cancelled : Text → Bool)
    (ping : Result Text (Unit {0})) (s : Service F (Memory F)) (now : Time) where
  abbrev over_memory : StatusService F
  over_memory = status_service fl (memory_repository F sort) s now

  transitions-short : (id : Text) (limit : ℕ) → length (transitions s.repo id limit) ≤ limit
  transitions-short id limit = rw (transitions_lem s.repo id limit) (length-take-le limit _)

  alerts-short : (limit : ℕ) → length (alerts sort s.repo limit) ≤ limit
  unfolding alerts
  alerts-short limit = ground (arith, length-take-le limit (sort s.repo.alerts))

  dispatch-IsShort :
      (t : Route) (r : Request) → IsShort (dispatch is_cancelled over_memory ping t r)
  unfolding dispatch live_response not_allowed_response metrics_response write_json rendered
      ready_response
  dispatch-IsShort status_page r = answer-IsShort _ _ (λ a e. omega arith)
  dispatch-IsShort live r = omega arith
  dispatch-IsShort ready r = ready_response-IsShort F ping
  dispatch-IsShort status_api r = answer-IsShort _ _ (λ a e. omega arith)
  dispatch-IsShort transitions_api r =
      let limit = query_get r (codes "limit") in
      omega (
        arith,
        transitions-short (query_get r (codes "endpoint")) (parse_limit limit 100),
        (parse_limit_bounds limit).1,
      )
  dispatch-IsShort alerts_api r =
      let limit = query_get r (codes "limit") in
      omega (arith, alerts-short (parse_limit limit 100), (parse_limit_bounds limit).1)
  dispatch-IsShort metrics r = omega arith
  dispatch-IsShort not_allowed r = omega arith
  dispatch-IsShort (endpoint_api id) r = endpoint_response-IsShort is_cancelled _

  -- No request is answered, by a server over the memory, with a body that is a list of more than 500
  -- transitions or alerts. The transitions within a snapshot or the status of an endpoint are not
  -- counted.
  pub serve-IsShort :
      (r : Request) (a : Response F)
      → serve is_cancelled over_memory ping r ≡ some a
      → listed a.body ≤ 500
  unfolding serve
  serve-IsShort r a e =
      added (dispatch is_cancelled over_memory ping (route r) r) a (dispatch-IsShort (route r) r) e
