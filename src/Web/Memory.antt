-- ===== src/Web/Memory.antt =====
-- internal/web/server.go over internal/monitor/service.go and internal/store/memory.go.
use service_reliability_watc.Common.{
  ℕ, ◌≡◌, refl, Bool, true, false, Option, none, some, List, [], ◌∷◌, if◌then◌else◌, Bool-cases,
  inl, inr,
}
use service_reliability_watc.Common.Float.{Float64}
use service_reliability_watc.Common.Text.{Text, codes, text_eq}
use service_reliability_watc.Common.Assoc.{lookup}
use service_reliability_watc.Common.Clock.{Time}
use service_reliability_watc.Common.Result.{Result}
use service_reliability_watc.Domain.Types.{Endpoint, Alert, EndpointStatus}
use service_reliability_watc.Store.Types.{Repository}
use service_reliability_watc.Store.Memory.{Memory, new_memory, latest_results}
use service_reliability_watc.Store.Memory.Repository.{memory_repository}
use service_reliability_watc.Monitor.Types.{Options, Service, new_service}
use service_reliability_watc.Monitor.Types.Index.{is_configured, IsIndexed, new_service-IsIndexed}
use service_reliability_watc.Monitor.Perform.{Visit, perform}
use service_reliability_watc.Monitor.Perform.Report.{perform_all}
use service_reliability_watc.Monitor.Snapshot
use service_reliability_watc.Monitor.Snapshot.{snapshot}
use service_reliability_watc.Monitor.Snapshot.Lookup.{endpoint-configured, endpoint-not_configured}
use service_reliability_watc.Web.{
  StatusService, Body, fields, endpoint_json, Response, Request, endpoint_api, route, dispatch,
  endpoint_response, add_headers, write_json, not_found, serve,
}

-- Service as the StatusService of the server, at a reading of the clock.
abbrev pub status_service :
    {F R : Type 0} → Float64 F → Repository F R → Service F R → Time → StatusService F
status_service fl repository s now = record {
  snapshot = snapshot fl repository s now;
  endpoint = Snapshot.endpoint fl repository s now;
  transitions = repository.transitions s.repo;
  alerts = repository.alerts s.repo;
}

-- "GET /api/v1/endpoints/{id}", for an id that is not empty.
abbrev pub endpoint_request : Text → Request
endpoint_request id = record {
  method = codes "GET";
  path = codes "api" ∷ codes "v1" ∷ codes "endpoints" ∷ id ∷ [];
  query = [];
}

route-endpoint_request :
    (c : ℕ) (id : Text) → route (endpoint_request (c ∷ id)) ≡ endpoint_api (c ∷ id)
unfolding route text_eq
route-endpoint_request c id = refl

-- A response, by its status and its body.
abbrev pub Answers : {F : Type 0} → Option (Response F) → ℕ → (Body F → Type 0) → Type 0
Answers none status P = ⊥
Answers (some a) status P = (a.status ≡ status) × P a.body

abbrev pub IsNotFound : {F : Type 0} → Body F → Type 0
IsNotFound b = b ≡ fields ((codes "error", codes "endpoint not found") ∷ [])

-- Checks change neither the endpoints nor the map by id.
perform_all-IsIndexed :
    {F R : Type 0} (fl : Float64 F) (repository : Repository F R) (s : Service F R)
    (visits : List (Endpoint F × Visit F))
    → IsIndexed s
    → IsIndexed (perform_all fl repository s visits)
      × ((perform_all fl repository s visits).endpoints ≡ s.endpoints)
unfolding perform_all perform
perform_all-IsIndexed fl repository s [] i = (i, refl)
perform_all-IsIndexed fl repository s ((e, v) ∷ rest) i =
    perform_all-IsIndexed fl repository (perform fl repository s e v) rest i

module _ {F : Type 0} (fl : Float64 F) (sort : List Alert → List Alert) (is_cancelled : Text → Bool)
    (ping : Result Text (Unit {0})) (endpoints : List (Endpoint F)) (options : Options)
    (visits : List (Endpoint F × Visit F)) (now : Time) where
  -- A service over an empty store, after some checks.
  abbrev pub running : Service F (Memory F)
  running =
      perform_all fl (memory_repository F sort) (new_service endpoints (new_memory {F = F}) options)
        visits

  abbrev pub served : Request → Option (Response F)
  served = serve is_cancelled (status_service fl (memory_repository F sort) running now) ping

  running-IsIndexed : IsIndexed running × (running.endpoints ≡ endpoints)
  unfolding new_service
  running-IsIndexed =
      perform_all-IsIndexed fl (memory_repository F sort)
        (new_service endpoints (new_memory {F = F}) options) visits
        (new_service-IsIndexed endpoints (new_memory {F = F}) options)

  -- The status of a configured endpoint, as a body shows it.
  abbrev pub ShowsLatest : Text → Body F → Type 0
  ShowsLatest id b =
      (st : EndpointStatus F) × (b ≡ endpoint_json st)
      × (st.endpoint.id ≡ id)
      × (st.last_result ≡ lookup id (latest_results running.repo))

  serve-configured :
      (c : ℕ) (t : Text)
      → is_configured (c ∷ t) endpoints ≡ true
      → Answers (served (endpoint_request (c ∷ t))) 200 (ShowsLatest (c ∷ t))
  unfolding serve dispatch endpoint_response add_headers write_json
  serve-configured c t h =
      let (i, same) = running-IsIndexed in
      let (st, found, id, last) = endpoint-configured fl sort running now (c ∷ t) i (rw same h) in
      rw (route-endpoint_request c t, found, endpoint_response) (refl, (st, refl, id, last))

  serve-not_configured :
      (c : ℕ) (t : Text)
      → is_configured (c ∷ t) endpoints ≡ false
      → is_cancelled (codes "endpoint not found") ≡ false
      → Answers (served (endpoint_request (c ∷ t))) 404 IsNotFound
  unfolding serve dispatch endpoint_response add_headers write_json not_found text_eq
  serve-not_configured c t h k =
      let (i, same) = running-IsIndexed in
      rw
        (
          route-endpoint_request c t,
          endpoint-not_configured fl sort running now (c ∷ t) i (rw same h),
          k,
          endpoint_response,
        )
        (refl, refl)

  -- After any checks of a service over an empty store in memory, the request for an endpoint's status
  -- is answered with 200 and a status of that id that shows its latest stored result, where a
  -- configured endpoint has the id, and otherwise with 404 and the error "endpoint not found"; the
  -- text of that error is taken to be no cancellation.
  pub serve-endpoint_request :
      (c : ℕ) (t : Text)
      → is_cancelled (codes "endpoint not found") ≡ false
      → Answers
          (served (endpoint_request (c ∷ t)))
          (if is_configured (c ∷ t) endpoints then 200 else 404)
          (elim (is_configured (c ∷ t) endpoints) [
            | true ↦ ShowsLatest (c ∷ t)
            | false ↦ IsNotFound
          ])
  serve-endpoint_request c t k = elim (Bool-cases (is_configured (c ∷ t) endpoints)) [
    | inl there ↦ rw there (serve-configured c t there)
    | inr missing ↦ rw missing (serve-not_configured c t missing k)
  ]
