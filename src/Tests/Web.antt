-- ===== src/Tests/Web.antt =====
-- internal/web/server.go: requests to a server over the memory.
use service_reliability_watc.Common.{ℕ, ◌≡◌, refl, Bool, [], ◌∷◌, ◌≤◌, arith}
use service_reliability_watc.Common.Text.{Text, codes, text_eq}
use service_reliability_watc.Common.Assoc.{lookup, insert}
use service_reliability_watc.Common.Result.{Result, ok, err}
use service_reliability_watc.Store.Memory.{Memory, new_memory}
use service_reliability_watc.Store.Memory.Repository.{memory_repository, alerts}
use service_reliability_watc.Monitor.Types.{Service, new_service}
use service_reliability_watc.Monitor.Perform.Report.{perform_all}
use service_reliability_watc.Web.{
  StatusService, Response, Request, fields, alerts_json, write_json, route, serve, dispatch,
  add_headers, set_all,
}
use service_reliability_watc.Web.Limit.{parse_limit, atoi, number}
use service_reliability_watc.Web.Limit.Decimal.{decimal, parse_limit-decimal}
use service_reliability_watc.Web.Failures.{serve-Alike}
use service_reliability_watc.Web.Memory.{
  endpoint_request, Answers, ShowsLatest, served, serve-endpoint_request,
}
use service_reliability_watc.Web.Sizes.{listed, serve-IsShort}
use service_reliability_watc.Tests.Data.{
  thousandths, api, at, api_endpoint, db_endpoint, visits, options, unsorted,
}

abbrev is_cancelled : Text → Bool
is_cancelled e = text_eq e (codes "context canceled")

abbrev pong : Result Text (Unit {0})
pong = ok tt

-- A service whose store fails, with the text of its error.
abbrev broken : Text → StatusService ℕ
broken e = record {
  snapshot = err e;
  endpoint = λ id. err e;
  transitions = λ id limit. err e;
  alerts = λ limit. err e;
}

abbrev get_alerts : Request
get_alerts = record {
  method = codes "GET";
  path = codes "api" ∷ codes "v1" ∷ codes "alerts" ∷ [];
  query = (codes "limit", codes "1") ∷ [];
}

abbrev failure_response : Response ℕ
failure_response = record {
  status = 500;
  headers =
      (codes "X-Content-Type-Options", codes "nosniff")
      ∷ (codes "Referrer-Policy", codes "no-referrer")
      ∷ (codes "Content-Security-Policy", codes "default-src 'self'; style-src 'unsafe-inline'")
      ∷ (codes "Content-Type", codes "application/json")
      ∷ [];
  body = fields ((codes "error", codes "internal server error") ∷ []);
}

abbrev monitored : Service ℕ (Memory ℕ)
monitored =
    perform_all thousandths (memory_repository ℕ unsorted)
      (new_service (api_endpoint ∷ db_endpoint ∷ []) new_memory options) visits

parse_limit-decimal_example : parse_limit (decimal 1234) 100 ≡ 500
parse_limit-decimal_example = parse_limit-decimal 1234 100 (omega arith)

serve-Alike_example :
    serve is_cancelled (broken (codes "disk full")) (err (codes "down")) get_alerts
    ≡ serve is_cancelled (broken (codes "timeout")) (err (codes "refused")) get_alerts
unfolding text_eq
serve-Alike_example =
    serve-Alike is_cancelled (broken (codes "disk full")) (broken (codes "timeout"))
      (err (codes "down")) (err (codes "refused")) get_alerts
      (record {
        snapshot = (tt, tt);
        endpoint = λ id. ((refl, refl), (refl, refl));
        transitions = λ id limit. (tt, tt);
        alerts = λ limit. (tt, tt);
      })
      (tt, tt)

-- Of a configured endpoint, and of another.
serve-endpoint_request_example :
    Answers
      (served thousandths unsorted is_cancelled pong
        (api_endpoint ∷ db_endpoint ∷ [])
        options
        visits
        (at 80)
        (endpoint_request api))
      200
      (ShowsLatest thousandths unsorted is_cancelled pong
        (api_endpoint ∷ db_endpoint ∷ [])
        options
        visits
        (at 80)
        api)
unfolding text_eq
serve-endpoint_request_example =
    serve-endpoint_request thousandths unsorted is_cancelled pong (api_endpoint ∷ db_endpoint ∷ [])
      options visits (at 80) b'a' (codes "pi") refl

abbrev alerts_response : Response ℕ
alerts_response = record failure_response {
  status = 200;
  body = alerts_json (alerts unsorted monitored.repo 1);
}

serve-IsShort_example : listed alerts_response.body ≤ 500
unfolding serve dispatch add_headers set_all route text_eq insert write_json parse_limit atoi number
    lookup
serve-IsShort_example =
    serve-IsShort thousandths unsorted is_cancelled pong monitored (at 80) get_alerts
      alerts_response refl
