-- ===== src/Web/Routes.antt =====
-- internal/web/server.go: the requests and the patterns of `routes`.
use service_reliability_watc.Common.{Option, none, some, List, [], ◌∷◌, if◌then◌else◌}
use service_reliability_watc.Common.Text.{Text, codes, text_eq}
use service_reliability_watc.Common.Assoc.{Assoc, lookup}

-- The path's segments after the first slash; the values of the query, by Get.
pub record Request : Type 0 where
  pub method : Text
  pub path : List Text
  pub query : Assoc Text

abbrev pub text_or_empty : Option Text → Text
text_or_empty none = []
text_or_empty (some t) = t

abbrev pub query_get : Request → Text → Text
query_get r key = text_or_empty (lookup key r.query)

-- The patterns of `routes`.
pub data Route : Type 0 where
  status_page live ready status_api transitions_api alerts_api metrics not_allowed : Route
  endpoint_api : Text → Route

-- The segment of a wildcard is not empty; "GET /" takes every path that is left.
abbrev wildcard : Text → Route
wildcard [] = status_page
wildcard (c ∷ t) = endpoint_api (c ∷ t)

single : Text → Route
single a = if text_eq a (codes "metrics") then metrics else status_page

double : Text → Text → Route
double a b =
    if text_eq a (codes "health")
    then if text_eq b (codes "live")
      then live
      else if text_eq b (codes "ready")
      then ready
      else status_page
    else status_page

triple : Text → Text → Text → Route
triple a b c =
    if text_eq a (codes "api")
    then if text_eq b (codes "v1")
      then if text_eq c (codes "status")
        then status_api
        else if text_eq c (codes "transitions")
        then transitions_api
        else if text_eq c (codes "alerts")
        then alerts_api
        else status_page
      else status_page
    else status_page

quadruple : Text → Text → Text → Text → Route
quadruple a b c d =
    if text_eq a (codes "api")
    then if text_eq b (codes "v1")
      then if text_eq c (codes "endpoints") then wildcard d else status_page
      else status_page
    else status_page

path_route : List Text → Route
path_route (a ∷ []) = single a
path_route (a ∷ b ∷ []) = double a b
path_route (a ∷ b ∷ c ∷ []) = triple a b c
path_route (a ∷ b ∷ c ∷ d ∷ []) = quadruple a b c d
path_route _ = status_page

-- How the mux matches the patterns on a path that is clean, as it makes every path by a redirect; a
-- pattern for GET also takes HEAD.
unfoldable pub route : Request → Route
unfolding path_route single double triple quadruple
route r =
    if text_eq r.method (codes "GET")
    then path_route r.path
    else if text_eq r.method (codes "HEAD")
    then path_route r.path
    else not_allowed
