-- ===== src/Commands/DemoTarget.antt =====
-- cmd/demo-target/main.go: the handlers over the shared mode. What the mux answers to a request that
-- matches no pattern is a parameter; the flags, the listeners and the logger are left out.
pub mod Modes
use service_reliability_watc.Common.{ℕ, Bool, not, ◌&&◌, ◌||◌, List, [], ◌∷◌, ◌++◌, if◌then◌else◌}
use service_reliability_watc.Common.Text.{Text, codes, text_eq}
use service_reliability_watc.Web.Routes.{Request, query_get}

-- What a handler writes: the JSON of {"mode": mode}, or a text.
pub data Body : Type 0 where
  mode_json : Text → Body
  text : Text → Body

-- A reply, and for how many seconds the handler sleeps before it.
pub record Reply : Type 0 where
  pub status : ℕ
  pub body : Body
  pub delay : ℕ

pub data Route : Type 0 where
  health control_get control_post unmatched : Route

-- A pattern for GET also takes HEAD.
is_get : Text → Bool
is_get method = text_eq method (codes "GET") || text_eq method (codes "HEAD")

-- The patterns of the mux.
unfoldable pub matched : Text → List Text → Route
unfolding is_get
matched method (a ∷ []) =
    if text_eq a (codes "health") && is_get method
    then health
    else if text_eq a (codes "control") && is_get method
    then control_get
    else if text_eq a (codes "control") && text_eq method (codes "POST")
    then control_post
    else unmatched
matched method _ = unmatched

abbrev pub route : Request → Route
route r = matched r.method r.path

-- The switch of GET /health.
unfoldable pub health_reply : Text → Reply
health_reply mode =
    if text_eq mode (codes "fail")
    then record { status = 503; body = text (codes "controlled failure"); delay = 0 }
    else if text_eq mode (codes "slow")
    then record { status = 200; body = text (codes "demo target healthy"); delay = 3 }
    else record { status = 200; body = text (codes "demo target healthy"); delay = 0 }

control_reply : Text → Reply
control_reply mode = record { status = 200; body = mode_json mode; delay = 0 }

bad_mode : Reply
bad_mode = record {
  status = 400;
  body = text (codes "mode must be healthy, fail, or slow");
  delay = 0;
}

-- POST /control: the mode that it leaves, and the reply.
unfoldable pub select_mode : Text → Text → Text × Reply
unfolding control_reply bad_mode
select_mode mode selected =
    if (not (text_eq selected (codes "healthy")) && not (text_eq selected (codes "fail")))
      && not (text_eq selected (codes "slow"))
    then (mode, bad_mode)
    else (selected, control_reply selected)

module _ (unmatched_reply : Request → Reply) where
  -- One request.
  unfoldable pub serve : Text → Request → Text × Reply
  unfolding control_reply
  serve mode r = elim (route r) [
    | health ↦ (mode, health_reply mode)
    | control_get ↦ (mode, control_reply mode)
    | control_post ↦ select_mode mode (query_get r (codes "mode"))
    | unmatched ↦ (mode, unmatched_reply r)
  ]

  -- Requests one after another, and the mode that they leave.
  unfoldable pub serve_all : Text → List Request → Text
  serve_all mode [] = mode
  serve_all mode (r ∷ rs) = serve_all (serve mode r).0 rs

-- `mode.Store("healthy")`.
abbrev pub first_mode : Text
first_mode = codes "healthy"
