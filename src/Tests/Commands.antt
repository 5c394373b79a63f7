-- ===== src/Tests/Commands.antt =====
-- cmd: a run of the watchdog that migrates and then cannot make its server, requests to the
-- demonstration target, and a certificate generator that cannot write its key.
use service_reliability_watc.Common.{
  Bool, ◌≡◌, ◌≢◌, ◌↔◌, refl, some, none, ◌==◌, ◌++◌, if◌then◌else◌, List, [], ◌∷◌,
}
use service_reliability_watc.Common.Text.{Text, codes, text_eq}
use service_reliability_watc.Common.Assoc.{lookup}
use service_reliability_watc.Web.Routes.{Request}
use service_reliability_watc.Commands.DemoTarget.{
  Reply, text, matched, select_mode, serve, serve_all, first_mode,
}
use service_reliability_watc.Commands.DemoTarget.Modes.{IsMode, IsLatest, demo_target_health}
use service_reliability_watc.Commands.Certgen
use service_reliability_watc.Commands.Certgen.{
  generate, prepared, write_all, files, ca_template, server_template,
}
use service_reliability_watc.Common.Int.{pos}
use service_reliability_watc.Common.Result.{ok, err}
use service_reliability_watc.Commands.Watchdog.{
  Calls, opened, interrupted, opens_database, migrates, closes_database, run, after_open, migrating,
  closing, serving, open_with_retry,
}

abbrev is_closed : Text → Bool
is_closed e = text_eq e (codes "http: Server closed")

abbrev calls : Calls
calls = record {
  load = none;
  failed_rounds = 2;
  last_round = opened;
  migrate = none;
  new_server = some (codes "parse status template");
  ending = interrupted;
  shutdown = none;
}

closes_again :
    run is_closed calls
    ≡ (opens_database ∷ migrates ∷ closes_database ∷ [], some (codes "parse status template"))
unfolding run after_open migrating closing serving open_with_retry
closes_again = refl

-- A mode that there is, one that there is not, and a read of the health.
abbrev control : Text → Request
control mode = record {
  method = codes "POST";
  path = codes "control" ∷ [];
  query = (codes "mode", mode) ∷ [];
}

abbrev health_request : Request
health_request = record { method = codes "GET"; path = codes "health" ∷ []; query = [] }

abbrev no_page : Request → Reply
no_page r = record { status = 404; body = text (codes "404 page not found"); delay = 0 }

abbrev requests : List Request
requests = control (codes "fail") ∷ control (codes "loud") ∷ health_request ∷ []

requests_fail : serve_all no_page first_mode requests ≡ codes "fail"
unfolding serve_all serve matched select_mode text_eq lookup
requests_fail = refl

abbrev health_response : Text → Reply
health_response m = (serve no_page m health_request).1

demo_target_health_example :
    (m : Text) × (serve_all no_page first_mode requests ≡ m)
    × IsMode m
    × IsLatest first_mode requests m
    × (((health_response m).status ≡ 503) ↔ (m ≡ codes "fail"))
    × (((health_response m).status ≡ 200) ↔ (m ≢ codes "fail"))
    × (((health_response m).delay ≡ 3) ↔ (m ≡ codes "slow"))
    × ((serve no_page m health_request).0 ≡ m)
demo_target_health_example = demo_target_health no_page requests health_request refl refl

-- The CA's key cannot be given away, which is let pass; then the server's key cannot be written.
abbrev generator : Certgen.Calls Text
generator = record {
  mkdir_all = λ path. none;
  now = pos 0;
  in_five_years = λ t. t;
  ca_key = ok (codes "ca");
  server_key = ok (codes "server");
  create_certificate = λ template parent subject signer. ok (template.common_name ++ signer);
  marshal_private_key = λ key. key;
  encode_pem = λ kind content. content;
  join = λ directory name. name;
  write_file = λ path content mode. if mode == 384 then some (codes "disk full") else none;
  chown = λ path owner. some (codes "not permitted");
  is_permission = λ e. text_eq e (codes "not permitted");
}

writes_no_key : generate generator (codes "/certs") 10001 ≡ (
  record { name = codes "ca.pem"; content = codes "Watchdog Demo CAca"; mode = 420 }
      ∷ record { name = codes "server.pem"; content = codes "demo-targetca"; mode = 420 }
      ∷ [],
  err (codes "disk full"),
)
unfolding generate prepared write_all files ca_template server_template text_eq
writes_no_key = refl
