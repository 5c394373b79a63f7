-- ===== src/Config/Defaults/Laws.antt =====
-- internal/config/config.go: applying the defaults twice.
use service_reliability_watc.Common.{◌≡◌, refl, false, List, [], ◌∷◌, map, arith}
use service_reliability_watc.Common.Float.{Float64}
use service_reliability_watc.Config.Types.{
  ServerConfig, DatabaseConfig, SchedulerConfig, AlertingConfig, EndpointConfig, Config,
}
use service_reliability_watc.Config.Defaults.{
  server_defaults, database_defaults, scheduler_defaults, alerting_defaults, endpoint_defaults,
  apply_defaults,
}

server_idem : (s : ServerConfig) → server_defaults (server_defaults s) ≡ server_defaults s
unfolding server_defaults
server_idem s = ground arith

database_idem : (d : DatabaseConfig) → database_defaults (database_defaults d) ≡ database_defaults d
unfolding database_defaults
database_idem d = ground arith

scheduler_idem :
    (s : SchedulerConfig) → scheduler_defaults (scheduler_defaults s) ≡ scheduler_defaults s
unfolding scheduler_defaults
scheduler_idem s = ground arith

alerting_idem : (a : AlertingConfig) → alerting_defaults (alerting_defaults a) ≡ alerting_defaults a
unfolding alerting_defaults
alerting_idem a = ground arith

module _ {F : Type 0} (fl : Float64 F) where
  endpoint_idem :
      fl.eq (fl.decimal 999 3) (fl.decimal 0 0) ≡ false
      → (e : EndpointConfig F)
      → endpoint_defaults fl (endpoint_defaults fl e) ≡ endpoint_defaults fl e
  unfolding endpoint_defaults
  endpoint_idem h e = ground arith

  endpoints_idem :
      fl.eq (fl.decimal 999 3) (fl.decimal 0 0) ≡ false
      → (es : List (EndpointConfig F))
      → map (endpoint_defaults fl) (map (endpoint_defaults fl) es) ≡ map (endpoint_defaults fl) es
  endpoints_idem h [] = refl
  endpoints_idem h (e ∷ es) = cc (endpoint_idem h e, endpoints_idem h es)

  -- Where the float 0.999 does not compare equal to 0, applying the defaults a second time changes
  -- nothing.
  pub apply_defaults_idem :
      fl.eq (fl.decimal 999 3) (fl.decimal 0 0) ≡ false
      → (c : Config F) → apply_defaults fl (apply_defaults fl c) ≡ apply_defaults fl c
  unfolding apply_defaults
  apply_defaults_idem h c = cc (
    server_idem c.server,
    database_idem c.database,
    scheduler_idem c.scheduler,
    alerting_idem c.alerting,
    endpoints_idem h c.endpoints,
  )
