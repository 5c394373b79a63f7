-- ===== src/Commands/Watchdog.antt =====
-- cmd/watchdog/main.go: run, as what it opens, starts and closes and the error that it returns. How the
-- calls end is a parameter; the logger and the two readings of the clock for deadlines are left out.
pub mod Cleanup
use service_reliability_watc.Common.{
  ℕ, zero, suc, Bool, true, false, not, ◌&&◌, Option, none, some, List, [], ◌∷◌, ◌++◌,
  if◌then◌else◌,
}
use service_reliability_watc.Common.Text.{Text, codes}
use service_reliability_watc.Common.Result.{Result, ok, err}
use service_reliability_watc.Telemetry.{Metrics, set_database_ready}

-- How the last round of openDatabaseWithRetry ends: OpenPostgres succeeds; or it fails, and the select
-- then finds the context done, with its error.
pub data LastRound : Type 0 where
  opened : LastRound
  deadline : Text → LastRound

-- openDatabaseWithRetry: in so many rounds, OpenPostgres fails and the select finds the ticker; the
-- timeout of the context, a minute, gives the loop a last round.
unfoldable pub open_with_retry : ℕ → LastRound → Result Text (Unit {0})
open_with_retry zero opened = ok tt
open_with_retry zero (deadline e) = err (codes "PostgreSQL startup deadline: " ++ e)
open_with_retry (suc rounds) end = open_with_retry rounds end

-- databaseReadiness: the pings of the rounds until the context is done.
unfoldable pub database_readiness : Metrics → List (Option Text) → Metrics
database_readiness m [] = m
database_readiness m (none ∷ pings) = database_readiness (set_database_ready m true) pings
database_readiness m (some e ∷ pings) = database_readiness (set_database_ready m false) pings

-- How the select of `run` ends: by a signal, or by the value from `errCh`.
pub data Ending : Type 0 where
  interrupted : Ending
  received : Option Text → Ending

-- How the calls of one run end.
pub record Calls : Type 0 where
  pub load : Option Text
  pub failed_rounds : ℕ
  pub last_round : LastRound
  pub migrate : Option Text
  pub new_server : Option Text
  pub ending : Ending
  pub shutdown : Option Text

pub data Action : Type 0 where
  opens_database migrates starts_service cancels_context shuts_down closes_database : Action

-- What run itself does, in order, and the error that it returns. `cancels_context` is the call of
-- `stop`: service.Run and its workers notice it at some later time, and run does not wait for them.
abbrev pub Run : Type 0
Run = List Action × Option Text

module _ (is_server_closed : Text → Bool) where
  -- The error that the select leaves in `err`.
  abbrev pub ending_error : Ending → Option Text
  ending_error interrupted = none
  ending_error (received none) = none
  ending_error (received (some e)) = if is_server_closed e then none else some e

  -- `shutdownErr != nil && err == nil`.
  abbrev pub first_error : Option Text → Option Text → Option Text
  first_error none shutdown = shutdown
  first_error (some e) shutdown = some e

  -- From telemetry.New on.
  unfoldable pub serving : Calls → Run
  serving c = elim c.new_server [
    | some e ↦ ([], some e)
    | none ↦ (
      starts_service ∷ cancels_context ∷ shuts_down ∷ [],
      first_error (ending_error c.ending) c.shutdown,
    )
  ]

  unfoldable pub migrating : Calls → Run
  unfolding serving
  migrating c = elim c.migrate [
    | some e ↦ (migrates ∷ [], some (codes "apply database migrations: " ++ e))
    | none ↦ let (actions, e) = serving c in (migrates ∷ actions, e)
  ]

  -- The deferred Close comes last, however the rest ends.
  unfoldable pub closing : Run → Run
  closing (actions, e) = (actions ++ closes_database ∷ [], e)

  unfoldable pub after_open : Calls → Result Text (Unit {0}) → Run
  unfolding migrating closing
  after_open c (err e) = ([], some e)
  after_open c (ok u) = let (actions, e) = closing (migrating c) in (opens_database ∷ actions, e)

  unfoldable pub run : Calls → Run
  unfolding after_open
  run c = elim c.load [
    | some e ↦ ([], some e)
    | none ↦ after_open c (open_with_retry c.failed_rounds c.last_round)
  ]
