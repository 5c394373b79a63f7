-- ===== src/Commands/Watchdog/Cleanup.antt =====
-- cmd/watchdog/main.go: when `run` returns no error, and what it does while the database is open.
use service_reliability_watc.Common.{◌≡◌, ◌↔◌, Bool, true, false, Option, none, some, List, [], ◌∷◌}
use service_reliability_watc.Common.Text.{Text}
use service_reliability_watc.Commands.Watchdog.{
  Action, opens_database, migrates, starts_service, cancels_context, shuts_down, closes_database,
  Calls, opened, ending_error,
}

-- Whether the database is open after the action, where the action may come then: it is opened only while
-- it is closed and closed only while it is open, and a migration and the start of the service need it.
abbrev pub after_action : Bool → Action → Option Bool
after_action false opens_database = some true
after_action true opens_database = none
after_action true closes_database = some false
after_action false closes_database = none
after_action false migrates = none
after_action true migrates = some true
after_action false starts_service = none
after_action true starts_service = some true
after_action is_open cancels_context = some is_open
after_action is_open shuts_down = some is_open

abbrev pub replay : Bool → List Action → Option Bool
replay is_open [] = some is_open
replay is_open (a ∷ actions) = elim (after_action is_open a) [
  | none ↦ none
  | some next ↦ replay next actions
]

module _ (is_server_closed : Text → Bool) (c : Calls) where
  -- What a run without an error needs of its calls.
  abbrev pub Succeeds : Type 0
  Succeeds =
      (c.load ≡ none)
      × (c.last_round ≡ opened)
      × (c.migrate ≡ none)
      × (c.new_server ≡ none)
      × (ending_error is_server_closed c.ending ≡ none)
      × (c.shutdown ≡ none)

  -- The database is closed in the end, and `e` is no error exactly where the calls succeed.
  abbrev pub IsClean : List Action × Option Text → Type 0
  IsClean (actions, e) = (replay false actions ≡ some false) × ((e ≡ none) ↔ Succeeds)
