-- ===== src/Lib.antt =====
-- Service Reliability Watchdog: a service that checks a list of endpoints, retries and breaks
-- circuits, stores every result, raises alerts on changes, and reports service-level objectives.
--
-- The parts, from the data inwards, with the file of each and the code that it models:
--   Domain      internal/domain/types.go: the data types (Types) and the SLO arithmetic (Slo).
--   Store       internal/store: the Repository interface as a record of operations over the stored
--               state (Types), its implementations in memory, memory.go (Memory), and in PostgreSQL,
--               postgres.go (Postgres, with OpenPostgres and Migrate in Postgres/Opening), what both
--               return of a result but for the ids (Outcome), and the dedupe key of the alerts (Key).
--   Resilience  internal/resilience: circuit.go (Circuit) and retry.go (Retry).
--   Checker     internal/checker/checker.go: Check with the HTTP, TCP and TLS checks, and what one
--               check asks of the network (Answers) and of a certificate (Tls); cloneTLSConfig
--               (Versions); SafeAddress and statusText, which the program does not call (Addresses).
--   Config      internal/config/config.go: the types, applyDefaults, the two Validate methods, Load,
--               Duration.UnmarshalYAML, DomainEndpoints and InMaintenance; also OptionsFromConfig of
--               the monitor.
--   Monitor     internal/monitor/service.go: Options, Observer and New (Types), perform (Perform), and
--               its calls at once (Perform/Concurrent), Run and worker (Scheduler), both together
--               (Running), Snapshot, Endpoint and addState (Snapshot).
--   Telemetry   internal/telemetry/metrics.go: the metrics as values by their labels.
--   Web         internal/web/server.go: the routes, the handlers and their responses, and parseLimit.
--   Commands    cmd/watchdog/main.go: run, openDatabaseWithRetry and databaseReadiness (Watchdog); the
--               exit status of cmd/healthcheck/main.go (Healthcheck); the handlers of
--               cmd/demo-target/main.go (DemoTarget); generate of cmd/certgen/main.go (Certgen).
--   Common      what they share: int64 arithmetic over a ℤ of native numbers, strings, Go maps as
--               association lists, time, results with an error, and the lemmas on lists.
--   Tests       a run of every result at concrete inputs.
--
-- How they interact. Run puts the endpoints that are due on a queue, from which workers take them; a
-- worker calls `perform`: the maintenance windows and the circuit breaker decide whether Retry runs
-- the checker, the breaker learns how it went, the observer is told, and the repository records the
-- result, which may store a transition and an alert. Snapshot asks the repository for the latest
-- results, counts and transitions, and the domain for the SLO. A method of Go that holds one mutex
-- throughout is one function from state to state; `perform` is a function of the service's state,
-- which holds the breaker, the repository and the calls of the observer so far, and a series of checks
-- is a list of calls, one after another. Run and its workers are a step relation (Monitor/Scheduler),
-- in which the goroutines interleave in any way: each endpoint of a tick is a step of its own, so
-- workers take jobs in between. Where several workers call `perform` at once, a call is a series of
-- actions, one for each mutex that it takes, and the actions of the calls interleave
-- (Monitor/Perform/Concurrent); Monitor/Running runs both relations together: a step of a worker that
-- enters perform begins a call, and the worker leaves when its call has ended. The observer is the
-- metrics (Telemetry), which read the service's calls; the web server asks the service and the
-- repository and turns what they return into responses (Web/Memory puts the three together).
-- RecordResult in PostgreSQL is one transaction: its statements are functions on the tables
-- (Store/Postgres), with the constraints of migrations/001_initial.sql, and the advisory lock makes
-- the transactions of one endpoint come one after another. Store/Postgres/Refinement runs both
-- repositories side by side.
--
-- Choices. A Go int, int64 or Duration is a ℤ, wrapped by `int64` where an operation can leave the
-- range: the breaker's count, the ids, the doubling of the backoff. Counters of the elements of a
-- slice cannot reach 2 ^ 63 and are numbers. A float64 is an element of a type `F` with operations
-- (Common/Float), with no law but what a theorem names. Loops recurse on their list or on a number
-- that bounds them: the rounds of Retry are retries + 1, which its for statement gives, and those of
-- the backoff are `attempt`. None runs out; those of
-- openDatabaseWithRetry are the failed ones that come before the last, which the timeout of its context
-- makes finite.
--
-- Parameters. The network as the checker sees it (`Network` of Checker/Answers), the URLs (`Urls` of
-- Checker/Addresses), the check and the select on the context in a retry (`World` of
-- Resilience/Retry), url.Parse and net.SplitHostPort (`Addresses` of Config/Validation), reading,
-- expanding and decoding the file (`Source` of Config/Load), the clock (the readings are arguments)
-- and sort.Slice. Of PostgreSQL, which statement or row fails and how a commit ends (`Faults`,
-- `Reading`), how it keeps a time and the text of its errors (`Sql`), how the calls of the pool end
-- (`Opening`), and the embedded files with what executing one does to the database (`Migrations`); of
-- the web server, the result of a ping and the test errors.Is(err, context.Canceled); of the
-- watchdog's run, how its calls end (`Calls` of Commands/Watchdog), and of the certificate
-- generator, its calls of crypto/rsa, crypto/x509 and the file system (`Calls` of Commands/Certgen).
--
-- Not modelled: a queue of size 0 that hands a job to a waiting worker, which applyDefaults rules out;
-- Ping and Close of PostgreSQL, which only call the pool; the HTML template and its functions, the
-- Prometheus client and its text, the logger; the flags, and the listeners of the demonstration target.
pub mod Common
pub mod Domain
pub mod Store
pub mod Resilience
pub mod Checker
pub mod Config
pub mod Monitor
pub mod Telemetry
pub mod Web
pub mod Commands
pub mod Tests
