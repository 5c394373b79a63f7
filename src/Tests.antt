-- ===== src/Tests.antt =====
-- Each result of the library at concrete inputs, by part of the program.
mod Data
mod Resilience
mod Store
mod Monitor
mod Config
mod Scheduler
mod Concurrent
mod Running
mod Checker
mod Web
mod Telemetry
mod Postgres
mod Migrations
mod Commands
