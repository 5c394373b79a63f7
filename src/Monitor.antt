-- ===== src/Monitor.antt =====
-- internal/monitor/service.go: the service that checks the endpoints and reports on them.
pub mod Types
pub mod Perform
pub mod Snapshot
pub mod Running
pub mod Scheduler
